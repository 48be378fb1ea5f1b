-- ===== src/Ledger/Arguments.antt =====
-- Which arguments `init` accepts (casper/contract/src/main.rs, `init`).
use devxdao_m.Common.{
  ℕ, ◌≡◌, ◌↔◌, refl, sym, subst, ap, ◌∙◌, true, false, not, ◌&&◌, is_some, List, [], ◌∷◌, is_empty,
  arith,
}
use devxdao_m.Common.Text.{Text}
use devxdao_m.Runtime.{
  Host, Env, Arg, Try, success, Result, ok, ◌>>=◌, >>=-elim, ok-injective, revert_if,
  unwrap_or_revert,
}
use devxdao_m.Contract.Error.{NftCoreError, empty_contract_whitelist}
use devxdao_m.Contract.Modes.{
  minting_mode_as_u8, ownership_mode_as_u8, nft_kind_as_u8, NftHolderMode, holder_mode_as_u8,
  WhitelistMode, whitelist_mode_as_u8, NftMetadataKind, nft_metadata_kind_as_u8,
  identifier_mode_as_u8, metadata_mutability_as_u8,
}
use devxdao_m.Contract.State.{State}
use devxdao_m.Contract.Utils.Args.{get_required_arg}
use devxdao_m.Contract.Init.{InitArgs, is_locked, is_accounts, check_schema, init_args, init}
use devxdao_m.Contract.Install.{installed}
use devxdao_m.Ledger.Defs.{deployed}
use devxdao_m.Ledger.Init.{initial, init-installed, init-eq-ok}
use devxdao_m.Ledger.Modes
use devxdao_m.Ledger.Modes.{Decodes}
use devxdao_m.Ledger.Transfer.{get_required_arg-eq-ok}

-- A call passes the settings as its arguments, each mode by its discriminant; a locked contract whitelist
-- is empty in holder mode `Accounts` only; and a schema that will be used can be parsed.
pub record Provides (h : Host) (e : Env) (a : InitArgs) : Type 0 where
  pub collection_name : e.arg_text "collection_name" ≡ Arg.given a.collection_name
  pub collection_symbol : e.arg_text "collection_symbol" ≡ Arg.given a.collection_symbol
  pub total_token_supply : e.arg_u64 "total_token_supply" ≡ Arg.given a.total_token_supply
  pub allow_minting : e.arg_bool "allow_minting" ≡ Arg.given a.allow_minting
  pub minting_mode : e.arg_u8 "minting_mode" ≡ Arg.given (minting_mode_as_u8 a.minting_mode)
  pub ownership_mode : e.arg_u8 "ownership_mode" ≡ Arg.given (ownership_mode_as_u8 a.ownership_mode)
  pub nft_kind : e.arg_u8 "nft_kind" ≡ Arg.given (nft_kind_as_u8 a.nft_kind)
  pub holder_mode : e.arg_u8 "holder_mode" ≡ Arg.given (holder_mode_as_u8 a.holder_mode)
  pub whitelist_mode : e.arg_u8 "whitelist_mode" ≡ Arg.given (whitelist_mode_as_u8 a.whitelist_mode)
  pub contract_whitelist : e.arg_hashes "contract_whitelist" ≡ Arg.given a.contract_whitelist
  pub account_whitelist : e.arg_hashes "account_whitelist" ≡ Arg.given a.account_whitelist
  pub json_schema : e.arg_text "json_schema" ≡ Arg.given a.json_schema
  pub receipt_name : e.arg_text "receipt_name" ≡ Arg.given a.receipt_name
  pub nft_metadata_kind :
      e.arg_u8 "nft_metadata_kind" ≡ Arg.given (nft_metadata_kind_as_u8 a.nft_metadata_kind)
  pub identifier_mode :
      e.arg_u8 "identifier_mode" ≡ Arg.given (identifier_mode_as_u8 a.identifier_mode)
  pub metadata_mutability :
      e.arg_u8 "metadata_mutability" ≡ Arg.given (metadata_mutability_as_u8 a.metadata_mutability)
  pub lockable :
      a.whitelist_mode ≡ WhitelistMode.locked
      → a.contract_whitelist ≡ []
      → a.holder_mode ≡ NftHolderMode.accounts
  pub parseable :
      a.nft_metadata_kind ≡ NftMetadataKind.custom_validated
      → is_some (h.parse_schema a.json_schema) ≡ true

lockable_passes :
    (w : WhitelistMode) (l : List ℕ) (m : NftHolderMode)
    → (w ≡ WhitelistMode.locked → l ≡ [] → m ≡ NftHolderMode.accounts)
    → (is_locked w && is_empty l && not (is_accounts m)) ≡ false
lockable_passes WhitelistMode.unlocked l m k = refl
lockable_passes WhitelistMode.locked [] NftHolderMode.accounts k = refl
lockable_passes WhitelistMode.locked [] NftHolderMode.contracts k = ground (arith, k refl refl)
lockable_passes WhitelistMode.locked [] NftHolderMode.mixed k = ground (arith, k refl refl)
lockable_passes WhitelistMode.locked (x ∷ l) m k = refl

passes_lockable :
    (w : WhitelistMode) (l : List ℕ) (m : NftHolderMode) {u : Unit {0}}
    → revert_if (is_locked w && is_empty l && not (is_accounts m)) empty_contract_whitelist ≡ ok u
    → w ≡ WhitelistMode.locked
    → l ≡ []
    → m ≡ NftHolderMode.accounts
passes_lockable w l NftHolderMode.accounts p locked empty = refl
passes_lockable w l NftHolderMode.contracts p locked empty = ground (arith, rw (locked, empty) at p)
passes_lockable w l NftHolderMode.mixed p locked empty = ground (arith, rw (locked, empty) at p)

check_schema_passes :
    (h : Host) (k : NftMetadataKind) (schema : Text)
    → (k ≡ NftMetadataKind.custom_validated → is_some (h.parse_schema schema) ≡ true)
    → check_schema h k schema ≡ ok tt
unfolding check_schema
check_schema_passes h NftMetadataKind.cep78 schema p = refl
check_schema_passes h NftMetadataKind.nft721 schema p = refl
check_schema_passes h NftMetadataKind.raw schema p = refl
check_schema_passes h NftMetadataKind.custom_validated schema p = ground (arith, p refl)

check_schema-eq-ok :
    (h : Host) (k : NftMetadataKind) (schema : Text) {u : Unit {0}}
    → check_schema h k schema ≡ ok u
    → k ≡ NftMetadataKind.custom_validated
    → is_some (h.parse_schema schema) ≡ true
unfolding check_schema
check_schema-eq-ok h k schema p custom = ground (arith, rw custom at p)

Provides-init_args : (h : Host) (e : Env) (a : InitArgs) → Provides h e a → init_args h e ≡ ok a
unfolding init_args
Provides-init_args h e a p =
    rw
      (
        p.collection_name,
        p.collection_symbol,
        p.total_token_supply,
        p.allow_minting,
        p.minting_mode,
        Modes.minting_mode_try_from-as_u8 a.minting_mode,
        p.ownership_mode,
        Modes.ownership_mode_try_from-as_u8 a.ownership_mode,
        p.nft_kind,
        Modes.nft_kind_try_from-as_u8 a.nft_kind,
        p.holder_mode,
        Modes.holder_mode_try_from-as_u8 a.holder_mode,
        p.whitelist_mode,
        Modes.whitelist_mode_try_from-as_u8 a.whitelist_mode,
        p.contract_whitelist,
        p.account_whitelist,
        lockable_passes a.whitelist_mode a.contract_whitelist a.holder_mode p.lockable,
        p.json_schema,
        p.receipt_name,
        p.nft_metadata_kind,
        Modes.nft_metadata_kind_try_from-as_u8 a.nft_metadata_kind,
        check_schema_passes h a.nft_metadata_kind a.json_schema p.parseable,
        p.identifier_mode,
        Modes.identifier_mode_try_from-as_u8 a.identifier_mode,
        p.metadata_mutability,
        Modes.metadata_mutability_try_from-as_u8 a.metadata_mutability,
      )
      refl

-- An argument that `init` has fetched, and one that it has decoded as a mode.
fetched :
    {A B C : Type 0} (arg : Arg A) (missing invalid : NftCoreError) (rest : A → Result B) {b : B}
    → (get_required_arg arg missing invalid >>= rest) ≡ ok b
    → ((a : A) → arg ≡ Arg.given a → rest a ≡ ok b → C)
    → C
fetched arg missing invalid rest p k =
    >>=-elim (get_required_arg arg missing invalid) rest p
      λ a q r. k a (get_required_arg-eq-ok arg missing invalid q) r

decoded :
    {M B C : Type 0} (arg : Arg ℕ) (missing invalid : NftCoreError) {try_from : ℕ → Try M}
    {as_u8 : M → ℕ} (rest : M → Result B) {b : B}
    → Decodes try_from as_u8
    → (get_required_arg arg missing invalid >>= λ value. unwrap_or_revert (try_from value) >>= rest)
      ≡ ok b
    → ((m : M) → arg ≡ Arg.given (as_u8 m) → rest m ≡ ok b → C)
    → C
decoded arg missing invalid {try_from} rest d p k = fetched arg missing invalid _ p λ value given q.
    >>=-elim (unwrap_or_revert (try_from value)) rest q
      λ m r s. k m (given ∙ ap (λ v. Arg.given v) (d.1 value m (unwrapped (try_from value) r))) s
  where
    unwrapped : {M : Type 0} (t : Try M) {m : M} → unwrap_or_revert t ≡ ok m → t ≡ success m
    unwrapped t r = ground arith

init_args-Provides : (h : Host) (e : Env) {a : InitArgs} → init_args h e ≡ ok a → Provides h e a
unfolding init_args
init_args-Provides h e {a} p0 =
    fetched (e.arg_text "collection_name") _ _ _ p0 λ name name_given p1.
      fetched (e.arg_text "collection_symbol") _ _ _ p1 λ symbol symbol_given p2.
        fetched (e.arg_u64 "total_token_supply") _ _ _ p2 λ supply supply_given p3.
          fetched (e.arg_bool "allow_minting") _ _ _ p3 λ allow allow_given p4.
            decoded (e.arg_u8 "minting_mode") _ _ _ Modes.minting_mode_Decodes p4
              λ minting minting_given p5.
                decoded (e.arg_u8 "ownership_mode") _ _ _ Modes.ownership_mode_Decodes p5
                  λ ownership ownership_given p6.
                    decoded (e.arg_u8 "nft_kind") _ _ _ Modes.nft_kind_Decodes p6
                      λ kind kind_given p7.
                        decoded (e.arg_u8 "holder_mode") _ _ _ Modes.holder_mode_Decodes p7
                          λ holder holder_given p8.
                            decoded (e.arg_u8 "whitelist_mode") _ _ _ Modes.whitelist_mode_Decodes
                              p8
                              λ whitelist whitelist_given p9.
                                fetched (e.arg_hashes "contract_whitelist") _ _ _ p9
                                  λ contracts contracts_given p10.
                                    fetched (e.arg_hashes "account_whitelist") _ _ _ p10
                                      λ accounts accounts_given p11.
                                        >>=-elim
                                          (revert_if
                                            (is_locked whitelist
                                              && is_empty contracts
                                              && not (is_accounts holder))
                                            empty_contract_whitelist)
                                          _ p11
                                          λ u passed p12.
                                            fetched (e.arg_text "json_schema") _ _ _ p12
                                              λ schema schema_given p13.
                                                fetched (e.arg_text "receipt_name") _ _ _ p13
                                                  λ receipt receipt_given p14.
                                                    decoded (e.arg_u8 "nft_metadata_kind") _ _ _
                                                      Modes.nft_metadata_kind_Decodes p14
                                                      λ metadata metadata_given p15.
                                                        >>=-elim (check_schema h metadata schema) _
                                                          p15
                                                          λ u' checked p16.
                                                            decoded (e.arg_u8 "identifier_mode") _ _
                                                            _ Modes.identifier_mode_Decodes p16
                                                            λ identifier identifier_given p17.
                                                            decoded (e.arg_u8 "metadata_mutability")
                                                            _ _ _ Modes.metadata_mutability_Decodes
                                                            p17
                                                            λ mutability mutability_given p18.
                                                            subst (Provides h e) (ok-injective p18)
                                                            (record {
                                                            collection_name = name_given;
                                                            collection_symbol = symbol_given;
                                                            total_token_supply = supply_given;
                                                            allow_minting = allow_given;
                                                            minting_mode = minting_given;
                                                            ownership_mode = ownership_given;
                                                            nft_kind = kind_given;
                                                            holder_mode = holder_given;
                                                            whitelist_mode = whitelist_given;
                                                            contract_whitelist = contracts_given;
                                                            account_whitelist = accounts_given;
                                                            json_schema = schema_given;
                                                            receipt_name = receipt_given;
                                                            nft_metadata_kind = metadata_given;
                                                            identifier_mode = identifier_given;
                                                            metadata_mutability = mutability_given;
                                                            lockable =
                                                            passes_lockable whitelist contracts
                                                            holder passed;
                                                            parseable =
                                                            check_schema-eq-ok h metadata schema
                                                            checked;
                                                            })

-- On a freshly installed contract `init` succeeds exactly for the calls that pass settings as its
-- arguments, each mode by its discriminant, where a locked contract whitelist may be empty in holder mode
-- `Accounts` only and the schema can be parsed if metadata of kind `CustomValidated` is chosen; and the
-- instance then holds exactly these settings, with no token minted and every dictionary empty.
pub init-Provides :
    (h : Host) (e : Env) (account : ℕ) (s : State)
    → (init h e (installed account) ≡ ok s)
      ↔ ((a : InitArgs) × Provides h e a × (s ≡ deployed (initial account a)))
init-Provides h e account s = (
  λ p.
      let (a, decoded_args, result) = init-eq-ok h e account p in
      (a, init_args-Provides h e decoded_args, result),
  λ q.
      let (a, provides, result) = q in
      init-installed h e account a (Provides-init_args h e a provides) ∙ ap ok (sym result),
)
