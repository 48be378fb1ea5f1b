-- ===== src/History/Config.antt =====
-- The configuration, the marks of burnt tokens and the contract whitelist under sequences of calls
-- (casper/contract/src/main.rs).
use devxdao_m.Common.{ℕ, ◌≡◌, refl, ap, ◌∙◌, true, is_some, arith}
use devxdao_m.Common.Text.{Text}
use devxdao_m.Runtime.{Host, Dict, dictionary_put, >>=-elim}
use devxdao_m.Contract.Modes.{
  OwnershipMode, NftKind, MintingMode, NftHolderMode, WhitelistMode, NftMetadataKind,
  NftIdentifierMode, MetadataMutability,
}
use devxdao_m.Contract.State.{State}
use devxdao_m.Contract.Transfer.{plan_transfer, transfer}
use devxdao_m.Ledger.Defs.{Ledger, deployed}
use devxdao_m.Ledger.Init.{init-deployed}
use devxdao_m.Ledger.Admin.{
  set_variables-eq-ok, add_to_account_whitelist-eq-ok, remove_from_account_whitelist-eq-ok,
}
use devxdao_m.Ledger.Mint.{mint-Mints}
use devxdao_m.Ledger.Burn.{burn-Burns}
use devxdao_m.Ledger.Approve.{approve-Approves, set_approval_for_all-ApprovesAll}
use devxdao_m.Ledger.Transfer.{execute_transfer-Executes}
use devxdao_m.Ledger.Describe.{set_token_metadata-Describes}
use devxdao_m.History.Steps.{
  Step, Reach, initialises, sets_variables, adds, removes, mints, burns, approves, approves_all,
  transfers, describes, here, next,
}

-- The values that `init` stores and that no entry point may change.
pub record Config : Type 0 where
  pub installer : ℕ
  pub collection_name : Text
  pub collection_symbol : Text
  pub total_token_supply : ℕ
  pub ownership_mode : OwnershipMode
  pub nft_kind : NftKind
  pub json_schema : Text
  pub minting_mode : MintingMode
  pub holder_mode : NftHolderMode
  pub whitelist_mode : WhitelistMode
  pub receipt_name : Text
  pub nft_metadata_kind : NftMetadataKind
  pub identifier_mode : NftIdentifierMode
  pub metadata_mutability : MetadataMutability

abbrev pub config : Ledger → Config
config d = record {
  installer = d.installer;
  collection_name = d.collection_name;
  collection_symbol = d.collection_symbol;
  total_token_supply = d.total_token_supply;
  ownership_mode = d.ownership_mode;
  nft_kind = d.nft_kind;
  json_schema = d.json_schema;
  minting_mode = d.minting_mode;
  holder_mode = d.holder_mode;
  whitelist_mode = d.whitelist_mode;
  receipt_name = d.receipt_name;
  nft_metadata_kind = d.nft_metadata_kind;
  identifier_mode = d.identifier_mode;
  metadata_mutability = d.metadata_mutability;
}

pub record Follows (d d' : Ledger) : Type 0 where
  pub same_config : config d' ≡ config d
  pub locked :
      d.whitelist_mode ≡ WhitelistMode.locked → d'.contract_whitelist ≡ d.contract_whitelist
  pub burnt_stays :
      (k : Text) → is_some (d.burnt_tokens k) ≡ true → is_some (d'.burnt_tokens k) ≡ true

Follows-refl : (d : Ledger) → Follows d d
Follows-refl d = record { same_config = refl; locked = λ l. refl; burnt_stays = λ k b. b }

Follows-trans : (a b c : Ledger) → Follows a b → Follows b c → Follows a c
Follows-trans a b c f g = record {
  same_config = g.same_config ∙ f.same_config;
  locked = λ l. g.locked (ap (λ (t : Config). t.whitelist_mode) f.same_config ∙ l) ∙ f.locked l;
  burnt_stays = λ k m. g.burnt_stays k (f.burnt_stays k m);
}

put-is_some :
    {A : Type 0} (d : Dict A) (k : Text) (v : A) (j : Text)
    → is_some (d j) ≡ true
    → is_some (dictionary_put d k v j) ≡ true
unfolding dictionary_put
put-is_some d k v j h = ground arith

-- What a state that follows on `d` looks like.
abbrev pub Continues : Ledger → State → Type 0
Continues d s' = (d' : Ledger) × (s' ≡ deployed d') × Follows d d'

step-Continues :
    (h : Host) (d : Ledger) {s s' : State} → Step h s s' → s ≡ deployed d → Continues d s'
unfolding transfer
step-Continues h d (initialises e p) at = ground (arith, init-deployed h e d, rw at at p)
step-Continues h d (sets_variables e p) at =
    let (b, l, by, locked, r) = set_variables-eq-ok e d (rw at at p) in
    (
      record d { allow_minting = b; contract_whitelist = l },
      r,
      record { same_config = refl; locked = locked; burnt_stays = λ k m. m },
    )
step-Continues h d (adds e p) at =
    let (a, by, g, r) = add_to_account_whitelist-eq-ok e d (rw at at p) in
    (_, r, record { same_config = refl; locked = λ l. refl; burnt_stays = λ k m. m })
step-Continues h d (removes e p) at =
    let (a, i, by, g, f, r) = remove_from_account_whitelist-eq-ok e d (rw at at p) in
    (_, r, record { same_config = refl; locked = λ l. refl; burnt_stays = λ k m. m })
step-Continues h d (mints e p) at =
    let m = mint-Mints h e d (rw at at p) in
    (_, m.result, record { same_config = refl; locked = λ l. refl; burnt_stays = λ k m. m })
step-Continues h d (burns e p) at =
    let b = burn-Burns h e d (rw at at p) in
    (
      _,
      b.result,
      record {
        same_config = refl;
        locked = λ l. refl;
        burnt_stays = put-is_some d.burnt_tokens _ tt;
      },
    )
step-Continues h d (approves e p) at =
    let a = approve-Approves e d (rw at at p) in
    (_, a.result, record { same_config = refl; locked = λ l. refl; burnt_stays = λ k m. m })
step-Continues h d (approves_all e p) at =
    let a = set_approval_for_all-ApprovesAll h e d (rw at at p) in
    (_, a.result, record { same_config = refl; locked = λ l. refl; burnt_stays = λ k m. m })
step-Continues h d (transfers e p) at =
    >>=-elim (plan_transfer e (deployed d)) _ (rw at at p) λ plan q p1.
      let x = execute_transfer-Executes h d plan p1 in
      (_, x.result, record { same_config = refl; locked = λ l. refl; burnt_stays = λ k m. m })
step-Continues h d (describes e p) at =
    let m = set_token_metadata-Describes h e d (rw at at p) in
    (_, m.result, record { same_config = refl; locked = λ l. refl; burnt_stays = λ k m. m })

-- Whatever calls are made on an initialised instance, it stays one with the same configuration; a
-- token once marked as burnt stays marked; and a locked contract whitelist stays as it is.
pub Reach-Continues : (h : Host) (d : Ledger) {s : State} → Reach h (deployed d) s → Continues d s
Reach-Continues h d here = (d, refl, Follows-refl d)
Reach-Continues h d (next r st) =
    let (b, at, f) = Reach-Continues h d r in
    let (c, at', g) = step-Continues h b st at in (c, at', Follows-trans d b c f g)
