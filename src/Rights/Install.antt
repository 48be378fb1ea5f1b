-- ===== src/Rights/Install.antt =====
-- Installations (casper/contract/src/main.rs, `call`).
use devxdao_m.Common.{ℕ, ◌≡◌, ◌≢◌, sym, ap, ◌∙◌, false, ◌&&◌, not, is_empty, ◌==◌, arith}
use devxdao_m.Common.Text.{Text, text_eq}
use devxdao_m.Runtime.{
  Host, Env, ok, >>=-elim, ok-injective, ok_unique, revert_if, revert_if-eq-ok, unwrap_or_revert,
}
use devxdao_m.Contract.Error.{empty_contract_whitelist, invalid_metadata_mutability}
use devxdao_m.Contract.Modes.{
  NftIdentifierMode, MetadataMutability, minting_mode_try_from, ownership_mode_try_from,
  nft_kind_try_from, holder_mode_try_from, whitelist_mode_try_from, nft_metadata_kind_try_from,
  identifier_mode_try_from, metadata_mutability_try_from,
}
use devxdao_m.Contract.State.{State}
use devxdao_m.Contract.Init.{InitArgs, init_args, check_schema, is_locked, is_accounts}
use devxdao_m.Contract.Install.{
  InstallArgs, install_args, init_runtime_args, receipt_name_of, install,
}
use devxdao_m.Contract.Query.{set_token_metadata}
use devxdao_m.Ledger.Defs.{Ledger, deployed}
use devxdao_m.Ledger.Init.{initial, init-eq-ok}
use devxdao_m.Contract.Utils.Reads.{get_identifier_mode}
use devxdao_m.Ledger.Reads.{get_identifier_mode-deployed}
use devxdao_m.Ledger.Describe.{set_token_metadata-Describes}
use devxdao_m.History.Steps.{Reach}
use devxdao_m.History.Config.{Config, Reach-Continues}

decoded :
    (h : Host) (e : Env) (contract_hash : ℕ) (receipt : Text) (i : InstallArgs) {a : InitArgs}
    → init_args h (init_runtime_args e contract_hash receipt i) ≡ ok a
    → (unwrap_or_revert (identifier_mode_try_from i.identifier_mode) ≡ ok a.identifier_mode)
      × (unwrap_or_revert (metadata_mutability_try_from i.metadata_mutability)
          ≡ ok a.metadata_mutability)
unfolding init_args text_eq
decoded h e contract_hash receipt i p0 =
    >>=-elim (unwrap_or_revert (minting_mode_try_from i.minting_mode)) _ p0 λ x1 q1 p1.
      >>=-elim (unwrap_or_revert (ownership_mode_try_from i.ownership_mode)) _ p1 λ x2 q2 p2.
        >>=-elim (unwrap_or_revert (nft_kind_try_from i.nft_kind)) _ p2 λ x3 q3 p3.
          >>=-elim (unwrap_or_revert (holder_mode_try_from i.holder_mode)) _ p3 λ x4 q4 p4.
            >>=-elim (unwrap_or_revert (whitelist_mode_try_from i.whitelist_lock)) _ p4 λ x5 q5 p5.
              >>=-elim
                (revert_if (is_locked x5 && is_empty i.contract_white_list && not (is_accounts x4))
                  empty_contract_whitelist)
                _ p5
                λ x6 q6 p6.
                  >>=-elim (unwrap_or_revert (nft_metadata_kind_try_from i.nft_metadata_kind)) _ p6
                    λ x7 q7 p7. >>=-elim (check_schema h x7 i.json_schema) _ p7 λ x8 q8 p8.
                      >>=-elim (unwrap_or_revert (identifier_mode_try_from i.identifier_mode)) _ p8
                        λ x9 q9 p9.
                          >>=-elim
                            (unwrap_or_revert (metadata_mutability_try_from i.metadata_mutability))
                            _ p9
                            λ x10 q10 p10.
                              let same = ok-injective p10 in
                              (
                                q9 ∙ ap (λ (a : InitArgs). ok a.identifier_mode) same,
                                q10 ∙ ap (λ (a : InitArgs). ok a.metadata_mutability) same,
                              )

-- The session's test on the two numbers, on the modes that they stand for.
not_both :
    (i m : ℕ) {mode : NftIdentifierMode} {mutability : MetadataMutability}
    → (i == 1 && m == 1) ≡ false
    → unwrap_or_revert (identifier_mode_try_from i) ≡ ok mode
    → unwrap_or_revert (metadata_mutability_try_from m) ≡ ok mutability
    → mode ≡ NftIdentifierMode.hash
    → mutability ≢ MetadataMutability.mutable
unfolding identifier_mode_try_from metadata_mutability_try_from
not_both i m differ p q is_hash is_mutable = ground arith

-- An installation that succeeds leaves a fresh instance whose installer is the caller, and which is not
-- at once in hash mode and mutable.
pub install-Installs :
    (h : Host) (e : Env) (contract_hash : ℕ) (package_hash : Text) {s : State}
    → install h e contract_hash package_hash ≡ ok s
    → (a : InitArgs) × (s ≡ deployed (initial e.caller a))
      × (a.identifier_mode ≡ NftIdentifierMode.hash
          → a.metadata_mutability ≢ MetadataMutability.mutable)
unfolding install
install-Installs h e contract_hash package_hash p0 = >>=-elim (install_args e) _ p0 λ i q1 p1.
    >>=-elim
      (revert_if (i.identifier_mode == 1 && i.metadata_mutability == 1) invalid_metadata_mutability)
      _ p1
      λ u q2 p2.
        let receipt = receipt_name_of i.collection_name package_hash in
        let (a, args, result) =
          init-eq-ok h (init_runtime_args e contract_hash receipt i) e.caller p2 in
        let (mode, mutability) = decoded h e contract_hash receipt i args in
        let differ =
          revert_if-eq-ok (i.identifier_mode == 1 && i.metadata_mutability == 1)
            invalid_metadata_mutability q2 in
        (a, result, not_both i.identifier_mode i.metadata_mutability differ mode mutability)

-- On an instance that an installation has left in hash mode, `set_token_metadata` never succeeds,
-- whatever calls are made before it.
pub hash_mode_immutable :
    (h : Host) (e e' : Env) (contract_hash : ℕ) (package_hash : Text) {s s' s'' : State}
    → install h e contract_hash package_hash ≡ ok s
    → get_identifier_mode s ≡ ok NftIdentifierMode.hash
    → Reach h s s'
    → set_token_metadata h e' s' ≢ ok s''
hash_mode_immutable h e e' contract_hash package_hash {s} {s'} {s''} p is_hash r q =
    let (a, result, exclusive) = install-Installs h e contract_hash package_hash p in
    let d : Ledger = initial e.caller a in
    let (b, at, f) = Reach-Continues h d (rw result at r) in
    let changed = set_token_metadata-Describes h e' b (rw at at q) in
    let hashed =
      ok_unique (get_identifier_mode (deployed d)) (get_identifier_mode-deployed d)
        (rw result at is_hash) in
    exclusive hashed
      (sym (ap (λ (c : Config). c.metadata_mutability) f.same_config) ∙ changed.mutable)
