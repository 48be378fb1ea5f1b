-- ===== src/Rights/Plan.antt =====
-- The checks of `transfer` (casper/contract/src/main.rs), from what they ask for to their passing.
use devxdao_m.Common.{◌≡◌, ◌≢◌, sym, ap, none, some, arith}
use devxdao_m.Runtime.{Key, key_eq_refl, Env, ok}
use devxdao_m.Contract.Modes.{OwnershipMode, NftHolderMode, NftIdentifierMode}
use devxdao_m.Contract.Utils.Caller.{get_verified_caller}
use devxdao_m.Contract.Utils.Tokens.{TokenIdentifier, get_dictionary_item_key}
use devxdao_m.Contract.Counts.{require_transferable, require_unburnt}
use devxdao_m.Contract.Transfer.{
  TransferPlan, plan_transfer, token_owner, check_rights, check_rights_in,
}
use devxdao_m.Ledger.Defs.{Ledger, deployed}
use devxdao_m.Ledger.Reads.{
  get_ownership_mode-deployed, get_holder_mode-deployed, get_identifier_mode-deployed,
}
use devxdao_m.Ledger.Transfer.{Plans}

module _ (d : Ledger) where
  require_transferable-deployed :
      d.ownership_mode ≡ OwnershipMode.transferable → require_transferable (deployed d) ≡ ok tt
  unfolding require_transferable
  require_transferable-deployed o = rw (get_ownership_mode-deployed d) (ground arith)

  pub require_unburnt-deployed :
      (t : TokenIdentifier)
      → d.burnt_tokens (get_dictionary_item_key t) ≡ none
      → require_unburnt (deployed d) t ≡ ok tt
  unfolding require_unburnt
  require_unburnt-deployed t u = ground arith

  token_owner-deployed :
      (t : TokenIdentifier) {owner : Key}
      → d.token_owners (get_dictionary_item_key t) ≡ some owner
      → token_owner (deployed d) t ≡ ok owner
  unfolding token_owner
  token_owner-deployed t o = ground arith

-- The checks that a plan records pass.
pub plan_transfer_complete :
    (e : Env) (d : Ledger) (p : TransferPlan) → Plans e d p → plan_transfer e (deployed d) ≡ ok p
unfolding plan_transfer
plan_transfer_complete e d p a =
    rw
      (
        require_transferable-deployed d a.transferable,
        get_holder_mode-deployed d,
        get_identifier_mode-deployed d,
        a.named,
      )
      (rw
        (
          require_unburnt-deployed d p.token_identifier a.unburnt,
          token_owner-deployed d p.token_identifier a.owned_by,
          a.source_given,
        )
        (rw (key_eq_refl p.from_token_owner_key)
          (rw (a.rights, a.target_given) (rw a.whitelisted (same_plan a.mode)))))
  where
    same_plan :
        {m : NftIdentifierMode}
        → p.identifier_mode ≡ m
        → ok (record p { identifier_mode = m }) ≡ ok p
    same_plan m = ap (λ k. ok (record p { identifier_mode = k })) (sym m)

-- Outside holder mode `Accounts` the check on the caller passes for every caller.
pub check_rights_open :
    (e : Env) (d : Ledger) (t : TokenIdentifier) (owner : Key) {caller : Key}
    → d.holder_mode ≢ NftHolderMode.accounts
    → get_verified_caller e (deployed d) ≡ ok caller
    → check_rights e (deployed d) d.holder_mode t owner ≡ ok tt
unfolding check_rights check_rights_in
check_rights_open e d t owner open_mode by = rw by (ground (arith, open_mode))
