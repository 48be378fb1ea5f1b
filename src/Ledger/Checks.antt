-- ===== src/Ledger/Checks.antt =====
-- What a check of casper/contract/src that passes says of an initialised instance.
use devxdao_m.Common.{◌≡◌, none, some, arith, inl, inr, Option-cases}
use devxdao_m.Runtime.{Key, key_eq→eq, Env, ok}
use devxdao_m.Contract.Utils.Caller.{enforce_only_contract_creator_can_invoke}
use devxdao_m.Contract.Utils.Tokens.{TokenIdentifier, get_dictionary_item_key}
use devxdao_m.Contract.Counts.{require_unburnt, require_transferable}
use devxdao_m.Contract.Burn.{require_owner}
use devxdao_m.Contract.Transfer.{token_owner}
use devxdao_m.Contract.Modes.{OwnershipMode}
use devxdao_m.Ledger.Defs.{Ledger, deployed}
use devxdao_m.Ledger.Reads.{get_ownership_mode-deployed}

module _ (d : Ledger) where
  pub enforce_only_contract_creator_can_invoke-eq-ok :
      (e : Env) {u : Unit {0}}
      → enforce_only_contract_creator_can_invoke e (deployed d) ≡ ok u
      → e.caller ≡ d.installer
  unfolding enforce_only_contract_creator_can_invoke
  enforce_only_contract_creator_can_invoke-eq-ok e h = ground arith

  pub require_unburnt-eq-ok :
      (t : TokenIdentifier) {u : Unit {0}}
      → require_unburnt (deployed d) t ≡ ok u
      → d.burnt_tokens (get_dictionary_item_key t) ≡ none
  unfolding require_unburnt
  require_unburnt-eq-ok t h = ground arith

  pub require_owner-eq-ok :
      (t : TokenIdentifier) (k : Key) {o : Key}
      → require_owner (deployed d) t k ≡ ok o
      → (o ≡ k) × (d.token_owners (get_dictionary_item_key t) ≡ some k)
  unfolding require_owner
  require_owner-eq-ok t k h = elim (Option-cases (d.token_owners (get_dictionary_item_key t))) [
    | inl none_there ↦ ground arith
    | inr (o, e) ↦ (ground (arith, key_eq→eq o k), ground (arith, key_eq→eq o k))
  ]

  pub token_owner-eq-ok :
      (t : TokenIdentifier) {o : Key}
      → token_owner (deployed d) t ≡ ok o
      → d.token_owners (get_dictionary_item_key t) ≡ some o
  unfolding token_owner
  token_owner-eq-ok t h = ground arith

  pub require_transferable-eq-ok :
      {u : Unit {0}}
      → require_transferable (deployed d) ≡ ok u
      → d.ownership_mode ≡ OwnershipMode.transferable
  unfolding require_transferable
  require_transferable-eq-ok h = ground (arith, get_ownership_mode-deployed d)
