-- ===== src/Owned/Transfer.antt =====
-- Transferring and the lists of owned tokens (casper/contract/src/main.rs, `transfer`).
use devxdao_m.Common.{
  ℕ, ◌≡◌, sym, ap, ◌∙◌, subst, Bool, false, some, List, arith, ◌==◌, ==_refl, if◌then◌else◌,
}
use devxdao_m.Common.Text.{Text, text_eq, text_eq_refl}
use devxdao_m.Common.Decimal.{to_string}
use devxdao_m.Runtime.{Key, Host, Env, dictionary_put, stored_dict, ok, ok_unique, >>=-elim}
use devxdao_m.Contract.Modes.{NftIdentifierMode}
use devxdao_m.Contract.State.{State, OwnedTokens}
use devxdao_m.Contract.Utils.Tokens.{TokenIdentifier, get_owned_tokens_dictionary_item_key}
use devxdao_m.Contract.Transfer.{
  TransferReceipt, remove_owned_token, receive_owned_token, plan_transfer, transfer,
}
use devxdao_m.Ledger.Defs.{Ledger, deployed}
use devxdao_m.Ledger.Transfer.{
  Plans, plan_transfer-Plans, Executes, execute_transfer-Executes, transferred,
}
use devxdao_m.Balances.Defs.{IsConsistent, owner_has_item_key}
use devxdao_m.Balances.Moves.{has_item_key_lem}
use devxdao_m.Balances.Burn.{ordinal_token}
use devxdao_m.Balances.Transfer.{transferred-IsConsistent}
use devxdao_m.Owned.Defs.{is_held, IsListed, StaysListed}
use devxdao_m.Owned.Moves.{AllLists, DiffersAt, joins, leaves}
use devxdao_m.Owned.Mint.{held_elsewhere, held_there, stored_dict-injective}

-- The tests while token `i` is in nobody's list, and when it has its new owner.
abbrev held_between : Host → Ledger → ℕ → Text → ℕ → Bool
held_between h d i k j = if j == i then false else is_held h d k j

abbrev pub held_after_transfer : Host → Ledger → ℕ → Key → Text → ℕ → Bool
held_after_transfer h d i target k j =
    owner_has_item_key h k (dictionary_put d.token_owners (to_string i) target (to_string j))

module _ (h : Host) (d : Ledger) (i : ℕ) (from target : Key) (from_item target_item : Text) where
  owner_test :
      (k : Text)
      → d.token_owners (to_string i) ≡ some from
      → get_owned_tokens_dictionary_item_key h from ≡ ok from_item
      → is_held h d k i ≡ text_eq from_item k
  owner_test k owned keyed = ap (owner_has_item_key h k) owned ∙ has_item_key_lem h from k keyed

  leaving_DiffersAt :
      d.token_owners (to_string i) ≡ some from
      → get_owned_tokens_dictionary_item_key h from ≡ ok from_item
      → DiffersAt from_item i (is_held h d) (held_between h d i)
  leaving_DiffersAt owned keyed =
      (λ k j ne. ground arith, λ k elsewhere. ground (arith, ==_refl i, owner_test k owned keyed))

  joining_DiffersAt :
      get_owned_tokens_dictionary_item_key h target ≡ ok target_item
      → DiffersAt target_item i (held_between h d i) (held_after_transfer h d i target)
  joining_DiffersAt keyed = (
    λ k j ne. ground (arith, held_elsewhere h d.token_owners i target k j ne),
    λ k elsewhere. ground (arith, ==_refl i, held_there h d.token_owners i target k keyed),
  )

  -- The two updates of the lists succeed, and the lists agree with the new owner.
  pub transfer_lists :
      IsListed h d
      → d.token_owners (to_string i) ≡ some from
      → get_owned_tokens_dictionary_item_key h from ≡ ok from_item
      → get_owned_tokens_dictionary_item_key h target ≡ ok target_item
      → (v : List ℕ) × (w : List ℕ) × (remove_owned_token NftIdentifierMode.ordinal
            (stored_dict d.owned_tokens)
            from_item
            (TokenIdentifier.index i)
          ≡ ok (stored_dict (dictionary_put d.owned_tokens from_item (OwnedTokens.indices v))))
        × (receive_owned_token NftIdentifierMode.ordinal
              (stored_dict (dictionary_put d.owned_tokens from_item (OwnedTokens.indices v)))
              target_item
              (TokenIdentifier.index i)
            ≡ ok (
                stored_dict (
                  dictionary_put
                    (dictionary_put d.owned_tokens from_item (OwnedTokens.indices v))
                    target_item
                    (OwnedTokens.indices w))))
        × AllLists
            (dictionary_put
              (dictionary_put d.owned_tokens from_item (OwnedTokens.indices v))
              target_item
              (OwnedTokens.indices w))
            (held_after_transfer h d i target)
  transfer_lists listed owned keyed_from keyed_target =
      let (v, removed, between) =
        leaves d.owned_tokens from_item i (is_held h d) (held_between h d i) listed
          (leaving_DiffersAt owned keyed_from)
          (owner_test from_item owned keyed_from ∙ text_eq_refl from_item)
          (ground (arith, ==_refl i)) in
      let (w, added, received, agree) =
        joins (dictionary_put d.owned_tokens from_item (OwnedTokens.indices v)) target_item i
          (held_between h d i) (held_after_transfer h d i target) between
          (joining_DiffersAt keyed_target) (ground (arith, ==_refl i))
          (held_there h d.token_owners i target target_item keyed_target
            ∙ text_eq_refl target_item) in
      (v, w, removed, received, agree)

-- A transfer that succeeds keeps the lists in agreement with the owners, and the books consistent.
pub transfer-StaysListed :
    (h : Host) (e : Env) (d : Ledger) {s' : State} {r : TransferReceipt}
    → IsConsistent h d
    → IsListed h d
    → transfer h e (deployed d) ≡ ok (s', r)
    → StaysListed h s'
unfolding transfer
transfer-StaysListed h e d {s'} c listed p0 = >>=-elim (plan_transfer e (deployed d)) _ p0 λ p q p1.
    let a : Plans e d p = plan_transfer-Plans e d q in
    let x : Executes h d p s' = execute_transfer-Executes h d p p1 in
    let (i, index) = ordinal_token e d.identifier_mode c.ordinal a.named in
    let owned = rw index at a.owned_by in
    let (v, w, removed, received, agree) =
      transfer_lists h d i p.from_token_owner_key p.target_owner_key x.from_item x.target_item
        listed owned x.keyed_from x.keyed_target in
    let mode = a.mode ∙ c.ordinal in
    let same = stored_dict-injective (ok_unique _ (rw (mode, index) at x.taken) removed) in
    let same' = stored_dict-injective (ok_unique _ (rw (mode, index, same) at x.listed) received) in
    (
      transferred d (TokenIdentifier.index i) p.target_owner_key x.from_item x.target_item x.count
          x.removed x.received,
      rw index at x.result,
      (
        transferred-IsConsistent h d i p.target_owner_key x.removed x.received c owned
            (rw index at a.unburnt) x.keyed_from x.keyed_target x.counted,
        subst (λ lists. AllLists lists (held_after_transfer h d i p.target_owner_key))
            (sym (ap (λ l. dictionary_put l x.target_item x.received) same ∙ same')) agree,
      ),
    )
