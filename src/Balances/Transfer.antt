-- ===== src/Balances/Transfer.antt =====
-- The books and `transfer` (casper/contract/src/main.rs).
use devxdao_m.Common.{
  ℕ, suc, ◌+◌, ◌^◌, ◌<◌, ◌≡◌, ◌∙◌, refl, Option, none, some, unwrap_or, arith, inl, inr,
}
use native.Mathlib.Decide.{ℕ_discrete}
use devxdao_m.Common.Text.{Text, text_eq}
use devxdao_m.Common.Count.{count_below-le, bit}
use devxdao_m.Common.Decimal.{to_string}
use devxdao_m.Runtime.{Key, Host, Env, Dict, dictionary_put, dictionary_put_self, ok, >>=-elim}
use devxdao_m.Contract.State.{State, OwnedTokens}
use devxdao_m.Contract.Utils.Tokens.{TokenIdentifier, get_owned_tokens_dictionary_item_key}
use devxdao_m.Contract.Counts.{next_count}
use devxdao_m.Contract.Transfer.{TransferReceipt, plan_transfer, transfer}
use devxdao_m.Ledger.Defs.{Ledger, deployed}
use devxdao_m.Ledger.Transfer.{
  Plans, plan_transfer-Plans, Executes, execute_transfer-Executes, transferred,
}
use devxdao_m.Balances.Defs.{IsConsistent, StaysConsistent, holding, owned-lt, is_live}
use devxdao_m.Balances.Moves.{holding_reassign, put-to_string_ne}
use devxdao_m.Balances.Burn.{counts_at, ordinal_token}

next_count-unwrap_or :
    (o : Option ℕ) → unwrap_or o 0 + 1 < 2 ^ 64 → next_count o ≡ unwrap_or o 0 + 1
next_count-unwrap_or none h = refl
next_count-unwrap_or (some b) h = omega arith

-- The counts after the source has given one up.
given_up :
    (h : Host) (d : Ledger) (from_item k : Text) {count : ℕ}
    → IsConsistent h d
    → d.token_counts from_item ≡ some (suc count)
    → unwrap_or (dictionary_put d.token_counts from_item count k) 0 + bit (text_eq from_item k)
      ≡ holding h d k
given_up h d from_item k {count} c counted = elim (counts_at d.token_counts from_item k count) [
  | inl at_key ↦ ground (arith, c.balances k)
  | inr elsewhere ↦ ground (arith, c.balances k)
]

pub transferred-IsConsistent :
    (h : Host) (d : Ledger) (i : ℕ) {from : Key} (target : Key) {from_item target_item : Text}
    {count : ℕ} (removed received : OwnedTokens)
    → IsConsistent h d
    → d.token_owners (to_string i) ≡ some from
    → d.burnt_tokens (to_string i) ≡ none
    → get_owned_tokens_dictionary_item_key h from ≡ ok from_item
    → get_owned_tokens_dictionary_item_key h target ≡ ok target_item
    → d.token_counts from_item ≡ some (suc count)
    → IsConsistent h (
        transferred d (TokenIdentifier.index i) target from_item target_item count removed received)
transferred-IsConsistent h d i {from} target {from_item} {target_item} {count} removed received c
      owned unburnt keyed_from keyed_target counted =
    let lt = owned-lt h d i c owned in
    let n : ℕ = d.number_of_minted_tokens in
    let c1 : Dict ℕ = dictionary_put d.token_counts from_item count in
    record {
      ordinal = c.ordinal;
      supply_fits = c.supply_fits;
      within_supply = c.within_supply;
      unminted_owner = λ j ge.
          put-to_string_ne d.token_owners i j target (λ e. absurd (omega (arith, lt)))
          ∙ c.unminted_owner j ge;
      minted_owner = λ j l. elim (ℕ_discrete j i) [
        | yes same ↦
            rw same (ground (arith, dictionary_put_self d.token_owners (to_string i) target))
        | no other ↦ rw (put-to_string_ne d.token_owners i j target other) (c.minted_owner j l)
      ];
      unminted_burnt = c.unminted_burnt;
      balances = λ k.
          let moved =
            holding_reassign h d.token_owners d.burnt_tokens n i k target lt owned unburnt
              keyed_from keyed_target in
          let before = given_up h d from_item k c counted in
          let bound =
            count_below-le n
              (is_live h (dictionary_put d.token_owners (to_string i) target) d.burnt_tokens k) in
          elim (counts_at c1 target_item k (next_count (c1 target_item))) [
            | inl (here, same, written) ↦ rw written (
                rw same (
                  ground (
                    arith,
                    next_count-unwrap_or (c1 k),
                    moved,
                    before,
                    bound,
                    c.supply_fits,
                    c.within_supply,
                  )))
            | inr (there, kept) ↦ rw kept (ground (arith, moved, before))
          ];
    }

-- A transfer that succeeds keeps the books consistent: the token leaves the old owner's balance and
-- joins the new owner's, and no other balance changes.
pub transfer-IsConsistent :
    (h : Host) (e : Env) (d : Ledger) {s' : State} {r : TransferReceipt}
    → IsConsistent h d
    → transfer h e (deployed d) ≡ ok (s', r)
    → StaysConsistent h s'
unfolding transfer
transfer-IsConsistent h e d {s'} c p0 = >>=-elim (plan_transfer e (deployed d)) _ p0 λ p q p1.
    let a : Plans e d p = plan_transfer-Plans e d q in
    let x : Executes h d p s' = execute_transfer-Executes h d p p1 in
    let (i, index) = ordinal_token e d.identifier_mode c.ordinal a.named in
    (
      transferred d (TokenIdentifier.index i) p.target_owner_key x.from_item x.target_item x.count
          x.removed x.received,
      rw index at x.result,
      transferred-IsConsistent h d i p.target_owner_key x.removed x.received c
          (rw index at a.owned_by) (rw index at a.unburnt) x.keyed_from x.keyed_target x.counted,
    )
