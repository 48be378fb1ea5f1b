-- ===== src/Owned/Unapproved.antt =====
-- The operators (OPERATOR of casper/contract/src/main.rs) of an instance that numbers its tokens: no
-- entry stands under an index that is not minted.
use devxdao_m.Common.{ℕ, ◌≤◌, ◌<◌, ◌≡◌, ap, ◌∙◌, Option, none, some, arith, if◌then◌else◌}
use devxdao_m.Common.Decimal.{to_string}
use devxdao_m.Runtime.{Key, Host, Env, Dict, dictionary_put, ok, >>=-elim}
use devxdao_m.Contract.Modes.{NftIdentifierMode}
use devxdao_m.Contract.State.{State}
use devxdao_m.Contract.Utils.Tokens.{TokenIdentifier}
use devxdao_m.Contract.Approve.{check_index}
use devxdao_m.Contract.Transfer.{TransferReceipt, plan_transfer, transfer}
use devxdao_m.Ledger.Defs.{Ledger, deployed}
use devxdao_m.Ledger.Init.{init-deployed}
use devxdao_m.Ledger.Admin.{
  set_variables-eq-ok, add_to_account_whitelist-eq-ok, remove_from_account_whitelist-eq-ok,
}
use devxdao_m.Ledger.Mint.{Mints, mint-Mints}
use devxdao_m.Ledger.Burn.{burn-Burns}
use devxdao_m.Ledger.Approve.{
  Approves, approve-Approves, ApprovesAll, set_approval_for_all-ApprovesAll,
}
use devxdao_m.Ledger.Transfer.{Plans, plan_transfer-Plans, Executes, execute_transfer-Executes}
use devxdao_m.Ledger.Describe.{set_token_metadata-Describes}
use devxdao_m.Balances.Defs.{IsConsistent, owner_has_item_key, owned-lt}
use devxdao_m.Balances.Burn.{ordinal_token}
use devxdao_m.Balances.Moves.{put-to_string_ne}
use devxdao_m.History.Steps.{
  Step, initialises, sets_variables, adds, removes, mints, burns, approves, approves_all, transfers,
  describes,
}
use devxdao_m.History.Invariant.{Stays}
use devxdao_m.Owned.Defs.{IsKept}
use devxdao_m.Owned.Approvals.{operators_after_all}

-- A dictionary without an entry under the indices from `n` on.
abbrev pub EmptyFrom : ℕ → Dict (Option Key) → Type 0
EmptyFrom n operators = (i : ℕ) → n ≤ i → operators (to_string i) ≡ none

-- No index that is not minted has an entry among the operators.
abbrev pub Unapproved : Ledger → Type 0
Unapproved d = EmptyFrom d.number_of_minted_tokens d.operator

put-EmptyFrom :
    (n i : ℕ) (operators : Dict (Option Key)) (v : Option Key)
    → i < n
    → EmptyFrom n operators
    → EmptyFrom n (dictionary_put operators (to_string i) v)
put-EmptyFrom n i operators v lt u j from =
    put-to_string_ne operators i j v (λ e. absurd (omega (arith, lt, from, e))) ∙ u j from

check_index-lt :
    (i n : ℕ) → check_index NftIdentifierMode.ordinal (TokenIdentifier.index i) n ≡ ok tt → i < n
unfolding check_index
check_index-lt i n p = ground arith

approve-Unapproved :
    (h : Host) (e : Env) (d : Ledger) {s' : State}
    → IsConsistent h d
    → Unapproved d
    → Approves e d s'
    → Stays Unapproved s'
approve-Unapproved h e d c u a =
    let (i, index) = ordinal_token e d.identifier_mode c.ordinal a.named in
    (
      _,
      rw index at a.result,
      put-EmptyFrom d.number_of_minted_tokens i d.operator (some a.operator)
          (check_index-lt i d.number_of_minted_tokens (rw (index, c.ordinal) at a.in_bounds)) u,
    )

transfer-Unapproved :
    (h : Host) (e : Env) (d : Ledger) {s' : State} {r : TransferReceipt}
    → IsConsistent h d
    → Unapproved d
    → transfer h e (deployed d) ≡ ok (s', r)
    → Stays Unapproved s'
unfolding transfer
transfer-Unapproved h e d {s'} c u p0 = >>=-elim (plan_transfer e (deployed d)) _ p0 λ p q p1.
    let a : Plans e d p = plan_transfer-Plans e d q in
    let x : Executes h d p s' = execute_transfer-Executes h d p p1 in
    let (i, index) = ordinal_token e d.identifier_mode c.ordinal a.named in
    (
      _,
      rw index at x.result,
      put-EmptyFrom d.number_of_minted_tokens i d.operator none
          (owned-lt h d i c (rw index at a.owned_by)) u,
    )

mint-Unapproved :
    (h : Host) (e : Env) (d : Ledger) {s' : State}
    → IsConsistent h d
    → Unapproved d
    → Mints h e d s'
    → Stays Unapproved s'
mint-Unapproved h e d c u m =
    (_, m.result, λ i from. u i (omega (arith, from, m.supply_left, c.supply_fits)))

approve_all-Unapproved :
    (h : Host) (e : Env) (d : Ledger) {s' : State}
    → IsKept h d
    → Unapproved d
    → ApprovesAll h e d s'
    → Stays Unapproved s'
approve_all-Unapproved h e d kept u a =
    let v : Option Key = if a.approve_all then some a.operator else none in
    (
      _,
      a.result,
      λ i from.
          operators_after_all h e d v i kept a
          ∙ ap
              (λ owner.
                if owner_has_item_key h a.item_key owner then some v else d.operator (to_string i))
              (kept.0.unminted_owner i from)
          ∙ u i from,
    )

-- A call keeps the operators of the indices that are not minted empty.
pub step-Unapproved :
    (h : Host) (d : Ledger) {s s' : State}
    → IsKept h d
    → Unapproved d
    → Step h s s'
    → s ≡ deployed d
    → Stays Unapproved s'
step-Unapproved h d kept u (initialises e p) at = ground (arith, init-deployed h e d, rw at at p)
step-Unapproved h d kept u (sets_variables e p) at =
    let (b, l, by, locked, r) = set_variables-eq-ok e d (rw at at p) in (_, r, u)
step-Unapproved h d kept u (adds e p) at =
    let (a, by, given, r) = add_to_account_whitelist-eq-ok e d (rw at at p) in (_, r, u)
step-Unapproved h d kept u (removes e p) at =
    let (a, i, by, given, found, r) = remove_from_account_whitelist-eq-ok e d (rw at at p) in
    (_, r, u)
step-Unapproved h d kept u (mints e p) at =
    mint-Unapproved h e d kept.0 u (mint-Mints h e d (rw at at p))
step-Unapproved h d kept u (burns e p) at =
    let b = burn-Burns h e d (rw at at p) in (_, b.result, u)
step-Unapproved h d kept u (approves e p) at =
    approve-Unapproved h e d kept.0 u (approve-Approves e d (rw at at p))
step-Unapproved h d kept u (approves_all e p) at =
    approve_all-Unapproved h e d kept u (set_approval_for_all-ApprovesAll h e d (rw at at p))
step-Unapproved h d kept u (transfers e p) at = transfer-Unapproved h e d kept.0 u (rw at at p)
step-Unapproved h d kept u (describes e p) at =
    let m = set_token_metadata-Describes h e d (rw at at p) in (_, m.result, u)
