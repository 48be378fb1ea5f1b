-- ===== src/Owned/Granted.antt =====
-- The calls of casper/contract/src/main.rs and where the operators come from, in an instance that numbers
-- its tokens.
use devxdao_m.Common.{
  ℕ, ◌≡◌, ◌≢◌, refl, sym, ap, ◌∙◌, true, Option, none, some, arith, inl, inr, ◌==◌, ==_iff,
  Bool-cases, if◌then◌else◌,
}
use native.Mathlib.Decide.{dec_lt}
use devxdao_m.Common.Decimal.{to_string}
use devxdao_m.Runtime.{Key, Host, Env, dictionary_put, dictionary_put_self, ok, >>=-elim}
use devxdao_m.Contract.State.{State}
use devxdao_m.Contract.Utils.Tokens.{TokenIdentifier}
use devxdao_m.Contract.Approve.{approve, set_approval_for_all}
use devxdao_m.Contract.Transfer.{TransferReceipt, plan_transfer, transfer}
use devxdao_m.Ledger.Defs.{Ledger, deployed}
use devxdao_m.Ledger.Init.{init-deployed}
use devxdao_m.Ledger.Admin.{
  set_variables-eq-ok, add_to_account_whitelist-eq-ok, remove_from_account_whitelist-eq-ok,
}
use devxdao_m.Ledger.Mint.{Mints, mint-Mints}
use devxdao_m.Ledger.Burn.{burn-Burns}
use devxdao_m.Ledger.Approve.{
  Approves, approve-Approves, ApprovesAll, set_approval_for_all-ApprovesAll,
}
use devxdao_m.Ledger.Transfer.{Plans, plan_transfer-Plans, Executes, execute_transfer-Executes}
use devxdao_m.Ledger.Describe.{set_token_metadata-Describes}
use devxdao_m.Balances.Defs.{owner_has_item_key}
use devxdao_m.Balances.Burn.{ordinal_token}
use devxdao_m.Balances.Mint.{ordinal_new_token}
use devxdao_m.Balances.Moves.{put-to_string_ne}
use devxdao_m.History.Steps.{
  Step, Reach, initialises, sets_variables, adds, removes, mints, burns, approves, approves_all,
  transfers, describes, here,
}
use devxdao_m.Owned.Defs.{is_held, IsKept}
use devxdao_m.Owned.Approvals.{operators_after_all}
use devxdao_m.Owned.Unapproved.{Unapproved}
use devxdao_m.Owned.Grants.{
  index_given, approving, some_given, later, Grants, WasGranted, AllGranted, StaysGranted,
}

module _ (h : Host) (s : State) (d : Ledger) where
  module _ {s' : State} (kept : IsKept h d) (u : Unapproved d)
      (g : AllGranted h s (deployed d) d.token_owners d.operator) (r : Reach h s (deployed d)) where
    mint-StaysGranted : Step h (deployed d) s' → (e : Env) → Mints h e d s' → StaysGranted h s s'
    mint-StaysGranted st e m =
        let n : ℕ = d.number_of_minted_tokens in
        let index = ordinal_new_token e d.identifier_mode n kept.0.ordinal m.named in
        (
          _,
          rw index at m.result,
          λ i owner operator owned approved. elim (dec_lt i n) [
            | yes lt ↦ later st (
                g i owner operator
                  (sym (
                      put-to_string_ne d.token_owners n i m.owner
                        (λ same. absurd (omega (arith, same, lt))))
                    ∙ owned)
                  approved)
            | no ge ↦ absurd (ground (arith, u i (omega (arith, ge))))
          ],
        )

    approve-WasGranted :
        (e : Env) (i : ℕ) (owner operator : Key)
        → approve e (deployed d) ≡ ok s'
        → (a : Approves e d s') → a.token ≡ TokenIdentifier.index i
        → d.token_owners (to_string i) ≡ some owner
        → dictionary_put d.operator (to_string i) (some a.operator) (to_string i)
          ≡ some (some operator)
        → WasGranted h s i owner operator s'
    approve-WasGranted e i owner operator p a index owned approved =
        let same_owner : a.owner ≡ owner = ground (arith, rw index at a.owned) in
        let same_operator : a.operator ≡ operator =
          ground (arith, dictionary_put_self d.operator (to_string i) (some a.operator)) in
        record {
          call = e;
          before = d;
          after = s';
          reached = r;
          owned = owned;
          grants =
              Grants.by_approve
                (index_given e d.identifier_mode kept.0.ordinal (rw index at a.named))
                (rw same_owner at a.by_owner) (rw same_operator at a.operator_given) p;
          since = here;
        }

    approve-StaysGranted :
        Step h (deployed d) s' → (e : Env) → approve e (deployed d) ≡ ok s' → StaysGranted h s s'
    approve-StaysGranted st e p =
        let a : Approves e d s' = approve-Approves e d p in
        let (j, index) = ordinal_token e d.identifier_mode kept.0.ordinal a.named in
        (
          _,
          rw index at a.result,
          λ i owner operator owned approved. elim (Bool-cases (i == j)) [
            | inl here_it_is ↦
                let same = (==_iff i j).0 here_it_is in
                approve-WasGranted e i owner operator p a
                  (index ∙ ap (λ k. TokenIdentifier.index k) (sym same)) owned
                  (rw (← same) at approved)
            | inr elsewhere ↦ later st (
                g i owner operator owned (
                  sym (
                    put-to_string_ne d.operator j i (some a.operator)
                      (λ same. absurd (ground (arith, ==_iff i j))))
                  ∙ approved))
          ],
        )

    approve_all-WasGranted :
        (e : Env) (i : ℕ) (owner operator : Key)
        → set_approval_for_all h e (deployed d) ≡ ok s'
        → (a : ApprovesAll h e d s') → is_held h d a.item_key i ≡ true
        → d.token_owners (to_string i) ≡ some owner
        → (if a.approve_all then some a.operator else none) ≡ some operator
        → WasGranted h s i owner operator s'
    approve_all-WasGranted e i owner operator p a held owned approved =
        let (all, same) = approving a.approve_all a.operator operator approved in
        record {
          call = e;
          before = d;
          after = s';
          reached = r;
          owned = owned;
          grants =
              Grants.by_approve_all a.caller a.by a.keyed
                (ap (owner_has_item_key h a.item_key) (sym owned) ∙ held)
                (rw all at a.approve_all_given) (rw same at a.operator_given) p;
          since = here;
        }

    approve_all-StaysGranted :
        Step h (deployed d) s'
        → (e : Env) → set_approval_for_all h e (deployed d) ≡ ok s'
        → StaysGranted h s s'
    approve_all-StaysGranted st e p =
        let a : ApprovesAll h e d s' = set_approval_for_all-ApprovesAll h e d p in
        let v : Option Key = if a.approve_all then some a.operator else none in
        (
          _,
          a.result,
          λ i owner operator owned approved.
              let after = operators_after_all h e d v i kept a in
              elim (Bool-cases (is_held h d a.item_key i)) [
                | inl held ↦
                    approve_all-WasGranted e i owner operator p a held owned
                      (some_given v operator (rw held at (sym after ∙ approved)))
                | inr other ↦
                    later st (g i owner operator owned (rw other at (sym after ∙ approved)))
              ],
        )

    transfer-StaysGranted :
        {receipt : TransferReceipt}
        → Step h (deployed d) s'
        → (e : Env) → transfer h e (deployed d) ≡ ok (s', receipt)
        → StaysGranted h s s'
    unfolding transfer
    transfer-StaysGranted st e p0 = >>=-elim (plan_transfer e (deployed d)) _ p0 λ p q p1.
        let a : Plans e d p = plan_transfer-Plans e d q in
        let x : Executes h d p s' = execute_transfer-Executes h d p p1 in
        let (j, index) = ordinal_token e d.identifier_mode kept.0.ordinal a.named in
        (
          _,
          rw index at x.result,
          λ i owner operator owned approved. elim (Bool-cases (i == j)) [
            | inl here_it_is ↦ absurd (
                ground (
                  arith,
                  dictionary_put_self d.operator (to_string j) none,
                  rw ((==_iff i j).0 here_it_is) at approved,
                ))
            | inr elsewhere ↦
                let ne : i ≢ j = λ same. absurd (ground (arith, ==_iff i j)) in
                later st (
                  g i owner operator
                    (sym (put-to_string_ne d.token_owners j i p.target_owner_key ne) ∙ owned)
                    (sym (put-to_string_ne d.operator j i none ne) ∙ approved))
          ],
        )

    -- A step with which neither the owners nor the operators change.
    unchanged-StaysGranted :
        (d' : Ledger)
        → Step h (deployed d) s'
        → s' ≡ deployed d'
        → d'.token_owners ≡ d.token_owners
        → d'.operator ≡ d.operator
        → StaysGranted h s s'
    unchanged-StaysGranted d' st at owners operators = (
      d',
      at,
      λ i owner operator owned approved.
          later st (g i owner operator (rw owners at owned) (rw operators at approved)),
    )

    pub step-StaysGranted : Step h (deployed d) s' → StaysGranted h s s'
    step-StaysGranted (initialises e p) = ground (arith, init-deployed h e d)
    step-StaysGranted (sets_variables e p) =
        let (b, l, by, locked, result) = set_variables-eq-ok e d p in
        unchanged-StaysGranted _ (sets_variables e p) result refl refl
    step-StaysGranted (adds e p) =
        let (a, by, given, result) = add_to_account_whitelist-eq-ok e d p in
        unchanged-StaysGranted _ (adds e p) result refl refl
    step-StaysGranted (removes e p) =
        let (a, i, by, given, found, result) = remove_from_account_whitelist-eq-ok e d p in
        unchanged-StaysGranted _ (removes e p) result refl refl
    step-StaysGranted (mints e p) = mint-StaysGranted (mints e p) e (mint-Mints h e d p)
    step-StaysGranted (burns e p) =
        unchanged-StaysGranted _ (burns e p) (burn-Burns h e d p).result refl refl
    step-StaysGranted (approves e p) = approve-StaysGranted (approves e p) e p
    step-StaysGranted (approves_all e p) = approve_all-StaysGranted (approves_all e p) e p
    step-StaysGranted (transfers e p) = transfer-StaysGranted (transfers e p) e p
    step-StaysGranted (describes e p) =
        unchanged-StaysGranted _ (describes e p) (set_token_metadata-Describes h e d p).result refl
          refl
