-- ===== src/Owned/Rightful.antt =====
-- Whose transfers succeed (`transfer` of casper/contract/src/main.rs), from an installation on, in an
-- instance that numbers its tokens.
use devxdao_m.Common.{ℕ, ◌⊎◌, ◌^◌, ◌<◌, ◌≡◌, refl, sym, subst, ap, ◌∙◌, none, some, arith, inl, inr}
use devxdao_m.Common.Decimal.{to_string}
use devxdao_m.Runtime.{Key, Host, Env, Arg, ok, ok_unique}
use devxdao_m.Contract.Constants.{arg_token_id, arg_source_key}
use devxdao_m.Contract.Modes.{NftIdentifierMode, NftHolderMode}
use devxdao_m.Contract.State.{State}
use devxdao_m.Contract.Utils.Caller.{get_verified_caller}
use devxdao_m.Contract.Transfer.{TransferReceipt, transfer}
use devxdao_m.Ledger.Defs.{Ledger, deployed}
use devxdao_m.Ledger.Init.{initial, init-installed}
use devxdao_m.Balances.Burn.{ordinal_token}
use devxdao_m.History.Steps.{Reach, here, next}
use devxdao_m.Owned.Defs.{IsKept}
use devxdao_m.Owned.Grants.{index_given, WasGranted, AllGranted, StaysGranted}
use devxdao_m.Owned.Granted.{step-StaysGranted}
use devxdao_m.Owned.Operators.{Reach-Unapproved}
use devxdao_m.Owned.Mint.{stored_dict-injective}
use devxdao_m.Owned.History.{initial-IsListed}
use devxdao_m.Balances.Init.{initial-IsConsistent}
use devxdao_m.Contract.Init.{InitArgs, init, init_args}
use devxdao_m.Contract.Install.{installed}
use devxdao_m.History.Config.{Config, Reach-Continues}
use devxdao_m.Rights.Transfer.{IsAuthorised, transfer-IsAuthorised}

granted_at :
    (h : Host) (s t : State) (d d' : Ledger)
    → ◌≡◌ (deployed d) (deployed d')
    → AllGranted h s t d.token_owners d.operator
    → AllGranted h s t d'.token_owners d'.operator
granted_at h s t d d' same g =
    subst (λ operators. AllGranted h s t d'.token_owners operators)
      (stored_dict-injective (ap (λ (x : State). x.operator) same))
      (subst (λ owners. AllGranted h s t owners d.operator)
        (stored_dict-injective (ap (λ (x : State). x.token_owners) same)) g)

-- From an instance that is kept so and has no operator at all.
Reach-StaysGranted :
    (h : Host) (d : Ledger) {t : State}
    → IsKept h d
    → ((i : ℕ) → d.operator (to_string i) ≡ none)
    → Reach h (deployed d) t
    → StaysGranted h (deployed d) t
Reach-StaysGranted h d kept empty here =
    (d, refl, λ i owner operator owned approved. absurd (ground (arith, empty i)))
Reach-StaysGranted h d kept empty (next {t = t} r st) =
    let (b, at, kept_b, u) = Reach-Unapproved h d kept (λ i from. empty i) r in
    let (c, at_c, g) = Reach-StaysGranted h d kept empty r in
    let g' = granted_at h (deployed d) t c b (sym at_c ∙ at) g in
    step-StaysGranted h (deployed d) b kept_b u
      (subst (λ x. AllGranted h (deployed d) x b.token_owners b.operator) at g') (rw at at r)
      (rw at at st)

-- A call of `transfer` names a token and its owner on record as the source, and the verified caller is
-- that owner, the installer, or one who was approved for the token in the calls from `s` on, at a time
-- when it was the owner's already.
pub record IsRightful (h : Host) (e : Env) (installer : ℕ) (s t : State) : Type 0 where
  pub ledger : Ledger
  pub at : t ≡ deployed ledger
  pub token_id : ℕ
  pub owner : Key
  pub caller : Key
  pub named : e.arg_u64 arg_token_id ≡ Arg.given token_id
  pub owned : ledger.token_owners (to_string token_id) ≡ some owner
  pub source : e.arg_key arg_source_key ≡ Arg.given owner
  pub by : get_verified_caller e t ≡ ok caller
  pub right :
      (caller ≡ owner) ⊎ (WasGranted h s token_id owner caller t ⊎ (caller ≡ Key.account installer))

transfer-IsRightful_from :
    (h : Host) (call : Env) (first : Ledger) {s s' : State} {r : TransferReceipt}
    → IsKept h first
    → ((i : ℕ) → first.operator (to_string i) ≡ none)
    → first.holder_mode ≡ NftHolderMode.accounts
    → Reach h (deployed first) s
    → transfer h call s ≡ ok (s', r)
    → IsRightful h call first.installer (deployed first) s
transfer-IsRightful_from h call first {s} kept empty accounts reached done =
    let (d, at, follows) = Reach-Continues h first reached in
    let (c, at_c, g) = Reach-StaysGranted h first kept empty reached in
    let same = follows.same_config in
    let x : IsAuthorised call d =
      transfer-IsAuthorised h call d (ap (λ (k : Config). k.holder_mode) same ∙ accounts)
        (rw at at done) in
    let ordinal = ap (λ (k : Config). k.identifier_mode) same ∙ kept.0.ordinal in
    let (i, index) = ordinal_token call d.identifier_mode ordinal x.named in
    let owned = rw index at x.owned in
    record {
      ledger = d;
      at = at;
      token_id = i;
      owner = x.owner;
      caller = x.caller;
      named = index_given call d.identifier_mode ordinal (rw index at x.named);
      owned = owned;
      source = x.source;
      by = rw at x.by;
      right = elim (rw index at x.right) [
        | inl is_owner ↦ inl is_owner
        | inr (inl approved) ↦ inr (
            inl (
              granted_at h (deployed first) s c d (sym at_c ∙ at) g i x.owner x.caller owned
                approved))
        | inr (inr is_installer) ↦
            inr (inr (is_installer ∙ ap (λ (k : Config). Key.account k.installer) same))
      ];
    }

-- Install with the ordinal identifier mode, holder mode `Accounts` and a supply that is a `u64`, and make
-- any calls. A transfer then succeeds only for the owner of the token that it names, for the installer, or
-- for one who was approved for the token in one of these calls, when it was the owner's already: by the
-- owner with `approve`, or with `set_approval_for_all` by a caller whose item key the owner has.
pub transfer-IsRightful :
    (h : Host) (e call : Env) (account : ℕ) (a : InitArgs) {s s' s'' : State} {r : TransferReceipt}
    → init_args h e ≡ ok a
    → a.identifier_mode ≡ NftIdentifierMode.ordinal
    → a.holder_mode ≡ NftHolderMode.accounts
    → a.total_token_supply < 2 ^ 64
    → init h e (installed account) ≡ ok s
    → Reach h s s'
    → transfer h call s' ≡ ok (s'', r)
    → IsRightful h call account s s'
transfer-IsRightful h e call account a {s' = s'} p ordinal accounts fits q reached done =
    let first : Ledger = initial account a in
    let start = ok_unique (init h e (installed account)) q (init-installed h e account a p) in
    subst (λ s. IsRightful h call account s s') (sym start)
      (transfer-IsRightful_from h call first
        (initial-IsConsistent h account a ordinal fits, initial-IsListed h account a) (λ i. refl)
        accounts (rw start at reached) done)
