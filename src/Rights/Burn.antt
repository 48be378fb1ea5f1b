-- ===== src/Rights/Burn.antt =====
-- Burnt tokens (casper/contract/src/main.rs, `burn`, `transfer`, `approve`, `get_approved`).
use devxdao_m.Common.{
  ℕ, suc, false, ◌≡◌, ◌≢◌, refl, sym, subst, ap, true, none, some, is_some, arith,
}
use devxdao_m.Common.Text.{Text, text_eq}
use devxdao_m.Runtime.{
  Key, Host, Env, dictionary_put_self, dictionary_put_ne, ok, >>=-elim, ok_unique,
}
use devxdao_m.Contract.State.{State}
use devxdao_m.Contract.Utils.Caller.{get_verified_caller}
use devxdao_m.Contract.Utils.Tokens.{
  TokenIdentifier, get_dictionary_item_key, get_token_identifier_from_runtime_args,
  get_owned_tokens_dictionary_item_key,
}
use devxdao_m.Contract.Burn.{burn}
use devxdao_m.Contract.Approve.{approve}
use devxdao_m.Contract.Transfer.{TransferReceipt, plan_transfer, transfer}
use devxdao_m.Ledger.Defs.{Ledger, deployed}
use devxdao_m.Ledger.Burn.{Burns, burn-Burns, burnt}
use devxdao_m.Ledger.Approve.{Approves, approve-Approves}
use devxdao_m.Ledger.Transfer.{Plans, plan_transfer-Plans}
use devxdao_m.History.Steps.{Reach}
use devxdao_m.History.Config.{Config, Reach-Continues}

-- Only the installer, as the owner on record, can burn a token, once; the mark is set, the count under
-- the owner's item key, which was positive, is one less, and all other counts, the owners, issuers,
-- operators and lists of owned tokens stay.
pub burn_effect :
    (h : Host) (e : Env) (d : Ledger) {s' : State}
    → burn h e (deployed d) ≡ ok s'
    → (d' : Ledger) × (t : TokenIdentifier) × (owner : Key) × (s' ≡ deployed d')
      × (get_token_identifier_from_runtime_args e d.identifier_mode ≡ ok t)
      × (e.caller ≡ d.installer)
      × (get_verified_caller e (deployed d) ≡ ok owner)
      × (d.token_owners (get_dictionary_item_key t) ≡ some owner)
      × (d.burnt_tokens (get_dictionary_item_key t) ≡ none)
      × (is_some (d'.burnt_tokens (get_dictionary_item_key t)) ≡ true)
      × (item_key : Text) × (count : ℕ) × (get_owned_tokens_dictionary_item_key h owner
          ≡ ok item_key)
      × (d.token_counts item_key ≡ some (suc count))
      × (d'.token_counts item_key ≡ some count)
      × ((j : Text) → text_eq item_key j ≡ false → d'.token_counts j ≡ d.token_counts j)
      × (d'.token_owners ≡ d.token_owners)
      × (d'.token_issuers ≡ d.token_issuers)
      × (d'.operator ≡ d.operator)
      × (d'.owned_tokens ≡ d.owned_tokens)
burn_effect h e d {s'} p =
    let b : Burns h e d s' = burn-Burns h e d p in
    (
      burnt d b.token b.item_key b.count,
      b.token,
      b.owner,
      b.result,
      b.named,
      b.by_installer,
      b.by_owner,
      b.owned,
      b.unburnt,
      ap is_some (dictionary_put_self d.burnt_tokens (get_dictionary_item_key b.token) tt),
      b.item_key,
      b.count,
      b.keyed,
      b.counted,
      dictionary_put_self d.token_counts b.item_key b.count,
      λ j ne. dictionary_put_ne d.token_counts b.item_key j b.count ne,
      refl,
      refl,
      refl,
      refl,
    )

-- A marked token cannot be transferred.
marked_not_transferred :
    (h : Host) (e : Env) (d : Ledger) (t : TokenIdentifier) {x : State × TransferReceipt}
    → is_some (d.burnt_tokens (get_dictionary_item_key t)) ≡ true
    → get_token_identifier_from_runtime_args e d.identifier_mode ≡ ok t
    → transfer h e (deployed d) ≢ ok x
unfolding transfer
marked_not_transferred h e d t marked named p0 =
    >>=-elim (plan_transfer e (deployed d)) _ p0 λ p q p1.
      let a : Plans e d p = plan_transfer-Plans e d q in
      let same =
        ok_unique (get_token_identifier_from_runtime_args e d.identifier_mode) named a.named in
      ground (arith, marked, rw (← same) at a.unburnt)

marked_not_approved :
    (e : Env) (d : Ledger) (t : TokenIdentifier) {s' : State}
    → is_some (d.burnt_tokens (get_dictionary_item_key t)) ≡ true
    → get_token_identifier_from_runtime_args e d.identifier_mode ≡ ok t
    → approve e (deployed d) ≢ ok s'
marked_not_approved e d t {s'} marked named p =
    let a : Approves e d s' = approve-Approves e d p in
    let same =
      ok_unique (get_token_identifier_from_runtime_args e d.identifier_mode) named a.named in
    ground (arith, marked, rw (← same) at a.unburnt)

marked_not_burnt :
    (h : Host) (e : Env) (d : Ledger) (t : TokenIdentifier) {s' : State}
    → is_some (d.burnt_tokens (get_dictionary_item_key t)) ≡ true
    → get_token_identifier_from_runtime_args e d.identifier_mode ≡ ok t
    → burn h e (deployed d) ≢ ok s'
marked_not_burnt h e d t {s'} marked named p =
    let b : Burns h e d s' = burn-Burns h e d p in
    let same =
      ok_unique (get_token_identifier_from_runtime_args e d.identifier_mode) named b.named in
    ground (arith, marked, rw (← same) at b.unburnt)

-- Once a token has been burnt, then after any further calls, no call that names it can transfer it,
-- approve an operator for it or burn it again.
pub burn_final :
    (h : Host) (e e' : Env) (d : Ledger) (t : TokenIdentifier) {s s' s'' : State}
    {x : State × TransferReceipt}
    → burn h e (deployed d) ≡ ok s
    → get_token_identifier_from_runtime_args e d.identifier_mode ≡ ok t
    → Reach h s s'
    → get_token_identifier_from_runtime_args e' d.identifier_mode ≡ ok t
    → (transfer h e' s' ≢ ok x) × (approve e' s' ≢ ok s'') × (burn h e' s' ≢ ok s'')
burn_final h e e' d t {s} {s'} p named r named' =
    let b : Burns h e d s = burn-Burns h e d p in
    let same =
      ok_unique (get_token_identifier_from_runtime_args e d.identifier_mode) named b.named in
    let d1 : Ledger = burnt d b.token b.item_key b.count in
    let (d2, at, f) = Reach-Continues h d1 (rw b.result at r) in
    let marked : is_some (d1.burnt_tokens (get_dictionary_item_key t)) ≡ true =
      rw same
        (ap is_some (dictionary_put_self d.burnt_tokens (get_dictionary_item_key b.token) tt)) in
    let mode = ap (λ (c : Config). c.identifier_mode) f.same_config in
    let still = f.burnt_stays (get_dictionary_item_key t) marked in
    let named2 =
      subst (λ m. get_token_identifier_from_runtime_args e' m ≡ ok t) (sym mode) named' in
    (
      λ q. marked_not_transferred h e' d2 t still named2 (rw at at q),
      λ q. marked_not_approved e' d2 t still named2 (rw at at q),
      λ q. marked_not_burnt h e' d2 t still named2 (rw at at q),
    )
