-- ===== src/Rights/Transfer.antt =====
-- Who can transfer a token and to whom (casper/contract/src/main.rs, `transfer`), and what it changes.
use devxdao_m.Common.{
  ℕ, ◌≡◌, ◌≢◌, ◌⊎◌, refl, subst, ap, ◌∙◌, true, false, not, ◌||◌, Option, none, some, List,
  contains, get_elem?, any-get_elem?, arith, inl, inr, ◌==◌, Bool-cases,
}
use devxdao_m.Common.Text.{Text, text_eq}
use devxdao_m.Runtime.{
  Key, key_eq, key_eq→eq, CallStackElement, Host, Env, Arg, dictionary_put_self, dictionary_put_ne,
  ok, >>=-elim, revert_if-eq-ok,
}
use devxdao_m.Contract.Constants.{arg_source_key, arg_target_key}
use devxdao_m.Contract.Error.{invalid_account}
use devxdao_m.Contract.Modes.{NftHolderMode}
use devxdao_m.Contract.State.{State}
use devxdao_m.Contract.Utils.Caller.{get_verified_caller}
use devxdao_m.Contract.Utils.Tokens.{
  TokenIdentifier, get_dictionary_item_key, get_token_identifier_from_runtime_args,
}
use devxdao_m.Contract.Transfer.{
  TransferReceipt, transfer, plan_transfer, approves, check_rights, check_rights_in,
  check_account_whitelist,
}
use devxdao_m.Ledger.Defs.{Ledger, deployed}
use devxdao_m.Ledger.Writes.{get-as_is}
use devxdao_m.Ledger.Transfer.{
  Plans, plan_transfer-Plans, Executes, execute_transfer-Executes, transferred,
}
use devxdao_m.Rights.Plan.{plan_transfer_complete, check_rights_open}

-- The token that a call names has an owner on record, whom the call names as the source, and the
-- verified caller is that owner, the operator on record for the token, or the installer.
pub record IsAuthorised (e : Env) (d : Ledger) : Type 0 where
  pub token : TokenIdentifier
  pub owner : Key
  pub caller : Key
  pub named : get_token_identifier_from_runtime_args e d.identifier_mode ≡ ok token
  pub owned : d.token_owners (get_dictionary_item_key token) ≡ some owner
  pub source : e.arg_key arg_source_key ≡ Arg.given owner
  pub by : get_verified_caller e (deployed d) ≡ ok caller
  pub right :
      (caller ≡ owner)
      ⊎ ((d.operator (get_dictionary_item_key token) ≡ some (some caller))
          ⊎ (caller ≡ Key.account d.installer))

approves→eq : (o : Option (Option Key)) (k : Key) → approves o k ≡ true → o ≡ some (some k)
approves→eq none k h = cc
approves→eq (some none) k h = cc
approves→eq (some (some a)) k h = ap (λ x. some (some x)) (key_eq→eq a k h)

or_right :
    (d : Ledger) (t : TokenIdentifier) (owner caller : Key)
    → (key_eq caller owner
        || approves (d.operator (get_dictionary_item_key t)) caller
        || key_eq caller (Key.account d.installer))
      ≡ true
    → (caller ≡ owner)
      ⊎ ((d.operator (get_dictionary_item_key t) ≡ some (some caller))
          ⊎ (caller ≡ Key.account d.installer))
or_right d t owner caller h = elim (Bool-cases (key_eq caller owner)) [
  | inl is_owner ↦ inl (key_eq→eq caller owner is_owner)
  | inr not_owner ↦ elim (Bool-cases (approves (d.operator (get_dictionary_item_key t)) caller)) [
    | inl is_operator ↦
        inr (inl (approves→eq (d.operator (get_dictionary_item_key t)) caller is_operator))
    | inr not_operator ↦ inr (inr (key_eq→eq caller (Key.account d.installer) (ground arith)))
  ]
]

check_rights-accounts :
    (e : Env) (d : Ledger) (t : TokenIdentifier) (owner : Key) {u : Unit {0}}
    → check_rights e (deployed d) NftHolderMode.accounts t owner ≡ ok u
    → (caller : Key) × (get_verified_caller e (deployed d) ≡ ok caller)
      × ((caller ≡ owner)
          ⊎ ((d.operator (get_dictionary_item_key t) ≡ some (some caller))
              ⊎ (caller ≡ Key.account d.installer)))
unfolding check_rights check_rights_in
check_rights-accounts e d t owner p0 =
    >>=-elim (get_verified_caller e (deployed d)) _ p0 λ caller q1 p1.
      let p2 = rw (get-as_is d.operator (get_dictionary_item_key t)) at p1 in
      let passed =
        revert_if-eq-ok
          (not (
            key_eq caller owner
            || approves (d.operator (get_dictionary_item_key t)) caller
            || key_eq caller (Key.account d.installer)))
          invalid_account p2 in
      (caller, q1, or_right d t owner caller (ground arith))

-- In holder mode `Accounts` a transfer succeeds only for the token's owner, its operator on record
-- or the installer, and only if the source named is the owner on record.
pub transfer-IsAuthorised :
    (h : Host) (e : Env) (d : Ledger) {s' : State} {r : TransferReceipt}
    → d.holder_mode ≡ NftHolderMode.accounts
    → transfer h e (deployed d) ≡ ok (s', r)
    → IsAuthorised e d
unfolding transfer
transfer-IsAuthorised h e d mode p0 = >>=-elim (plan_transfer e (deployed d)) _ p0 λ p q p1.
    let a : Plans e d p = plan_transfer-Plans e d q in
    let (caller, by, right) = check_rights-accounts e d p.token_identifier p.from_token_owner_key (
      subst (λ m. check_rights e (deployed d) m p.token_identifier p.from_token_owner_key ≡ ok tt)
        mode a.rights) in
    record {
      token = p.token_identifier;
      owner = p.from_token_owner_key;
      caller = caller;
      named = a.named;
      owned = a.owned_by;
      source = a.source_given;
      by = by;
      right = right;
    }

same_token :
    (e : Env) (d : Ledger) (account : ℕ) (call_stack : List CallStackElement) {t : TokenIdentifier}
    → get_token_identifier_from_runtime_args e d.identifier_mode ≡ ok t
    → get_token_identifier_from_runtime_args
        (record e { caller = account; call_stack = call_stack })
        d.identifier_mode
      ≡ ok t
unfolding get_token_identifier_from_runtime_args
same_token e d account call_stack p = ground arith

-- In holder modes `Contracts` and `Mixed` the caller has no part in it: a transfer that succeeds
-- succeeds with the same result from any caller whom the holder mode admits.
pub transfer_any_caller :
    (h : Host) (e : Env) (d : Ledger) (account : ℕ) (call_stack : List CallStackElement)
    {caller : Key} {s' : State} {r : TransferReceipt}
    → d.holder_mode ≢ NftHolderMode.accounts
    → transfer h e (deployed d) ≡ ok (s', r)
    → get_verified_caller (record e { caller = account; call_stack = call_stack }) (deployed d)
      ≡ ok caller
    → transfer h (record e { caller = account; call_stack = call_stack }) (deployed d) ≡ ok (s', r)
unfolding transfer
transfer_any_caller h e d account call_stack open_mode p0 by =
    >>=-elim (plan_transfer e (deployed d)) _ p0 λ p q p1.
      let a : Plans e d p = plan_transfer-Plans e d q in
      let e' : Env = record e { caller = account; call_stack = call_stack } in
      let a' : Plans e' d p = record {
        mode = a.mode;
        transferable = a.transferable;
        named = same_token e d account call_stack a.named;
        unburnt = a.unburnt;
        owned_by = a.owned_by;
        source_given = a.source_given;
        target_given = a.target_given;
        rights = check_rights_open e' d p.token_identifier p.from_token_owner_key open_mode by;
        whitelisted = a.whitelisted;
      } in
      rw (plan_transfer_complete e' d p a') p1

-- The hash that the account whitelist is searched for.
abbrev pub whitelist_hash : Key → Option ℕ
whitelist_hash (Key.account a) = some a
whitelist_hash (Key.hash c) = some c
whitelist_hash (Key.other k) = none

check_account_whitelist-eq-ok :
    (d : Ledger) (target : Key) {u : Unit {0}}
    → check_account_whitelist (deployed d) target ≡ ok u
    → (a : ℕ) × (whitelist_hash target ≡ some a) × (contains ◌==◌ d.account_whitelist a ≡ true)
unfolding check_account_whitelist
check_account_whitelist-eq-ok d (Key.account a) p = (a, refl, ground arith)
check_account_whitelist-eq-ok d (Key.hash a) p = (a, refl, ground arith)
check_account_whitelist-eq-ok d (Key.other k) p = cc

-- A transfer succeeds only to a target whose account or contract hash stands in the account
-- whitelist, in every mode.
pub transfer-whitelisted :
    (h : Host) (e : Env) (d : Ledger) {s' : State} {r : TransferReceipt}
    → transfer h e (deployed d) ≡ ok (s', r)
    → (target : Key) × (a : ℕ) × (i : ℕ) × (e.arg_key arg_target_key ≡ Arg.given target)
      × (whitelist_hash target ≡ some a)
      × (get_elem? d.account_whitelist i ≡ some a)
unfolding transfer
transfer-whitelisted h e d p0 = >>=-elim (plan_transfer e (deployed d)) _ p0 λ p q p1.
    let a : Plans e d p = plan_transfer-Plans e d q in
    let (hash, target, listed) = check_account_whitelist-eq-ok d p.target_owner_key a.whitelisted in
    let (i, x, there, same) = any-get_elem? (λ x. x == hash) d.account_whitelist listed in
    (p.target_owner_key, hash, i, a.target_given, target, there ∙ ap some (ground arith))

-- A transfer gives the token that it names to the target that it names and withdraws its operator; the
-- owners and operators of all other tokens, the issuers and the marks of burnt tokens stay.
pub transfer_effect :
    (h : Host) (e : Env) (d : Ledger) {s' : State} {r : TransferReceipt}
    → transfer h e (deployed d) ≡ ok (s', r)
    → (d' : Ledger) × (t : TokenIdentifier) × (target : Key) × (s' ≡ deployed d')
      × (get_token_identifier_from_runtime_args e d.identifier_mode ≡ ok t)
      × (e.arg_key arg_target_key ≡ Arg.given target)
      × (d'.token_owners (get_dictionary_item_key t) ≡ some target)
      × (d'.operator (get_dictionary_item_key t) ≡ some none)
      × ((j : Text)
          → text_eq (get_dictionary_item_key t) j ≡ false
          → (d'.token_owners j ≡ d.token_owners j) × (d'.operator j ≡ d.operator j))
      × (d'.token_issuers ≡ d.token_issuers)
      × (d'.burnt_tokens ≡ d.burnt_tokens)
unfolding transfer
transfer_effect h e d {s'} p0 = >>=-elim (plan_transfer e (deployed d)) _ p0 λ p q p1.
    let a : Plans e d p = plan_transfer-Plans e d q in
    let x : Executes h d p s' = execute_transfer-Executes h d p p1 in
    let k = get_dictionary_item_key p.token_identifier in
    (
      transferred d p.token_identifier p.target_owner_key x.from_item x.target_item x.count
          x.removed x.received,
      p.token_identifier,
      p.target_owner_key,
      x.result,
      a.named,
      a.target_given,
      dictionary_put_self d.token_owners k p.target_owner_key,
      dictionary_put_self d.operator k none,
      λ j ne. (
        dictionary_put_ne d.token_owners k j p.target_owner_key ne,
        dictionary_put_ne d.operator k j none ne,
      ),
      refl,
      refl,
    )
