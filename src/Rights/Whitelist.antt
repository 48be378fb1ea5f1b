-- ===== src/Rights/Whitelist.antt =====
-- The installer's entry points and the account whitelist (casper/contract/src/main.rs).
use devxdao_m.Common.{
  ℕ, suc, ◌≡◌, ◌≢◌, refl, ap, true, false, none, some, List, [], ◌∷◌, push, contains, position,
  remove, arith, inl, inr, ◌==◌, ==_refl, Bool-cases,
}
use devxdao_m.Runtime.{Key, Host, Env, Arg, ApiError, ok, revert, panic}
use devxdao_m.Contract.Constants.{arg_account_whitelist, arg_allow_minting, arg_contract_whitelist}
use devxdao_m.Contract.Error.{invalid_account}
use devxdao_m.Contract.State.{State}
use devxdao_m.Contract.Utils.Caller.{enforce_only_contract_creator_can_invoke}
use devxdao_m.Contract.Admin.{
  set_allow_minting, set_contract_whitelist, set_variables, add_to_account_whitelist,
  remove_from_account_whitelist,
}
use devxdao_m.Contract.Burn.{burn}
use devxdao_m.Contract.Query.{set_token_metadata}
use devxdao_m.Ledger.Defs.{Ledger, deployed}

enforce_ne :
    (e : Env) (d : Ledger)
    → e.caller ≢ d.installer
    → enforce_only_contract_creator_can_invoke e (deployed d)
      ≡ revert (ApiError.user invalid_account)
unfolding enforce_only_contract_creator_can_invoke
enforce_ne e d ne = ground arith

enforce_eq :
    (e : Env) (d : Ledger)
    → e.caller ≡ d.installer
    → enforce_only_contract_creator_can_invoke e (deployed d) ≡ ok tt
unfolding enforce_only_contract_creator_can_invoke
enforce_eq e d same = ground arith

-- Any account but the installer's is refused by `set_variables`, both whitelist entry points, `burn`
-- and `set_token_metadata`, whatever the arguments.
pub installer_only :
    (h : Host) (e : Env) (d : Ledger)
    → e.caller ≢ d.installer
    → (set_variables e (deployed d) ≡ revert (ApiError.user invalid_account))
      × (add_to_account_whitelist e (deployed d) ≡ revert (ApiError.user invalid_account))
      × (remove_from_account_whitelist e (deployed d) ≡ revert (ApiError.user invalid_account))
      × (burn h e (deployed d) ≡ revert (ApiError.user invalid_account))
      × (set_token_metadata h e (deployed d) ≡ revert (ApiError.user invalid_account))
unfolding set_variables add_to_account_whitelist remove_from_account_whitelist burn
    set_token_metadata
installer_only h e d ne = (
  rw (enforce_ne e d ne),
  rw (enforce_ne e d ne),
  rw (enforce_ne e d ne),
  rw (enforce_ne e d ne),
  rw (enforce_ne e d ne),
)

position-push :
    (a : ℕ) (l : List ℕ)
    → contains ◌==◌ l a ≡ false
    → (i : ℕ) × (position (λ x. x == a) (push l a) ≡ some i) × (remove i (push l a) ≡ l)
position-push a [] absent = (0, rw (==_refl a), refl)
position-push a (x ∷ l) absent =
    let (i, p, r) = position-push a l (ground arith) in
    (suc i, rw p (ground arith), ap (λ t. x ∷ t) r)

position_absent : (a : ℕ) (l : List ℕ) → contains ◌==◌ l a ≡ false → position (λ x. x == a) l ≡ none
position_absent a [] absent = refl
position_absent a (x ∷ l) absent = rw (position_absent a l (ground arith)) (ground arith)

-- The installer adds an account that is not listed and removes it: both calls succeed, and the
-- instance is as it was.
pub add-remove :
    (e : Env) (d : Ledger) (a : ℕ)
    → e.caller ≡ d.installer
    → e.arg_key arg_account_whitelist ≡ Arg.given (Key.account a)
    → contains ◌==◌ d.account_whitelist a ≡ false
    → (s : State) × (add_to_account_whitelist e (deployed d) ≡ ok s)
      × (remove_from_account_whitelist e s ≡ ok (deployed d))
unfolding add_to_account_whitelist remove_from_account_whitelist
add-remove e d a by given absent =
    let d' : Ledger = record d { account_whitelist = push d.account_whitelist a } in
    let (i, p, r) = position-push a d.account_whitelist absent in
    (deployed d', rw (enforce_eq e d by, given), rw (enforce_eq e d' by, given, p) (rw r))

-- Removing an account that is not listed ends in a panic, not in a revert with an error code.
pub remove-unlisted :
    (e : Env) (d : Ledger) (a : ℕ)
    → e.caller ≡ d.installer
    → e.arg_key arg_account_whitelist ≡ Arg.given (Key.account a)
    → contains ◌==◌ d.account_whitelist a ≡ false
    → remove_from_account_whitelist e (deployed d) ≡ panic
unfolding remove_from_account_whitelist
remove-unlisted e d a by given absent =
    rw (enforce_eq e d by, given, position_absent a d.account_whitelist absent)

contains-push : (a : ℕ) (l : List ℕ) → contains ◌==◌ (push l a) a ≡ true
contains-push a [] = rw (==_refl a)
contains-push a (x ∷ l) = rw (contains-push a l) (ground arith)

position_listed :
    (a : ℕ) (l : List ℕ)
    → contains ◌==◌ l a ≡ true
    → (i : ℕ) × (position (λ x. x == a) (push l a) ≡ some i)
      × (contains ◌==◌ (remove i (push l a)) a ≡ true)
position_listed a [] listed = cc
position_listed a (x ∷ l) listed = elim (Bool-cases (x == a)) [
  | inl here ↦ (0, rw here, contains-push a l)
  | inr there ↦
      let (i, p, r) = position_listed a l (rw there at listed) in
      (suc i, rw (there, p), rw (there, r))
]

-- The whitelist keeps duplicates, and a removal takes one of them: an account that was listed when it
-- was added once more is still listed after it has been removed.
pub add-remove_listed :
    (e : Env) (d : Ledger) (a : ℕ)
    → e.caller ≡ d.installer
    → e.arg_key arg_account_whitelist ≡ Arg.given (Key.account a)
    → contains ◌==◌ d.account_whitelist a ≡ true
    → (s : State) × (d' : Ledger) × (add_to_account_whitelist e (deployed d) ≡ ok s)
      × (remove_from_account_whitelist e s ≡ ok (deployed d'))
      × (contains ◌==◌ d'.account_whitelist a ≡ true)
unfolding add_to_account_whitelist remove_from_account_whitelist
add-remove_listed e d a by given listed =
    let d1 : Ledger = record d { account_whitelist = push d.account_whitelist a } in
    let (i, p, r) = position_listed a d.account_whitelist listed in
    (
      deployed d1,
      record d { account_whitelist = remove i (push d.account_whitelist a) },
      rw (enforce_eq e d by, given),
      rw (enforce_eq e d1 by, given, p),
      r,
    )

-- Arguments of `set_variables` that cannot be decoded are taken for absent: the call succeeds and
-- changes nothing.
pub set_variables_undecodable :
    (e : Env) (d : Ledger)
    → e.caller ≡ d.installer
    → e.arg_option_bool arg_allow_minting ≡ Arg.undecodable
    → e.arg_option_hashes arg_contract_whitelist ≡ Arg.undecodable
    → set_variables e (deployed d) ≡ ok (deployed d)
unfolding set_variables set_allow_minting set_contract_whitelist
set_variables_undecodable e d by bad bad' = rw (enforce_eq e d by, bad, bad')
