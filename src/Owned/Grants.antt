-- ===== src/Owned/Grants.antt =====
-- Where an operator of an instance that numbers its tokens comes from (`approve`,
-- `set_approval_for_all` and `transfer` of casper/contract/src/main.rs).
use devxdao_m.Common.{Bool, refl, arith, false, none, if◌then◌else◌, ℕ, ◌≡◌, true, Option, some}
use devxdao_m.Common.Decimal.{to_string}
use devxdao_m.Common.Text.{Text}
use devxdao_m.Runtime.{Key, Host, Env, Arg, Dict, ok}
use devxdao_m.Contract.Constants.{arg_token_id, arg_operator, arg_approve_all}
use devxdao_m.Contract.Modes.{NftIdentifierMode}
use devxdao_m.Contract.State.{State}
use devxdao_m.Contract.Utils.Caller.{get_verified_caller}
use devxdao_m.Contract.Utils.Tokens.{
  TokenIdentifier, get_token_identifier_from_runtime_args, get_owned_tokens_dictionary_item_key,
}
use devxdao_m.Contract.Approve.{approve, set_approval_for_all}
use devxdao_m.Ledger.Defs.{Ledger, deployed}
use devxdao_m.Balances.Defs.{has_item_key}
use devxdao_m.History.Steps.{Step, Reach, next}

-- A call that gives token `i` of an owner an operator: `approve` by the owner for that token, or
-- `set_approval_for_all` by a caller whose item key the owner has.
pub data Grants (h : Host) (e : Env) (i : ℕ) (owner operator : Key) (s s' : State) : Type 0 where
  by_approve :
      e.arg_u64 arg_token_id ≡ Arg.given i
      → get_verified_caller e s ≡ ok owner
      → e.arg_key arg_operator ≡ Arg.given operator
      → approve e s ≡ ok s'
      → Grants h e i owner operator s s'
  by_approve_all :
      (caller : Key) {item_key : Text}
      → get_verified_caller e s ≡ ok caller
      → get_owned_tokens_dictionary_item_key h caller ≡ ok item_key
      → has_item_key h item_key owner ≡ true
      → e.arg_bool arg_approve_all ≡ Arg.given true
      → e.arg_key arg_operator ≡ Arg.given operator
      → set_approval_for_all h e s ≡ ok s'
      → Grants h e i owner operator s s'

-- Among the calls that lead from `s` to `t` is one that has given token `i` the operator, at a time when
-- it already belonged to the owner.
pub record WasGranted (h : Host) (s : State) (i : ℕ) (owner operator : Key) (t : State)
    : Type 0 where
  pub call : Env
  pub before : Ledger
  pub after : State
  pub reached : Reach h s (deployed before)
  pub owned : before.token_owners (to_string i) ≡ some owner
  pub grants : Grants h call i owner operator (deployed before) after
  pub since : Reach h after t

-- That each operator on record was given to the token while it was the owner's on record.
abbrev pub AllGranted : Host → State → State → Dict Key → Dict (Option Key) → Type 0
AllGranted h s t owners operators =
    (i : ℕ) (owner operator : Key)
    → owners (to_string i) ≡ some owner
    → operators (to_string i) ≡ some (some operator)
    → WasGranted h s i owner operator t

-- What a step leaves: an initialised instance, of which `AllGranted` holds.
abbrev pub StaysGranted : Host → State → State → Type 0
StaysGranted h s t = (d : Ledger) × (t ≡ deployed d) × AllGranted h s t d.token_owners d.operator

pub index_given :
    (e : Env) (mode : NftIdentifierMode) {i : ℕ}
    → mode ≡ NftIdentifierMode.ordinal
    → get_token_identifier_from_runtime_args e mode ≡ ok (TokenIdentifier.index i)
    → e.arg_u64 arg_token_id ≡ Arg.given i
unfolding get_token_identifier_from_runtime_args
index_given e NftIdentifierMode.ordinal o p = ground arith
index_given e NftIdentifierMode.hash o p = cc

pub approving :
    (b : Bool) (a operator : Key)
    → (if b then some a else none) ≡ some operator
    → (b ≡ true) × (a ≡ operator)
approving true a operator p = (refl, ground arith)
approving false a operator p = cc

pub some_given :
    (v : Option Key) (operator : Key)
    → ◌≡◌ {A = Option (Option Key)} (some v) (some (some operator))
    → v ≡ some operator
some_given v operator p = ground arith

pub later :
    {h : Host} {s t t' : State} {i : ℕ} {owner operator : Key}
    → Step h t t'
    → WasGranted h s i owner operator t
    → WasGranted h s i owner operator t'
later st w = record {
  call = w.call;
  before = w.before;
  after = w.after;
  reached = w.reached;
  owned = w.owned;
  grants = w.grants;
  since = next w.since st;
}
