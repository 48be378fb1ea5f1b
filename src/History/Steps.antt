-- ===== src/History/Steps.antt =====
-- The calls that write (casper/contract/src/main.rs), as steps of the contract's state. A call that
-- reverts or panics leaves the state as it was, and so do the entry points that only answer.
use devxdao_m.Common.{◌≡◌}
use devxdao_m.Runtime.{Host, Env, ok}
use devxdao_m.Contract.State.{State}
use devxdao_m.Contract.Init.{init}
use devxdao_m.Contract.Admin.{
  set_variables, add_to_account_whitelist, remove_from_account_whitelist,
}
use devxdao_m.Contract.Mint.{MintReceipt, mint}
use devxdao_m.Contract.Burn.{burn}
use devxdao_m.Contract.Approve.{approve, set_approval_for_all}
use devxdao_m.Contract.Transfer.{TransferReceipt, transfer}
use devxdao_m.Contract.Query.{set_token_metadata}

pub data Step (h : Host) : State → State → Type 0 where
  initialises : {s s' : State} (e : Env) → init h e s ≡ ok s' → Step h s s'
  sets_variables : {s s' : State} (e : Env) → set_variables e s ≡ ok s' → Step h s s'
  adds : {s s' : State} (e : Env) → add_to_account_whitelist e s ≡ ok s' → Step h s s'
  removes : {s s' : State} (e : Env) → remove_from_account_whitelist e s ≡ ok s' → Step h s s'
  mints : {s s' : State} {r : MintReceipt} (e : Env) → mint h e s ≡ ok (s', r) → Step h s s'
  burns : {s s' : State} (e : Env) → burn h e s ≡ ok s' → Step h s s'
  approves : {s s' : State} (e : Env) → approve e s ≡ ok s' → Step h s s'
  approves_all : {s s' : State} (e : Env) → set_approval_for_all h e s ≡ ok s' → Step h s s'
  transfers :
      {s s' : State} {r : TransferReceipt} (e : Env) → transfer h e s ≡ ok (s', r) → Step h s s'
  describes : {s s' : State} (e : Env) → set_token_metadata h e s ≡ ok s' → Step h s s'

pub data Reach (h : Host) (s : State) : State → Type 0 where
  here : Reach h s s
  next : {t u : State} → Reach h s t → Step h t u → Reach h s u
