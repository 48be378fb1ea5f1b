-- ===== src/Contract/Dispatch.antt =====
-- The functions that the contract exports (`#[no_mangle] pub extern "C" fn` of
-- casper/contract/src/main.rs), less the session `call`, under one type of answers.
use Prim.Native.String.{String}
use devxdao_m.Common.{ℕ, Option}
use devxdao_m.Common.Text.{Text}
use devxdao_m.Runtime.{Key, Host, Env, Result, ok, ◌>>=◌}
use devxdao_m.Contract.State.{State}
use devxdao_m.Contract.Init.{init}
use devxdao_m.Contract.Admin.{
  set_variables, add_to_account_whitelist, remove_from_account_whitelist,
}
use devxdao_m.Contract.Mint.{MintReceipt, mint}
use devxdao_m.Contract.Burn.{burn}
use devxdao_m.Contract.Approve.{approve, set_approval_for_all}
use devxdao_m.Contract.Transfer.{TransferReceipt, transfer}
use devxdao_m.Contract.Query.{balance_of, owner_of, get_approved, metadata, set_token_metadata}

pub data Handler : Type 0 where
  init_handler : Handler
  set_variables_handler : Handler
  add_to_account_whitelist_handler : Handler
  remove_from_account_whitelist_handler : Handler
  mint_handler : Handler
  burn_handler : Handler
  approve_handler : Handler
  set_approval_for_all_handler : Handler
  transfer_handler : Handler
  balance_of_handler : Handler
  owner_of_handler : Handler
  metadata_handler : Handler
  get_approved_handler : Handler
  set_token_metadata_handler : Handler

-- The exported symbol, which is the name of the function in the source.
abbrev pub symbol : Handler → String
symbol init_handler = "init"
symbol set_variables_handler = "set_variables"
symbol add_to_account_whitelist_handler = "add_to_account_whitelist"
symbol remove_from_account_whitelist_handler = "remove_from_account_whitelist"
symbol mint_handler = "mint"
symbol burn_handler = "burn"
symbol approve_handler = "approve"
symbol set_approval_for_all_handler = "set_approval_for_all"
symbol transfer_handler = "transfer"
symbol balance_of_handler = "balance_of"
symbol owner_of_handler = "owner_of"
symbol metadata_handler = "metadata"
symbol get_approved_handler = "get_approved"
symbol set_token_metadata_handler = "set_token_metadata"

-- What a call leaves: a state, with a receipt, or an answer to a question.
pub data Answer : Type 0 where
  updated : State → Answer
  minted : State → MintReceipt → Answer
  transferred : State → TransferReceipt → Answer
  counted : ℕ → Answer
  owned_by : Key → Answer
  operated_by : Option Key → Answer
  described : Text → Answer

-- Each function under that type.
unfoldable pub run : Handler → Host → Env → State → Result Answer
run init_handler h e s = do s' ← init h e s; ok (updated s')
run set_variables_handler h e s = do s' ← set_variables e s; ok (updated s')
run add_to_account_whitelist_handler h e s = do s' ← add_to_account_whitelist e s; ok (updated s')
run remove_from_account_whitelist_handler h e s = do
  s' ← remove_from_account_whitelist e s
  ok (updated s')
run mint_handler h e s = do answer ← mint h e s; ok (minted answer.0 answer.1)
run burn_handler h e s = do s' ← burn h e s; ok (updated s')
run approve_handler h e s = do s' ← approve e s; ok (updated s')
run set_approval_for_all_handler h e s = do s' ← set_approval_for_all h e s; ok (updated s')
run transfer_handler h e s = do answer ← transfer h e s; ok (transferred answer.0 answer.1)
run balance_of_handler h e s = do balance ← balance_of h e s; ok (counted balance)
run owner_of_handler h e s = do owner ← owner_of e s; ok (owned_by owner)
run metadata_handler h e s = do text ← metadata e s; ok (described text)
run get_approved_handler h e s = do operator ← get_approved e s; ok (operated_by operator)
run set_token_metadata_handler h e s = do s' ← set_token_metadata h e s; ok (updated s')
