-- ===== src/Tests/Delegation.antt =====
-- An approved operator's transfer, on the fixtures.
use devxdao_m.Common.{◌≡◌, refl}
use devxdao_m.Common.Text.{text_eq}
use devxdao_m.Runtime.{Key, Arg, ok}
use devxdao_m.Contract.Constants.{arg_token_id, arg_operator, arg_source_key, arg_target_key}
use devxdao_m.Contract.State.{State}
use devxdao_m.Contract.Utils.Caller.{nth_back_one, verify_element, get_verified_caller}
use devxdao_m.Contract.Utils.Reads.{get_holder_mode}
use devxdao_m.Contract.Modes.{holder_mode_try_from, holder_mode_as_u8}
use devxdao_m.Contract.Transfer.{TransferReceipt, check_account_whitelist, transfer}
use devxdao_m.Ledger.Defs.{deployed}
use devxdao_m.Owned.Delegation.{operator_transfer_succeeds}
use devxdao_m.Tests.Fixtures.{host, one_token, operator_call}
use devxdao_m.Tests.Runs.{run_approve, run_caller, after_approve}
use devxdao_m.Tests.MoreRuns.{operator_transfer_call}
use devxdao_m.Tests.Kept.{one_token_books, one_token_lists, run_operator_id}

run_operator : operator_call.arg_key arg_operator ≡ Arg.given (Key.account 9)
unfolding text_eq
run_operator = refl

run_transfer_id : operator_transfer_call.arg_u64 arg_token_id ≡ Arg.given 0
unfolding text_eq
run_transfer_id = refl

run_transfer_source : operator_transfer_call.arg_key arg_source_key ≡ Arg.given (Key.account 7)
unfolding text_eq
run_transfer_source = refl

run_transfer_target : operator_transfer_call.arg_key arg_target_key ≡ Arg.given (Key.account 8)
unfolding text_eq
run_transfer_target = refl

run_operator_caller :
    get_verified_caller operator_transfer_call (deployed after_approve) ≡ ok (Key.account 9)
unfolding get_verified_caller nth_back_one verify_element get_holder_mode holder_mode_try_from
    holder_mode_as_u8
run_operator_caller = refl

run_target_listed : check_account_whitelist (deployed after_approve) (Key.account 8) ≡ ok tt
unfolding check_account_whitelist
run_target_listed = refl

operator_transfer_succeeds_example :
    (s'' : State) × (r : TransferReceipt) × (transfer host operator_transfer_call
        (deployed after_approve)
      ≡ ok (s'', r))
operator_transfer_succeeds_example =
    operator_transfer_succeeds host operator_call operator_transfer_call one_token 0 (Key.account 7)
      (Key.account 9) (Key.account 8) (one_token_books, one_token_lists) run_approve run_operator_id
      run_operator run_caller run_transfer_id run_transfer_source run_transfer_target
      run_operator_caller run_target_listed refl refl
