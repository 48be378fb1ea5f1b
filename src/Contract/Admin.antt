-- ===== src/Contract/Admin.antt =====
-- The installer's entry points on variables and whitelists (casper/contract/src/main.rs).
use devxdao_m.Common.{ℕ, Bool, Option, none, some, List, push, position, remove, ◌==◌}
use devxdao_m.Runtime.{
  Env, ApiError, Result, ok, revert, ◌>>=◌, ◌>>◌, unwrap, unwrap_or_revert, unwrap_or_revert_with,
}
use devxdao_m.Contract.Constants.{arg_allow_minting, arg_contract_whitelist, arg_account_whitelist}
use devxdao_m.Contract.Error.{
  missing_allow_minting, missing_contract_white_list, missing_whitelist_mode,
  invalid_whitelist_mode, missing_account_white_list, invalid_account_whitelist, invalid_key,
}
use devxdao_m.Contract.Modes.{WhitelistMode, whitelist_mode_try_from}
use devxdao_m.Contract.State.{State}
use devxdao_m.Contract.Utils.Reads.{get_stored_value_with_user_errors, overwrite, into_account}
use devxdao_m.Contract.Utils.Args.{get_required_arg, get_optional_named_arg_with_user_errors}
use devxdao_m.Contract.Utils.Caller.{enforce_only_contract_creator_can_invoke}

unfoldable pub set_allow_minting : Option Bool → State → Result State
set_allow_minting none s = ok s
set_allow_minting (some allow_minting) s = do
  cell ← overwrite s.allow_minting missing_allow_minting missing_allow_minting allow_minting
  ok (record s { allow_minting = cell })

unfoldable pub write_contract_whitelist : WhitelistMode → List ℕ → State → Result State
write_contract_whitelist WhitelistMode.unlocked new_contract_whitelist s = do
  cell ←
      overwrite s.contract_whitelist missing_contract_white_list invalid_whitelist_mode
        new_contract_whitelist
  ok (record s { contract_whitelist = cell })
write_contract_whitelist WhitelistMode.locked new_contract_whitelist s =
    revert (ApiError.user invalid_whitelist_mode)

unfoldable pub set_contract_whitelist : Option (List ℕ) → State → Result State
set_contract_whitelist none s = ok s
set_contract_whitelist (some new_contract_whitelist) s = do
  value ←
      get_stored_value_with_user_errors s.whitelist_mode missing_whitelist_mode
        invalid_whitelist_mode
  whitelist_mode ← unwrap_or_revert (whitelist_mode_try_from value)
  write_contract_whitelist whitelist_mode new_contract_whitelist s

unfoldable pub set_variables : Env → State → Result State
set_variables e s = do
  enforce_only_contract_creator_can_invoke e s
  allow_minting ←
      get_optional_named_arg_with_user_errors (e.arg_option_bool arg_allow_minting)
        missing_allow_minting
  s' ← set_allow_minting allow_minting s
  new_contract_whitelist ←
      get_optional_named_arg_with_user_errors (e.arg_option_hashes arg_contract_whitelist)
        missing_contract_white_list
  set_contract_whitelist new_contract_whitelist s'

unfoldable pub add_to_account_whitelist : Env → State → Result State
add_to_account_whitelist e s = do
  enforce_only_contract_creator_can_invoke e s
  key ←
      get_required_arg (e.arg_key arg_account_whitelist) missing_account_white_list
        invalid_account_whitelist
  existing_account_whitelist ←
      get_stored_value_with_user_errors s.account_whitelist missing_account_white_list
        invalid_account_whitelist
  new_account_for_whitelist ← unwrap_or_revert_with (into_account key) invalid_key
  cell ←
      overwrite s.account_whitelist missing_account_white_list invalid_account_whitelist
        (push existing_account_whitelist new_account_for_whitelist)
  ok (record s { account_whitelist = cell })

unfoldable pub remove_from_account_whitelist : Env → State → Result State
remove_from_account_whitelist e s = do
  enforce_only_contract_creator_can_invoke e s
  key ←
      get_required_arg (e.arg_key arg_account_whitelist) missing_account_white_list
        invalid_account_whitelist
  existing_account_whitelist ←
      get_stored_value_with_user_errors s.account_whitelist missing_account_white_list
        invalid_account_whitelist
  account_to_remove_from_whitelist ← unwrap_or_revert_with (into_account key) invalid_key
  index ←
      unwrap
        (position (λ item. item == account_to_remove_from_whitelist) existing_account_whitelist)
  cell ←
      overwrite s.account_whitelist missing_account_white_list invalid_account_whitelist
        (remove index existing_account_whitelist)
  ok (record s { account_whitelist = cell })
