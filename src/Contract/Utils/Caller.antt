-- ===== src/Contract/Utils/Caller.antt =====
-- Who calls (casper/contract/src/utils.rs, and the installer check of casper/contract/src/main.rs).
use devxdao_m.Common.{not, Option, none, some, List, [], ◌∷◌, ◌==◌}
use devxdao_m.Runtime.{
  Key, CallStackElement, Env, ApiError, Result, ok, revert, ◌>>=◌, revert_if, some_or_revert,
}
use devxdao_m.Contract.Error.{
  missing_installer, invalid_installer, invalid_account, invalid_holder_mode,
}
use devxdao_m.Contract.Modes.{NftHolderMode}
use devxdao_m.Contract.State.{State}
use devxdao_m.Contract.Utils.Reads.{get_account_hash, get_holder_mode}

-- `iter().nth_back(1)`: the last element but one
unfoldable pub nth_back_one : List CallStackElement → Option CallStackElement
nth_back_one [] = none
nth_back_one (x ∷ []) = none
nth_back_one (x ∷ y ∷ []) = some x
nth_back_one (x ∷ y ∷ z ∷ r) = nth_back_one (y ∷ z ∷ r)

-- The `match` on the calling element; an `Err` is the revert that every caller makes of it.
unfoldable pub verify_element : CallStackElement → NftHolderMode → Result Key
verify_element (CallStackElement.session a) NftHolderMode.contracts =
    revert (ApiError.user invalid_holder_mode)
verify_element (CallStackElement.session a) _ = ok (Key.account a)
verify_element (CallStackElement.stored_session c) NftHolderMode.accounts =
    revert (ApiError.user invalid_holder_mode)
verify_element (CallStackElement.stored_session c) _ = ok (Key.hash c)
verify_element (CallStackElement.stored_contract c) NftHolderMode.accounts =
    revert (ApiError.user invalid_holder_mode)
verify_element (CallStackElement.stored_contract c) _ = ok (Key.hash c)

unfoldable pub get_verified_caller : Env → State → Result Key
get_verified_caller e s = do
  holder_mode ← get_holder_mode s
  element ← some_or_revert (nth_back_one e.call_stack)
  verify_element element holder_mode

-- `enforce_only_contract_creator_can_invoke`, which the entry points of the installer also write out
unfoldable pub enforce_only_contract_creator_can_invoke : Env → State → Result (Unit {0})
enforce_only_contract_creator_can_invoke e s = do
  installing_account ← get_account_hash s.installer missing_installer invalid_installer
  revert_if (not (installing_account == e.caller)) invalid_account
