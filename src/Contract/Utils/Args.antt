-- ===== src/Contract/Utils/Args.antt =====
-- Named arguments (casper/contract/src/utils.rs), and the call of `runtime::get_named_arg`.
use devxdao_m.Common.{Option, none}
use devxdao_m.Runtime.{
  Arg, ApiError, Result, ok, revert, Try, success, failure, ◌>>=◌, unwrap_or_revert,
}
use devxdao_m.Contract.Error.{NftCoreError, failed_to_get_arg_bytes, phantom}

abbrev pub get_named_arg_with_user_errors :
    {A : Type 0} → Arg A → NftCoreError → NftCoreError → Result (Try A)
get_named_arg_with_user_errors Arg.absent missing invalid = ok (failure missing)
get_named_arg_with_user_errors (Arg.size_error e) missing invalid = revert (ApiError.host_error e)
get_named_arg_with_user_errors (Arg.bytes_error e) missing invalid =
    revert (ApiError.user failed_to_get_arg_bytes)
get_named_arg_with_user_errors Arg.undecodable missing invalid = ok (failure invalid)
get_named_arg_with_user_errors (Arg.given a) missing invalid = ok (success a)

-- The argument is decoded as an `Option`; an error of any kind counts as `None`.
abbrev pub get_optional_named_arg_with_user_errors :
    {A : Type 0} → Arg (Option A) → NftCoreError → Result (Option A)
get_optional_named_arg_with_user_errors arg invalid = do
  fetched ← get_named_arg_with_user_errors arg phantom invalid
  ok (val fetched)
  where
    val : {A : Type 0} → Try (Option A) → Option A
    val (success a) = a
    val (failure e) = none

-- The same followed by `unwrap_or_revert`.
abbrev pub get_required_arg : {A : Type 0} → Arg A → NftCoreError → NftCoreError → Result A
get_required_arg arg missing invalid = do
  fetched ← get_named_arg_with_user_errors arg missing invalid
  unwrap_or_revert fetched

-- `runtime::get_named_arg`
abbrev pub runtime_get_named_arg : {A : Type 0} → Arg A → Result A
runtime_get_named_arg Arg.absent = revert ApiError.missing_argument
runtime_get_named_arg (Arg.size_error e) = revert (ApiError.host_error e)
runtime_get_named_arg (Arg.bytes_error e) = revert (ApiError.host_error e)
runtime_get_named_arg Arg.undecodable = revert ApiError.invalid_argument
runtime_get_named_arg (Arg.given a) = ok a
