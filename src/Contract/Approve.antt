-- ===== src/Contract/Approve.antt =====
-- The entry points `approve` and `set_approval_for_all` (casper/contract/src/main.rs).
use devxdao_m.Common.{ℕ, not, Option, none, some, List, [], ◌∷◌, leb, if◌then◌else◌}
use devxdao_m.Runtime.{
  Key, key_eq, Host, Env, Dict, dictionary_put, stored_dict, Result, ok, ◌>>=◌, ◌>>◌, revert_if,
  unwrap_or_revert_with,
}
use devxdao_m.Contract.Constants.{arg_operator, arg_approve_all}
use devxdao_m.Contract.Error.{
  invalid_token_identifier, invalid_account_hash, missing_approved_account_hash,
  invalid_approved_account_hash, invalid_account, missing_storage_uref, invalid_storage_uref,
  missing_approve_all, invalid_approve_all, missing_operator, invalid_operator,
}
use devxdao_m.Contract.Modes.{NftIdentifierMode}
use devxdao_m.Contract.State.{State}
use devxdao_m.Contract.Utils.Reads.{
  get_uref, get_identifier_mode, get_number_of_minted_tokens, get_dictionary_value_from_key, as_is,
}
use devxdao_m.Contract.Utils.Args.{get_required_arg}
use devxdao_m.Contract.Utils.Caller.{get_verified_caller}
use devxdao_m.Contract.Utils.Tokens.{
  TokenIdentifier, get_dictionary_item_key, get_owned_tokens_dictionary_item_key,
  get_token_identifier_from_runtime_args, get_token_identifiers_from_dictionary,
}
use devxdao_m.Contract.Counts.{require_transferable, require_unburnt}

-- The bounds check of `approve`: an identifier of the other kind passes.
unfoldable pub check_index : NftIdentifierMode → TokenIdentifier → ℕ → Result (Unit {0})
check_index NftIdentifierMode.ordinal (TokenIdentifier.index index) number_of_minted_tokens =
    revert_if (leb number_of_minted_tokens index) invalid_token_identifier
check_index _ _ number_of_minted_tokens = ok tt

unfoldable pub approve : Env → State → Result State
approve e s = do
  require_transferable s
  caller ← get_verified_caller e s
  identifier_mode ← get_identifier_mode s
  token_identifier ← get_token_identifier_from_runtime_args e identifier_mode
  number_of_minted_tokens ← get_number_of_minted_tokens s
  check_index identifier_mode token_identifier number_of_minted_tokens
  owner ←
      get_dictionary_value_from_key as_is s.token_owners (get_dictionary_item_key token_identifier)
  token_owner_key ← unwrap_or_revert_with owner invalid_account_hash
  revert_if (not (key_eq token_owner_key caller)) invalid_account_hash
  require_unburnt s token_identifier
  operator ←
      get_required_arg (e.arg_key arg_operator) missing_approved_account_hash
        invalid_approved_account_hash
  revert_if (key_eq token_owner_key operator) invalid_account
  approved_uref ← get_uref s.operator missing_storage_uref invalid_storage_uref
  ok (record s {
    operator =
        stored_dict
          (dictionary_put approved_uref (get_dictionary_item_key token_identifier) (some operator));
  })

-- The loop over the owned tokens.
unfoldable pub put_operators :
    Dict (Option Key) → List TokenIdentifier → Option Key → Dict (Option Key)
put_operators approved [] operator = approved
put_operators approved (token_id ∷ rest) operator =
    put_operators (dictionary_put approved (get_dictionary_item_key token_id) operator) rest
      operator

abbrev pub put_owned_operators :
    Dict (Option Key) → Option (List TokenIdentifier) → Option Key → Dict (Option Key)
put_owned_operators approved none operator = approved
put_owned_operators approved (some owned_tokens) operator =
    put_operators approved owned_tokens operator

unfoldable pub set_approval_for_all : Host → Env → State → Result State
set_approval_for_all h e s = do
  require_transferable s
  approve_all ←
      get_required_arg (e.arg_bool arg_approve_all) missing_approve_all invalid_approve_all
  operator ← get_required_arg (e.arg_key arg_operator) missing_operator invalid_operator
  caller ← get_verified_caller e s
  caller_dictionary_item_key ← get_owned_tokens_dictionary_item_key h caller
  approved_uref ← get_uref s.operator missing_storage_uref invalid_storage_uref
  identifier_mode ← get_identifier_mode s
  maybe_owned_tokens ←
      get_token_identifiers_from_dictionary identifier_mode s.owned_tokens
        caller_dictionary_item_key
  ok (record s {
    operator = stored_dict (
        put_owned_operators approved_uref maybe_owned_tokens
          (if approve_all then some operator else none));
  })
