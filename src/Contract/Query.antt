-- ===== src/Contract/Query.antt =====
-- The entry points that only answer (casper/contract/src/main.rs), and `set_token_metadata`.
use devxdao_m.Common.{ℕ, not, Option, none, unwrap_or}
use devxdao_m.Common.Text.{Text}
use devxdao_m.Runtime.{
  Key, key_eq, Host, Env, ApiError, Result, ok, revert, ◌>>=◌, ◌>>◌, revert_if, unwrap_or_revert,
  unwrap_or_revert_with,
}
use devxdao_m.Contract.Constants.{arg_token_owner, arg_token_meta_data}
use devxdao_m.Contract.Error.{
  missing_account_hash, invalid_account_hash, invalid_token_identifier, missing_nft_metadata_kind,
  invalid_nft_metadata_kind, missing_metadata_mutability, invalid_metadata_mutability,
  forbidden_metadata_update, invalid_token_owner, missing_token_meta_data, invalid_token_meta_data,
}
use devxdao_m.Contract.Modes.{
  nft_metadata_kind_try_from, MetadataMutability, metadata_mutability_try_from,
}
use devxdao_m.Contract.State.{State}
use devxdao_m.Contract.Utils.Reads.{
  get_stored_value_with_user_errors, get_identifier_mode, get_number_of_minted_tokens,
  get_metadata_kind, get_dictionary_value_from_key, upsert_dictionary_value_from_key, as_is,
}
use devxdao_m.Contract.Utils.Args.{get_required_arg}
use devxdao_m.Contract.Utils.Caller.{get_verified_caller, enforce_only_contract_creator_can_invoke}
use devxdao_m.Contract.Utils.Tokens.{
  get_dictionary_item_key, get_owned_tokens_dictionary_item_key,
  get_token_identifier_from_runtime_args,
}
use devxdao_m.Contract.Utils.Metadata.{
  validate_metadata, metadata_dictionary, set_metadata_dictionary,
}
use devxdao_m.Contract.Counts.{require_unburnt, require_in_bounds}

unfoldable pub balance_of : Host → Env → State → Result ℕ
balance_of h e s = do
  owner_key ← get_required_arg (e.arg_key arg_token_owner) missing_account_hash invalid_account_hash
  owner_key_item_string ← get_owned_tokens_dictionary_item_key h owner_key
  balance ← get_dictionary_value_from_key as_is s.token_counts owner_key_item_string
  ok (unwrap_or balance 0)

unfoldable pub owner_of : Env → State → Result Key
owner_of e s = do
  identifier_mode ← get_identifier_mode s
  token_identifier ← get_token_identifier_from_runtime_args e identifier_mode
  number_of_minted_tokens ← get_number_of_minted_tokens s
  require_in_bounds identifier_mode token_identifier number_of_minted_tokens
  maybe_token_owner ←
      get_dictionary_value_from_key as_is s.token_owners (get_dictionary_item_key token_identifier)
  unwrap_or_revert_with maybe_token_owner invalid_token_identifier

-- The kind is read under METADATA_SCHEMA.
unfoldable pub metadata : Env → State → Result Text
metadata e s = do
  number_of_minted_tokens ← get_number_of_minted_tokens s
  identifier_mode ← get_identifier_mode s
  token_identifier ← get_token_identifier_from_runtime_args e identifier_mode
  require_in_bounds identifier_mode token_identifier number_of_minted_tokens
  value ←
      get_stored_value_with_user_errors s.metadata_schema missing_nft_metadata_kind
        invalid_nft_metadata_kind
  metadata_kind ← unwrap_or_revert (nft_metadata_kind_try_from value)
  maybe_token_metadata ←
      get_dictionary_value_from_key as_is (metadata_dictionary metadata_kind s)
        (get_dictionary_item_key token_identifier)
  unwrap_or_revert_with maybe_token_metadata invalid_token_identifier

unfoldable pub get_approved : Env → State → Result (Option Key)
get_approved e s = do
  identifier_mode ← get_identifier_mode s
  token_identifier ← get_token_identifier_from_runtime_args e identifier_mode
  number_of_minted_tokens ← get_number_of_minted_tokens s
  require_in_bounds identifier_mode token_identifier number_of_minted_tokens
  require_unburnt s token_identifier
  maybe_approved ←
      get_dictionary_value_from_key as_is s.operator (get_dictionary_item_key token_identifier)
  ok (unwrap_or maybe_approved none)

unfoldable pub require_mutable : MetadataMutability → Result (Unit {0})
require_mutable MetadataMutability.immutable = revert (ApiError.user forbidden_metadata_update)
require_mutable MetadataMutability.mutable = ok tt

unfoldable pub set_token_metadata : Host → Env → State → Result State
set_token_metadata h e s = do
  enforce_only_contract_creator_can_invoke e s
  value ←
      get_stored_value_with_user_errors s.metadata_mutability missing_metadata_mutability
        invalid_metadata_mutability
  metadata_mutability ← unwrap_or_revert (metadata_mutability_try_from value)
  require_mutable metadata_mutability
  identifier_mode ← get_identifier_mode s
  token_identifier ← get_token_identifier_from_runtime_args e identifier_mode
  token_owner ←
      get_dictionary_value_from_key as_is s.token_owners (get_dictionary_item_key token_identifier)
  token_owner_key ← unwrap_or_revert_with token_owner invalid_token_identifier
  caller ← get_verified_caller e s
  revert_if (not (key_eq caller token_owner_key)) invalid_token_owner
  metadata_kind ← get_metadata_kind s
  updated_token_metadata ←
      get_required_arg (e.arg_text arg_token_meta_data) missing_token_meta_data
        invalid_token_meta_data
  updated_metadata ← validate_metadata h s metadata_kind updated_token_metadata
  entry ←
      upsert_dictionary_value_from_key as_is (metadata_dictionary metadata_kind s)
        (get_dictionary_item_key token_identifier) updated_metadata
  ok (set_metadata_dictionary metadata_kind entry s)
