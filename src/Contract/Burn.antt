-- ===== src/Contract/Burn.antt =====
-- The entry point `burn` (casper/contract/src/main.rs).
use devxdao_m.Common.{not}
use devxdao_m.Runtime.{
  Key, key_eq, Host, Env, Result, ok, ◌>>=◌, ◌>>◌, revert_if, unwrap_or_revert_with,
}
use devxdao_m.Contract.Error.{invalid_token_owner, invalid_token_identifier}
use devxdao_m.Contract.State.{State}
use devxdao_m.Contract.Utils.Reads.{
  get_identifier_mode, get_dictionary_value_from_key, upsert_dictionary_value_from_key, as_is,
}
use devxdao_m.Contract.Utils.Caller.{get_verified_caller, enforce_only_contract_creator_can_invoke}
use devxdao_m.Contract.Utils.Tokens.{
  TokenIdentifier, get_dictionary_item_key, get_owned_tokens_dictionary_item_key,
  get_token_identifier_from_runtime_args,
}
use devxdao_m.Contract.Counts.{require_unburnt, decrement_count}

-- The owner on record, which must be `expected_token_owner`.
unfoldable pub require_owner : State → TokenIdentifier → Key → Result Key
require_owner s token_identifier expected_token_owner = do
  owner ←
      get_dictionary_value_from_key as_is s.token_owners (get_dictionary_item_key token_identifier)
  token_owner_key ← unwrap_or_revert_with owner invalid_token_identifier
  revert_if (not (key_eq token_owner_key expected_token_owner)) invalid_token_owner
  ok token_owner_key

unfoldable pub burn : Host → Env → State → Result State
burn h e s = do
  enforce_only_contract_creator_can_invoke e s
  identifier_mode ← get_identifier_mode s
  token_identifier ← get_token_identifier_from_runtime_args e identifier_mode
  expected_token_owner ← get_verified_caller e s
  token_owner ← require_owner s token_identifier expected_token_owner
  require_unburnt s token_identifier
  burnt_tokens ←
      upsert_dictionary_value_from_key as_is s.burnt_tokens
        (get_dictionary_item_key token_identifier) tt
  item_key ← get_owned_tokens_dictionary_item_key h token_owner
  token_counts ← decrement_count s.token_counts item_key
  ok (record s { burnt_tokens = burnt_tokens; token_counts = token_counts })
