-- ===== src/Contract/Transfer.antt =====
-- The entry point `transfer` (casper/contract/src/main.rs), a function for each of its parts.
use devxdao_m.Common.{
  Bool, false, not, ◌||◌, Option, none, some, List, [], ◌∷◌, push, any, contains, position, remove,
  ◌==◌,
}
use devxdao_m.Common.Text.{Text}
use devxdao_m.Runtime.{
  Key, key_eq, Host, Env, DictCell, dictionary_put, stored_dict, ApiError, Result, ok, revert,
  ◌>>=◌, ◌>>◌, revert_if, unwrap_or_revert_with,
}
use devxdao_m.Contract.Constants.{arg_source_key, arg_target_key}
use devxdao_m.Contract.Error.{
  invalid_token_identifier, missing_account_hash, invalid_account_hash, invalid_account,
  missing_installer, invalid_installer, missing_whitelist_mode, invalid_whitelist_mode,
  unlisted_account_hash, invalid_key, invalid_token_owner, fatal_token_id_duplication,
  missing_storage_uref, invalid_storage_uref, missing_receipt_name, invalid_receipt_name,
}
use devxdao_m.Contract.Modes.{NftIdentifierMode, NftHolderMode}
use devxdao_m.Contract.State.{State, OwnedTokens}
use devxdao_m.Contract.Utils.Reads.{
  get_uref, get_stored_value_with_user_errors, get_account_hash, get_holder_mode,
  get_identifier_mode, get_dictionary_value_from_key, upsert_dictionary_value_from_key, as_is,
}
use devxdao_m.Contract.Utils.Args.{get_required_arg}
use devxdao_m.Contract.Utils.Caller.{get_verified_caller}
use devxdao_m.Contract.Utils.Tokens.{
  TokenIdentifier, token_identifier_eq, get_dictionary_item_key,
  get_owned_tokens_dictionary_item_key, get_token_identifier_from_runtime_args,
  get_token_identifiers_from_dictionary, upsert_token_identifiers,
}
use devxdao_m.Contract.Counts.{
  require_transferable, require_unburnt, increment_count, decrement_count, owned_tokens_actual_key,
}

unfoldable pub token_owner : State → TokenIdentifier → Result Key
token_owner s token_identifier = do
  owner ←
      get_dictionary_value_from_key as_is s.token_owners (get_dictionary_item_key token_identifier)
  unwrap_or_revert_with owner invalid_token_identifier

-- `is_approved`: the operator of the token is the caller.
abbrev pub approves : Option (Option Key) → Key → Bool
approves (some (some approved_key)) caller = key_eq approved_key caller
approves (some none) caller = false
approves none caller = false

-- The test on the caller, which is made only in holder mode `Accounts`.
unfoldable pub check_rights_in : NftHolderMode → Bool → Result (Unit {0})
check_rights_in NftHolderMode.accounts may_transfer = revert_if (not may_transfer) invalid_account
check_rights_in _ may_transfer = ok tt

unfoldable pub check_rights :
    Env → State → NftHolderMode → TokenIdentifier → Key → Result (Unit {0})
check_rights e s holder_mode token_identifier token_owner_key = do
  caller ← get_verified_caller e s
  approved ←
      get_dictionary_value_from_key as_is s.operator (get_dictionary_item_key token_identifier)
  installing_account ← get_account_hash s.installer missing_installer invalid_installer
  check_rights_in holder_mode (
      key_eq caller token_owner_key
      || approves approved caller
      || key_eq caller (Key.account installing_account))

-- The `match` on the target's tag: a contract's hash is looked up as if it were an account's.
unfoldable pub check_account_whitelist : State → Key → Result (Unit {0})
check_account_whitelist s (Key.hash calling_account) = do
  account_whitelist ←
      get_stored_value_with_user_errors s.account_whitelist missing_whitelist_mode
        invalid_whitelist_mode
  revert_if (not (contains ◌==◌ account_whitelist calling_account)) unlisted_account_hash
check_account_whitelist s (Key.account calling_account) = do
  account_whitelist ←
      get_stored_value_with_user_errors s.account_whitelist missing_whitelist_mode
        invalid_whitelist_mode
  revert_if (not (contains ◌==◌ account_whitelist calling_account)) unlisted_account_hash
check_account_whitelist s (Key.other k) = revert (ApiError.user invalid_key)

-- The new entry of TOKEN_OWNERS.
unfoldable pub reassign_token : DictCell Key → TokenIdentifier → Key → Key → Result (DictCell Key)
reassign_token cell token_identifier from_token_owner_key target_owner_key = do
  owner ← get_dictionary_value_from_key as_is cell (get_dictionary_item_key token_identifier)
  token_actual_owner ← unwrap_or_revert_with owner invalid_token_identifier
  revert_if (not (key_eq token_actual_owner from_token_owner_key)) invalid_token_owner
  upsert_dictionary_value_from_key as_is cell (get_dictionary_item_key token_identifier)
      target_owner_key

-- The source's list without the token.
unfoldable pub remove_owned_token :
    NftIdentifierMode
    → DictCell OwnedTokens
    → Text
    → TokenIdentifier
    → Result (DictCell OwnedTokens)
remove_owned_token identifier_mode cell from_owner_item_key token_identifier = do
  maybe_owned_tokens ←
      get_token_identifiers_from_dictionary identifier_mode cell from_owner_item_key
  owned_tokens ← unwrap_or_revert_with maybe_owned_tokens invalid_token_identifier
  id ←
      unwrap_or_revert_with (position (λ id. token_identifier_eq id token_identifier) owned_tokens)
        invalid_token_owner
  upsert_token_identifiers identifier_mode cell from_owner_item_key (remove id owned_tokens)

-- The target's list with the token.
unfoldable pub receive_token :
    Option (List TokenIdentifier) → TokenIdentifier → Result (List TokenIdentifier)
receive_token none token_identifier = ok (token_identifier ∷ [])
receive_token (some owned_tokens) token_identifier = do
  revert_if (any (λ id. token_identifier_eq id token_identifier) owned_tokens)
      fatal_token_id_duplication
  ok (push owned_tokens token_identifier)

unfoldable pub receive_owned_token :
    NftIdentifierMode
    → DictCell OwnedTokens
    → Text
    → TokenIdentifier
    → Result (DictCell OwnedTokens)
receive_owned_token identifier_mode cell target_owner_item_key token_identifier = do
  maybe_owned_tokens ←
      get_token_identifiers_from_dictionary identifier_mode cell target_owner_item_key
  owned_tokens ← receive_token maybe_owned_tokens token_identifier
  upsert_token_identifiers identifier_mode cell target_owner_item_key owned_tokens

pub record TransferReceipt : Type 0 where
  pub receipt_name : Text
  pub owned_tokens_key : Key

-- What `transfer` has decoded and checked when it starts to write.
pub record TransferPlan : Type 0 where
  pub identifier_mode : NftIdentifierMode
  pub token_identifier : TokenIdentifier
  pub from_token_owner_key : Key
  pub target_owner_key : Key

unfoldable pub plan_transfer : Env → State → Result TransferPlan
plan_transfer e s = do
  require_transferable s
  holder_mode ← get_holder_mode s
  identifier_mode ← get_identifier_mode s
  token_identifier ← get_token_identifier_from_runtime_args e identifier_mode
  require_unburnt s token_identifier
  token_owner_key ← token_owner s token_identifier
  from_token_owner_key ←
      get_required_arg (e.arg_key arg_source_key) missing_account_hash invalid_account_hash
  revert_if (not (key_eq from_token_owner_key token_owner_key)) invalid_account
  check_rights e s holder_mode token_identifier token_owner_key
  target_owner_key ←
      get_required_arg (e.arg_key arg_target_key) missing_account_hash invalid_account_hash
  check_account_whitelist s target_owner_key
  ok (record {
    identifier_mode = identifier_mode;
    token_identifier = token_identifier;
    from_token_owner_key = from_token_owner_key;
    target_owner_key = target_owner_key;
  })

unfoldable pub execute_transfer : Host → State → TransferPlan → Result (State × TransferReceipt)
execute_transfer h s p = do
  target_owner_item_key ← get_owned_tokens_dictionary_item_key h p.target_owner_key
  from_owner_item_key ← get_owned_tokens_dictionary_item_key h p.from_token_owner_key
  token_owners ←
      reassign_token s.token_owners p.token_identifier p.from_token_owner_key p.target_owner_key
  owned_tokens ←
      remove_owned_token p.identifier_mode s.owned_tokens from_owner_item_key p.token_identifier
  token_counts ← decrement_count s.token_counts from_owner_item_key
  owned_tokens' ←
      receive_owned_token p.identifier_mode owned_tokens target_owner_item_key p.token_identifier
  token_counts' ← increment_count token_counts target_owner_item_key
  approved_uref ← get_uref s.operator missing_storage_uref invalid_storage_uref
  let operator =
      stored_dict (dictionary_put approved_uref (get_dictionary_item_key p.token_identifier) none)
  let s' = record s {
    token_owners = token_owners;
    owned_tokens = owned_tokens';
    token_counts = token_counts';
    operator = operator;
  }
  actual_key ← owned_tokens_actual_key h s' target_owner_item_key
  receipt_name ←
      get_stored_value_with_user_errors s'.receipt_name missing_receipt_name invalid_receipt_name
  ok (s', record { receipt_name = receipt_name; owned_tokens_key = actual_key })

unfoldable pub transfer : Host → Env → State → Result (State × TransferReceipt)
transfer h e s = do plan ← plan_transfer e s; execute_transfer h s plan
