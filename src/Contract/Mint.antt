-- ===== src/Contract/Mint.antt =====
-- The entry point `mint` (casper/contract/src/main.rs), a function for each of its parts.
use devxdao_m.Common.{
  ℕ, ◌+◌, ◌%◌, ◌^◌, not, Option, none, some, List, [], ◌∷◌, push, contains, leb, ◌==◌,
}
use devxdao_m.Common.Text.{Text}
use devxdao_m.Runtime.{
  Key, Host, Env, DictCell, ApiError, Result, ok, revert, ◌>>=◌, ◌>>◌, revert_if, unwrap_or_revert,
  unwrap_or_revert_with,
}
use devxdao_m.Contract.Constants.{arg_token_owner, arg_token_meta_data, arg_token_id_hash}
use devxdao_m.Contract.Error.{
  missing_allow_minting, invalid_allow_minting, minting_is_paused, missing_total_token_supply,
  invalid_total_token_supply, token_supply_depleted, missing_minting_mode, invalid_minting_mode,
  missing_whitelist_mode, invalid_whitelist_mode, unlisted_contract_hash, missing_installer_key,
  failed_to_convert_to_account_hash, invalid_minter, invalid_key, missing_token_meta_data,
  invalid_token_meta_data, fatal_token_id_duplication, missing_receipt_name, invalid_receipt_name,
}
use devxdao_m.Contract.Modes.{
  MintingMode, minting_mode_try_from, OwnershipMode, NftIdentifierMode, NftMetadataKind,
}
use devxdao_m.Contract.State.{State, OwnedTokens}
use devxdao_m.Contract.Utils.Reads.{
  get_stored_value_with_user_errors, get_ownership_mode, get_identifier_mode, get_metadata_kind,
  get_number_of_minted_tokens, overwrite, runtime_get_key, into_account, as_is,
  upsert_dictionary_value_from_key,
}
use devxdao_m.Contract.Utils.Args.{get_required_arg, runtime_get_named_arg}
use devxdao_m.Contract.Utils.Caller.{get_verified_caller}
use devxdao_m.Contract.Utils.Tokens.{
  TokenIdentifier, token_identifier_eq, get_dictionary_item_key,
  get_owned_tokens_dictionary_item_key, get_token_identifiers_from_dictionary,
  write_token_identifiers,
}
use devxdao_m.Contract.Utils.Metadata.{
  validate_metadata, metadata_dictionary, set_metadata_dictionary,
}
use devxdao_m.Contract.Counts.{increment_count, owned_tokens_actual_key}

unfoldable pub check_minting_status : State → Result (Unit {0})
check_minting_status s = do
  minting_status ←
      get_stored_value_with_user_errors s.allow_minting missing_allow_minting invalid_allow_minting
  revert_if (not minting_status) minting_is_paused

-- The index of the next token, if the supply is not exhausted.
unfoldable pub check_supply : State → Result ℕ
check_supply s = do
  total_token_supply ←
      get_stored_value_with_user_errors s.total_token_supply missing_total_token_supply
        invalid_total_token_supply
  next_index ← get_number_of_minted_tokens s
  revert_if (leb total_token_supply next_index) token_supply_depleted
  ok next_index

-- The `match` on the caller's tag under restricted minting.
unfoldable pub check_minter_key : Key → Env → State → Result (Unit {0})
check_minter_key (Key.hash calling_contract) e s = do
  contract_whitelist ←
      get_stored_value_with_user_errors s.contract_whitelist missing_whitelist_mode
        invalid_whitelist_mode
  revert_if (not (contains ◌==◌ contract_whitelist calling_contract)) unlisted_contract_hash
check_minter_key (Key.account a) e s = do
  named ← runtime_get_key s.installer
  installer_key ← unwrap_or_revert_with named missing_installer_key
  installer_account ←
      unwrap_or_revert_with (into_account installer_key) failed_to_convert_to_account_hash
  revert_if (not (e.caller == installer_account)) invalid_minter
check_minter_key (Key.other k) e s = revert (ApiError.user invalid_key)

unfoldable pub check_minter_in : MintingMode → Env → State → Result (Unit {0})
check_minter_in MintingMode.installer e s = do
  caller ← get_verified_caller e s
  check_minter_key caller e s
check_minter_in MintingMode.public e s = ok tt

unfoldable pub check_minter : Env → State → Result (Unit {0})
check_minter e s = do
  value ← get_stored_value_with_user_errors s.minting_mode missing_minting_mode invalid_minting_mode
  minting_mode ← unwrap_or_revert (minting_mode_try_from value)
  check_minter_in minting_mode e s

-- Who owns the token that is minted.
unfoldable pub new_token_owner_in : OwnershipMode → Key → Env → Result Key
new_token_owner_in OwnershipMode.minter caller e = ok caller
new_token_owner_in OwnershipMode.assigned caller e =
    runtime_get_named_arg (e.arg_key arg_token_owner)
new_token_owner_in OwnershipMode.transferable caller e =
    runtime_get_named_arg (e.arg_key arg_token_owner)

unfoldable pub new_token_owner : Env → State → Result Key
new_token_owner e s = do
  ownership_mode ← get_ownership_mode s
  caller ← get_verified_caller e s
  new_token_owner_in ownership_mode caller e

-- The argument's metadata, checked and printed, for the dictionary of its kind.
unfoldable pub new_metadata : Host → Env → State → NftMetadataKind → Result Text
new_metadata h e s metadata_kind = do
  token_metadata ←
      get_required_arg (e.arg_text arg_token_meta_data) missing_token_meta_data
        invalid_token_meta_data
  validate_metadata h s metadata_kind token_metadata

unfoldable pub new_token_identifier : NftIdentifierMode → Env → ℕ → Result TokenIdentifier
new_token_identifier NftIdentifierMode.ordinal e next_index = ok (TokenIdentifier.index next_index)
new_token_identifier NftIdentifierMode.hash e next_index = do
  token_id_hash ← runtime_get_named_arg (e.arg_text arg_token_id_hash)
  ok (TokenIdentifier.hash token_id_hash)

-- Owner, issuer and metadata, written whatever the dictionaries hold at the key.
unfoldable pub record_token : TokenIdentifier → Key → NftMetadataKind → Text → State → Result State
record_token token_identifier token_owner_key metadata_kind metadata s = do
  token_owners ←
      upsert_dictionary_value_from_key as_is s.token_owners
        (get_dictionary_item_key token_identifier) token_owner_key
  token_issuers ←
      upsert_dictionary_value_from_key as_is s.token_issuers
        (get_dictionary_item_key token_identifier) token_owner_key
  entry ←
      upsert_dictionary_value_from_key as_is (metadata_dictionary metadata_kind s)
        (get_dictionary_item_key token_identifier) metadata
  ok (
      set_metadata_dictionary metadata_kind entry
        (record s { token_owners = token_owners; token_issuers = token_issuers }))

-- The list with the new token, unless the list holds it.
unfoldable pub append_token :
    Option (List TokenIdentifier) → TokenIdentifier → Result (List TokenIdentifier)
append_token none token_identifier = ok (token_identifier ∷ [])
append_token (some owned_tokens) token_identifier = do
  revert_if (contains token_identifier_eq owned_tokens token_identifier) fatal_token_id_duplication
  ok (push owned_tokens token_identifier)

unfoldable pub add_owned_token :
    NftIdentifierMode
    → DictCell OwnedTokens
    → Text
    → TokenIdentifier
    → Result (DictCell OwnedTokens)
add_owned_token identifier_mode cell item_key token_identifier = do
  maybe_owned_tokens ← get_token_identifiers_from_dictionary identifier_mode cell item_key
  owned_tokens ← append_token maybe_owned_tokens token_identifier
  write_token_identifiers ApiError.no_value identifier_mode cell item_key owned_tokens

pub record MintReceipt : Type 0 where
  pub receipt_name : Text
  pub owned_tokens_key : Key
  pub token_identifier : Text

unfoldable pub mint : Host → Env → State → Result (State × MintReceipt)
mint h e s = do
  check_minting_status s
  next_index ← check_supply s
  check_minter e s
  token_owner_key ← new_token_owner e s
  metadata_kind ← get_metadata_kind s
  metadata ← new_metadata h e s metadata_kind
  identifier_mode ← get_identifier_mode s
  token_identifier ← new_token_identifier identifier_mode e next_index
  s1 ← record_token token_identifier token_owner_key metadata_kind metadata s
  item_key ← get_owned_tokens_dictionary_item_key h token_owner_key
  actual_key ← owned_tokens_actual_key h s1 item_key
  owned_tokens ← add_owned_token identifier_mode s1.owned_tokens item_key token_identifier
  token_counts ← increment_count s1.token_counts item_key
  number_of_minted_tokens ←
      overwrite s1.number_of_minted_tokens missing_total_token_supply invalid_total_token_supply
        ((next_index + 1) % 2 ^ 64)
  receipt_name ←
      get_stored_value_with_user_errors s1.receipt_name missing_receipt_name invalid_receipt_name
  ok (
    record s1 {
      owned_tokens = owned_tokens;
      token_counts = token_counts;
      number_of_minted_tokens = number_of_minted_tokens;
    },
    record {
      receipt_name = receipt_name;
      owned_tokens_key = actual_key;
      token_identifier = get_dictionary_item_key token_identifier;
    },
  )
