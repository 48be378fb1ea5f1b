-- ===== src/Contract/Utils/Reads.antt =====
-- Reading named keys, stored values and dictionaries (casper/contract/src/utils.rs).
use devxdao_m.Common.{ℕ, Bool, true, false, Option, none, some}
use devxdao_m.Common.Text.{Text}
use devxdao_m.Runtime.{
  Key, NamedKey, Target, not_uref, uref, Slot, Cell, DictCell, dictionary_get, dictionary_put,
  stored, stored_dict, ApiError, Result, ok, revert, ◌>>=◌, unwrap_or_revert, unwrap_or_revert_with,
}
use devxdao_m.Contract.Error.{
  NftCoreError, unexpected_key_variant, missing_storage_uref, invalid_storage_uref,
  missing_ownership_mode, invalid_ownership_mode, missing_holder_mode, invalid_holder_mode,
  missing_identifier_mode, invalid_identifier_mode, missing_nft_metadata_kind,
  invalid_nft_metadata_kind, missing_number_of_minted_tokens, invalid_number_of_minted_tokens,
}
use devxdao_m.Contract.Modes.{
  OwnershipMode, ownership_mode_try_from, NftHolderMode, holder_mode_try_from, NftIdentifierMode,
  identifier_mode_try_from, NftMetadataKind, nft_metadata_kind_try_from,
}
use devxdao_m.Contract.State.{State}

-- `get_key_with_user_errors(name, missing, invalid)`
abbrev pub get_key_with_user_errors :
    {A : Type 0} → NamedKey A → NftCoreError → NftCoreError → Result A
get_key_with_user_errors NamedKey.missing absent invalid = revert (ApiError.user absent)
get_key_with_user_errors (NamedKey.failed e) absent invalid = revert (ApiError.host_error e)
get_key_with_user_errors NamedKey.malformed absent invalid = revert (ApiError.user invalid)
get_key_with_user_errors (NamedKey.found a) absent invalid = ok a

abbrev into_uref : {A : Type 0} → Target A → Option A
into_uref not_uref = none
into_uref (uref a) = some a

abbrev pub get_uref : {A : Type 0} → NamedKey (Target A) → NftCoreError → NftCoreError → Result A
get_uref key absent invalid = do
  target ← get_key_with_user_errors key absent invalid
  unwrap_or_revert_with (into_uref target) unexpected_key_variant

abbrev pub read_with_user_errors : {A : Type 0} → Slot A → NftCoreError → NftCoreError → Result A
read_with_user_errors Slot.not_found absent invalid = revert (ApiError.user absent)
read_with_user_errors (Slot.read_error e) absent invalid = revert (ApiError.host_error e)
read_with_user_errors Slot.undecodable absent invalid = revert (ApiError.user invalid)
read_with_user_errors (Slot.holds a) absent invalid = ok a

abbrev pub get_stored_value_with_user_errors :
    {A : Type 0} → Cell A → NftCoreError → NftCoreError → Result A
get_stored_value_with_user_errors cell absent invalid = do
  slot ← get_uref cell absent invalid
  read_with_user_errors slot absent invalid

-- `Key::into_account` and `Key::into_hash`
abbrev pub into_account : Key → Option ℕ
into_account (Key.account a) = some a
into_account _ = none

abbrev pub into_hash : Key → Option ℕ
into_hash (Key.hash a) = some a
into_hash _ = none

abbrev pub get_account_hash : NamedKey Key → NftCoreError → NftCoreError → Result ℕ
get_account_hash named absent invalid = do
  key ← get_key_with_user_errors named absent invalid
  unwrap_or_revert_with (into_account key) unexpected_key_variant

-- `named_uref_exists(name)`: the host answered with a key, whatever its bytes hold.
abbrev pub named_uref_exists : {A : Type 0} → NamedKey A → Bool
named_uref_exists NamedKey.missing = false
named_uref_exists (NamedKey.failed e) = false
named_uref_exists NamedKey.malformed = true
named_uref_exists (NamedKey.found a) = true

-- `decode` reads an entry at the type that the call asks for.
abbrev pub get_dictionary_value_from_key :
    {A V : Type 0} → (V → Option A) → DictCell V → Text → Result (Option A)
get_dictionary_value_from_key decode cell key = do
  seed_uref ← get_uref cell missing_storage_uref invalid_storage_uref
  dictionary_get decode seed_uref key

-- The dictionary after the write.
abbrev pub upsert_dictionary_value_from_key :
    {A V : Type 0} → (V → Option A) → DictCell V → Text → V → Result (DictCell V)
upsert_dictionary_value_from_key decode cell key value = do
  seed_uref ← get_uref cell missing_storage_uref invalid_storage_uref
  old ← dictionary_get decode seed_uref key
  ok (stored_dict (dictionary_put seed_uref key value))

unfoldable pub get_ownership_mode : State → Result OwnershipMode
get_ownership_mode s = do
  value ←
      get_stored_value_with_user_errors s.ownership_mode missing_ownership_mode
        invalid_ownership_mode
  unwrap_or_revert (ownership_mode_try_from value)

unfoldable pub get_holder_mode : State → Result NftHolderMode
get_holder_mode s = do
  value ← get_stored_value_with_user_errors s.holder_mode missing_holder_mode invalid_holder_mode
  unwrap_or_revert (holder_mode_try_from value)

-- The modes that the entry points read in the same way.
unfoldable pub get_identifier_mode : State → Result NftIdentifierMode
get_identifier_mode s = do
  value ←
      get_stored_value_with_user_errors s.identifier_mode missing_identifier_mode
        invalid_identifier_mode
  unwrap_or_revert (identifier_mode_try_from value)

unfoldable pub get_metadata_kind : State → Result NftMetadataKind
get_metadata_kind s = do
  value ←
      get_stored_value_with_user_errors s.nft_metadata_kind missing_nft_metadata_kind
        invalid_nft_metadata_kind
  unwrap_or_revert (nft_metadata_kind_try_from value)

unfoldable pub get_number_of_minted_tokens : State → Result ℕ
get_number_of_minted_tokens s =
    get_stored_value_with_user_errors s.number_of_minted_tokens missing_number_of_minted_tokens
      invalid_number_of_minted_tokens

-- `get_uref(NAME, missing, invalid)` followed by `storage::write`: the cell after the write.
abbrev pub overwrite : {A : Type 0} → Cell A → NftCoreError → NftCoreError → A → Result (Cell A)
overwrite cell absent invalid value = do slot ← get_uref cell absent invalid; ok (stored value)

-- `runtime::get_key(INSTALLER)`
abbrev pub runtime_get_key : {A : Type 0} → NamedKey A → Result (Option A)
runtime_get_key NamedKey.missing = ok none
runtime_get_key (NamedKey.failed e) = revert (ApiError.host_error e)
runtime_get_key NamedKey.malformed = revert ApiError.decoding
runtime_get_key (NamedKey.found a) = ok (some a)

-- How an entry of each dictionary but OWNED_TOKENS is decoded: it is only ever written at one type.
abbrev pub as_is : {A : Type 0} → A → Option A
as_is a = some a
