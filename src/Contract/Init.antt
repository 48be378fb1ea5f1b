-- ===== src/Contract/Init.antt =====
-- The entry point `init` (casper/contract/src/main.rs): it decodes the arguments, stores them under
-- their names, and creates the dictionaries.
use devxdao_m.Common.{ℕ, Bool, true, false, ◌&&◌, not, none, List, is_empty}
use devxdao_m.Common.Text.{Text}
use devxdao_m.Runtime.{
  DictCell, stored, stored_dict, Host, Env, Result, ok, ◌>>=◌, ◌>>◌, revert_if, unwrap_or_revert,
  unwrap_or_revert_with,
}
use devxdao_m.Contract.Constants
use devxdao_m.Contract.Error.{
  contract_already_initialized, missing_collection_name, invalid_collection_name,
  missing_collection_symbol, invalid_collection_symbol, missing_total_token_supply,
  invalid_total_token_supply, missing_minting_status, invalid_minting_status, missing_minting_mode,
  invalid_minting_mode, missing_ownership_mode, invalid_ownership_mode, missing_nft_kind,
  invalid_nft_kind, missing_holder_mode, invalid_holder_mode, missing_whitelist_mode,
  invalid_whitelist_mode, missing_contract_white_list, invalid_contract_whitelist,
  missing_account_white_list, invalid_account_whitelist, empty_contract_whitelist,
  missing_json_schema, invalid_json_schema, missing_receipt_name, invalid_receipt_name,
  missing_nft_metadata_kind, invalid_nft_metadata_kind, missing_identifier_mode,
  invalid_identifier_mode, missing_metadata_mutability, invalid_metadata_mutability,
  failed_to_create_dictionary,
}
use devxdao_m.Contract.Modes.{
  MintingMode, minting_mode_try_from, minting_mode_as_u8, OwnershipMode, ownership_mode_try_from,
  ownership_mode_as_u8, NftKind, nft_kind_try_from, nft_kind_as_u8, NftHolderMode,
  holder_mode_try_from, holder_mode_as_u8, WhitelistMode, whitelist_mode_try_from,
  whitelist_mode_as_u8, NftMetadataKind, nft_metadata_kind_try_from, nft_metadata_kind_as_u8,
  NftIdentifierMode, identifier_mode_try_from, identifier_mode_as_u8, MetadataMutability,
  metadata_mutability_try_from, metadata_mutability_as_u8,
}
use devxdao_m.Contract.State.{State}
use devxdao_m.Contract.Utils.Reads.{named_uref_exists}
use devxdao_m.Contract.Utils.Args.{get_required_arg}

-- The locals of `init` once every argument has been decoded.
pub record InitArgs : Type 0 where
  pub collection_name : Text
  pub collection_symbol : Text
  pub total_token_supply : ℕ
  pub allow_minting : Bool
  pub minting_mode : MintingMode
  pub ownership_mode : OwnershipMode
  pub nft_kind : NftKind
  pub holder_mode : NftHolderMode
  pub whitelist_mode : WhitelistMode
  pub contract_whitelist : List ℕ
  pub account_whitelist : List ℕ
  pub json_schema : Text
  pub receipt_name : Text
  pub nft_metadata_kind : NftMetadataKind
  pub identifier_mode : NftIdentifierMode
  pub metadata_mutability : MetadataMutability

abbrev pub is_locked : WhitelistMode → Bool
is_locked WhitelistMode.locked = true
is_locked WhitelistMode.unlocked = false

abbrev pub is_accounts : NftHolderMode → Bool
is_accounts NftHolderMode.accounts = true
is_accounts _ = false

-- `if let CustomValidated = nft_metadata_kind { … }`
unfoldable pub check_schema : Host → NftMetadataKind → Text → Result (Unit {0})
check_schema h NftMetadataKind.custom_validated json_schema = do
  schema ← unwrap_or_revert_with (h.parse_schema json_schema) invalid_json_schema
  ok tt
check_schema h _ json_schema = ok tt

unfoldable pub init_args : Host → Env → Result InitArgs
init_args h e = do
  collection_name ←
      get_required_arg (e.arg_text Constants.arg_collection_name) missing_collection_name
        invalid_collection_name
  collection_symbol ←
      get_required_arg (e.arg_text Constants.arg_collection_symbol) missing_collection_symbol
        invalid_collection_symbol
  total_token_supply ←
      get_required_arg (e.arg_u64 Constants.arg_total_token_supply) missing_total_token_supply
        invalid_total_token_supply
  allow_minting ←
      get_required_arg (e.arg_bool Constants.arg_allow_minting) missing_minting_status
        invalid_minting_status
  minting_mode_value ←
      get_required_arg (e.arg_u8 Constants.arg_minting_mode) missing_minting_mode
        invalid_minting_mode
  minting_mode ← unwrap_or_revert (minting_mode_try_from minting_mode_value)
  ownership_mode_value ←
      get_required_arg (e.arg_u8 Constants.arg_ownership_mode) missing_ownership_mode
        invalid_ownership_mode
  ownership_mode ← unwrap_or_revert (ownership_mode_try_from ownership_mode_value)
  nft_kind_value ←
      get_required_arg (e.arg_u8 Constants.arg_nft_kind) missing_nft_kind invalid_nft_kind
  nft_kind ← unwrap_or_revert (nft_kind_try_from nft_kind_value)
  holder_mode_value ←
      get_required_arg (e.arg_u8 Constants.arg_holder_mode) missing_holder_mode invalid_holder_mode
  holder_mode ← unwrap_or_revert (holder_mode_try_from holder_mode_value)
  whitelist_mode_value ←
      get_required_arg (e.arg_u8 Constants.arg_whitelist_mode) missing_whitelist_mode
        invalid_whitelist_mode
  whitelist_mode ← unwrap_or_revert (whitelist_mode_try_from whitelist_mode_value)
  contract_whitelist ←
      get_required_arg (e.arg_hashes Constants.arg_contract_whitelist) missing_contract_white_list
        invalid_contract_whitelist
  account_whitelist ←
      get_required_arg (e.arg_hashes Constants.arg_account_whitelist) missing_account_white_list
        invalid_account_whitelist
  revert_if
      (is_locked whitelist_mode && is_empty contract_whitelist && not (is_accounts holder_mode))
      empty_contract_whitelist
  json_schema ←
      get_required_arg (e.arg_text Constants.arg_json_schema) missing_json_schema
        invalid_json_schema
  receipt_name ←
      get_required_arg (e.arg_text Constants.arg_receipt_name) missing_receipt_name
        invalid_receipt_name
  nft_metadata_kind_value ←
      get_required_arg (e.arg_u8 Constants.arg_nft_metadata_kind) missing_nft_metadata_kind
        invalid_nft_metadata_kind
  nft_metadata_kind ← unwrap_or_revert (nft_metadata_kind_try_from nft_metadata_kind_value)
  check_schema h nft_metadata_kind json_schema
  identifier_mode_value ←
      get_required_arg (e.arg_u8 Constants.arg_identifier_mode) missing_identifier_mode
        invalid_identifier_mode
  identifier_mode ← unwrap_or_revert (identifier_mode_try_from identifier_mode_value)
  metadata_mutability_value ←
      get_required_arg (e.arg_u8 Constants.arg_metadata_mutability) missing_metadata_mutability
        invalid_metadata_mutability
  metadata_mutability ← unwrap_or_revert (metadata_mutability_try_from metadata_mutability_value)
  ok (record {
    collection_name = collection_name;
    collection_symbol = collection_symbol;
    total_token_supply = total_token_supply;
    allow_minting = allow_minting;
    minting_mode = minting_mode;
    ownership_mode = ownership_mode;
    nft_kind = nft_kind;
    holder_mode = holder_mode;
    whitelist_mode = whitelist_mode;
    contract_whitelist = contract_whitelist;
    account_whitelist = account_whitelist;
    json_schema = json_schema;
    receipt_name = receipt_name;
    nft_metadata_kind = nft_metadata_kind;
    identifier_mode = identifier_mode;
    metadata_mutability = metadata_mutability;
  })

-- the calls of `put_key`
unfoldable pub put_keys : InitArgs → State → State
put_keys a s = record s {
  collection_name = stored a.collection_name;
  collection_symbol = stored a.collection_symbol;
  total_token_supply = stored a.total_token_supply;
  ownership_mode = stored (ownership_mode_as_u8 a.ownership_mode);
  nft_kind = stored (nft_kind_as_u8 a.nft_kind);
  json_schema = stored a.json_schema;
  minting_mode = stored (minting_mode_as_u8 a.minting_mode);
  holder_mode = stored (holder_mode_as_u8 a.holder_mode);
  whitelist_mode = stored (whitelist_mode_as_u8 a.whitelist_mode);
  contract_whitelist = stored a.contract_whitelist;
  account_whitelist = stored a.account_whitelist;
  receipt_name = stored a.receipt_name;
  nft_metadata_kind = stored (nft_metadata_kind_as_u8 a.nft_metadata_kind);
  identifier_mode = stored (identifier_mode_as_u8 a.identifier_mode);
  metadata_mutability = stored (metadata_mutability_as_u8 a.metadata_mutability);
  allow_minting = stored a.allow_minting;
  number_of_minted_tokens = stored 0;
}

-- `storage::new_dictionary(NAME).unwrap_or_revert_with(FailedToCreateDictionary)`: the host library
-- refuses a name that has a key.
unfoldable pub new_dictionary : {A : Type 0} → DictCell A → Result (DictCell A)
new_dictionary cell = do
  revert_if (named_uref_exists cell) failed_to_create_dictionary
  ok (stored_dict (λ key. none))

unfoldable pub new_dictionaries : State → Result State
unfolding new_dictionary
new_dictionaries s = do
  token_owners ← new_dictionary s.token_owners
  token_issuers ← new_dictionary s.token_issuers
  owned_tokens ← new_dictionary s.owned_tokens
  operator ← new_dictionary s.operator
  burnt_tokens ← new_dictionary s.burnt_tokens
  token_counts ← new_dictionary s.token_counts
  metadata_custom_validated ← new_dictionary s.metadata_custom_validated
  metadata_cep78 ← new_dictionary s.metadata_cep78
  metadata_nft721 ← new_dictionary s.metadata_nft721
  metadata_raw ← new_dictionary s.metadata_raw
  ok (record s {
    token_owners = token_owners;
    token_issuers = token_issuers;
    owned_tokens = owned_tokens;
    operator = operator;
    burnt_tokens = burnt_tokens;
    token_counts = token_counts;
    metadata_custom_validated = metadata_custom_validated;
    metadata_cep78 = metadata_cep78;
    metadata_nft721 = metadata_nft721;
    metadata_raw = metadata_raw;
  })

unfoldable pub init : Host → Env → State → Result State
init h e s = do
  revert_if (named_uref_exists s.collection_name) contract_already_initialized
  args ← init_args h e
  new_dictionaries (put_keys args s)
