-- ===== src/Contract/Error.antt =====
-- The contract's error codes (casper/contract/src/error.rs) and the conversion to the number that
-- a revert carries.
use Prim.Native.Nat.{ℕ}

pub data NftCoreError : Type 0 where
  invalid_account : NftCoreError
  missing_installer : NftCoreError
  invalid_installer : NftCoreError
  unexpected_key_variant : NftCoreError
  missing_token_owner : NftCoreError
  invalid_token_owner : NftCoreError
  failed_to_get_arg_bytes : NftCoreError
  failed_to_create_dictionary : NftCoreError
  missing_storage_uref : NftCoreError
  invalid_storage_uref : NftCoreError
  missing_owners_uref : NftCoreError
  invalid_owners_uref : NftCoreError
  failed_to_access_storage_dictionary : NftCoreError
  failed_to_access_ownership_dictionary : NftCoreError
  duplicate_minted : NftCoreError
  failed_to_convert_to_cl_value : NftCoreError
  missing_collection_name : NftCoreError
  invalid_collection_name : NftCoreError
  failed_to_serialize_meta_data : NftCoreError
  missing_account : NftCoreError
  missing_minting_status : NftCoreError
  invalid_minting_status : NftCoreError
  missing_collection_symbol : NftCoreError
  invalid_collection_symbol : NftCoreError
  missing_total_token_supply : NftCoreError
  invalid_total_token_supply : NftCoreError
  missing_token_id : NftCoreError
  invalid_token_identifier : NftCoreError
  missing_token_owners : NftCoreError
  missing_account_hash : NftCoreError
  invalid_account_hash : NftCoreError
  token_supply_depleted : NftCoreError
  missing_owned_tokens_dictionary : NftCoreError
  token_already_belongs_to_minter_fatal : NftCoreError
  fatal_token_id_duplication : NftCoreError
  invalid_minter : NftCoreError
  missing_minting_mode : NftCoreError
  invalid_minting_mode : NftCoreError
  missing_installer_key : NftCoreError
  failed_to_convert_to_account_hash : NftCoreError
  invalid_burner : NftCoreError
  previously_burnt_token : NftCoreError
  missing_allow_minting : NftCoreError
  invalid_allow_minting : NftCoreError
  missing_number_of_minted_tokens : NftCoreError
  invalid_number_of_minted_tokens : NftCoreError
  missing_token_meta_data : NftCoreError
  invalid_token_meta_data : NftCoreError
  missing_approved_account_hash : NftCoreError
  invalid_approved_account_hash : NftCoreError
  missing_approved_tokens_dictionary : NftCoreError
  token_already_approved : NftCoreError
  missing_approve_all : NftCoreError
  invalid_approve_all : NftCoreError
  missing_operator : NftCoreError
  invalid_operator : NftCoreError
  phantom : NftCoreError
  contract_already_initialized : NftCoreError
  minting_is_paused : NftCoreError
  failure_to_parse_account_hash : NftCoreError
  vacant_value_in_dictionary : NftCoreError
  missing_ownership_mode : NftCoreError
  invalid_ownership_mode : NftCoreError
  invalid_token_minter : NftCoreError
  missing_owned_tokens : NftCoreError
  invalid_account_key_in_dictionary : NftCoreError
  missing_json_schema : NftCoreError
  invalid_json_schema : NftCoreError
  invalid_key : NftCoreError
  invalid_owned_tokens : NftCoreError
  missing_token_uri : NftCoreError
  invalid_token_uri : NftCoreError
  missing_nft_kind : NftCoreError
  invalid_nft_kind : NftCoreError
  missing_holder_mode : NftCoreError
  invalid_holder_mode : NftCoreError
  missing_whitelist_mode : NftCoreError
  invalid_whitelist_mode : NftCoreError
  missing_contract_white_list : NftCoreError
  invalid_contract_whitelist : NftCoreError
  unlisted_contract_hash : NftCoreError
  invalid_contract : NftCoreError
  empty_contract_whitelist : NftCoreError
  missing_receipt_name : NftCoreError
  invalid_receipt_name : NftCoreError
  invalid_json_metadata : NftCoreError
  invalid_json_format : NftCoreError
  failed_to_parse_cep99_metadata : NftCoreError
  failed_to_parse_721_metadata : NftCoreError
  failed_to_parse_custom_metadata : NftCoreError
  invalid_cep99_metadata : NftCoreError
  failed_to_jsonify_cep99_metadata : NftCoreError
  invalid_nft721_metadata : NftCoreError
  failed_to_jsonify_nft721_metadata : NftCoreError
  invalid_custom_metadata : NftCoreError
  missing_nft_metadata_kind : NftCoreError
  invalid_nft_metadata_kind : NftCoreError
  missing_identifier_mode : NftCoreError
  invalid_identifier_mode : NftCoreError
  failed_to_parse_token_id : NftCoreError
  missing_metadata_mutability : NftCoreError
  invalid_metadata_mutability : NftCoreError
  failed_to_jsonify_custom_metadata : NftCoreError
  forbidden_metadata_update : NftCoreError
  missing_account_white_list : NftCoreError
  invalid_account_whitelist : NftCoreError
  unlisted_account_hash : NftCoreError

-- `e as u16`, the number in `ApiError::User`
unfoldable pub as_u16 : NftCoreError → ℕ
as_u16 invalid_account = 1
as_u16 missing_installer = 2
as_u16 invalid_installer = 3
as_u16 unexpected_key_variant = 4
as_u16 missing_token_owner = 5
as_u16 invalid_token_owner = 6
as_u16 failed_to_get_arg_bytes = 7
as_u16 failed_to_create_dictionary = 8
as_u16 missing_storage_uref = 9
as_u16 invalid_storage_uref = 10
as_u16 missing_owners_uref = 11
as_u16 invalid_owners_uref = 12
as_u16 failed_to_access_storage_dictionary = 13
as_u16 failed_to_access_ownership_dictionary = 14
as_u16 duplicate_minted = 15
as_u16 failed_to_convert_to_cl_value = 16
as_u16 missing_collection_name = 17
as_u16 invalid_collection_name = 18
as_u16 failed_to_serialize_meta_data = 19
as_u16 missing_account = 20
as_u16 missing_minting_status = 21
as_u16 invalid_minting_status = 22
as_u16 missing_collection_symbol = 23
as_u16 invalid_collection_symbol = 24
as_u16 missing_total_token_supply = 25
as_u16 invalid_total_token_supply = 26
as_u16 missing_token_id = 27
as_u16 invalid_token_identifier = 28
as_u16 missing_token_owners = 29
as_u16 missing_account_hash = 30
as_u16 invalid_account_hash = 31
as_u16 token_supply_depleted = 32
as_u16 missing_owned_tokens_dictionary = 33
as_u16 token_already_belongs_to_minter_fatal = 34
as_u16 fatal_token_id_duplication = 35
as_u16 invalid_minter = 36
as_u16 missing_minting_mode = 37
as_u16 invalid_minting_mode = 38
as_u16 missing_installer_key = 39
as_u16 failed_to_convert_to_account_hash = 40
as_u16 invalid_burner = 41
as_u16 previously_burnt_token = 42
as_u16 missing_allow_minting = 43
as_u16 invalid_allow_minting = 44
as_u16 missing_number_of_minted_tokens = 45
as_u16 invalid_number_of_minted_tokens = 46
as_u16 missing_token_meta_data = 47
as_u16 invalid_token_meta_data = 48
as_u16 missing_approved_account_hash = 49
as_u16 invalid_approved_account_hash = 50
as_u16 missing_approved_tokens_dictionary = 51
as_u16 token_already_approved = 52
as_u16 missing_approve_all = 53
as_u16 invalid_approve_all = 54
as_u16 missing_operator = 55
as_u16 invalid_operator = 56
as_u16 phantom = 57
as_u16 contract_already_initialized = 58
as_u16 minting_is_paused = 59
as_u16 failure_to_parse_account_hash = 60
as_u16 vacant_value_in_dictionary = 61
as_u16 missing_ownership_mode = 62
as_u16 invalid_ownership_mode = 63
as_u16 invalid_token_minter = 64
as_u16 missing_owned_tokens = 65
as_u16 invalid_account_key_in_dictionary = 66
as_u16 missing_json_schema = 67
as_u16 invalid_json_schema = 68
as_u16 invalid_key = 69
as_u16 invalid_owned_tokens = 70
as_u16 missing_token_uri = 71
as_u16 invalid_token_uri = 72
as_u16 missing_nft_kind = 73
as_u16 invalid_nft_kind = 74
as_u16 missing_holder_mode = 75
as_u16 invalid_holder_mode = 76
as_u16 missing_whitelist_mode = 77
as_u16 invalid_whitelist_mode = 78
as_u16 missing_contract_white_list = 79
as_u16 invalid_contract_whitelist = 80
as_u16 unlisted_contract_hash = 81
as_u16 invalid_contract = 82
as_u16 empty_contract_whitelist = 83
as_u16 missing_receipt_name = 84
as_u16 invalid_receipt_name = 85
as_u16 invalid_json_metadata = 86
as_u16 invalid_json_format = 87
as_u16 failed_to_parse_cep99_metadata = 88
as_u16 failed_to_parse_721_metadata = 89
as_u16 failed_to_parse_custom_metadata = 90
as_u16 invalid_cep99_metadata = 91
as_u16 failed_to_jsonify_cep99_metadata = 92
as_u16 invalid_nft721_metadata = 93
as_u16 failed_to_jsonify_nft721_metadata = 94
as_u16 invalid_custom_metadata = 95
as_u16 missing_nft_metadata_kind = 96
as_u16 invalid_nft_metadata_kind = 97
as_u16 missing_identifier_mode = 98
as_u16 invalid_identifier_mode = 99
as_u16 failed_to_parse_token_id = 100
as_u16 missing_metadata_mutability = 101
as_u16 invalid_metadata_mutability = 102
as_u16 failed_to_jsonify_custom_metadata = 103
as_u16 forbidden_metadata_update = 104
as_u16 missing_account_white_list = 105
as_u16 invalid_account_whitelist = 106
as_u16 unlisted_account_hash = 107
