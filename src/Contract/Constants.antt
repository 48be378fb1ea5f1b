-- ===== src/Contract/Constants.antt =====
-- The names of the runtime arguments, of the keys of an installation and of the entry points
-- (casper/contract/src/constants.rs).
use Prim.Native.String.{String}

abbrev pub arg_collection_name : String
arg_collection_name = "collection_name"

abbrev pub arg_collection_symbol : String
arg_collection_symbol = "collection_symbol"

abbrev pub arg_total_token_supply : String
arg_total_token_supply = "total_token_supply"

abbrev pub arg_token_id : String
arg_token_id = "token_id"

abbrev pub arg_token_hash : String
arg_token_hash = "token_hash"

abbrev pub arg_token_id_hash : String
arg_token_id_hash = "token_id_hash"

abbrev pub arg_token_owner : String
arg_token_owner = "token_owner"

abbrev pub arg_target_key : String
arg_target_key = "target_key"

abbrev pub arg_source_key : String
arg_source_key = "source_key"

abbrev pub arg_allow_minting : String
arg_allow_minting = "allow_minting"

abbrev pub arg_minting_mode : String
arg_minting_mode = "minting_mode"

abbrev pub arg_token_meta_data : String
arg_token_meta_data = "token_meta_data"

abbrev pub arg_approve_all : String
arg_approve_all = "approve_all"

abbrev pub arg_operator : String
arg_operator = "operator"

abbrev pub arg_ownership_mode : String
arg_ownership_mode = "ownership_mode"

abbrev pub arg_holder_mode : String
arg_holder_mode = "holder_mode"

abbrev pub arg_whitelist_mode : String
arg_whitelist_mode = "whitelist_mode"

abbrev pub arg_nft_kind : String
arg_nft_kind = "nft_kind"

abbrev pub arg_json_schema : String
arg_json_schema = "json_schema"

abbrev pub arg_receipt_name : String
arg_receipt_name = "receipt_name"

abbrev pub arg_contract_whitelist : String
arg_contract_whitelist = "contract_whitelist"

abbrev pub arg_account_whitelist : String
arg_account_whitelist = "account_whitelist"

abbrev pub arg_nft_metadata_kind : String
arg_nft_metadata_kind = "nft_metadata_kind"

abbrev pub arg_identifier_mode : String
arg_identifier_mode = "identifier_mode"

abbrev pub arg_metadata_mutability : String
arg_metadata_mutability = "metadata_mutability"

abbrev pub installer : String
installer = "installer"

abbrev pub contract_name : String
contract_name = "nft_contract"

abbrev pub hash_key_name : String
hash_key_name = "nft_contract_package"

abbrev pub access_key_name : String
access_key_name = "nft_contract_package_access"

abbrev pub contract_version : String
contract_version = "contract_version"

abbrev pub entry_point_init : String
entry_point_init = "init"

abbrev pub entry_point_set_variables : String
entry_point_set_variables = "set_variables"

abbrev pub entry_point_add_to_account_whitelist : String
entry_point_add_to_account_whitelist = "add_to_account_whitelist"

abbrev pub entry_point_remove_from_account_whitelist : String
entry_point_remove_from_account_whitelist = "remove_from_account_whitelist"

abbrev pub entry_point_mint : String
entry_point_mint = "mint"

abbrev pub entry_point_burn : String
entry_point_burn = "burn"

abbrev pub entry_point_transfer : String
entry_point_transfer = "transfer"

abbrev pub entry_point_approve : String
entry_point_approve = "approve"

abbrev pub entry_point_balance_of : String
entry_point_balance_of = "balance_of"

abbrev pub entry_point_owner_of : String
entry_point_owner_of = "owner_of"

abbrev pub entry_point_get_approved : String
entry_point_get_approved = "get_approved"

abbrev pub entry_point_metadata : String
entry_point_metadata = "metadata"

abbrev pub entry_point_set_approve_for_all : String
entry_point_set_approve_for_all = "set_approval_for_all"

abbrev pub entry_point_set_token_metadata : String
entry_point_set_token_metadata = "set_token_metadata"
