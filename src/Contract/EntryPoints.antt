-- ===== src/Contract/EntryPoints.antt =====
-- The entry points of the contract as `install_nft_contract` declares them (casper/contract/src/main.rs).
use Prim.Native.String.{String}
use devxdao_m.Common.{List, [], ◌∷◌}
use devxdao_m.Runtime.Contracts.{
  ClType, EntryPoint, EntryPointAccess, EntryPointType, Parameter, ContractApi,
}
use devxdao_m.Contract.Constants

-- `Parameter::new`, and an `EntryPoint::new` that is public and runs in the contract's context, as all
-- of them are
abbrev pub parameter : String → ClType → Parameter
parameter name cl_type = record { name = name; cl_type = cl_type }

abbrev public_contract : String → List Parameter → ClType → EntryPoint
public_contract name args ret = record {
  name = name;
  args = args;
  ret = ret;
  access = EntryPointAccess.public;
  entry_point_type = EntryPointType.contract;
}

-- `CLType::List(Box::new(CLType::ByteArray(32u32)))`
abbrev hashes : ClType
hashes = ClType.list (ClType.byte_array 32)

unfoldable pub init_contract : EntryPoint
init_contract =
    public_contract Constants.entry_point_init
      (parameter Constants.arg_collection_name ClType.string
        ∷ parameter Constants.arg_collection_symbol ClType.string
        ∷ parameter Constants.arg_total_token_supply ClType.u64
        ∷ parameter Constants.arg_allow_minting ClType.bool
        ∷ parameter Constants.arg_minting_mode ClType.u8
        ∷ parameter Constants.arg_ownership_mode ClType.u8
        ∷ parameter Constants.arg_nft_kind ClType.u8
        ∷ parameter Constants.arg_holder_mode ClType.u8
        ∷ parameter Constants.arg_whitelist_mode ClType.u8
        ∷ parameter Constants.arg_contract_whitelist hashes
        ∷ parameter Constants.arg_account_whitelist hashes
        ∷ parameter Constants.arg_json_schema ClType.string
        ∷ parameter Constants.arg_receipt_name ClType.string
        ∷ parameter Constants.arg_identifier_mode ClType.u8
        ∷ [])
      ClType.unit

unfoldable pub set_variables_entry_point : EntryPoint
set_variables_entry_point =
    public_contract Constants.entry_point_set_variables
      (parameter Constants.arg_allow_minting ClType.bool
        ∷ parameter Constants.arg_contract_whitelist hashes
        ∷ parameter Constants.arg_account_whitelist ClType.key
        ∷ [])
      ClType.unit

unfoldable pub add_to_account_whitelist_entry_point : EntryPoint
add_to_account_whitelist_entry_point =
    public_contract Constants.entry_point_add_to_account_whitelist
      (parameter Constants.arg_account_whitelist ClType.key ∷ []) ClType.unit

unfoldable pub remove_from_account_whitelist_entry_point : EntryPoint
remove_from_account_whitelist_entry_point =
    public_contract Constants.entry_point_remove_from_account_whitelist
      (parameter Constants.arg_account_whitelist ClType.key ∷ []) ClType.unit

unfoldable pub mint_entry_point : EntryPoint
mint_entry_point =
    public_contract Constants.entry_point_mint
      (parameter Constants.arg_token_owner ClType.key
        ∷ parameter Constants.arg_token_meta_data ClType.string
        ∷ parameter Constants.arg_token_id_hash ClType.string
        ∷ [])
      (ClType.tuple3 ClType.string ClType.key ClType.string)

unfoldable pub burn_entry_point : EntryPoint
burn_entry_point =
    public_contract Constants.entry_point_burn
      (parameter Constants.arg_token_id ClType.u64
        ∷ parameter Constants.arg_token_hash ClType.string
        ∷ [])
      ClType.unit

unfoldable pub transfer_entry_point : EntryPoint
transfer_entry_point =
    public_contract Constants.entry_point_transfer
      (parameter Constants.arg_token_id ClType.u64
        ∷ parameter Constants.arg_token_hash ClType.string
        ∷ parameter Constants.arg_source_key ClType.key
        ∷ parameter Constants.arg_target_key ClType.key
        ∷ [])
      ClType.unit

unfoldable pub approve_entry_point : EntryPoint
approve_entry_point =
    public_contract Constants.entry_point_approve
      (parameter Constants.arg_token_id ClType.u64
        ∷ parameter Constants.arg_token_hash ClType.string
        ∷ parameter Constants.arg_operator ClType.key
        ∷ [])
      ClType.unit

unfoldable pub set_approval_for_all_entry_point : EntryPoint
set_approval_for_all_entry_point =
    public_contract Constants.entry_point_set_approve_for_all
      (parameter Constants.arg_token_owner ClType.key ∷ []) ClType.unit

unfoldable pub owner_of_entry_point : EntryPoint
owner_of_entry_point =
    public_contract Constants.entry_point_owner_of
      (parameter Constants.arg_token_id ClType.u64
        ∷ parameter Constants.arg_token_hash ClType.string
        ∷ [])
      ClType.key

unfoldable pub get_approved_entry_point : EntryPoint
get_approved_entry_point =
    public_contract Constants.entry_point_get_approved
      (parameter Constants.arg_token_id ClType.u64
        ∷ parameter Constants.arg_token_hash ClType.string
        ∷ [])
      (ClType.option ClType.key)

unfoldable pub balance_of_entry_point : EntryPoint
balance_of_entry_point =
    public_contract Constants.entry_point_balance_of
      (parameter Constants.arg_token_owner ClType.key ∷ []) ClType.u64

unfoldable pub metadata_entry_point : EntryPoint
metadata_entry_point =
    public_contract Constants.entry_point_metadata
      (parameter Constants.arg_token_id ClType.u64
        ∷ parameter Constants.arg_token_hash ClType.string
        ∷ [])
      ClType.string

unfoldable pub set_token_metadata_entry_point : EntryPoint
set_token_metadata_entry_point =
    public_contract Constants.entry_point_set_token_metadata
      (parameter Constants.arg_token_id ClType.u64
        ∷ parameter Constants.arg_token_hash ClType.string
        ∷ parameter Constants.arg_token_meta_data ClType.string
        ∷ [])
      ClType.unit

-- In the order of the calls of `add_entry_point`.
unfoldable pub declared : List EntryPoint
declared =
    init_contract ∷ set_variables_entry_point ∷ add_to_account_whitelist_entry_point
    ∷ remove_from_account_whitelist_entry_point ∷ mint_entry_point ∷ burn_entry_point
    ∷ transfer_entry_point ∷ approve_entry_point ∷ owner_of_entry_point ∷ balance_of_entry_point
    ∷ get_approved_entry_point ∷ metadata_entry_point ∷ set_approval_for_all_entry_point
    ∷ set_token_metadata_entry_point ∷ []

module _ (api : ContractApi) where
  unfoldable pub add_entry_points : api.EntryPoints → List EntryPoint → api.EntryPoints
  add_entry_points table [] = table
  add_entry_points table (entry_point ∷ rest) =
      add_entry_points (api.add_entry_point table entry_point) rest

  unfoldable pub entry_points : api.EntryPoints
  unfolding add_entry_points declared
  entry_points = add_entry_points api.new_entry_points declared
