-- ===== src/Sessions/Minting.antt =====
-- The installation of the minting contract (casper/client/minting_contract/src/main.rs): its table of
-- entry points, and the session `call`.
use Prim.Native.String.{String}
use devxdao_m.Common.{List, [], ◌∷◌}
use devxdao_m.Runtime.{Key, Env}
use devxdao_m.Runtime.Contracts.{
  ClType, EntryPoint, EntryPointAccess, EntryPointType, NamedKeys, no_keys, put_key, NewContract,
  ContractApi,
}
use devxdao_m.Contract.Constants.{
  arg_token_meta_data, arg_token_owner, arg_token_id, arg_source_key, arg_target_key,
}
use devxdao_m.Contract.EntryPoints.{parameter, add_entry_points}

abbrev pub minting_contract_name : String
minting_contract_name = "minting_contract_hash"

abbrev pub minting_contract_version : String
minting_contract_version = "minting_contract_version"

abbrev pub minting_installer : String
minting_installer = "installer"

abbrev pub minting_hash_key_name : String
minting_hash_key_name = "minting_contract_package_hash"

abbrev pub minting_access_key_name : String
minting_access_key_name = "minting_contract_access_uref"

abbrev pub minting_entry_point_mint : String
minting_entry_point_mint = "mint"

abbrev pub minting_entry_point_transfer : String
minting_entry_point_transfer = "transfer"

abbrev pub minting_entry_point_burn : String
minting_entry_point_burn = "burn"

-- It runs in the context of its caller, and declares ARG_TOKEN_META_DATA twice.
unfoldable pub minting_mint : EntryPoint
minting_mint = record {
  name = minting_entry_point_mint;
  args =
      parameter arg_token_meta_data ClType.key
      ∷ parameter arg_token_owner ClType.key
      ∷ parameter arg_token_meta_data ClType.string
      ∷ [];
  ret = ClType.unit;
  access = EntryPointAccess.public;
  entry_point_type = EntryPointType.session;
}

unfoldable pub minting_transfer : EntryPoint
minting_transfer = record {
  name = minting_entry_point_transfer;
  args =
      parameter arg_token_id ClType.u64
      ∷ parameter arg_source_key ClType.key
      ∷ parameter arg_target_key ClType.key
      ∷ [];
  ret = ClType.unit;
  access = EntryPointAccess.public;
  entry_point_type = EntryPointType.contract;
}

unfoldable pub minting_burn : EntryPoint
minting_burn = record {
  name = minting_entry_point_burn;
  args = parameter arg_token_id ClType.u64 ∷ [];
  ret = ClType.unit;
  access = EntryPointAccess.public;
  entry_point_type = EntryPointType.contract;
}

unfoldable pub minting_declared : List EntryPoint
minting_declared = minting_mint ∷ minting_transfer ∷ minting_burn ∷ []

-- What the session leaves: the contract, and the account's named keys.
pub record MintingInstallation (E : Type 0) : Type 0 where
  pub contract : NewContract E
  pub account_keys : NamedKeys

module _ (api : ContractApi) where
  unfoldable pub install_minting_contract : Env → NamedKeys → NewContract api.EntryPoints
  install_minting_contract e account =
      api.new_contract (add_entry_points api api.new_entry_points minting_declared)
        (put_key no_keys minting_installer (Key.account e.caller)) minting_hash_key_name
        minting_access_key_name account

  unfoldable pub minting_call : Env → NamedKeys → MintingInstallation api.EntryPoints
  unfolding install_minting_contract
  minting_call e account =
      let created = install_minting_contract e account in
      record {
        contract = created;
        account_keys =
            put_key
              (put_key created.account_keys minting_contract_name (Key.hash created.contract_hash))
              minting_contract_version (Key.other (api.new_uref created.contract_version));
      }
