-- ===== src/Runtime/Contracts.antt =====
-- `casper_types::contracts` and `casper_contract::contract_api::storage` as an installation uses them:
-- entry points, named keys, a new contract, and what the documentation says of these.
use Prim.Native.Nat.{ℕ}
use Prim.Native.String.{String}
use mathlib.Core.Path.{◌≡◌}
use mathlib.Core.Bool.{false}
use mathlib.Core.Option.{Option, none, some}
use mathlib.Core.List.{List}
use devxdao_m.Common.Tests.{if◌then◌else◌}
use devxdao_m.Common.Text.{Text, text_eq, codes}
use devxdao_m.Runtime.Types.{Key}
use devxdao_m.Runtime.Store.{Dict, dictionary_put}

-- The variants of `CLType` that the contracts name.
pub data ClType : Type 0 where
  unit : ClType
  bool : ClType
  u8 : ClType
  u64 : ClType
  string : ClType
  key : ClType
  byte_array : ℕ → ClType
  list : ClType → ClType
  option : ClType → ClType
  tuple3 : ClType → ClType → ClType → ClType
  any : ClType

-- `EntryPointAccess`, with the groups by their labels
pub data EntryPointAccess : Type 0 where
  public : EntryPointAccess
  groups : List Text → EntryPointAccess

pub data EntryPointType : Type 0 where
  session : EntryPointType
  contract : EntryPointType

pub record Parameter : Type 0 where
  pub name : String
  pub cl_type : ClType

pub record EntryPoint : Type 0 where
  pub name : String
  pub args : List Parameter
  pub ret : ClType
  pub access : EntryPointAccess
  pub entry_point_type : EntryPointType

-- `NamedKeys`, and `insert` and `runtime::put_key` on them
abbrev pub NamedKeys : Type 0
NamedKeys = Dict Key

abbrev pub no_keys : NamedKeys
no_keys name = none

abbrev pub put_key : NamedKeys → String → Key → NamedKeys
put_key keys name value = dictionary_put keys (codes name) value

-- What `storage::new_contract` leaves: the contract with its keys, and the keys of whoever runs.
pub record NewContract (E : Type 0) : Type 0 where
  pub contract_hash : ℕ
  pub contract_version : ℕ
  pub package_hash : ℕ
  pub entry_points : E
  pub contract_keys : NamedKeys
  pub account_keys : NamedKeys

-- The calls of the libraries.
pub record ContractApi : Type 1 where
  pub EntryPoints : Type 0
  pub new_entry_points : EntryPoints
  pub add_entry_point : EntryPoints → EntryPoint → EntryPoints
  pub get_entry_point : EntryPoints → Text → Option EntryPoint
  -- entry points, named keys, the name for the package's hash and the name for the access reference
  pub new_contract : EntryPoints → NamedKeys → String → String → NamedKeys → NewContract EntryPoints
  -- the address of a new reference to a number
  pub new_uref : ℕ → ℕ
  pub to_formatted_string : ℕ → Text

pub record IsDocumented (api : ContractApi) : Type 0 where
  pub get_entry_point-new : (name : Text) → api.get_entry_point api.new_entry_points name ≡ none
  pub get_entry_point-add :
      (table : api.EntryPoints) (entry_point : EntryPoint) (name : Text)
      → api.get_entry_point (api.add_entry_point table entry_point) name ≡ (
          if text_eq (codes entry_point.name) name
          then some entry_point
          else api.get_entry_point table name)
  pub new_contract-holds :
      (table : api.EntryPoints) (keys : NamedKeys) (hash_name uref_name : String)
      (account : NamedKeys)
      → ((api.new_contract table keys hash_name uref_name account).entry_points ≡ table)
        × ((api.new_contract table keys hash_name uref_name account).contract_keys ≡ keys)
  pub new_contract-hash_name :
      (table : api.EntryPoints) (keys : NamedKeys) (hash_name uref_name : String)
      (account : NamedKeys)
      → text_eq (codes uref_name) (codes hash_name) ≡ false
      → (api.new_contract table keys hash_name uref_name account).account_keys (codes hash_name)
        ≡ some (Key.hash (api.new_contract table keys hash_name uref_name account).package_hash)
  pub new_contract-others :
      (table : api.EntryPoints) (keys : NamedKeys) (hash_name uref_name : String)
      (account : NamedKeys) (name : Text)
      → text_eq (codes hash_name) name ≡ false
      → text_eq (codes uref_name) name ≡ false
      → (api.new_contract table keys hash_name uref_name account).account_keys name ≡ account name
