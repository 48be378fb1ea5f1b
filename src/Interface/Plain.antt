-- ===== src/Interface/Plain.antt =====
-- A concrete account of entry points, named keys and new contracts that is as `casper_types` and
-- `casper_contract` document theirs.
use Prim.Native.String.{String}
use devxdao_m.Common.{◌≡◌, refl, ◌∙◌, false, Option, none, some, if◌then◌else◌}
use devxdao_m.Common.Text.{Text, text_eq, codes}
use devxdao_m.Runtime.{Key, dictionary_put_self, dictionary_put_ne}
use devxdao_m.Runtime.Contracts.{
  EntryPoint, NamedKeys, put_key, NewContract, ContractApi, IsDocumented,
}

abbrev Table : Type 0
Table = Text → Option EntryPoint

unfoldable pub add_to_table : Table → EntryPoint → Table
add_to_table table entry_point name =
    if text_eq (codes entry_point.name) name then some entry_point else table name

-- Every contract has the hash 50 and the package 51.
unfoldable pub contract_50 : Table → NamedKeys → String → String → NamedKeys → NewContract Table
contract_50 table keys hash_name uref_name account = record {
  contract_hash = 50;
  contract_version = 1;
  package_hash = 51;
  entry_points = table;
  contract_keys = keys;
  account_keys = put_key (put_key account hash_name (Key.hash 51)) uref_name (Key.other 52);
}

abbrev pub plain_api : ContractApi
plain_api = record {
  EntryPoints = Table;
  new_entry_points = λ name. none;
  add_entry_point = add_to_table;
  get_entry_point = λ table name. table name;
  new_contract = contract_50;
  new_uref = λ value. 53;
  to_formatted_string = λ package_hash. codes "p";
}

add_to_table_lem :
    (table : Table) (entry_point : EntryPoint) (name : Text)
    → add_to_table table entry_point name
      ≡ (if text_eq (codes entry_point.name) name then some entry_point else table name)
unfolding add_to_table
add_to_table_lem table entry_point name = refl

module _ (table : Table) (keys : NamedKeys) (hash_name uref_name : String)
    (account : NamedKeys) where
  contract_50-holds :
      ((contract_50 table keys hash_name uref_name account).entry_points ≡ table)
      × ((contract_50 table keys hash_name uref_name account).contract_keys ≡ keys)
  unfolding contract_50
  contract_50-holds = (refl, refl)

  contract_50-hash_name :
      text_eq (codes uref_name) (codes hash_name) ≡ false
      → (contract_50 table keys hash_name uref_name account).account_keys (codes hash_name)
        ≡ some (Key.hash (contract_50 table keys hash_name uref_name account).package_hash)
  unfolding contract_50
  contract_50-hash_name differ =
      dictionary_put_ne _ (codes uref_name) (codes hash_name) _ differ
      ∙ dictionary_put_self account (codes hash_name) _

  contract_50-others :
      (name : Text)
      → text_eq (codes hash_name) name ≡ false
      → text_eq (codes uref_name) name ≡ false
      → (contract_50 table keys hash_name uref_name account).account_keys name ≡ account name
  unfolding contract_50
  contract_50-others name other_hash other_access =
      dictionary_put_ne _ (codes uref_name) name _ other_access
      ∙ dictionary_put_ne account (codes hash_name) name _ other_hash

pub plain_api-IsDocumented : IsDocumented plain_api
plain_api-IsDocumented = record {
  get_entry_point-new = λ name. refl;
  get_entry_point-add = add_to_table_lem;
  new_contract-holds = contract_50-holds;
  new_contract-hash_name = contract_50-hash_name;
  new_contract-others = contract_50-others;
}
