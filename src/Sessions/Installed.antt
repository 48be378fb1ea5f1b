-- ===== src/Sessions/Installed.antt =====
-- What the installation of the minting contract leaves (casper/client/minting_contract/src/main.rs).
use devxdao_m.Common.{◌≡◌, refl, ap, ◌∙◌, false, none, some}
use devxdao_m.Common.Text.{Text, text_eq, codes}
use devxdao_m.Runtime.{Key, Env, dictionary_put, dictionary_put_ne}
use devxdao_m.Runtime.Contracts.{EntryPoint, EntryPointType, NamedKeys, ContractApi, IsDocumented}
use devxdao_m.Interface.Table.{last_under, get_entry_point-add_entry_points}
use devxdao_m.Sessions.Minting.{
  minting_contract_name, minting_contract_version, minting_hash_key_name, minting_access_key_name,
  minting_entry_point_mint, minting_entry_point_transfer, minting_entry_point_burn, minting_mint,
  minting_transfer, minting_burn, minting_declared, MintingInstallation, install_minting_contract,
  minting_call,
}

-- An entry point stands in a table under its name and runs in a context.
abbrev pub RunsIn : (api : ContractApi) → api.EntryPoints → Text → EntryPointType → Type 0
RunsIn api table name context =
    (x : EntryPoint) × (api.get_entry_point table name ≡ some x) × (x.entry_point_type ≡ context)

module _ (api : ContractApi) (doc : IsDocumented api) (e : Env) (account : NamedKeys) where
  abbrev pub outcome : MintingInstallation api.EntryPoints
  outcome = minting_call api e account

  table-held :
      (name : Text)
      → api.get_entry_point outcome.contract.entry_points name
        ≡ last_under name minting_declared none
  unfolding minting_call install_minting_contract
  table-held name =
      ap (λ (table : api.EntryPoints). api.get_entry_point table name)
        (doc.new_contract-holds _ _ _ _ account).0
      ∙ get_entry_point-add_entry_points api doc api.new_entry_points minting_declared name
      ∙ ap (last_under name minting_declared) (doc.get_entry_point-new name)

  runs_minting_mint :
      RunsIn api outcome.contract.entry_points
        (codes minting_entry_point_mint)
        EntryPointType.session
  unfolding last_under minting_declared text_eq minting_mint minting_transfer minting_burn
  runs_minting_mint = (minting_mint, table-held _, refl)

  runs_minting_transfer :
      RunsIn api outcome.contract.entry_points
        (codes minting_entry_point_transfer)
        EntryPointType.contract
  unfolding last_under minting_declared text_eq minting_mint minting_transfer minting_burn
  runs_minting_transfer = (minting_transfer, table-held _, refl)

  runs_minting_burn :
      RunsIn api outcome.contract.entry_points
        (codes minting_entry_point_burn)
        EntryPointType.contract
  unfolding last_under minting_declared text_eq minting_mint minting_transfer minting_burn
  runs_minting_burn = (minting_burn, table-held _, refl)

  no_other_entry :
      (name : Text)
      → text_eq (codes minting_entry_point_mint) name ≡ false
      → text_eq (codes minting_entry_point_transfer) name ≡ false
      → text_eq (codes minting_entry_point_burn) name ≡ false
      → api.get_entry_point outcome.contract.entry_points name ≡ none
  unfolding last_under minting_declared minting_mint minting_transfer minting_burn
  no_other_entry name no_mint no_transfer no_burn =
      table-held name ∙ rw no_mint (rw no_transfer (rw no_burn refl))

  minting_key-kept :
      outcome.account_keys (codes minting_contract_name)
      ≡ some (Key.hash outcome.contract.contract_hash)
  unfolding minting_call dictionary_put text_eq
  minting_key-kept = refl

  minting_version-kept :
      outcome.account_keys (codes minting_contract_version)
      ≡ some (Key.other (api.new_uref outcome.contract.contract_version))
  unfolding minting_call dictionary_put text_eq
  minting_version-kept = refl

  minting_others-kept :
      (name : Text)
      → text_eq (codes minting_contract_name) name ≡ false
      → text_eq (codes minting_contract_version) name ≡ false
      → text_eq (codes minting_hash_key_name) name ≡ false
      → text_eq (codes minting_access_key_name) name ≡ false
      → outcome.account_keys name ≡ account name
  unfolding minting_call install_minting_contract
  minting_others-kept name other_name other_version other_hash other_access =
      dictionary_put_ne _ (codes minting_contract_version) name _ other_version
      ∙ dictionary_put_ne _ (codes minting_contract_name) name _ other_name
      ∙ doc.new_contract-others _ _ _ _ account name other_hash other_access

  -- Installing the minting contract leaves its hash and a reference to its version with the account,
  -- and every name but those and the two of the package as it was; the contract's mint runs in the
  -- context of the caller, its transfer and burn run in the contract's, and it has no other entry point.
  pub minting_call_effect :
      (key_name entry_name : Text)
      → text_eq (codes minting_contract_name) key_name ≡ false
      → text_eq (codes minting_contract_version) key_name ≡ false
      → text_eq (codes minting_hash_key_name) key_name ≡ false
      → text_eq (codes minting_access_key_name) key_name ≡ false
      → text_eq (codes minting_entry_point_mint) entry_name ≡ false
      → text_eq (codes minting_entry_point_transfer) entry_name ≡ false
      → text_eq (codes minting_entry_point_burn) entry_name ≡ false
      → (outcome.account_keys (codes minting_contract_name)
          ≡ some (Key.hash outcome.contract.contract_hash))
        × (outcome.account_keys (codes minting_contract_version)
            ≡ some (Key.other (api.new_uref outcome.contract.contract_version)))
        × (outcome.account_keys key_name ≡ account key_name)
        × RunsIn api outcome.contract.entry_points
            (codes minting_entry_point_mint)
            EntryPointType.session
        × RunsIn api outcome.contract.entry_points
            (codes minting_entry_point_transfer)
            EntryPointType.contract
        × RunsIn api outcome.contract.entry_points
            (codes minting_entry_point_burn)
            EntryPointType.contract
        × (api.get_entry_point outcome.contract.entry_points entry_name ≡ none)
  minting_call_effect key_name entry_name k1 k2 k3 k4 n1 n2 n3 = (
    minting_key-kept,
    minting_version-kept,
    minting_others-kept key_name k1 k2 k3 k4,
    runs_minting_mint,
    runs_minting_transfer,
    runs_minting_burn,
    no_other_entry entry_name n1 n2 n3,
  )
