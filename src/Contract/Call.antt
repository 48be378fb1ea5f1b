-- ===== src/Contract/Call.antt =====
-- The session `call` with the account's named keys, and `install_nft_contract`
-- (casper/contract/src/main.rs).
use devxdao_m.Common.{◌&&◌, ◌==◌}
use devxdao_m.Common.Text.{codes}
use devxdao_m.Runtime.{Key, Host, Env, Result, ok, ◌>>=◌, ◌>>◌, revert_if, some_or_revert, unwrap}
use devxdao_m.Runtime.Contracts.{NamedKeys, no_keys, put_key, NewContract, ContractApi}
use devxdao_m.Contract.Constants
use devxdao_m.Contract.Error.{invalid_metadata_mutability}
use devxdao_m.Contract.State.{State}
use devxdao_m.Contract.Utils.Reads.{into_hash}
use devxdao_m.Contract.EntryPoints.{entry_points}
use devxdao_m.Contract.Init.{init}
use devxdao_m.Contract.Install.{install_args, init_runtime_args, receipt_name_of, installed}

-- What the session leaves: the new contract, its state, and the account's named keys.
pub record Installation (E : Type 0) : Type 0 where
  pub contract : NewContract E
  pub state : State
  pub account_keys : NamedKeys

module _ (api : ContractApi) where
  unfoldable pub install_nft_contract : Env → NamedKeys → NewContract api.EntryPoints
  install_nft_contract e account =
      api.new_contract (entry_points api)
        (put_key no_keys Constants.installer (Key.account e.caller)) Constants.hash_key_name
        Constants.access_key_name account

  -- The two calls of `put_key`.
  unfoldable pub keep_contract : NewContract api.EntryPoints → NamedKeys
  keep_contract created =
      put_key
        (put_key created.account_keys Constants.contract_name (Key.hash created.contract_hash))
        Constants.contract_version (Key.other (api.new_uref created.contract_version))

  unfoldable pub call_session : Host → Env → NamedKeys → Result (Installation api.EntryPoints)
  unfolding install_nft_contract keep_contract
  call_session h e account = do
    a ← install_args e
    revert_if (a.identifier_mode == 1 && a.metadata_mutability == 1) invalid_metadata_mutability
    let created = install_nft_contract e account
    let keys = keep_contract created
    package_key ← some_or_revert (keys (codes Constants.hash_key_name))
    package_hash ← unwrap (into_hash package_key)
    let receipt_name = receipt_name_of a.collection_name (api.to_formatted_string package_hash)
    state ← init h (init_runtime_args e created.contract_hash receipt_name a) (installed e.caller)
    ok (record { contract = created; state = state; account_keys = keys })
