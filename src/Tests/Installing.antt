-- ===== src/Tests/Installing.antt =====
-- Runs of the installations, and an example of each result on them and on the entry points.
use Prim.Native.String.{String}
use devxdao_m.Common.{◌⊎◌, ◌∙◌, ◌≡◌, refl, some, none}
use devxdao_m.Common.Text.{text_eq, codes}
use devxdao_m.Runtime.{Key, Arg, Env, ok}
use devxdao_m.Runtime.Contracts.{no_keys, EntryPoint, EntryPointType}
use devxdao_m.Contract.Constants
use devxdao_m.Contract.State.{State}
use devxdao_m.Contract.EntryPoints.{entry_points, transfer_entry_point}
use devxdao_m.Contract.Dispatch
use devxdao_m.Contract.Call.{Installation, install_nft_contract, keep_contract, call_session}
use devxdao_m.Ledger.Defs.{deployed}
use devxdao_m.Ledger.Init.{initial}
use devxdao_m.Interface.Table.{Exports, entry_point, entry_points-Exports}
use devxdao_m.Interface.Declared.{run-declared}
use devxdao_m.Interface.Agree.{AgreeAt, AgreeOn}
use devxdao_m.Interface.Call.{created, Leaves, call_session-install, call_session_effect}
use devxdao_m.Interface.Plain.{contract_50, plain_api, plain_api-IsDocumented}
use devxdao_m.Sessions.Minting.{
  minting_contract_name, minting_contract_version, minting_entry_point_mint,
  minting_entry_point_transfer, minting_entry_point_burn,
}
use devxdao_m.Sessions.Installed.{outcome, RunsIn, minting_call_effect}
use devxdao_m.Tests.Fixtures.{host, install_call, installed_settings, one_token, transfer_call}
use devxdao_m.Tests.MoreRuns.{run_install}

entry_points-Exports_example :
    (plain_api.get_entry_point
        (entry_points plain_api)
        (codes (Dispatch.symbol Dispatch.mint_handler))
      ≡ some (entry_point Dispatch.mint_handler))
    × ((plain_api.get_entry_point (entry_points plain_api) (codes "transfer") ≡ none)
        ⊎ ((found : EntryPoint) × (plain_api.get_entry_point
                (entry_points plain_api)
                (codes "transfer")
              ≡ some found)
            × Exports found
            × (codes found.name ≡ codes "transfer")))
entry_points-Exports_example =
    entry_points-Exports plain_api plain_api-IsDocumented Dispatch.mint_handler (codes "transfer")

-- The transfer without its two further arguments, which it does not declare.
abbrev other_transfer_call : Env
other_transfer_call = record transfer_call { arg_hashes = λ name. Arg.absent }

run-AgreeAt :
    (name : String)
    → transfer_call.arg_hashes name ≡ other_transfer_call.arg_hashes name
    → AgreeAt transfer_call other_transfer_call name
run-AgreeAt name same = record {
  bools = refl;
  bytes = refl;
  numbers = refl;
  texts = refl;
  keys = refl;
  hashes = same;
  option_bools = refl;
  option_bytes = refl;
  option_hashes = refl;
}

run-AgreeOn : AgreeOn transfer_call other_transfer_call (entry_point Dispatch.transfer_handler).args
unfolding entry_point transfer_entry_point text_eq
run-AgreeOn = (
  run-AgreeAt Constants.arg_token_id refl,
  (
    run-AgreeAt Constants.arg_token_hash refl,
    (run-AgreeAt Constants.arg_source_key refl, (run-AgreeAt Constants.arg_target_key refl, tt)),
  ),
)

run-declared_example :
    Dispatch.run Dispatch.transfer_handler host transfer_call (deployed one_token)
    ≡ Dispatch.run Dispatch.transfer_handler host other_transfer_call (deployed one_token)
run-declared_example =
    run-declared Dispatch.transfer_handler host transfer_call other_transfer_call
      (deployed one_token) tt (record { caller = refl; call_stack = refl }) run-AgreeOn

abbrev outcome_state : State
outcome_state = deployed (initial 7 installed_settings)

abbrev installation : Installation plain_api.EntryPoints
installation = record {
  contract = created plain_api plain_api-IsDocumented install_call no_keys;
  state = outcome_state;
  account_keys =
      keep_contract plain_api (created plain_api plain_api-IsDocumented install_call no_keys);
}

run_call_session : call_session plain_api host install_call no_keys ≡ ok installation
unfolding install_nft_contract contract_50
run_call_session =
    call_session-install plain_api plain_api-IsDocumented install_call no_keys host
    ∙ rw run_install refl

call_session_effect_example :
    Leaves plain_api plain_api-IsDocumented install_call no_keys host (codes "balance") installation
unfolding text_eq
call_session_effect_example =
    call_session_effect plain_api plain_api-IsDocumented install_call no_keys host (codes "balance")
      refl refl refl refl run_call_session

minting_call_effect_example :
    ((outcome plain_api plain_api-IsDocumented install_call no_keys).account_keys
        (codes minting_contract_name)
      ≡ some (
          Key.hash
            (outcome plain_api plain_api-IsDocumented install_call no_keys).contract.contract_hash))
    × ((outcome plain_api plain_api-IsDocumented install_call no_keys).account_keys
          (codes minting_contract_version)
        ≡ some (Key.other 53))
    × ((outcome plain_api plain_api-IsDocumented install_call no_keys).account_keys
          (codes "balance")
        ≡ none)
    × RunsIn plain_api
        (outcome plain_api plain_api-IsDocumented install_call no_keys).contract.entry_points
        (codes minting_entry_point_mint)
        EntryPointType.session
    × RunsIn plain_api
        (outcome plain_api plain_api-IsDocumented install_call no_keys).contract.entry_points
        (codes minting_entry_point_transfer)
        EntryPointType.contract
    × RunsIn plain_api
        (outcome plain_api plain_api-IsDocumented install_call no_keys).contract.entry_points
        (codes minting_entry_point_burn)
        EntryPointType.contract
    × ((outcome plain_api plain_api-IsDocumented install_call no_keys).contract.entry_points
          (codes "approve")
        ≡ none)
unfolding text_eq
minting_call_effect_example =
    minting_call_effect plain_api plain_api-IsDocumented install_call no_keys (codes "balance")
      (codes "approve") refl refl refl refl refl refl refl
