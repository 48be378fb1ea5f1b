-- ===== src/Tests/Refusals.antt =====
-- An example of each result on the installer's entry points, the account whitelist and the metadata.
use devxdao_m.Common.{ℕ, ◌≡◌, ◌≢◌, ◌↔◌, refl, true, arith, [], contains, ◌==◌}
use devxdao_m.Common.Text.{codes}
use devxdao_m.Runtime.{ok, revert, ApiError}
use devxdao_m.Contract.Error.{invalid_account}
use devxdao_m.Contract.Modes.{NftMetadataKind}
use devxdao_m.Contract.State.{State}
use devxdao_m.Contract.Init.{InitArgs, init}
use devxdao_m.Contract.Admin.{
  set_variables, add_to_account_whitelist, remove_from_account_whitelist,
}
use devxdao_m.Contract.Burn.{burn}
use devxdao_m.Contract.Query.{metadata, set_token_metadata}
use devxdao_m.Contract.Install.{installed}
use devxdao_m.Ledger.Defs.{Ledger, deployed}
use devxdao_m.Ledger.Init.{initial}
use devxdao_m.Ledger.Arguments.{Provides, init-Provides}
use devxdao_m.History.Steps.{here, next, mints}
use devxdao_m.Rights.Whitelist.{installer_only, add-remove_listed}
use devxdao_m.Rights.Metadata.{Accepts, validate_metadata-Accepts, metadata_unavailable}
use devxdao_m.Rights.Install.{hash_mode_immutable}
use devxdao_m.Tests.Fixtures.{
  install_call, installed_settings, host, init_call, call, fresh, mint_call, one_token, token_call,
  listing_call, custom,
}
use devxdao_m.Tests.Runs.{run_mint}
use devxdao_m.Tests.MoreRuns.{
  run_install, run_installed_mode, run_listing_arg, run_validate_metadata,
}

init-Provides_example :
    (init host init_call (installed 7) ≡ ok (deployed fresh))
    ↔ ((a : InitArgs) × Provides host init_call a × (deployed fresh ≡ deployed (initial 7 a)))
init-Provides_example = init-Provides host init_call 7 (deployed fresh)

stranger_ne : ◌≢◌ {A = ℕ} 66 7
stranger_ne p = omega arith

installer_only_example :
    (set_variables (call 66 [] [] []) (deployed one_token) ≡ revert (ApiError.user invalid_account))
    × (add_to_account_whitelist (call 66 [] [] []) (deployed one_token)
        ≡ revert (ApiError.user invalid_account))
    × (remove_from_account_whitelist (call 66 [] [] []) (deployed one_token)
        ≡ revert (ApiError.user invalid_account))
    × (burn host (call 66 [] [] []) (deployed one_token) ≡ revert (ApiError.user invalid_account))
    × (set_token_metadata host (call 66 [] [] []) (deployed one_token)
        ≡ revert (ApiError.user invalid_account))
installer_only_example = installer_only host (call 66 [] [] []) one_token stranger_ne

add-remove_listed_example :
    (s : State) × (d' : Ledger) × (add_to_account_whitelist (listing_call 8) (deployed fresh)
      ≡ ok s)
    × (remove_from_account_whitelist (listing_call 8) s ≡ ok (deployed d'))
    × (contains ◌==◌ d'.account_whitelist 8 ≡ true)
add-remove_listed_example = add-remove_listed (listing_call 8) fresh 8 refl (run_listing_arg 8) refl

validate_metadata-Accepts_example :
    Accepts host custom NftMetadataKind.custom_validated (codes "{}") (codes "color: red")
validate_metadata-Accepts_example =
    validate_metadata-Accepts host custom NftMetadataKind.custom_validated (codes "{}")
      run_validate_metadata

metadata_unavailable_example : metadata token_call (deployed one_token) ≢ ok (codes "m")
metadata_unavailable_example =
    metadata_unavailable host token_call fresh (next here (mints mint_call run_mint))

hash_mode_immutable_example :
    set_token_metadata host install_call (deployed (initial 7 installed_settings))
    ≢ ok (deployed fresh)
hash_mode_immutable_example =
    hash_mode_immutable host install_call install_call 50 (codes "p") run_install run_installed_mode
      here
