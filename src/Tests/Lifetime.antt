-- ===== src/Tests/Lifetime.antt =====
-- An installation with ordinal identifiers, a mint on it, and the example of what holds from the session
-- `call` on.
use devxdao_m.Common.{◌≡◌, ◌∙◌, refl, [], ◌∷◌, arith}
use devxdao_m.Common.Text.{text_eq, codes}
use devxdao_m.Common.Decimal.{to_string}
use devxdao_m.Runtime.{Key, Env, ok}
use devxdao_m.Runtime.Contracts.{no_keys}
use devxdao_m.Contract.Init.{
  InitArgs, init, init_args, check_schema, put_keys, new_dictionary, new_dictionaries,
}
use devxdao_m.Contract.Modes.{
  NftIdentifierMode, whitelist_mode_try_from, holder_mode_try_from, holder_mode_as_u8,
  minting_mode_try_from, minting_mode_as_u8, nft_kind_try_from, nft_metadata_kind_try_from,
  nft_metadata_kind_as_u8, ownership_mode_try_from, ownership_mode_as_u8, identifier_mode_try_from,
  identifier_mode_as_u8, metadata_mutability_try_from,
}
use devxdao_m.Contract.State.{OwnedTokens}
use devxdao_m.Contract.Utils.Reads.{
  get_identifier_mode, get_holder_mode, get_ownership_mode, get_metadata_kind,
  get_number_of_minted_tokens,
}
use devxdao_m.Contract.Utils.Caller.{nth_back_one, verify_element, get_verified_caller}
use devxdao_m.Contract.Utils.Tokens.{
  TokenIdentifier, get_token_identifiers_from_dictionary, collect_or_revert,
  write_token_identifiers,
}
use devxdao_m.Contract.Utils.Metadata.{validate_metadata, get_metadata_schema}
use devxdao_m.Contract.Counts.{increment_count, owned_tokens_actual_key}
use devxdao_m.Contract.Mint.{
  MintReceipt, check_minting_status, check_supply, check_minter_key, check_minter_in, check_minter,
  new_token_owner_in, new_token_owner, new_metadata, new_token_identifier, record_token,
  append_token, add_owned_token, mint,
}
use devxdao_m.Contract.Install.{install_args, install}
use devxdao_m.Contract.Call.{Installation, install_nft_contract, keep_contract, call_session}
use devxdao_m.Ledger.Defs.{Ledger, deployed}
use devxdao_m.Ledger.Init.{initial}
use devxdao_m.Ledger.Mint.{minted}
use devxdao_m.History.Steps.{here, next, mints}
use devxdao_m.Owned.Defs.{IsKept}
use devxdao_m.Interface.Call.{created, call_session-install}
use devxdao_m.Interface.Lifetime.{call_session-IsKept}
use devxdao_m.Interface.Plain.{contract_50, plain_api, plain_api-IsDocumented}
use devxdao_m.Tests.Fixtures.{host, call, installed_settings, mint_call}

abbrev numbered_install_call : Env
numbered_install_call =
    call 7
      (("total_token_supply", 10)
        ∷ ("ownership_mode", 2)
        ∷ ("nft_kind", 1)
        ∷ ("nft_metadata_kind", 2)
        ∷ ("identifier_mode", 0)
        ∷ ("metadata_mutability", 0)
        ∷ [])
      (("collection_name", codes "C") ∷ ("collection_symbol", codes "C") ∷ ("json_schema", []) ∷ [])
      []

abbrev numbered_settings : InitArgs
numbered_settings = record installed_settings { identifier_mode = NftIdentifierMode.ordinal }

abbrev first_ledger : Ledger
first_ledger = initial 7 numbered_settings

run_numbered_install :
    install host numbered_install_call 50 (codes "p") ≡ ok (deployed first_ledger)
unfolding install install_args init init_args check_schema put_keys new_dictionary new_dictionaries
    text_eq whitelist_mode_try_from holder_mode_try_from minting_mode_try_from nft_kind_try_from
    nft_metadata_kind_try_from ownership_mode_try_from identifier_mode_try_from
    metadata_mutability_try_from
run_numbered_install = refl

abbrev numbered_installation : Installation plain_api.EntryPoints
numbered_installation = record {
  contract = created plain_api plain_api-IsDocumented numbered_install_call no_keys;
  state = deployed first_ledger;
  account_keys =
      keep_contract plain_api
        (created plain_api plain_api-IsDocumented numbered_install_call no_keys);
}

run_numbered_session :
    call_session plain_api host numbered_install_call no_keys ≡ ok numbered_installation
unfolding install_nft_contract contract_50
run_numbered_session =
    call_session-install plain_api plain_api-IsDocumented numbered_install_call no_keys host
    ∙ rw run_numbered_install refl

run_numbered_mode : get_identifier_mode (deployed first_ledger) ≡ ok NftIdentifierMode.ordinal
unfolding get_identifier_mode identifier_mode_try_from identifier_mode_as_u8
run_numbered_mode = refl

abbrev second_ledger : Ledger
second_ledger =
    minted first_ledger (TokenIdentifier.index 0) (Key.account 7) (codes "m") (to_string 7)
      (OwnedTokens.indices (0 ∷ []))

abbrev installer_receipt : MintReceipt
installer_receipt = record {
  receipt_name = codes "nft-C-p";
  owned_tokens_key = Key.other 0;
  token_identifier = to_string 0;
}

run_installer_mint :
    mint host mint_call (deployed first_ledger) ≡ ok (deployed second_ledger, installer_receipt)
unfolding mint check_minting_status check_supply check_minter_key check_minter_in check_minter
    new_token_owner_in new_token_owner new_metadata new_token_identifier record_token append_token
    add_owned_token validate_metadata get_metadata_schema owned_tokens_actual_key increment_count
    get_identifier_mode get_holder_mode get_ownership_mode get_metadata_kind
    get_number_of_minted_tokens nth_back_one verify_element get_verified_caller
    get_token_identifiers_from_dictionary collect_or_revert write_token_identifiers
    holder_mode_try_from holder_mode_as_u8 minting_mode_try_from minting_mode_as_u8
    nft_metadata_kind_try_from nft_metadata_kind_as_u8 ownership_mode_try_from ownership_mode_as_u8
    identifier_mode_try_from identifier_mode_as_u8 text_eq
run_installer_mint = refl

call_session-IsKept_example :
    (d : Ledger) × (deployed second_ledger ≡ deployed d) × (d.installer ≡ 7) × (IsKept host d)
call_session-IsKept_example =
    call_session-IsKept plain_api numbered_install_call no_keys host 10 plain_api-IsDocumented
      run_numbered_session run_numbered_mode refl (omega arith)
      (next here (mints mint_call run_installer_mint))
