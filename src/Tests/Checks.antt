-- ===== src/Tests/Checks.antt =====
-- The checks of the fixtures' calls, evaluated.
use devxdao_m.Common.{◌≡◌, refl, some, [], ◌∷◌}
use devxdao_m.Common.Text.{text_eq, codes}
use devxdao_m.Common.Decimal.{to_string}
use devxdao_m.Runtime.{Key, Arg, dictionary_put, stored_dict, ok}
use devxdao_m.Contract.Constants.{arg_source_key, arg_target_key}
use devxdao_m.Contract.Modes.{
  NftHolderMode, NftMetadataKind, NftIdentifierMode, holder_mode_try_from, holder_mode_as_u8,
  minting_mode_try_from, minting_mode_as_u8, nft_metadata_kind_try_from, nft_metadata_kind_as_u8,
  ownership_mode_try_from, ownership_mode_as_u8, identifier_mode_try_from, identifier_mode_as_u8,
}
use devxdao_m.Contract.Utils.Reads.{
  get_identifier_mode, get_holder_mode, get_ownership_mode, get_metadata_kind,
  get_number_of_minted_tokens,
}
use devxdao_m.Contract.Utils.Caller.{
  nth_back_one, verify_element, get_verified_caller, enforce_only_contract_creator_can_invoke,
}
use devxdao_m.Contract.Utils.Tokens.{
  TokenIdentifier, get_token_identifier_from_runtime_args, get_token_identifiers_from_dictionary,
  collect_or_revert, write_token_identifiers,
}
use devxdao_m.Contract.Utils.Metadata.{validate_metadata, get_metadata_schema}
use devxdao_m.Contract.State.{OwnedTokens}
use devxdao_m.Contract.Mint.{
  check_minter_in, check_minter, new_token_owner_in, new_token_owner, new_metadata, append_token,
  add_owned_token,
}
use devxdao_m.Contract.Transfer.{check_rights_in, check_rights, check_account_whitelist}
use devxdao_m.Ledger.Defs.{deployed}
use devxdao_m.Tests.Fixtures.{host, fresh, mint_call, one_token, transfer_call, token_call}

pub run_add_owned_token :
    add_owned_token NftIdentifierMode.ordinal
      (stored_dict fresh.owned_tokens)
      (to_string 7)
      (TokenIdentifier.index 0)
    ≡ ok (
        stored_dict
          (dictionary_put fresh.owned_tokens (to_string 7) (OwnedTokens.indices (0 ∷ []))))
unfolding add_owned_token append_token get_token_identifiers_from_dictionary write_token_identifiers
    collect_or_revert
run_add_owned_token = refl

pub run_check_minter : check_minter mint_call (deployed fresh) ≡ ok tt
unfolding check_minter check_minter_in minting_mode_try_from minting_mode_as_u8
run_check_minter = refl

pub run_new_token_owner : new_token_owner mint_call (deployed fresh) ≡ ok (Key.account 7)
unfolding new_token_owner new_token_owner_in get_identifier_mode get_holder_mode get_ownership_mode
    get_metadata_kind get_number_of_minted_tokens nth_back_one verify_element get_verified_caller
    holder_mode_try_from holder_mode_as_u8 nft_metadata_kind_try_from nft_metadata_kind_as_u8
    ownership_mode_try_from ownership_mode_as_u8 identifier_mode_try_from identifier_mode_as_u8
    text_eq get_token_identifier_from_runtime_args
run_new_token_owner = refl

pub run_new_metadata :
    new_metadata host mint_call (deployed fresh) NftMetadataKind.raw ≡ ok (codes "m")
unfolding new_metadata validate_metadata get_metadata_schema text_eq
run_new_metadata = refl

pub run_transfer_named :
    get_token_identifier_from_runtime_args transfer_call NftIdentifierMode.ordinal
    ≡ ok (TokenIdentifier.index 0)
unfolding get_token_identifier_from_runtime_args text_eq
run_transfer_named = refl

pub run_owner_there : one_token.token_owners (to_string 0) ≡ some (Key.account 7)
unfolding dictionary_put text_eq to_string
run_owner_there = refl

pub run_source : transfer_call.arg_key arg_source_key ≡ Arg.given (Key.account 7)
unfolding text_eq
run_source = refl

pub run_target : transfer_call.arg_key arg_target_key ≡ Arg.given (Key.account 8)
unfolding text_eq
run_target = refl

pub run_check_rights :
    check_rights transfer_call
      (deployed one_token)
      NftHolderMode.accounts
      (TokenIdentifier.index 0)
      (Key.account 7)
    ≡ ok tt
unfolding check_rights check_rights_in get_identifier_mode get_holder_mode get_ownership_mode
    get_metadata_kind get_number_of_minted_tokens nth_back_one verify_element get_verified_caller
    holder_mode_try_from holder_mode_as_u8 nft_metadata_kind_try_from nft_metadata_kind_as_u8
    ownership_mode_try_from ownership_mode_as_u8 identifier_mode_try_from identifier_mode_as_u8
    text_eq get_token_identifier_from_runtime_args
run_check_rights = refl

pub run_check_account_whitelist :
    check_account_whitelist (deployed one_token) (Key.account 8) ≡ ok tt
unfolding check_account_whitelist
run_check_account_whitelist = refl

pub run_enforce : enforce_only_contract_creator_can_invoke token_call (deployed one_token) ≡ ok tt
unfolding enforce_only_contract_creator_can_invoke
run_enforce = refl

pub run_burn_caller : get_verified_caller token_call (deployed one_token) ≡ ok (Key.account 7)
unfolding get_identifier_mode get_holder_mode get_ownership_mode get_metadata_kind
    get_number_of_minted_tokens nth_back_one verify_element get_verified_caller holder_mode_try_from
    holder_mode_as_u8 nft_metadata_kind_try_from nft_metadata_kind_as_u8 ownership_mode_try_from
    ownership_mode_as_u8 identifier_mode_try_from identifier_mode_as_u8 text_eq
    get_token_identifier_from_runtime_args
run_burn_caller = refl
