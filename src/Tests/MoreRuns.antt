-- ===== src/Tests/MoreRuns.antt =====
-- More calls of the fixtures, evaluated: in hash mode, of an installation, and by a stranger.
use devxdao_m.Common.{ℕ, ◌≡◌, refl, some, [], ◌∷◌}
use devxdao_m.Common.Text.{text_eq, codes}
use devxdao_m.Common.Decimal.{to_string}
use devxdao_m.Runtime.{Key, Env, Arg, CallStackElement, dictionary_put, ok}
use devxdao_m.Contract.Modes.{
  NftHolderMode, NftMetadataKind, NftIdentifierMode, whitelist_mode_try_from, holder_mode_try_from,
  holder_mode_as_u8, minting_mode_try_from, minting_mode_as_u8, nft_kind_try_from,
  nft_metadata_kind_try_from, nft_metadata_kind_as_u8, ownership_mode_try_from,
  ownership_mode_as_u8, identifier_mode_try_from, identifier_mode_as_u8,
  metadata_mutability_try_from,
}
use devxdao_m.Contract.Utils.Reads.{
  get_identifier_mode, get_holder_mode, get_ownership_mode, get_metadata_kind,
  get_number_of_minted_tokens,
}
use devxdao_m.Contract.Utils.Caller.{nth_back_one, verify_element, get_verified_caller}
use devxdao_m.Contract.Utils.Tokens.{
  TokenIdentifier, get_token_identifier_from_runtime_args, get_token_identifiers_from_dictionary,
  collect_or_revert, write_token_identifiers, upsert_token_identifiers,
}
use devxdao_m.Contract.Utils.Metadata.{
  validate_metadata, get_metadata_schema, get, check_attributes,
}
use devxdao_m.Contract.Init.{check_schema, init_args}
use devxdao_m.Contract.Counts.{
  increment_count, decrement_count, require_transferable, require_unburnt, owned_tokens_actual_key,
}
use devxdao_m.Contract.Mint.{
  check_minting_status, check_supply, check_minter_in, check_minter, new_token_owner_in,
  new_token_owner, new_metadata, new_token_identifier, record_token, append_token, add_owned_token,
  mint,
}
use devxdao_m.Contract.Transfer.{
  token_owner, check_rights_in, check_rights, check_account_whitelist, reassign_token,
  remove_owned_token, receive_token, receive_owned_token, plan_transfer, execute_transfer, transfer,
}
use devxdao_m.Contract.Install.{install, install_args}
use devxdao_m.Contract.Init.{init, put_keys, new_dictionary, new_dictionaries}
use devxdao_m.Ledger.Init.{initial}
use devxdao_m.Ledger.Defs.{Ledger, deployed}
use devxdao_m.Ledger.Transfer.{transferred}
use devxdao_m.Contract.State.{OwnedTokens}
use devxdao_m.Tests.Fixtures.{
  install_call, installed_settings, host, call, with_token, transfer_call, moved, hashed,
  hash_mint_call, hash_token, custom, listing_call,
}
use devxdao_m.Tests.Runs.{mint_receipt, transfer_receipt, after_approve}

abbrev pub operator_transfer_call : Env
operator_transfer_call =
    call 9 (("token_id", 0) ∷ []) []
      (("source_key", Key.account 7) ∷ ("target_key", Key.account 8) ∷ [])

abbrev pub operator_moved : Ledger
operator_moved =
    transferred after_approve (TokenIdentifier.index 0) (Key.account 8) (to_string 7) (to_string 8)
      0 (OwnedTokens.indices []) (OwnedTokens.indices (0 ∷ []))

pub run_operator_transfer :
    transfer host operator_transfer_call (deployed after_approve)
    ≡ ok (deployed operator_moved, transfer_receipt)
unfolding transfer plan_transfer execute_transfer token_owner check_rights_in check_rights
    check_account_whitelist reassign_token remove_owned_token receive_token receive_owned_token
    upsert_token_identifiers require_transferable require_unburnt increment_count decrement_count
    owned_tokens_actual_key get_identifier_mode get_holder_mode get_ownership_mode get_metadata_kind
    get_number_of_minted_tokens nth_back_one verify_element get_verified_caller holder_mode_try_from
    holder_mode_as_u8 nft_metadata_kind_try_from nft_metadata_kind_as_u8 ownership_mode_try_from
    ownership_mode_as_u8 identifier_mode_try_from identifier_mode_as_u8 text_eq
    get_token_identifier_from_runtime_args get_token_identifiers_from_dictionary collect_or_revert
    write_token_identifiers dictionary_put to_string
run_operator_transfer = refl

pub run_transfer_mixed :
    transfer host transfer_call (deployed (with_token NftHolderMode.mixed))
    ≡ ok (deployed (moved NftHolderMode.mixed), transfer_receipt)
unfolding transfer plan_transfer execute_transfer token_owner check_rights_in check_rights
    check_account_whitelist reassign_token remove_owned_token receive_token receive_owned_token
    upsert_token_identifiers require_transferable require_unburnt increment_count decrement_count
    owned_tokens_actual_key get_identifier_mode get_holder_mode get_ownership_mode get_metadata_kind
    get_number_of_minted_tokens nth_back_one verify_element get_verified_caller holder_mode_try_from
    holder_mode_as_u8 nft_metadata_kind_try_from nft_metadata_kind_as_u8 ownership_mode_try_from
    ownership_mode_as_u8 identifier_mode_try_from identifier_mode_as_u8 text_eq
    get_token_identifier_from_runtime_args get_token_identifiers_from_dictionary collect_or_revert
    write_token_identifiers dictionary_put to_string
run_transfer_mixed = refl

pub run_hash_mint :
    mint host (hash_mint_call 7) (deployed hashed)
    ≡ ok (deployed (hash_token hashed 7), mint_receipt (codes "h"))
unfolding mint check_minting_status check_supply check_minter_in check_minter new_token_owner_in
    new_token_owner new_metadata new_token_identifier record_token append_token add_owned_token
    validate_metadata get_metadata_schema owned_tokens_actual_key increment_count
    minting_mode_try_from minting_mode_as_u8 get_identifier_mode get_holder_mode get_ownership_mode
    get_metadata_kind get_number_of_minted_tokens nth_back_one verify_element get_verified_caller
    holder_mode_try_from holder_mode_as_u8 nft_metadata_kind_try_from nft_metadata_kind_as_u8
    ownership_mode_try_from ownership_mode_as_u8 identifier_mode_try_from identifier_mode_as_u8
    text_eq get_token_identifier_from_runtime_args get_token_identifiers_from_dictionary
    collect_or_revert write_token_identifiers dictionary_put to_string
run_hash_mint = refl

pub run_hash_mint_again :
    mint host (hash_mint_call 8) (deployed (hash_token hashed 7))
    ≡ ok (deployed (hash_token (hash_token hashed 7) 8), mint_receipt (codes "h"))
unfolding mint check_minting_status check_supply check_minter_in check_minter new_token_owner_in
    new_token_owner new_metadata new_token_identifier record_token append_token add_owned_token
    validate_metadata get_metadata_schema owned_tokens_actual_key increment_count
    minting_mode_try_from minting_mode_as_u8 get_identifier_mode get_holder_mode get_ownership_mode
    get_metadata_kind get_number_of_minted_tokens nth_back_one verify_element get_verified_caller
    holder_mode_try_from holder_mode_as_u8 nft_metadata_kind_try_from nft_metadata_kind_as_u8
    ownership_mode_try_from ownership_mode_as_u8 identifier_mode_try_from identifier_mode_as_u8
    text_eq get_token_identifier_from_runtime_args get_token_identifiers_from_dictionary
    collect_or_revert write_token_identifiers dictionary_put to_string
run_hash_mint_again = refl

pub run_stranger :
    get_verified_caller
      (record transfer_call {
        caller = 66;
        call_stack = CallStackElement.session 66 ∷ CallStackElement.stored_contract 50 ∷ [];
      })
      (deployed (with_token NftHolderMode.mixed))
    ≡ ok (Key.account 66)
unfolding get_identifier_mode get_holder_mode get_ownership_mode get_metadata_kind
    get_number_of_minted_tokens nth_back_one verify_element get_verified_caller holder_mode_try_from
    holder_mode_as_u8 nft_metadata_kind_try_from nft_metadata_kind_as_u8 ownership_mode_try_from
    ownership_mode_as_u8 identifier_mode_try_from identifier_mode_as_u8 text_eq
    get_token_identifier_from_runtime_args
run_stranger = refl

pub run_validate_metadata :
    validate_metadata host (deployed custom) NftMetadataKind.custom_validated (codes "{}")
    ≡ ok (codes "color: red")
unfolding validate_metadata get_metadata_schema check_attributes get text_eq
run_validate_metadata = refl

pub hash_owner_there : (hash_token hashed 7).token_owners (codes "h") ≡ some (Key.account 7)
unfolding dictionary_put text_eq
hash_owner_there = refl

pub run_hash_arg : (hash_mint_call 8).arg_text "token_id_hash" ≡ Arg.given (codes "h")
unfolding text_eq
run_hash_arg = refl

pub run_listing_arg :
    (a : ℕ) → (listing_call a).arg_key "account_whitelist" ≡ Arg.given (Key.account a)
unfolding text_eq
run_listing_arg a = refl

pub run_install :
    install host install_call 50 (codes "p") ≡ ok (deployed (initial 7 installed_settings))
unfolding install install_args init init_args check_schema put_keys new_dictionary new_dictionaries
    text_eq whitelist_mode_try_from holder_mode_try_from minting_mode_try_from nft_kind_try_from
    nft_metadata_kind_try_from ownership_mode_try_from identifier_mode_try_from
    metadata_mutability_try_from
run_install = refl

pub run_installed_mode :
    get_identifier_mode (deployed (initial 7 installed_settings)) ≡ ok NftIdentifierMode.hash
unfolding get_identifier_mode identifier_mode_try_from identifier_mode_as_u8
run_installed_mode = refl
