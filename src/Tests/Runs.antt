-- ===== src/Tests/Runs.antt =====
-- The calls of the fixtures, evaluated.
use devxdao_m.Common.{◌≡◌, refl, some, [], ◌∷◌}
use devxdao_m.Common.Text.{Text, text_eq, codes}
use devxdao_m.Common.Decimal.{to_string}
use devxdao_m.Runtime.{Key, Arg, stored_dict, dictionary_put, ok}
use devxdao_m.Contract.State.{OwnedTokens}
use devxdao_m.Contract.Modes.{
  NftHolderMode, NftMetadataKind, NftIdentifierMode, whitelist_mode_try_from, holder_mode_try_from,
  holder_mode_as_u8, minting_mode_try_from, minting_mode_as_u8, nft_kind_try_from,
  nft_metadata_kind_try_from, nft_metadata_kind_as_u8, ownership_mode_try_from,
  ownership_mode_as_u8, identifier_mode_try_from, identifier_mode_as_u8,
  metadata_mutability_try_from,
}
use devxdao_m.Contract.Utils.Reads.{
  get_identifier_mode, get_holder_mode, get_ownership_mode, get_metadata_kind,
  get_number_of_minted_tokens,
}
use devxdao_m.Contract.Utils.Caller.{
  nth_back_one, verify_element, get_verified_caller, enforce_only_contract_creator_can_invoke,
}
use devxdao_m.Contract.Utils.Tokens.{
  TokenIdentifier, get_token_identifier_from_runtime_args, get_token_identifiers_from_dictionary,
  collect_or_revert, write_token_identifiers, upsert_token_identifiers,
}
use devxdao_m.Contract.Utils.Metadata.{validate_metadata, get_metadata_schema}
use devxdao_m.Contract.Init.{check_schema, init_args}
use devxdao_m.Contract.Counts.{
  increment_count, decrement_count, require_transferable, require_unburnt, owned_tokens_actual_key,
}
use devxdao_m.Contract.Mint.{
  check_minting_status, check_supply, check_minter_in, check_minter, new_token_owner_in,
  new_token_owner, new_metadata, new_token_identifier, record_token, append_token, add_owned_token,
  MintReceipt, mint,
}
use devxdao_m.Contract.Burn.{require_owner, burn}
use devxdao_m.Contract.Approve.{check_index, approve, put_operators, set_approval_for_all}
use devxdao_m.Contract.Transfer.{
  TransferReceipt, token_owner, check_rights_in, check_rights, check_account_whitelist,
  reassign_token, remove_owned_token, receive_token, receive_owned_token, plan_transfer,
  execute_transfer, transfer,
}
use devxdao_m.Ledger.Defs.{Ledger, deployed}
use devxdao_m.Ledger.Mint.{minted}
use devxdao_m.Tests.Fixtures.{
  host, init_call, settings, fresh, mint_call, with_token, one_token, transfer_call, moved,
  token_call, after_burn, after_burn_mint, operator_call,
}

pub run_init_args :
    init_args host init_call
    ≡ ok (settings NftHolderMode.accounts NftMetadataKind.raw NftIdentifierMode.ordinal)
unfolding init_args check_schema text_eq whitelist_mode_try_from holder_mode_try_from
    minting_mode_try_from nft_kind_try_from nft_metadata_kind_try_from ownership_mode_try_from
    identifier_mode_try_from metadata_mutability_try_from
run_init_args = refl

-- The receipt of a mint, whose token is `k`.
abbrev pub mint_receipt : Text → MintReceipt
mint_receipt k = record {
  receipt_name = codes "receipt";
  owned_tokens_key = Key.other 0;
  token_identifier = k;
}

pub run_mint :
    mint host mint_call (deployed fresh) ≡ ok (deployed one_token, mint_receipt (to_string 0))
unfolding mint check_minting_status check_supply check_minter_in check_minter new_token_owner_in
    new_token_owner new_metadata new_token_identifier record_token append_token add_owned_token
    validate_metadata get_metadata_schema owned_tokens_actual_key increment_count
    get_identifier_mode get_holder_mode get_ownership_mode get_metadata_kind
    get_number_of_minted_tokens nth_back_one verify_element get_verified_caller
    get_token_identifiers_from_dictionary collect_or_revert write_token_identifiers
    holder_mode_try_from holder_mode_as_u8 minting_mode_try_from minting_mode_as_u8
    nft_metadata_kind_try_from nft_metadata_kind_as_u8 ownership_mode_try_from ownership_mode_as_u8
    identifier_mode_try_from identifier_mode_as_u8 text_eq
run_mint = refl

abbrev pub transfer_receipt : TransferReceipt
transfer_receipt = record { receipt_name = codes "receipt"; owned_tokens_key = Key.other 0 }

pub run_transfer :
    transfer host transfer_call (deployed (with_token NftHolderMode.accounts))
    ≡ ok (deployed (moved NftHolderMode.accounts), transfer_receipt)
unfolding transfer plan_transfer execute_transfer token_owner check_rights_in check_rights
    check_account_whitelist reassign_token remove_owned_token receive_token receive_owned_token
    upsert_token_identifiers require_transferable require_unburnt increment_count decrement_count
    owned_tokens_actual_key get_identifier_mode get_holder_mode get_ownership_mode get_metadata_kind
    get_number_of_minted_tokens nth_back_one verify_element get_verified_caller holder_mode_try_from
    holder_mode_as_u8 nft_metadata_kind_try_from nft_metadata_kind_as_u8 ownership_mode_try_from
    ownership_mode_as_u8 identifier_mode_try_from identifier_mode_as_u8 text_eq
    get_token_identifier_from_runtime_args get_token_identifiers_from_dictionary collect_or_revert
    write_token_identifiers dictionary_put to_string
run_transfer = refl

pub run_burn : burn host token_call (deployed one_token) ≡ ok (deployed after_burn)
unfolding burn require_owner require_unburnt decrement_count
    enforce_only_contract_creator_can_invoke get_identifier_mode get_holder_mode get_ownership_mode
    get_metadata_kind get_number_of_minted_tokens nth_back_one verify_element get_verified_caller
    holder_mode_try_from holder_mode_as_u8 nft_metadata_kind_try_from nft_metadata_kind_as_u8
    ownership_mode_try_from ownership_mode_as_u8 identifier_mode_try_from identifier_mode_as_u8
    text_eq get_token_identifier_from_runtime_args dictionary_put to_string
run_burn = refl

pub run_mint-after_burn :
    mint host mint_call (deployed after_burn)
    ≡ ok (deployed after_burn_mint, mint_receipt (to_string 1))
unfolding mint check_minting_status check_supply check_minter_in check_minter new_token_owner_in
    new_token_owner new_metadata new_token_identifier record_token append_token add_owned_token
    validate_metadata get_metadata_schema owned_tokens_actual_key increment_count
    minting_mode_try_from minting_mode_as_u8 get_identifier_mode get_holder_mode get_ownership_mode
    get_metadata_kind get_number_of_minted_tokens nth_back_one verify_element get_verified_caller
    holder_mode_try_from holder_mode_as_u8 nft_metadata_kind_try_from nft_metadata_kind_as_u8
    ownership_mode_try_from ownership_mode_as_u8 identifier_mode_try_from identifier_mode_as_u8
    text_eq get_token_identifier_from_runtime_args get_token_identifiers_from_dictionary
    collect_or_revert write_token_identifiers dictionary_put to_string
run_mint-after_burn = refl

abbrev pub after_approve : Ledger
after_approve = record one_token {
  operator = dictionary_put one_token.operator (to_string 0) (some (Key.account 9));
}

pub run_approve : approve operator_call (deployed one_token) ≡ ok (deployed after_approve)
unfolding approve check_index require_transferable require_unburnt get_identifier_mode
    get_holder_mode get_ownership_mode get_metadata_kind get_number_of_minted_tokens nth_back_one
    verify_element get_verified_caller holder_mode_try_from holder_mode_as_u8
    nft_metadata_kind_try_from nft_metadata_kind_as_u8 ownership_mode_try_from ownership_mode_as_u8
    identifier_mode_try_from identifier_mode_as_u8 text_eq get_token_identifier_from_runtime_args
    dictionary_put to_string
run_approve = refl

abbrev pub after_approve_mint : Ledger
after_approve_mint =
    minted after_approve (TokenIdentifier.index 1) (Key.account 7) (codes "m") (to_string 7)
      (OwnedTokens.indices (0 ∷ 1 ∷ []))

pub run_mint-after_approve :
    mint host mint_call (deployed after_approve)
    ≡ ok (deployed after_approve_mint, mint_receipt (to_string 1))
unfolding mint check_minting_status check_supply check_minter_in check_minter new_token_owner_in
    new_token_owner new_metadata new_token_identifier record_token append_token add_owned_token
    validate_metadata get_metadata_schema owned_tokens_actual_key increment_count
    minting_mode_try_from minting_mode_as_u8 get_identifier_mode get_holder_mode get_ownership_mode
    get_metadata_kind get_number_of_minted_tokens nth_back_one verify_element get_verified_caller
    holder_mode_try_from holder_mode_as_u8 nft_metadata_kind_try_from nft_metadata_kind_as_u8
    ownership_mode_try_from ownership_mode_as_u8 identifier_mode_try_from identifier_mode_as_u8
    text_eq get_token_identifier_from_runtime_args get_token_identifiers_from_dictionary
    collect_or_revert write_token_identifiers dictionary_put to_string
run_mint-after_approve = refl

pub run_set_approval_for_all :
    set_approval_for_all host operator_call (deployed one_token) ≡ ok (deployed after_approve)
unfolding set_approval_for_all put_operators require_transferable get_identifier_mode
    get_holder_mode get_ownership_mode get_metadata_kind get_number_of_minted_tokens nth_back_one
    verify_element get_verified_caller holder_mode_try_from holder_mode_as_u8
    nft_metadata_kind_try_from nft_metadata_kind_as_u8 ownership_mode_try_from ownership_mode_as_u8
    identifier_mode_try_from identifier_mode_as_u8 text_eq get_token_identifier_from_runtime_args
    get_token_identifiers_from_dictionary collect_or_revert write_token_identifiers dictionary_put
    to_string
run_set_approval_for_all = refl

pub run_listed :
    get_token_identifiers_from_dictionary NftIdentifierMode.ordinal
      (stored_dict one_token.owned_tokens)
      (to_string 7)
    ≡ ok (some (TokenIdentifier.index 0 ∷ []))
unfolding get_token_identifiers_from_dictionary dictionary_put text_eq to_string
run_listed = refl

pub run_caller : get_verified_caller operator_call (deployed one_token) ≡ ok (Key.account 7)
unfolding get_identifier_mode get_holder_mode get_ownership_mode get_metadata_kind
    get_number_of_minted_tokens nth_back_one verify_element get_verified_caller holder_mode_try_from
    holder_mode_as_u8 nft_metadata_kind_try_from nft_metadata_kind_as_u8 ownership_mode_try_from
    ownership_mode_as_u8 identifier_mode_try_from identifier_mode_as_u8 text_eq
    get_token_identifier_from_runtime_args
run_caller = refl

pub run_named :
    get_token_identifier_from_runtime_args token_call NftIdentifierMode.ordinal
    ≡ ok (TokenIdentifier.index 0)
unfolding get_token_identifier_from_runtime_args text_eq
run_named = refl

pub run_named_again :
    get_token_identifier_from_runtime_args transfer_call NftIdentifierMode.ordinal
    ≡ ok (TokenIdentifier.index 0)
unfolding get_token_identifier_from_runtime_args text_eq
run_named_again = refl

pub run_owner_arg : mint_call.arg_key "token_owner" ≡ Arg.given (Key.account 7)
unfolding text_eq
run_owner_arg = refl

pub run_id_arg : token_call.arg_u64 "token_id" ≡ Arg.given 0
unfolding text_eq
run_id_arg = refl
