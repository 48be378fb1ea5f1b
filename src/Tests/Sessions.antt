-- ===== src/Tests/Sessions.antt =====
-- Runs of the sessions, and an example of each result on them.
use devxdao_m.Common.{arith, ◌≡◌, refl, some, none, List, [], ◌∷◌, false, ℕ}
use devxdao_m.Common.Text.{text_eq, codes}
use devxdao_m.Common.Decimal.{to_string}
use devxdao_m.Runtime.{Key, CallStackElement, Env, Arg, Dict, dictionary_put, ok}
use devxdao_m.Contract.Constants.{arg_token_owner, arg_token_id, arg_target_key}
use devxdao_m.Contract.Modes.{
  NftHolderMode, holder_mode_try_from, holder_mode_as_u8, nft_metadata_kind_try_from,
  nft_metadata_kind_as_u8, ownership_mode_try_from, ownership_mode_as_u8, identifier_mode_try_from,
  identifier_mode_as_u8,
}
use devxdao_m.Contract.State.{State, OwnedTokens}
use devxdao_m.Contract.Utils.Reads.{
  get_identifier_mode, get_holder_mode, get_ownership_mode, get_metadata_kind,
  get_number_of_minted_tokens,
}
use devxdao_m.Contract.Utils.Caller.{
  nth_back_one, verify_element, get_verified_caller, enforce_only_contract_creator_can_invoke,
}
use devxdao_m.Contract.Utils.Tokens.{
  TokenIdentifier, get_token_identifier_from_runtime_args, get_token_identifiers_from_dictionary,
  collect_or_revert, write_token_identifiers, upsert_token_identifiers,
}
use devxdao_m.Contract.Counts.{
  increment_count, decrement_count, require_transferable, require_unburnt, owned_tokens_actual_key,
}
use devxdao_m.Contract.Install.{named_arg}
use devxdao_m.Contract.Burn.{require_owner, burn}
use devxdao_m.Contract.Transfer.{
  token_owner, check_rights_in, check_rights, check_account_whitelist, reassign_token,
  remove_owned_token, receive_token, receive_owned_token, plan_transfer, execute_transfer, transfer,
}
use devxdao_m.Ledger.Defs.{Ledger, deployed}
use devxdao_m.Ledger.Mint.{minted}
use devxdao_m.Ledger.Burn.{burnt}
use devxdao_m.Sessions.Defs.{
  NftContract, nft_contract, KeptValue, get_nft_contract_hash, get_identifier_args,
  arg_nft_contract_hash, arg_key_name, arg_is_hash_identifier_mode, transfer_session,
  owner_of_session, minting_contract_burn,
}
use devxdao_m.Sessions.Ownership.{transfer_session-owner_of_session}
use devxdao_m.Sessions.Effects.{transfer_session_effect, minting_contract_burn_owner}
use devxdao_m.Tests.Fixtures.{host, call, numbered, one_token, moved}

abbrev deployed_contracts : ℕ → NftContract State
deployed_contracts c = nft_contract host

-- A session of account 7, possibly under the minting contract.
abbrev session_call : List CallStackElement → Env
session_call stack =
    record (call 7 (("token_id", 0) ∷ []) (("key_name", codes "b") ∷ []) (
      ("nft_contract_hash", Key.hash 50)
      ∷ ("source_key", Key.account 7)
      ∷ ("target_key", Key.account 8)
      ∷ ("token_owner", Key.account 7)
      ∷ [])) { call_stack = stack; arg_bool = named_arg (("is_hash_identifier_mode", false) ∷ []) }

abbrev by_account : Env
by_account = session_call (CallStackElement.session 7 ∷ [])

abbrev by_minting_contract : Env
by_minting_contract =
    session_call (CallStackElement.session 7 ∷ CallStackElement.stored_contract 60 ∷ [])

abbrev empty_account : Dict KeptValue
empty_account name = none

-- The minting contract owns token 0.
abbrev contract_token : Ledger
contract_token =
    minted (numbered NftHolderMode.mixed) (TokenIdentifier.index 0) (Key.hash 60) (codes "m")
      (99 ∷ to_string 60) (OwnedTokens.indices (0 ∷ []))

run_transfer_session :
    transfer_session deployed_contracts by_account (deployed one_token) empty_account
    ≡ ok (
      deployed (moved NftHolderMode.accounts),
      dictionary_put empty_account (codes "receipt") (KeptValue.key (Key.other 0)),
    )
unfolding transfer_session get_nft_contract_hash get_identifier_args transfer plan_transfer
    execute_transfer token_owner check_rights_in check_rights check_account_whitelist reassign_token
    remove_owned_token receive_token receive_owned_token upsert_token_identifiers
    require_transferable require_unburnt increment_count decrement_count owned_tokens_actual_key
    get_identifier_mode get_holder_mode get_ownership_mode get_metadata_kind
    get_number_of_minted_tokens nth_back_one verify_element get_verified_caller holder_mode_try_from
    holder_mode_as_u8 nft_metadata_kind_try_from nft_metadata_kind_as_u8 ownership_mode_try_from
    ownership_mode_as_u8 identifier_mode_try_from identifier_mode_as_u8 text_eq
    get_token_identifier_from_runtime_args get_token_identifiers_from_dictionary collect_or_revert
    write_token_identifiers dictionary_put to_string
run_transfer_session = refl

run_minting_contract_burn :
    minting_contract_burn deployed_contracts by_minting_contract (deployed contract_token)
    ≡ ok (deployed (burnt contract_token (TokenIdentifier.index 0) (99 ∷ to_string 60) 0))
unfolding minting_contract_burn get_nft_contract_hash burn require_owner require_unburnt
    decrement_count enforce_only_contract_creator_can_invoke get_identifier_mode get_holder_mode
    get_ownership_mode get_metadata_kind get_number_of_minted_tokens nth_back_one verify_element
    get_verified_caller holder_mode_try_from holder_mode_as_u8 nft_metadata_kind_try_from
    nft_metadata_kind_as_u8 ownership_mode_try_from ownership_mode_as_u8 identifier_mode_try_from
    identifier_mode_as_u8 text_eq get_token_identifier_from_runtime_args dictionary_put to_string
run_minting_contract_burn = refl

run_session_contract :
    (stack : List CallStackElement)
    → (session_call stack).arg_key arg_nft_contract_hash ≡ Arg.given (Key.hash 50)
unfolding text_eq
run_session_contract stack = refl

run_session_index :
    (stack : List CallStackElement) → (session_call stack).arg_u64 arg_token_id ≡ Arg.given 0
unfolding text_eq
run_session_index stack = refl

run_session_mode : by_account.arg_bool arg_is_hash_identifier_mode ≡ Arg.given false
unfolding text_eq
run_session_mode = refl

run_session_target : by_account.arg_key arg_target_key ≡ Arg.given (Key.account 8)
unfolding text_eq
run_session_target = refl

run_session_owner : by_account.arg_key arg_token_owner ≡ Arg.given (Key.account 7)
unfolding text_eq
run_session_owner = refl

run_session_name : by_account.arg_text arg_key_name ≡ Arg.given (codes "b")
unfolding text_eq
run_session_name = refl

transfer_session-owner_of_session_example :
    owner_of_session deployed_contracts by_account
      (deployed (moved NftHolderMode.accounts))
      empty_account
    ≡ ok (dictionary_put empty_account (codes "b") (KeptValue.key (Key.account 8)))
transfer_session-owner_of_session_example =
    transfer_session-owner_of_session host deployed_contracts by_account by_account one_token 50
      empty_account empty_account 0 (Key.account 8) (codes "b") refl
      (run_session_contract (CallStackElement.session 7 ∷ [])) run_session_mode
      (run_session_index (CallStackElement.session 7 ∷ [])) run_session_target
      (run_session_contract (CallStackElement.session 7 ∷ [])) run_session_name run_session_mode
      (run_session_index (CallStackElement.session 7 ∷ [])) refl (omega arith) run_transfer_session

transfer_session_effect_example :
    (d' : Ledger) × (deployed (moved NftHolderMode.accounts) ≡ deployed d')
    × (d'.token_owners (to_string 0) ≡ some (Key.account 8))
transfer_session_effect_example =
    transfer_session_effect host deployed_contracts by_account one_token 50 empty_account 0
      (Key.account 8) refl (run_session_contract (CallStackElement.session 7 ∷ [])) run_session_mode
      (run_session_index (CallStackElement.session 7 ∷ [])) run_session_target refl
      run_transfer_session

minting_contract_burn_owner_example :
    (contract_token.token_owners (to_string 0) ≡ some (Key.hash 60))
    × (by_minting_contract.caller ≡ 7)
minting_contract_burn_owner_example =
    minting_contract_burn_owner host deployed_contracts by_minting_contract contract_token 50 60 0
      (CallStackElement.session 7 ∷ []) refl
      (run_session_contract (CallStackElement.session 7 ∷ CallStackElement.stored_contract 60 ∷ []))
      (run_session_index (CallStackElement.session 7 ∷ CallStackElement.stored_contract 60 ∷ []))
      refl refl run_minting_contract_burn
