-- ===== src/Tests/Examples.antt =====
-- An example of each result on balances, tokens and operators.
use devxdao_m.Common.{
  ℕ, suc, ◌+◌, ◌%◌, ◌^◌, ◌<◌, ◌≡◌, ◌≢◌, refl, Bool, true, false, none, some, is_some, arith, [],
  ◌∷◌, if◌then◌else◌, get_elem?,
}
use devxdao_m.Common.Text.{Text, text_eq, codes}
use devxdao_m.Common.Decimal.{to_string}
use devxdao_m.Runtime.{Key, CallStackElement, Arg, ok}
use devxdao_m.Contract.Constants.{arg_target_key, arg_operator, arg_approve_all}
use devxdao_m.Contract.Modes.{NftHolderMode, NftMetadataKind, NftIdentifierMode}
use devxdao_m.Contract.Utils.Caller.{get_verified_caller}
use devxdao_m.Contract.Utils.Tokens.{
  TokenIdentifier, get_dictionary_item_key, get_token_identifier_from_runtime_args,
  get_owned_tokens_dictionary_item_key,
}
use devxdao_m.Contract.Mint.{new_token_owner, new_token_identifier}
use devxdao_m.Contract.Burn.{burn}
use devxdao_m.Contract.Approve.{approve}
use devxdao_m.Contract.Transfer.{transfer}
use devxdao_m.Contract.Query.{balance_of, owner_of, get_approved}
use devxdao_m.Ledger.Defs.{Ledger, deployed}
use devxdao_m.Balances.Defs.{IsConsistent, holding}
use devxdao_m.Balances.Init.{initial-IsConsistent}
use devxdao_m.Balances.Mint.{minted-IsConsistent}
use devxdao_m.Balances.Answers.{balance_of-holding, owner_of-total}
use devxdao_m.History.Steps.{Reach, here, next, mints, burns}
use devxdao_m.History.Config.{Continues, Reach-Continues}
use devxdao_m.Registry.Refinement.{registry, Came, Reach-Events}
use devxdao_m.Rights.Transfer.{
  IsAuthorised, transfer-IsAuthorised, transfer_any_caller, whitelist_hash, transfer-whitelisted,
  transfer_effect,
}
use devxdao_m.Rights.Burn.{burn_effect, burn_final}
use devxdao_m.Rights.Approve.{approve-get_approved, lists_key, set_approval_for_all_effect}
use devxdao_m.Rights.Mint.{mint_effect, mint_reassigns}
use devxdao_m.Tests.Fixtures.{
  host, settings, fresh, mint_call, with_token, one_token, transfer_call, moved, token_call,
  after_burn, after_burn_mint, operator_call, hashed, hash_mint_call, hash_token,
}
use devxdao_m.Tests.Runs.{
  transfer_receipt, run_mint, run_transfer, run_burn, run_mint-after_burn, after_approve,
  run_approve, run_set_approval_for_all, run_listed, run_caller, run_named, run_named_again,
  run_owner_arg, run_id_arg,
}
use devxdao_m.Tests.MoreRuns.{
  run_transfer_mixed, run_hash_mint_again, run_stranger, run_hash_arg, hash_owner_there,
}

fresh-IsConsistent : IsConsistent host fresh
fresh-IsConsistent =
    initial-IsConsistent host 7
      (settings NftHolderMode.accounts NftMetadataKind.raw NftIdentifierMode.ordinal) refl
      (omega arith)

one_token-IsConsistent : IsConsistent host one_token
one_token-IsConsistent =
    minted-IsConsistent host fresh (Key.account 7) (codes "m") (to_string 7) _ fresh-IsConsistent
      (omega arith) refl

-- A mint and a burn after `init`.
two_calls : Reach host (deployed fresh) (deployed after_burn)
two_calls = next (next here (mints mint_call run_mint)) (burns token_call run_burn)

Reach-Continues_example : Continues fresh (deployed after_burn)
Reach-Continues_example = Reach-Continues host fresh two_calls

balance_of-holding_example :
    balance_of host mint_call (deployed one_token) ≡ ok (holding host one_token (to_string 7))
balance_of-holding_example =
    balance_of-holding host mint_call one_token (Key.account 7) one_token-IsConsistent run_owner_arg
      refl

owner_of-total_example :
    (key : Key) × (one_token.token_owners (to_string 0) ≡ some key)
    × (owner_of token_call (deployed one_token) ≡ ok key)
owner_of-total_example =
    owner_of-total host token_call one_token 0 one_token-IsConsistent run_id_arg (omega arith)

transfer-IsAuthorised_example : IsAuthorised transfer_call one_token
transfer-IsAuthorised_example = transfer-IsAuthorised host transfer_call one_token refl run_transfer

transfer_any_caller_example :
    transfer host
      (record transfer_call {
        caller = 66;
        call_stack = CallStackElement.session 66 ∷ CallStackElement.stored_contract 50 ∷ [];
      })
      (deployed (with_token NftHolderMode.mixed))
    ≡ ok (deployed (moved NftHolderMode.mixed), transfer_receipt)
transfer_any_caller_example =
    transfer_any_caller host transfer_call (with_token NftHolderMode.mixed) 66
      (CallStackElement.session 66 ∷ CallStackElement.stored_contract 50 ∷ []) mixed_ne
      run_transfer_mixed run_stranger
  where
    mixed_ne : NftHolderMode.mixed ≢ NftHolderMode.accounts
    mixed_ne p = cc

transfer-whitelisted_example :
    (target : Key) × (a : ℕ) × (i : ℕ) × (transfer_call.arg_key arg_target_key ≡ Arg.given target)
    × (whitelist_hash target ≡ some a)
    × (get_elem? one_token.account_whitelist i ≡ some a)
transfer-whitelisted_example = transfer-whitelisted host transfer_call one_token run_transfer

transfer_effect_example :
    (d' : Ledger) × (t : TokenIdentifier) × (target : Key) × (deployed
        (moved NftHolderMode.accounts)
      ≡ deployed d')
    × (get_token_identifier_from_runtime_args transfer_call NftIdentifierMode.ordinal ≡ ok t)
    × (transfer_call.arg_key arg_target_key ≡ Arg.given target)
    × (d'.token_owners (get_dictionary_item_key t) ≡ some target)
    × (d'.operator (get_dictionary_item_key t) ≡ some none)
    × ((j : Text)
        → text_eq (get_dictionary_item_key t) j ≡ false
        → (d'.token_owners j ≡ one_token.token_owners j) × (d'.operator j ≡ one_token.operator j))
    × (d'.token_issuers ≡ one_token.token_issuers)
    × (d'.burnt_tokens ≡ one_token.burnt_tokens)
transfer_effect_example = transfer_effect host transfer_call one_token run_transfer

burn_effect_example :
    (d' : Ledger) × (t : TokenIdentifier) × (owner : Key) × (deployed after_burn ≡ deployed d')
    × (get_token_identifier_from_runtime_args token_call NftIdentifierMode.ordinal ≡ ok t)
    × (token_call.caller ≡ 7)
    × (get_verified_caller token_call (deployed one_token) ≡ ok owner)
    × (one_token.token_owners (get_dictionary_item_key t) ≡ some owner)
    × (one_token.burnt_tokens (get_dictionary_item_key t) ≡ none)
    × (is_some (d'.burnt_tokens (get_dictionary_item_key t)) ≡ true)
    × (item_key : Text) × (count : ℕ) × (get_owned_tokens_dictionary_item_key host owner
        ≡ ok item_key)
    × (one_token.token_counts item_key ≡ some (suc count))
    × (d'.token_counts item_key ≡ some count)
    × ((j : Text) → text_eq item_key j ≡ false → d'.token_counts j ≡ one_token.token_counts j)
    × (d'.token_owners ≡ one_token.token_owners)
    × (d'.token_issuers ≡ one_token.token_issuers)
    × (d'.operator ≡ one_token.operator)
    × (d'.owned_tokens ≡ one_token.owned_tokens)
burn_effect_example = burn_effect host token_call one_token run_burn

burn_final_example :
    (transfer host transfer_call (deployed after_burn_mint)
      ≢ ok (deployed one_token, transfer_receipt))
    × (approve transfer_call (deployed after_burn_mint) ≢ ok (deployed one_token))
    × (burn host transfer_call (deployed after_burn_mint) ≢ ok (deployed one_token))
burn_final_example =
    burn_final host token_call transfer_call one_token (TokenIdentifier.index 0) run_burn run_named
      (next here (mints mint_call run_mint-after_burn)) run_named_again

approve-get_approved_example :
    (operator : Key) × (operator_call.arg_key arg_operator ≡ Arg.given operator)
    × (get_approved operator_call (deployed after_approve) ≡ ok (some operator))
approve-get_approved_example = approve-get_approved operator_call one_token run_approve

set_approval_for_all_effect_example :
    (d' : Ledger) × (approve_all : Bool) × (operator : Key) × (deployed after_approve ≡ deployed d')
    × (operator_call.arg_bool arg_approve_all ≡ Arg.given approve_all)
    × (operator_call.arg_key arg_operator ≡ Arg.given operator)
    × ((j : Text)
        → d'.operator j ≡ (
            if lists_key (TokenIdentifier.index 0 ∷ []) j
            then some (if approve_all then some operator else none)
            else one_token.operator j))
set_approval_for_all_effect_example =
    set_approval_for_all_effect host operator_call one_token (Key.account 7)
      (TokenIdentifier.index 0 ∷ []) run_set_approval_for_all run_caller refl run_listed

mint_effect_example :
    (d' : Ledger) × (t : TokenIdentifier) × (owner : Key) × (deployed one_token ≡ deployed d')
    × (fresh.allow_minting ≡ true)
    × (0 < 10)
    × (new_token_owner mint_call (deployed fresh) ≡ ok owner)
    × (new_token_identifier NftIdentifierMode.ordinal mint_call 0 ≡ ok t)
    × (d'.token_owners (get_dictionary_item_key t) ≡ some owner)
    × (d'.token_issuers (get_dictionary_item_key t) ≡ some owner)
    × (d'.number_of_minted_tokens ≡ (fresh.number_of_minted_tokens + 1) % 2 ^ 64)
    × ((j : Text)
        → text_eq (get_dictionary_item_key t) j ≡ false
        → (d'.token_owners j ≡ fresh.token_owners j) × (d'.token_issuers j ≡ fresh.token_issuers j))
    × (d'.operator ≡ fresh.operator)
    × (d'.burnt_tokens ≡ fresh.burnt_tokens)
mint_effect_example = mint_effect host mint_call fresh run_mint

-- Account 7 minted the hash first; account 8 mints it again.
mint_reassigns_example :
    (d' : Ledger) × (owner : Key) × (owner_item : Text) × (deployed
        (hash_token (hash_token hashed 7) 8)
      ≡ deployed d')
    × (new_token_owner (hash_mint_call 8) (deployed (hash_token hashed 7)) ≡ ok owner)
    × (get_owned_tokens_dictionary_item_key host owner ≡ ok owner_item)
    × (d'.token_owners (codes "h") ≡ some owner)
    × (d'.operator ≡ (hash_token hashed 7).operator)
    × (text_eq owner_item (to_string 7) ≡ false
        → (d'.token_counts (to_string 7) ≡ (hash_token hashed 7).token_counts (to_string 7))
          × (d'.owned_tokens (to_string 7) ≡ (hash_token hashed 7).owned_tokens (to_string 7)))
mint_reassigns_example =
    mint_reassigns host (hash_mint_call 8) (hash_token hashed 7) (codes "h") (Key.account 7) refl
      run_hash_arg hash_owner_there refl run_hash_mint_again

Reach-Events_example :
    (d' : Ledger) × (deployed after_burn ≡ deployed d') × (Came host (registry fresh) d')
Reach-Events_example = Reach-Events host fresh fresh-IsConsistent two_calls
