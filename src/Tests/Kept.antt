-- ===== src/Tests/Kept.antt =====
-- An example of each result on the lists of owned tokens.
use devxdao_m.Common.{Bool, [], ◌∷◌, some, none, if◌then◌else◌, ◌≡◌, refl, sym, subst, arith}
use devxdao_m.Common.Text.{text_eq, codes}
use devxdao_m.Common.Decimal.{to_string}
use devxdao_m.Runtime.{Key, Env, Arg, ok, ok_unique}
use devxdao_m.Contract.Constants.{arg_token_id, arg_operator, arg_approve_all}
use devxdao_m.Contract.Query.{get_approved}
use devxdao_m.Owned.Operators.{mint-get_approved}
use devxdao_m.Ledger.Reads.{get_number_of_minted_tokens-deployed}
use devxdao_m.Owned.Rightful.{IsRightful, transfer-IsRightful}
use devxdao_m.Tests.MoreRuns.{operator_transfer_call, run_operator_transfer}
use devxdao_m.Owned.Approvals.{set_approval_for_all-get_approved}
use devxdao_m.Contract.Modes.{NftHolderMode, NftMetadataKind, NftIdentifierMode}
use devxdao_m.Contract.State.{State}
use devxdao_m.Contract.Mint.{MintReceipt, mint}
use devxdao_m.Contract.Burn.{burn}
use devxdao_m.Contract.Transfer.{TransferReceipt, transfer}
use devxdao_m.Ledger.Defs.{deployed}
use devxdao_m.Ledger.Init.{init-installed}
use devxdao_m.Balances.Defs.{IsConsistent}
use devxdao_m.Balances.Init.{initial-IsConsistent}
use devxdao_m.Balances.Mint.{minted-IsConsistent}
use devxdao_m.History.Steps.{here, next, mints, burns, approves}
use devxdao_m.Owned.Defs.{is_held, IsListed, StaysListed}
use devxdao_m.Owned.Moves.{AllLists}
use devxdao_m.Owned.Mint.{stored_dict-injective, mint-joins, mint_succeeds}
use devxdao_m.Owned.Succeeds.{transfer_succeeds, burn_succeeds}
use devxdao_m.Owned.History.{initial-IsListed, init-StaysListed}
use devxdao_m.Tests.Fixtures.{
  host, init_call, settings, fresh, mint_call, one_token, transfer_call, token_call, after_burn,
  call, operator_call,
}
use devxdao_m.Tests.Runs.{
  run_init_args, run_mint, run_burn, run_named, run_caller, run_set_approval_for_all, after_approve,
  run_approve, run_mint-after_approve, after_approve_mint,
}
use devxdao_m.Tests.Checks.{
  run_add_owned_token, run_check_minter, run_new_token_owner, run_new_metadata, run_transfer_named,
  run_owner_there, run_source, run_target, run_check_rights, run_check_account_whitelist,
  run_enforce, run_burn_caller,
}

fresh_books : IsConsistent host fresh
fresh_books =
    initial-IsConsistent host 7
      (settings NftHolderMode.accounts NftMetadataKind.raw NftIdentifierMode.ordinal) refl
      (omega arith)

fresh_lists : IsListed host fresh
fresh_lists =
    initial-IsListed host 7
      (settings NftHolderMode.accounts NftMetadataKind.raw NftIdentifierMode.ordinal)

pub one_token_books : IsConsistent host one_token
one_token_books =
    minted-IsConsistent host fresh (Key.account 7) (codes "m") (to_string 7) _ fresh_books
      (omega arith) refl

pub one_token_lists : IsListed host one_token
one_token_lists =
    let (v, added, agree) =
      mint-joins host fresh (Key.account 7) (to_string 7) fresh_books fresh_lists refl in
    subst (λ lists. AllLists lists (is_held host one_token))
      (sym (stored_dict-injective (ok_unique _ run_add_owned_token added))) agree

init-StaysListed_example : StaysListed host (deployed after_burn)
init-StaysListed_example =
    init-StaysListed host init_call 7
      (settings NftHolderMode.accounts NftMetadataKind.raw NftIdentifierMode.ordinal) run_init_args
      refl (omega arith)
      (init-installed host init_call 7
        (settings NftHolderMode.accounts NftMetadataKind.raw NftIdentifierMode.ordinal)
        run_init_args)
      (next (next here (mints mint_call run_mint)) (burns token_call run_burn))

mint_succeeds_example :
    (s' : State) × (r : MintReceipt) × (mint host mint_call (deployed fresh) ≡ ok (s', r))
mint_succeeds_example =
    mint_succeeds host mint_call fresh (Key.account 7) (codes "m") (to_string 7) fresh_books
      fresh_lists refl (omega arith) run_check_minter run_new_token_owner run_new_metadata refl

transfer_succeeds_example :
    (s' : State) × (r : TransferReceipt) × (transfer host transfer_call (deployed one_token)
      ≡ ok (s', r))
transfer_succeeds_example =
    transfer_succeeds host transfer_call one_token 0 (Key.account 7) (Key.account 8) (to_string 7)
      (to_string 8) one_token_books one_token_lists refl run_transfer_named run_owner_there refl
      run_source run_target run_check_rights run_check_account_whitelist refl refl

burn_succeeds_example : (s' : State) × (burn host token_call (deployed one_token) ≡ ok s')
burn_succeeds_example =
    burn_succeeds host token_call one_token 0 (Key.account 7) (to_string 7) one_token_books
      run_enforce run_named run_burn_caller run_owner_there refl refl

pub run_operator_id : operator_call.arg_u64 arg_token_id ≡ Arg.given 0
unfolding text_eq
run_operator_id = refl

set_approval_for_all-get_approved_example :
    (approve_all : Bool) × (operator : Key) × (operator_call.arg_bool arg_approve_all
      ≡ Arg.given approve_all)
    × (operator_call.arg_key arg_operator ≡ Arg.given operator)
    × (get_approved operator_call (deployed after_approve) ≡ (
        if is_held host one_token (to_string 7) 0
        then ok (if approve_all then some operator else none)
        else get_approved operator_call (deployed one_token)))
set_approval_for_all-get_approved_example =
    set_approval_for_all-get_approved host operator_call operator_call one_token (Key.account 7) 0
      (one_token_books, one_token_lists) run_set_approval_for_all run_caller refl run_operator_id
      (omega arith) refl

abbrev second_token_call : Env
second_token_call = call 7 (("token_id", 1) ∷ []) [] []

run_second_token_id : second_token_call.arg_u64 arg_token_id ≡ Arg.given 1
unfolding text_eq
run_second_token_id = refl

mint-get_approved_example : get_approved second_token_call (deployed after_approve_mint) ≡ ok none
mint-get_approved_example =
    mint-get_approved host init_call mint_call second_token_call 7
      (settings NftHolderMode.accounts NftMetadataKind.raw NftIdentifierMode.ordinal) 1
      run_init_args refl (omega arith)
      (init-installed host init_call 7
        (settings NftHolderMode.accounts NftMetadataKind.raw NftIdentifierMode.ordinal)
        run_init_args)
      (next (next here (mints mint_call run_mint)) (approves operator_call run_approve))
      (get_number_of_minted_tokens-deployed after_approve) run_mint-after_approve
      run_second_token_id

transfer-IsRightful_example :
    IsRightful host operator_transfer_call 7 (deployed fresh) (deployed after_approve)
transfer-IsRightful_example =
    transfer-IsRightful host init_call operator_transfer_call 7
      (settings NftHolderMode.accounts NftMetadataKind.raw NftIdentifierMode.ordinal) run_init_args
      refl refl (omega arith)
      (init-installed host init_call 7
        (settings NftHolderMode.accounts NftMetadataKind.raw NftIdentifierMode.ordinal)
        run_init_args)
      (next (next here (mints mint_call run_mint)) (approves operator_call run_approve))
      run_operator_transfer
