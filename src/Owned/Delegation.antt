-- ===== src/Owned/Delegation.antt =====
-- An approval and the operator's transfer after it (`approve` and `transfer` of
-- casper/contract/src/main.rs), in an instance that numbers its tokens.
use devxdao_m.Common.{ℕ, ◌≡◌, refl, some, arith, inl, inr, Bool-cases}
use devxdao_m.Common.Decimal.{to_string}
use devxdao_m.Common.Text.{Text}
use devxdao_m.Runtime.{
  Key, key_eq, key_eq_refl, Host, Env, Arg, dictionary_put, dictionary_put_self, ok, ok_unique,
}
use devxdao_m.Contract.Constants.{arg_token_id, arg_operator, arg_source_key, arg_target_key}
use devxdao_m.Contract.Modes.{NftHolderMode, NftIdentifierMode}
use devxdao_m.Contract.State.{State}
use devxdao_m.Contract.Utils.Caller.{get_verified_caller}
use devxdao_m.Contract.Utils.Tokens.{
  TokenIdentifier, get_token_identifier_from_runtime_args, get_owned_tokens_dictionary_item_key,
}
use devxdao_m.Contract.Approve.{approve}
use devxdao_m.Contract.Transfer.{
  TransferReceipt, check_rights, check_rights_in, check_account_whitelist, transfer,
}
use devxdao_m.Ledger.Defs.{Ledger, deployed}
use devxdao_m.Ledger.Writes.{get-as_is}
use devxdao_m.Ledger.Approve.{Approves, approve-Approves}
use devxdao_m.Owned.Defs.{IsKept}
use devxdao_m.Owned.History.{IsKept-IsPreserved}
use devxdao_m.Owned.Succeeds.{transfer_succeeds}

-- The operator on record passes the test on the caller in every holder mode.
check_rights_operator :
    (e : Env) (d : Ledger) (mode : NftHolderMode) (i : ℕ) (owner operator : Key)
    → get_verified_caller e (deployed d) ≡ ok operator
    → d.operator (to_string i) ≡ some (some operator)
    → check_rights e (deployed d) mode (TokenIdentifier.index i) owner ≡ ok tt
unfolding check_rights check_rights_in
check_rights_operator e d NftHolderMode.accounts i owner operator by approved =
    rw (by, get-as_is d.operator (to_string i), approved)
      (rw (key_eq_refl operator) (elim (Bool-cases (key_eq operator owner)) [
        | inl same ↦ ground arith
        | inr differ ↦ ground arith
      ]))
check_rights_operator e d NftHolderMode.contracts i owner operator by approved =
    rw (by, get-as_is d.operator (to_string i)) refl
check_rights_operator e d NftHolderMode.mixed i owner operator by approved =
    rw (by, get-as_is d.operator (to_string i)) refl

names_index :
    (e : Env) (mode : NftIdentifierMode) (i : ℕ)
    → mode ≡ NftIdentifierMode.ordinal
    → e.arg_u64 arg_token_id ≡ Arg.given i
    → get_token_identifier_from_runtime_args e mode ≡ ok (TokenIdentifier.index i)
unfolding get_token_identifier_from_runtime_args
names_index e NftIdentifierMode.ordinal i o given = rw given refl
names_index e NftIdentifierMode.hash i o given = cc

-- Where the books are consistent and the lists agree with the owners, an approval that succeeds lets the
-- operator transfer the token: its call succeeds if it names the same token and the approving caller as
-- the source, and a whitelisted target, where both of these are accounts or contracts.
pub operator_transfer_succeeds :
    (h : Host) (e call : Env) (d : Ledger) (i : ℕ) (owner operator target : Key)
    {from_item target_item : Text} {s' : State}
    → IsKept h d
    → approve e (deployed d) ≡ ok s'
    → e.arg_u64 arg_token_id ≡ Arg.given i
    → e.arg_key arg_operator ≡ Arg.given operator
    → get_verified_caller e (deployed d) ≡ ok owner
    → call.arg_u64 arg_token_id ≡ Arg.given i
    → call.arg_key arg_source_key ≡ Arg.given owner
    → call.arg_key arg_target_key ≡ Arg.given target
    → get_verified_caller call s' ≡ ok operator
    → check_account_whitelist s' target ≡ ok tt
    → get_owned_tokens_dictionary_item_key h owner ≡ ok from_item
    → get_owned_tokens_dictionary_item_key h target ≡ ok target_item
    → (s'' : State) × (r : TransferReceipt) × (transfer h call s' ≡ ok (s'', r))
operator_transfer_succeeds h e call d i owner operator target {from_item} {target_item} {s'} kept p
      id given by id' source target_given by' whitelisted keyed_from keyed_target =
    let a : Approves e d s' = approve-Approves e d p in
    let index : a.token ≡ TokenIdentifier.index i =
      ok_unique (get_token_identifier_from_runtime_args e d.identifier_mode) a.named
        (names_index e d.identifier_mode i kept.0.ordinal id) in
    let same = ok_unique (get_verified_caller e (deployed d)) a.by_owner by in
    let same_operator : a.operator ≡ operator = ground (arith, a.operator_given, given) in
    let d' : Ledger = record d {
      operator = dictionary_put d.operator (to_string i) (some operator);
    } in
    let result : s' ≡ deployed d' = rw (index, same_operator) at a.result in
    let kept' : IsKept h d' =
      (IsKept-IsPreserved h).by_administration d d.allow_minting d.contract_whitelist
        d.account_whitelist d'.operator d.metadata_custom_validated d.metadata_cep78
        d.metadata_nft721 d.metadata_raw kept in
    rw result (
      transfer_succeeds h call d' i owner target from_item target_item kept'.0 kept'.1
        a.transferable (names_index call d.identifier_mode i kept.0.ordinal id')
        (rw (index, same) at a.owned) (rw index at a.unburnt) source target_given
        (check_rights_operator call d' d.holder_mode i owner operator (rw result at by')
          (dictionary_put_self d.operator (to_string i) (some operator)))
        (rw result at whitelisted) keyed_from keyed_target)
