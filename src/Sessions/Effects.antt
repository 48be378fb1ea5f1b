-- ===== src/Sessions/Effects.antt =====
-- The sessions against the NFT contract: what reaches the contract and what the account keeps.
use devxdao_m.Common.{ℕ, ◌≡◌, refl, sym, ap, ◌∙◌, subst, false, some, List, [], ◌∷◌, push}
use devxdao_m.Common.Text.{text_eq}
use devxdao_m.Common.Decimal.{to_string}
use devxdao_m.Runtime.{
  Key, CallStackElement, Host, Env, Arg, Dict, ok, ok_unique, ok-injective, >>=-elim,
}
use devxdao_m.Contract.Constants.{arg_token_id, arg_target_key, arg_source_key}
use devxdao_m.Contract.Modes.{NftHolderMode, NftIdentifierMode}
use devxdao_m.Contract.State.{State}
use devxdao_m.Contract.Utils.Args.{runtime_get_named_arg}
use devxdao_m.Contract.Utils.Caller.{nth_back_one, verify_element, get_verified_caller}
use devxdao_m.Contract.Utils.Tokens.{
  TokenIdentifier, get_dictionary_item_key, get_token_identifier_from_runtime_args,
}
use devxdao_m.Contract.Transfer.{transfer}
use devxdao_m.Ledger.Defs.{Ledger, deployed}
use devxdao_m.Ledger.Reads.{get_holder_mode-deployed}
use devxdao_m.Ledger.Burn.{Burns, burn-Burns}
use devxdao_m.Rights.Transfer.{transfer_effect}
use devxdao_m.Sessions.Defs.{
  NftContract, nft_contract, KeptValue, contract_call, get_nft_contract_hash, get_identifier_args,
  arg_nft_contract_hash, arg_is_hash_identifier_mode, transfer_session, minting_contract_burn,
}

pub named_index :
    (e : Env) (mode : NftIdentifierMode) (i : ℕ)
    → mode ≡ NftIdentifierMode.ordinal
    → e.arg_u64 arg_token_id ≡ Arg.given i
    → get_token_identifier_from_runtime_args e mode ≡ ok (TokenIdentifier.index i)
unfolding get_token_identifier_from_runtime_args
named_index e NftIdentifierMode.ordinal i o given = rw given
named_index e NftIdentifierMode.hash i o given = cc

module _ (h : Host) (contracts : ℕ → NftContract State) (e : Env) (d : Ledger) (c : ℕ) where
  -- A transfer session that names a token by its index gives it to the target of the session.
  pub transfer_session_effect :
      (account : Dict KeptValue) (i : ℕ) (target : Key) {answer : State × Dict KeptValue}
      → contracts c ≡ nft_contract h
      → e.arg_key arg_nft_contract_hash ≡ Arg.given (Key.hash c)
      → e.arg_bool arg_is_hash_identifier_mode ≡ Arg.given false
      → e.arg_u64 arg_token_id ≡ Arg.given i
      → e.arg_key arg_target_key ≡ Arg.given target
      → d.identifier_mode ≡ NftIdentifierMode.ordinal
      → transfer_session contracts e (deployed d) account ≡ ok answer
      → (d' : Ledger) × (answer.0 ≡ deployed d') × (d'.token_owners (to_string i) ≡ some target)
  unfolding transfer_session get_nft_contract_hash get_identifier_args text_eq
  transfer_session_effect account i target at contract index given_id given_target mode p0 =
      >>=-elim (runtime_get_named_arg (e.arg_key arg_source_key)) _ (rw contract at p0)
        λ source q1 p1.
          let p2 = rw index at (rw given_target at p1) in
          let p3 = rw at at (rw given_id at p2) in
          let call =
            contract_call e c ((arg_token_id, i) ∷ []) []
              ((arg_target_key, target) ∷ (arg_source_key, source) ∷ []) in
          >>=-elim (transfer h call (deployed d)) _ p3 λ result q4 p4.
            let (d', t, to, after, named, given, owned, cleared, others, issuers, marks) =
              transfer_effect h call d q4 in
            let same_token : t ≡ TokenIdentifier.index i = sym (
              ok_unique (get_token_identifier_from_runtime_args call d.identifier_mode)
                (named_index call d.identifier_mode i mode refl) named) in
            let same_target : to ≡ target = cc in
            (
              d',
              sym (ap (λ (x : State × Dict KeptValue). x.0) (ok-injective p4)) ∙ after,
              subst (λ k. d'.token_owners (get_dictionary_item_key k) ≡ some target) same_token
                  (owned ∙ ap some same_target),
            )

-- The last element but one of a call stack that a contract has made a call from.
nth_back_one-push :
    (l : List CallStackElement) (a b : CallStackElement) → nth_back_one (push (push l a) b) ≡ some a
unfolding nth_back_one
nth_back_one-push [] a b = refl
nth_back_one-push (x ∷ []) a b = refl
nth_back_one-push (x ∷ y ∷ []) a b = refl
nth_back_one-push (x ∷ y ∷ z ∷ l) a b = nth_back_one-push (y ∷ z ∷ l) a b

verify_element-contract :
    (c : ℕ) (mode : NftHolderMode) {owner : Key}
    → verify_element (CallStackElement.stored_contract c) mode ≡ ok owner
    → owner ≡ Key.hash c
unfolding verify_element
verify_element-contract c NftHolderMode.accounts p = cc
verify_element-contract c NftHolderMode.contracts p = sym (ok-injective p)
verify_element-contract c NftHolderMode.mixed p = sym (ok-injective p)

caller_contract :
    (e : Env) (d : Ledger) (stack : List CallStackElement) (minter callee : ℕ) {owner : Key}
    → e.call_stack
      ≡ push
          (push stack (CallStackElement.stored_contract minter))
          (CallStackElement.stored_contract callee)
    → get_verified_caller e (deployed d) ≡ ok owner
    → owner ≡ Key.hash minter
unfolding get_verified_caller
caller_contract e d stack minter callee from p0 =
    let p1 = rw (get_holder_mode-deployed d, from) at p0 in
    let p2 =
      rw
        (nth_back_one-push stack (CallStackElement.stored_contract minter)
          (CallStackElement.stored_contract callee))
        at p1 in
    verify_element-contract minter d.holder_mode p2

-- A burn that the minting contract passes on succeeds only for a token that the minting contract itself
-- owns, and only in a deploy of the NFT contract's installer.
pub minting_contract_burn_owner :
    (h : Host) (contracts : ℕ → NftContract State) (e : Env) (d : Ledger) (c minter i : ℕ)
    (stack : List CallStackElement) {s' : State}
    → contracts c ≡ nft_contract h
    → e.arg_key arg_nft_contract_hash ≡ Arg.given (Key.hash c)
    → e.arg_u64 arg_token_id ≡ Arg.given i
    → e.call_stack ≡ push stack (CallStackElement.stored_contract minter)
    → d.identifier_mode ≡ NftIdentifierMode.ordinal
    → minting_contract_burn contracts e (deployed d) ≡ ok s'
    → (d.token_owners (to_string i) ≡ some (Key.hash minter)) × (e.caller ≡ d.installer)
unfolding minting_contract_burn get_nft_contract_hash text_eq
minting_contract_burn_owner h contracts e d c minter i stack {s'} at contract given from mode p0 =
    let p1 = rw at at (rw given at (rw contract at p0)) in
    let call = contract_call e c ((arg_token_id, i) ∷ []) [] [] in
    let b : Burns h call d s' = burn-Burns h call d p1 in
    let same_token : b.token ≡ TokenIdentifier.index i = sym (
      ok_unique (get_token_identifier_from_runtime_args call d.identifier_mode)
        (named_index call d.identifier_mode i mode refl) b.named) in
    let same_owner =
      caller_contract call d stack minter c
        (ap (λ l. push l (CallStackElement.stored_contract c)) from) b.by_owner in
    (
      subst (λ k. d.token_owners (get_dictionary_item_key k) ≡ some (Key.hash minter)) same_token
          (b.owned ∙ ap some same_owner),
      b.by_installer,
    )
