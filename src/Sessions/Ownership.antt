-- ===== src/Sessions/Ownership.antt =====
-- A transfer by a session and the question for the owner after it (`call` of
-- casper/client/transfer_session and of casper/client/owner_of_session).
use devxdao_m.Common.{ℕ, ◌<◌, ◌≡◌, refl, sym, ap, ◌∙◌, false, some, [], ◌∷◌, arith}
use devxdao_m.Common.Text.{Text, text_eq}
use devxdao_m.Common.Decimal.{to_string}
use devxdao_m.Runtime.{
  Key, Host, Env, Arg, Dict, dictionary_put, dictionary_put_self, ok, ok_unique, ok-injective,
  >>=-elim,
}
use devxdao_m.Contract.Constants.{arg_token_id, arg_target_key, arg_source_key}
use devxdao_m.Contract.Modes.{NftIdentifierMode}
use devxdao_m.Contract.State.{State}
use devxdao_m.Contract.Counts.{require_in_bounds}
use devxdao_m.Contract.Query.{owner_of}
use devxdao_m.Contract.Utils.Args.{runtime_get_named_arg}
use devxdao_m.Contract.Utils.Reads.{get_number_of_minted_tokens}
use devxdao_m.Contract.Utils.Tokens.{TokenIdentifier, get_token_identifier_from_runtime_args}
use devxdao_m.Contract.Transfer.{TransferReceipt, plan_transfer, transfer}
use devxdao_m.Ledger.Defs.{Ledger, deployed}
use devxdao_m.Ledger.Reads.{get_identifier_mode-deployed}
use devxdao_m.Ledger.Transfer.{
  Plans, plan_transfer-Plans, Executes, execute_transfer-Executes, transferred,
}
use devxdao_m.Sessions.Defs.{
  NftContract, nft_contract, KeptValue, contract_call, get_nft_contract_hash, get_identifier_args,
  arg_nft_contract_hash, arg_key_name, arg_is_hash_identifier_mode, transfer_session,
  owner_of_session,
}
use devxdao_m.Sessions.Effects.{named_index}

-- An index below the number of minted tokens that has an owner.
owner_of-deployed :
    (e : Env) (d : Ledger) (i : ℕ) {key : Key}
    → d.identifier_mode ≡ NftIdentifierMode.ordinal
    → e.arg_u64 arg_token_id ≡ Arg.given i
    → i < d.number_of_minted_tokens
    → d.token_owners (to_string i) ≡ some key
    → owner_of e (deployed d) ≡ ok key
unfolding owner_of get_token_identifier_from_runtime_args require_in_bounds
    get_number_of_minted_tokens
owner_of-deployed e d i ordinal given lt there =
    rw (get_identifier_mode-deployed d, ordinal, given) (ground arith)

transfer_there :
    (h : Host) (e : Env) (d : Ledger) (i : ℕ) (target : Key) {s' : State} {r : TransferReceipt}
    → d.identifier_mode ≡ NftIdentifierMode.ordinal
    → e.arg_u64 arg_token_id ≡ Arg.given i
    → e.arg_key arg_target_key ≡ Arg.given target
    → transfer h e (deployed d) ≡ ok (s', r)
    → (d' : Ledger) × (s' ≡ deployed d')
      × (d'.identifier_mode ≡ NftIdentifierMode.ordinal)
      × (d'.number_of_minted_tokens ≡ d.number_of_minted_tokens)
      × (d'.token_owners (to_string i) ≡ some target)
unfolding transfer
transfer_there h e d i target {s'} ordinal given target_given p0 =
    >>=-elim (plan_transfer e (deployed d)) _ p0 λ p q p1.
      let a : Plans e d p = plan_transfer-Plans e d q in
      let x : Executes h d p s' = execute_transfer-Executes h d p p1 in
      let index : p.token_identifier ≡ TokenIdentifier.index i =
        ok_unique (get_token_identifier_from_runtime_args e d.identifier_mode) a.named
          (named_index e d.identifier_mode i ordinal given) in
      let same : p.target_owner_key ≡ target = ground (arith, a.target_given, target_given) in
      (
        transferred d (TokenIdentifier.index i) target x.from_item x.target_item x.count x.removed
            x.received,
        rw (index, same) at x.result,
        ordinal,
        refl,
        dictionary_put_self d.token_owners (to_string i) target,
      )

module _ (h : Host) (contracts : ℕ → NftContract State) (e e' : Env) (d : Ledger) (c : ℕ) where
  -- Against a contract in ordinal mode: after a transfer session that succeeds, an owner session that
  -- names the same token, by an index below the number of minted tokens, keeps the target of the transfer
  -- under the name that it is given.
  pub transfer_session-owner_of_session :
      (account account' : Dict KeptValue) (i : ℕ) (target : Key) (name : Text)
      {answer : State × Dict KeptValue}
      → contracts c ≡ nft_contract h
      → e.arg_key arg_nft_contract_hash ≡ Arg.given (Key.hash c)
      → e.arg_bool arg_is_hash_identifier_mode ≡ Arg.given false
      → e.arg_u64 arg_token_id ≡ Arg.given i
      → e.arg_key arg_target_key ≡ Arg.given target
      → e'.arg_key arg_nft_contract_hash ≡ Arg.given (Key.hash c)
      → e'.arg_text arg_key_name ≡ Arg.given name
      → e'.arg_bool arg_is_hash_identifier_mode ≡ Arg.given false
      → e'.arg_u64 arg_token_id ≡ Arg.given i
      → d.identifier_mode ≡ NftIdentifierMode.ordinal
      → i < d.number_of_minted_tokens
      → transfer_session contracts e (deployed d) account ≡ ok answer
      → owner_of_session contracts e' answer.0 account'
        ≡ ok (dictionary_put account' name (KeptValue.key target))
  unfolding transfer_session owner_of_session get_nft_contract_hash get_identifier_args text_eq
  transfer_session-owner_of_session account account' i target name at contract index given_id
        given_target contract' named' index' given_id' ordinal lt p0 =
      >>=-elim (runtime_get_named_arg (e.arg_key arg_source_key)) _ (rw contract at p0)
        λ source q1 p1.
          let p2 = rw index at (rw given_target at p1) in
          let p3 = rw at at (rw given_id at p2) in
          let call =
            contract_call e c ((arg_token_id, i) ∷ []) []
              ((arg_target_key, target) ∷ (arg_source_key, source) ∷ []) in
          >>=-elim (transfer h call (deployed d)) _ p3 λ result q4 p4.
            let (d', after, ordinal', minted, owned) =
              transfer_there h call d i target ordinal refl refl q4 in
            let there = sym (ap (λ (x : State × Dict KeptValue). x.0) (ok-injective p4)) ∙ after in
            let call' = contract_call e' c ((arg_token_id, i) ∷ []) [] [] in
            rw (there, contract')
              (rw (named', index')
                (rw given_id' (
                  rw at (
                    rw (
                      owner_of-deployed call' d' i ordinal' refl (omega (arith, lt, minted))
                        owned)))))
