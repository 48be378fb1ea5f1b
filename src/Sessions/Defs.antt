-- ===== src/Sessions/Defs.antt =====
-- The sessions of casper/client and the entry points of its minting_contract: each reads its arguments,
-- calls the contract that they name and keeps the answer under a named key of whom it runs for: the
-- account, or the minting contract in its `transfer`.
use Prim.Native.String.{String}
use devxdao_m.Common.{ℕ, Bool, true, false, Option, [], ◌∷◌, push}
use devxdao_m.Common.Text.{Text}
use devxdao_m.Runtime.{
  Key, CallStackElement, Host, Env, Dict, dictionary_put, Result, ok, ◌>>=◌, unwrap,
}
use devxdao_m.Contract.Constants.{
  arg_token_owner, arg_token_meta_data, arg_token_id_hash, arg_target_key, arg_source_key,
  arg_token_id, arg_token_hash,
}
use devxdao_m.Contract.State.{State}
use devxdao_m.Contract.Utils.Reads.{into_hash}
use devxdao_m.Contract.Utils.Args.{runtime_get_named_arg}
use devxdao_m.Contract.Install.{RuntimeArgs, named_arg}
use devxdao_m.Contract.Mint.{MintReceipt, mint}
use devxdao_m.Contract.Burn.{burn}
use devxdao_m.Contract.Transfer.{TransferReceipt, transfer}
use devxdao_m.Contract.Query.{balance_of, owner_of, get_approved}

abbrev pub arg_nft_contract_hash : String
arg_nft_contract_hash = "nft_contract_hash"

abbrev pub arg_key_name : String
arg_key_name = "key_name"

abbrev pub arg_is_hash_identifier_mode : String
arg_is_hash_identifier_mode = "is_hash_identifier_mode"

-- The entry points that the clients call, as a contract at some hash answers them.
pub record NftContract (S : Type 0) : Type 0 where
  pub call_mint : Env → S → Result (S × MintReceipt)
  pub call_transfer : Env → S → Result (S × TransferReceipt)
  pub call_burn : Env → S → Result S
  pub call_balance_of : Env → S → Result ℕ
  pub call_owner_of : Env → S → Result Key
  pub call_get_approved : Env → S → Result (Option Key)

-- The NFT contract of casper/contract.
abbrev pub nft_contract : Host → NftContract State
nft_contract h = record {
  call_mint = mint h;
  call_transfer = transfer h;
  call_burn = burn h;
  call_balance_of = balance_of h;
  call_owner_of = owner_of;
  call_get_approved = get_approved;
}

-- What a named key of the account leads to.
pub data KeptValue : Type 0 where
  key : Key → KeptValue
  number : ℕ → KeptValue
  maybe_key : Option Key → KeptValue

-- `runtime_args!` of a call to the contract, which finds itself at the end of the call stack.
abbrev pub contract_call : Env → ℕ → RuntimeArgs ℕ → RuntimeArgs Text → RuntimeArgs Key → Env
contract_call e contract_hash numbers texts keys = record e {
  call_stack = push e.call_stack (CallStackElement.stored_contract contract_hash);
  arg_bool = named_arg [];
  arg_u8 = named_arg [];
  arg_u64 = named_arg numbers;
  arg_text = named_arg texts;
  arg_key = named_arg keys;
  arg_hashes = named_arg [];
  arg_option_bool = named_arg [];
  arg_option_u8 = named_arg [];
  arg_option_hashes = named_arg [];
}

-- `runtime::get_named_arg::<Key>(…).into_hash().map(…).unwrap()`
unfoldable pub get_nft_contract_hash : Env → Result ℕ
get_nft_contract_hash e = do
  contract ← runtime_get_named_arg (e.arg_key arg_nft_contract_hash)
  unwrap (into_hash contract)

-- `contracts` is what stands at each hash; `S` is the state of them all.
module _ {S : Type 0} (contracts : ℕ → NftContract S) where
  -- mint_session, and the `mint` of minting_contract
  unfoldable pub mint_session : Env → S → Dict KeptValue → Result (S × Dict KeptValue)
  mint_session e s account = do
    nft_contract_hash ← get_nft_contract_hash e
    token_owner ← runtime_get_named_arg (e.arg_key arg_token_owner)
    token_metadata ← runtime_get_named_arg (e.arg_text arg_token_meta_data)
    token_id_hash ← runtime_get_named_arg (e.arg_text arg_token_id_hash)
    answer ←
        (contracts nft_contract_hash).call_mint
          (contract_call e nft_contract_hash []
            ((arg_token_meta_data, token_metadata) ∷ (arg_token_id_hash, token_id_hash) ∷ [])
            ((arg_token_owner, token_owner) ∷ []))
          s
    ok (
      answer.0,
      dictionary_put account (answer.1).receipt_name (KeptValue.key (answer.1).owned_tokens_key),
    )

  -- The identifier's arguments, by what the caller says of the identifier mode.
  unfoldable pub get_identifier_args : Env → Bool → Result (RuntimeArgs ℕ × RuntimeArgs Text)
  get_identifier_args e true = do
    token_hash ← runtime_get_named_arg (e.arg_text arg_token_hash)
    ok ([], (arg_token_hash, token_hash) ∷ [])
  get_identifier_args e false = do
    token_id ← runtime_get_named_arg (e.arg_u64 arg_token_id)
    ok ((arg_token_id, token_id) ∷ [], [])

  unfoldable pub transfer_session : Env → S → Dict KeptValue → Result (S × Dict KeptValue)
  transfer_session e s account = do
    nft_contract_hash ← get_nft_contract_hash e
    source_key ← runtime_get_named_arg (e.arg_key arg_source_key)
    target_key ← runtime_get_named_arg (e.arg_key arg_target_key)
    is_hash ← runtime_get_named_arg (e.arg_bool arg_is_hash_identifier_mode)
    identifier ← get_identifier_args e is_hash
    answer ←
        (contracts nft_contract_hash).call_transfer
          (contract_call e nft_contract_hash identifier.0 identifier.1
            ((arg_target_key, target_key) ∷ (arg_source_key, source_key) ∷ []))
          s
    ok (
      answer.0,
      dictionary_put account (answer.1).receipt_name (KeptValue.key (answer.1).owned_tokens_key),
    )

  unfoldable pub balance_of_session : Env → S → Dict KeptValue → Result (Dict KeptValue)
  balance_of_session e s account = do
    nft_contract_hash ← get_nft_contract_hash e
    key_name ← runtime_get_named_arg (e.arg_text arg_key_name)
    token_owner ← runtime_get_named_arg (e.arg_key arg_token_owner)
    balance ←
        (contracts nft_contract_hash).call_balance_of
          (contract_call e nft_contract_hash [] [] ((arg_token_owner, token_owner) ∷ [])) s
    ok (dictionary_put account key_name (KeptValue.number balance))

  unfoldable pub owner_of_session : Env → S → Dict KeptValue → Result (Dict KeptValue)
  owner_of_session e s account = do
    nft_contract_hash ← get_nft_contract_hash e
    key_name ← runtime_get_named_arg (e.arg_text arg_key_name)
    is_hash ← runtime_get_named_arg (e.arg_bool arg_is_hash_identifier_mode)
    identifier ← get_identifier_args e is_hash
    owner ←
        (contracts nft_contract_hash).call_owner_of
          (contract_call e nft_contract_hash identifier.0 identifier.1 []) s
    ok (dictionary_put account key_name (KeptValue.key owner))

  unfoldable pub get_approved_session : Env → S → Dict KeptValue → Result (Dict KeptValue)
  get_approved_session e s account = do
    nft_contract_hash ← get_nft_contract_hash e
    key_name ← runtime_get_named_arg (e.arg_text arg_key_name)
    is_hash ← runtime_get_named_arg (e.arg_bool arg_is_hash_identifier_mode)
    identifier ← get_identifier_args e is_hash
    maybe_operator ←
        (contracts nft_contract_hash).call_get_approved
          (contract_call e nft_contract_hash identifier.0 identifier.1 []) s
    ok (dictionary_put account key_name (KeptValue.maybe_key maybe_operator))

  -- `burn` of minting_contract
  unfoldable pub minting_contract_burn : Env → S → Result S
  minting_contract_burn e s = do
    nft_contract_hash ← get_nft_contract_hash e
    token_id ← runtime_get_named_arg (e.arg_u64 arg_token_id)
    (contracts nft_contract_hash).call_burn
        (contract_call e nft_contract_hash ((arg_token_id, token_id) ∷ []) [] []) s

  -- `transfer` of minting_contract
  unfoldable pub minting_contract_transfer : Env → S → Dict KeptValue → Result (S × Dict KeptValue)
  minting_contract_transfer e s account = do
    nft_contract_hash ← get_nft_contract_hash e
    token_id ← runtime_get_named_arg (e.arg_u64 arg_token_id)
    from_token_owner ← runtime_get_named_arg (e.arg_key arg_source_key)
    target_token_owner ← runtime_get_named_arg (e.arg_key arg_target_key)
    answer ←
        (contracts nft_contract_hash).call_transfer
          (contract_call e nft_contract_hash ((arg_token_id, token_id) ∷ []) []
            ((arg_source_key, from_token_owner) ∷ (arg_target_key, target_token_owner) ∷ []))
          s
    ok (
      answer.0,
      dictionary_put account (answer.1).receipt_name (KeptValue.key (answer.1).owned_tokens_key),
    )

  -- `mint` of minting_contract, which runs as a session
  unfoldable pub minting_contract_mint : Env → S → Dict KeptValue → Result (S × Dict KeptValue)
  unfolding mint_session
  minting_contract_mint e s account = mint_session e s account
