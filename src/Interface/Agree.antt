-- ===== src/Interface/Agree.antt =====
-- The functions of the contract (casper/contract/src/main.rs) in two calls that pass the same bytes
-- for some arguments.
use Prim.Native.String.{String}
use devxdao_m.Common.{ℕ, ◌≡◌, refl, List, [], ◌∷◌}
use devxdao_m.Runtime.{Key, Host, Env}
use devxdao_m.Runtime.Contracts.{Parameter}
use devxdao_m.Contract.Constants.{
  arg_account_whitelist, arg_allow_minting, arg_contract_whitelist, arg_operator, arg_source_key,
  arg_target_key, arg_token_hash, arg_token_id, arg_token_id_hash, arg_token_meta_data,
  arg_token_owner,
}
use devxdao_m.Contract.Modes.{MintingMode, OwnershipMode, NftMetadataKind, NftIdentifierMode}
use devxdao_m.Contract.State.{State}
use devxdao_m.Contract.Utils.Caller.{get_verified_caller, enforce_only_contract_creator_can_invoke}
use devxdao_m.Contract.Utils.Tokens.{get_token_identifier_from_runtime_args}
use devxdao_m.Contract.Admin.{
  set_variables, add_to_account_whitelist, remove_from_account_whitelist,
}
use devxdao_m.Contract.Mint.{
  check_minter_key, check_minter_in, check_minter, new_token_owner_in, new_token_owner,
  new_metadata, new_token_identifier, mint,
}
use devxdao_m.Contract.Burn.{burn}
use devxdao_m.Contract.Approve.{approve}
use devxdao_m.Contract.Transfer.{check_rights, plan_transfer}
use devxdao_m.Contract.Query.{owner_of, get_approved, metadata, set_token_metadata}

-- Two calls that pass the same bytes, or none, under a name: they decode alike at every type.
pub record AgreeAt (e e' : Env) (name : String) : Type 0 where
  pub bools : e.arg_bool name ≡ e'.arg_bool name
  pub bytes : e.arg_u8 name ≡ e'.arg_u8 name
  pub numbers : e.arg_u64 name ≡ e'.arg_u64 name
  pub texts : e.arg_text name ≡ e'.arg_text name
  pub keys : e.arg_key name ≡ e'.arg_key name
  pub hashes : e.arg_hashes name ≡ e'.arg_hashes name
  pub option_bools : e.arg_option_bool name ≡ e'.arg_option_bool name
  pub option_bytes : e.arg_option_u8 name ≡ e'.arg_option_u8 name
  pub option_hashes : e.arg_option_hashes name ≡ e'.arg_option_hashes name

abbrev pub AgreeOn : Env → Env → List Parameter → Type 0
AgreeOn e e' [] = Unit
AgreeOn e e' (p ∷ rest) = AgreeAt e e' p.name × AgreeOn e e' rest

-- Two calls by the same caller through the same stack.
pub record SameCaller (e e' : Env) : Type 0 where
  pub caller : e.caller ≡ e'.caller
  pub call_stack : e.call_stack ≡ e'.call_stack

module _ (e e' : Env) where
  get_token_identifier-agree :
      (mode : NftIdentifierMode)
      → AgreeAt e e' arg_token_id
      → AgreeAt e e' arg_token_hash
      → get_token_identifier_from_runtime_args e mode
        ≡ get_token_identifier_from_runtime_args e' mode
  unfolding get_token_identifier_from_runtime_args
  get_token_identifier-agree NftIdentifierMode.ordinal id token_hash = rw id.numbers refl
  get_token_identifier-agree NftIdentifierMode.hash id token_hash = rw token_hash.texts refl

  get_verified_caller-agree :
      (s : State) → SameCaller e e' → get_verified_caller e s ≡ get_verified_caller e' s
  unfolding get_verified_caller
  get_verified_caller-agree s same = rw same.call_stack refl

  enforce-agree :
      (s : State)
      → SameCaller e e'
      → enforce_only_contract_creator_can_invoke e s ≡ enforce_only_contract_creator_can_invoke e' s
  unfolding enforce_only_contract_creator_can_invoke
  enforce-agree s same = rw same.caller refl

  pub set_variables-agree :
      (s : State)
      → SameCaller e e'
      → AgreeAt e e' arg_allow_minting
      → AgreeAt e e' arg_contract_whitelist
      → set_variables e s ≡ set_variables e' s
  unfolding set_variables
  set_variables-agree s same minting whitelist =
      simp (enforce-agree s same, minting.option_bools, whitelist.option_hashes)

  pub add_to_account_whitelist-agree :
      (s : State)
      → SameCaller e e'
      → AgreeAt e e' arg_account_whitelist
      → add_to_account_whitelist e s ≡ add_to_account_whitelist e' s
  unfolding add_to_account_whitelist
  add_to_account_whitelist-agree s same account = simp (enforce-agree s same, account.keys)

  pub remove_from_account_whitelist-agree :
      (s : State)
      → SameCaller e e'
      → AgreeAt e e' arg_account_whitelist
      → remove_from_account_whitelist e s ≡ remove_from_account_whitelist e' s
  unfolding remove_from_account_whitelist
  remove_from_account_whitelist-agree s same account = simp (enforce-agree s same, account.keys)

  check_minter_key-agree :
      (k : Key) (s : State) → SameCaller e e' → check_minter_key k e s ≡ check_minter_key k e' s
  unfolding check_minter_key
  check_minter_key-agree (Key.account a) s same = rw same.caller refl
  check_minter_key-agree (Key.hash c) s same = refl
  check_minter_key-agree (Key.other k) s same = refl

  check_minter_in-agree :
      (mode : MintingMode) (s : State)
      → SameCaller e e'
      → check_minter_in mode e s ≡ check_minter_in mode e' s
  unfolding check_minter_in
  check_minter_in-agree MintingMode.installer s same =
      simp (get_verified_caller-agree s same, λ (k : Key). check_minter_key-agree k s same)
  check_minter_in-agree MintingMode.public s same = refl

  check_minter-agree : (s : State) → SameCaller e e' → check_minter e s ≡ check_minter e' s
  unfolding check_minter
  check_minter-agree s same = simp (λ (mode : MintingMode). check_minter_in-agree mode s same)

  new_token_owner_in-agree :
      (mode : OwnershipMode) (caller : Key)
      → AgreeAt e e' arg_token_owner
      → new_token_owner_in mode caller e ≡ new_token_owner_in mode caller e'
  unfolding new_token_owner_in
  new_token_owner_in-agree OwnershipMode.minter caller owner = refl
  new_token_owner_in-agree OwnershipMode.assigned caller owner = rw owner.keys refl
  new_token_owner_in-agree OwnershipMode.transferable caller owner = rw owner.keys refl

  new_token_owner-agree :
      (s : State)
      → SameCaller e e'
      → AgreeAt e e' arg_token_owner
      → new_token_owner e s ≡ new_token_owner e' s
  unfolding new_token_owner
  new_token_owner-agree s same owner = simp (
    get_verified_caller-agree s same,
    λ (mode : OwnershipMode) (caller : Key). new_token_owner_in-agree mode caller owner,
  )

  new_metadata-agree :
      (h : Host) (s : State) (kind : NftMetadataKind)
      → AgreeAt e e' arg_token_meta_data
      → new_metadata h e s kind ≡ new_metadata h e' s kind
  unfolding new_metadata
  new_metadata-agree h s kind meta = rw meta.texts refl

  new_token_identifier-agree :
      (mode : NftIdentifierMode) (i : ℕ)
      → AgreeAt e e' arg_token_id_hash
      → new_token_identifier mode e i ≡ new_token_identifier mode e' i
  unfolding new_token_identifier
  new_token_identifier-agree NftIdentifierMode.ordinal i id_hash = refl
  new_token_identifier-agree NftIdentifierMode.hash i id_hash = rw id_hash.texts refl

  pub mint-agree :
      (h : Host) (s : State)
      → SameCaller e e'
      → AgreeAt e e' arg_token_owner
      → AgreeAt e e' arg_token_meta_data
      → AgreeAt e e' arg_token_id_hash
      → mint h e s ≡ mint h e' s
  unfolding mint
  mint-agree h s same owner meta id_hash = simp (
    check_minter-agree s same,
    new_token_owner-agree s same owner,
    λ (kind : NftMetadataKind). new_metadata-agree h s kind meta,
    λ (mode : NftIdentifierMode) (i : ℕ). new_token_identifier-agree mode i id_hash,
  )

  module _ (id : AgreeAt e e' arg_token_id) (token_hash : AgreeAt e e' arg_token_hash) where
    named-agree :
        (mode : NftIdentifierMode)
        → get_token_identifier_from_runtime_args e mode
          ≡ get_token_identifier_from_runtime_args e' mode
    named-agree mode = get_token_identifier-agree mode id token_hash

    pub burn-agree : (h : Host) (s : State) → SameCaller e e' → burn h e s ≡ burn h e' s
    unfolding burn
    burn-agree h s same = simp (enforce-agree s same, get_verified_caller-agree s same, named-agree)

    pub approve-agree :
        (s : State) → SameCaller e e' → AgreeAt e e' arg_operator → approve e s ≡ approve e' s
    unfolding approve
    approve-agree s same operator =
        simp (get_verified_caller-agree s same, named-agree, operator.keys)

    pub plan_transfer-agree :
        (s : State)
        → SameCaller e e'
        → AgreeAt e e' arg_source_key
        → AgreeAt e e' arg_target_key
        → plan_transfer e s ≡ plan_transfer e' s
    unfolding plan_transfer check_rights
    plan_transfer-agree s same source target =
        simp (get_verified_caller-agree s same, named-agree, source.keys, target.keys)

    pub owner_of-agree : (s : State) → owner_of e s ≡ owner_of e' s
    unfolding owner_of
    owner_of-agree s = simp named-agree

    pub metadata-agree : (s : State) → metadata e s ≡ metadata e' s
    unfolding metadata
    metadata-agree s = simp named-agree

    pub get_approved-agree : (s : State) → get_approved e s ≡ get_approved e' s
    unfolding get_approved
    get_approved-agree s = simp named-agree

    pub set_token_metadata-agree :
        (h : Host) (s : State)
        → SameCaller e e'
        → AgreeAt e e' arg_token_meta_data
        → set_token_metadata h e s ≡ set_token_metadata h e' s
    unfolding set_token_metadata
    set_token_metadata-agree h s same meta =
        simp (enforce-agree s same, get_verified_caller-agree s same, named-agree, meta.texts)
