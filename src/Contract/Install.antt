-- ===== src/Contract/Install.antt =====
-- The session `call` that installs the contract (casper/contract/src/main.rs), with the state in which
-- `install_nft_contract` leaves the contract for `init`.
use Prim.Native.String.{String}
use devxdao_m.Common.{
  ℕ, Bool, true, ◌&&◌, Option, List, [], ◌∷◌, ◌++◌, ◌==◌, unwrap_or, if◌then◌else◌,
}
use devxdao_m.Common.Text.{Text, text_eq, codes}
use devxdao_m.Runtime.{
  Key, CallStackElement, missing, found, Host, Env, Arg, Result, ok, ◌>>=◌, ◌>>◌, revert_if,
}
use devxdao_m.Contract.Constants.{
  arg_account_whitelist, arg_allow_minting, arg_collection_name, arg_collection_symbol,
  arg_contract_whitelist, arg_holder_mode, arg_identifier_mode, arg_json_schema,
  arg_metadata_mutability, arg_minting_mode, arg_nft_kind, arg_nft_metadata_kind,
  arg_ownership_mode, arg_receipt_name, arg_total_token_supply, arg_whitelist_mode,
}
use devxdao_m.Contract.Error.{
  NftCoreError, invalid_account_whitelist, invalid_collection_name, invalid_collection_symbol,
  invalid_contract_whitelist, invalid_holder_mode, invalid_identifier_mode, invalid_json_schema,
  invalid_metadata_mutability, invalid_minting_mode, invalid_minting_status, invalid_nft_kind,
  invalid_nft_metadata_kind, invalid_ownership_mode, invalid_total_token_supply,
  invalid_whitelist_mode, missing_collection_name, missing_collection_symbol,
  missing_identifier_mode, missing_json_schema, missing_metadata_mutability, missing_nft_kind,
  missing_nft_metadata_kind, missing_ownership_mode, missing_total_token_supply,
}
use devxdao_m.Contract.State.{State}
use devxdao_m.Contract.Utils.Args.{get_required_arg, get_optional_named_arg_with_user_errors}
use devxdao_m.Contract.Init.{init}

-- The state after `install_nft_contract`: the installer's key and nothing else.
abbrev pub installed : ℕ → State
installed account = record {
  installer = found (Key.account account);
  collection_name = missing;
  collection_symbol = missing;
  total_token_supply = missing;
  ownership_mode = missing;
  nft_kind = missing;
  json_schema = missing;
  minting_mode = missing;
  holder_mode = missing;
  whitelist_mode = missing;
  contract_whitelist = missing;
  account_whitelist = missing;
  receipt_name = missing;
  nft_metadata_kind = missing;
  identifier_mode = missing;
  metadata_mutability = missing;
  allow_minting = missing;
  number_of_minted_tokens = missing;
  metadata_schema = missing;
  token_owners = missing;
  token_issuers = missing;
  owned_tokens = missing;
  operator = missing;
  burnt_tokens = missing;
  token_counts = missing;
  metadata_custom_validated = missing;
  metadata_cep78 = missing;
  metadata_nft721 = missing;
  metadata_raw = missing;
}

-- The locals of `call` once every argument has been decoded: the modes are still numbers.
pub record InstallArgs : Type 0 where
  pub collection_name : Text
  pub collection_symbol : Text
  pub total_token_supply : ℕ
  pub allow_minting : Bool
  pub minting_mode : ℕ
  pub ownership_mode : ℕ
  pub nft_kind : ℕ
  pub holder_mode : ℕ
  pub whitelist_lock : ℕ
  pub contract_white_list : List ℕ
  pub account_white_list : List ℕ
  pub nft_metadata_kind : ℕ
  pub json_schema : Text
  pub identifier_mode : ℕ
  pub metadata_mutability : ℕ

-- An optional argument, followed by `unwrap_or`.
abbrev pub get_arg_or : {A : Type 0} → Arg (Option A) → NftCoreError → A → Result A
get_arg_or arg invalid default = do
  fetched ← get_optional_named_arg_with_user_errors arg invalid
  ok (unwrap_or fetched default)

unfoldable pub install_args : Env → Result InstallArgs
install_args e = do
  collection_name ←
      get_required_arg (e.arg_text arg_collection_name) missing_collection_name
        invalid_collection_name
  collection_symbol ←
      get_required_arg (e.arg_text arg_collection_symbol) missing_collection_symbol
        invalid_collection_symbol
  total_token_supply ←
      get_required_arg (e.arg_u64 arg_total_token_supply) missing_total_token_supply
        invalid_total_token_supply
  allow_minting ← get_arg_or (e.arg_option_bool arg_allow_minting) invalid_minting_status true
  minting_mode ← get_arg_or (e.arg_option_u8 arg_minting_mode) invalid_minting_mode 0
  ownership_mode ←
      get_required_arg (e.arg_u8 arg_ownership_mode) missing_ownership_mode invalid_ownership_mode
  nft_kind ← get_required_arg (e.arg_u8 arg_nft_kind) missing_nft_kind invalid_nft_kind
  holder_mode ← get_arg_or (e.arg_option_u8 arg_holder_mode) invalid_holder_mode 0
  whitelist_lock ← get_arg_or (e.arg_option_u8 arg_whitelist_mode) invalid_whitelist_mode 0
  contract_white_list ←
      get_arg_or (e.arg_option_hashes arg_contract_whitelist) invalid_contract_whitelist []
  account_white_list ←
      get_arg_or (e.arg_option_hashes arg_account_whitelist) invalid_account_whitelist []
  nft_metadata_kind ←
      get_required_arg (e.arg_u8 arg_nft_metadata_kind) missing_nft_metadata_kind
        invalid_nft_metadata_kind
  json_schema ←
      get_required_arg (e.arg_text arg_json_schema) missing_json_schema invalid_json_schema
  identifier_mode ←
      get_required_arg (e.arg_u8 arg_identifier_mode) missing_identifier_mode
        invalid_identifier_mode
  metadata_mutability ←
      get_required_arg (e.arg_u8 arg_metadata_mutability) missing_metadata_mutability
        invalid_metadata_mutability
  ok (record {
    collection_name = collection_name;
    collection_symbol = collection_symbol;
    total_token_supply = total_token_supply;
    allow_minting = allow_minting;
    minting_mode = minting_mode;
    ownership_mode = ownership_mode;
    nft_kind = nft_kind;
    holder_mode = holder_mode;
    whitelist_lock = whitelist_lock;
    contract_white_list = contract_white_list;
    account_white_list = account_white_list;
    nft_metadata_kind = nft_metadata_kind;
    json_schema = json_schema;
    identifier_mode = identifier_mode;
    metadata_mutability = metadata_mutability;
  })

-- The arguments of a call to another contract: each name stands with its value.
abbrev pub RuntimeArgs : Type 0 → Type 0
RuntimeArgs A = List (String × A)

abbrev pub named_arg : {A : Type 0} → RuntimeArgs A → String → Arg A
named_arg [] name = Arg.absent
named_arg ((key, a) ∷ rest) name =
    if text_eq (codes key) (codes name) then Arg.given a else named_arg rest name

-- `runtime::call_contract(contract_hash, ENTRY_POINT_INIT, runtime_args! { … })`: the call that `init` sees.
abbrev pub init_runtime_args : Env → ℕ → Text → InstallArgs → Env
init_runtime_args e contract_hash receipt_name a = record {
  caller = e.caller;
  call_stack =
      CallStackElement.session e.caller ∷ CallStackElement.stored_contract contract_hash ∷ [];
  arg_bool = named_arg ((arg_allow_minting, a.allow_minting) ∷ []);
  arg_u8 = named_arg (
      (arg_ownership_mode, a.ownership_mode)
      ∷ (arg_nft_kind, a.nft_kind)
      ∷ (arg_minting_mode, a.minting_mode)
      ∷ (arg_holder_mode, a.holder_mode)
      ∷ (arg_whitelist_mode, a.whitelist_lock)
      ∷ (arg_nft_metadata_kind, a.nft_metadata_kind)
      ∷ (arg_identifier_mode, a.identifier_mode)
      ∷ (arg_metadata_mutability, a.metadata_mutability)
      ∷ []);
  arg_u64 = named_arg ((arg_total_token_supply, a.total_token_supply) ∷ []);
  arg_text = named_arg (
      (arg_collection_name, a.collection_name)
      ∷ (arg_collection_symbol, a.collection_symbol)
      ∷ (arg_json_schema, a.json_schema)
      ∷ (arg_receipt_name, receipt_name)
      ∷ []);
  arg_key = named_arg [];
  arg_hashes = named_arg (
      (arg_contract_whitelist, a.contract_white_list)
      ∷ (arg_account_whitelist, a.account_white_list)
      ∷ []);
  arg_option_bool = named_arg [];
  arg_option_u8 = named_arg [];
  arg_option_hashes = named_arg [];
}

-- `format!("nft-{}-{}", collection_name, package_hash.to_formatted_string())`
abbrev pub receipt_name_of : Text → Text → Text
receipt_name_of collection_name package_hash =
    codes "nft-" ++ collection_name ++ codes "-" ++ package_hash

-- The contract's state after the session. The host chooses the contract's hash and its package's hash,
-- of which the session uses the text.
unfoldable pub install : Host → Env → ℕ → Text → Result State
install h e contract_hash package_hash = do
  a ← install_args e
  revert_if (a.identifier_mode == 1 && a.metadata_mutability == 1) invalid_metadata_mutability
  init h (init_runtime_args e contract_hash (receipt_name_of a.collection_name package_hash) a)
      (installed e.caller)
