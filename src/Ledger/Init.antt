-- ===== src/Ledger/Init.antt =====
-- What `init` makes of a freshly installed contract (casper/contract/src/main.rs, `init` and the named
-- keys of `install_nft_contract`).
use devxdao_m.Common.{ℕ, ◌≡◌, refl, sym, none}
use devxdao_m.Runtime.{Host, Env, ApiError, ok, revert, >>=-elim, ok-injective}
use devxdao_m.Contract.Error.{contract_already_initialized}
use devxdao_m.Contract.State.{State}
use devxdao_m.Contract.Install.{installed}
use devxdao_m.Contract.Init.{InitArgs, init, init_args, put_keys, new_dictionary, new_dictionaries}
use devxdao_m.Ledger.Defs.{Ledger, deployed}

abbrev pub initial : ℕ → InitArgs → Ledger
initial account a = record {
  installer = account;
  collection_name = a.collection_name;
  collection_symbol = a.collection_symbol;
  total_token_supply = a.total_token_supply;
  ownership_mode = a.ownership_mode;
  nft_kind = a.nft_kind;
  json_schema = a.json_schema;
  minting_mode = a.minting_mode;
  holder_mode = a.holder_mode;
  whitelist_mode = a.whitelist_mode;
  contract_whitelist = a.contract_whitelist;
  account_whitelist = a.account_whitelist;
  receipt_name = a.receipt_name;
  nft_metadata_kind = a.nft_metadata_kind;
  identifier_mode = a.identifier_mode;
  metadata_mutability = a.metadata_mutability;
  allow_minting = a.allow_minting;
  number_of_minted_tokens = 0;
  token_owners = λ k. none;
  token_issuers = λ k. none;
  owned_tokens = λ k. none;
  operator = λ k. none;
  burnt_tokens = λ k. none;
  token_counts = λ k. none;
  metadata_custom_validated = λ k. none;
  metadata_cep78 = λ k. none;
  metadata_nft721 = λ k. none;
  metadata_raw = λ k. none;
}

-- Whenever the arguments decode, `init` succeeds on a fresh contract and stores exactly them.
pub init-installed :
    (h : Host) (e : Env) (account : ℕ) (a : InitArgs)
    → init_args h e ≡ ok a
    → init h e (installed account) ≡ ok (deployed (initial account a))
unfolding init put_keys new_dictionary new_dictionaries
init-installed h e account a p = rw p

pub init-eq-ok :
    (h : Host) (e : Env) (account : ℕ) {s : State}
    → init h e (installed account) ≡ ok s
    → (a : InitArgs) × (init_args h e ≡ ok a) × (s ≡ deployed (initial account a))
unfolding init put_keys new_dictionary new_dictionaries
init-eq-ok h e account p = >>=-elim (init_args h e) _ p λ a q r. (a, q, sym (ok-injective r))

-- A second `init` is refused, whatever its arguments.
pub init-deployed :
    (h : Host) (e : Env) (d : Ledger)
    → init h e (deployed d) ≡ revert (ApiError.user contract_already_initialized)
unfolding init
init-deployed h e d = refl
