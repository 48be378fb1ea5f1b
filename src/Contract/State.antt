-- ===== src/Contract/State.antt =====
-- The contract's named keys and dictionaries: one field for each name of
-- casper/contract/src/constants.rs under which the contract looks something up.
use devxdao_m.Common.{ℕ, Bool, Option, List}
use devxdao_m.Common.Text.{Text}
use devxdao_m.Runtime.{Key, NamedKey, Cell, DictCell}

-- An entry of OWNED_TOKENS: `Vec<u64>` or `Vec<String>`, by the identifier mode.
pub data OwnedTokens : Type 0 where
  indices : List ℕ → OwnedTokens
  hashes : List Text → OwnedTokens

pub record State : Type 0 where
  pub installer : NamedKey Key
  pub collection_name : Cell Text
  pub collection_symbol : Cell Text
  pub total_token_supply : Cell ℕ
  pub ownership_mode : Cell ℕ
  pub nft_kind : Cell ℕ
  pub json_schema : Cell Text
  pub minting_mode : Cell ℕ
  pub holder_mode : Cell ℕ
  pub whitelist_mode : Cell ℕ
  pub contract_whitelist : Cell (List ℕ)
  pub account_whitelist : Cell (List ℕ)
  pub receipt_name : Cell Text
  pub nft_metadata_kind : Cell ℕ
  pub identifier_mode : Cell ℕ
  pub metadata_mutability : Cell ℕ
  pub allow_minting : Cell Bool
  pub number_of_minted_tokens : Cell ℕ
  pub metadata_schema : Cell ℕ
  pub token_owners : DictCell Key
  pub token_issuers : DictCell Key
  pub owned_tokens : DictCell OwnedTokens
  pub operator : DictCell (Option Key)
  pub burnt_tokens : DictCell (Unit {0})
  pub token_counts : DictCell ℕ
  pub metadata_custom_validated : DictCell Text
  pub metadata_cep78 : DictCell Text
  pub metadata_nft721 : DictCell Text
  pub metadata_raw : DictCell Text
