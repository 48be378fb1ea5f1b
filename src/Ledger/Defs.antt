-- ===== src/Ledger/Defs.antt =====
-- The values of an initialised instance (casper/contract/src/main.rs, `init`), and the state that
-- holds them: every name that `init` puts is there, and no other.
use devxdao_m.Common.{ℕ, ◌≡◌, Bool, Option, List}
use devxdao_m.Common.Text.{Text}
use devxdao_m.Runtime.{Key, missing, found, Dict, stored, stored_dict}
use devxdao_m.Contract.Modes.{
  OwnershipMode, ownership_mode_as_u8, NftKind, nft_kind_as_u8, MintingMode, minting_mode_as_u8,
  NftHolderMode, holder_mode_as_u8, WhitelistMode, whitelist_mode_as_u8, NftMetadataKind,
  nft_metadata_kind_as_u8, NftIdentifierMode, identifier_mode_as_u8, MetadataMutability,
  metadata_mutability_as_u8,
}
use devxdao_m.Contract.State.{State, OwnedTokens}

pub record Ledger : Type 0 where
  pub installer : ℕ
  pub collection_name : Text
  pub collection_symbol : Text
  pub total_token_supply : ℕ
  pub ownership_mode : OwnershipMode
  pub nft_kind : NftKind
  pub json_schema : Text
  pub minting_mode : MintingMode
  pub holder_mode : NftHolderMode
  pub whitelist_mode : WhitelistMode
  pub contract_whitelist : List ℕ
  pub account_whitelist : List ℕ
  pub receipt_name : Text
  pub nft_metadata_kind : NftMetadataKind
  pub identifier_mode : NftIdentifierMode
  pub metadata_mutability : MetadataMutability
  pub allow_minting : Bool
  pub number_of_minted_tokens : ℕ
  pub token_owners : Dict Key
  pub token_issuers : Dict Key
  pub owned_tokens : Dict OwnedTokens
  pub operator : Dict (Option Key)
  pub burnt_tokens : Dict (Unit {0})
  pub token_counts : Dict ℕ
  pub metadata_custom_validated : Dict Text
  pub metadata_cep78 : Dict Text
  pub metadata_nft721 : Dict Text
  pub metadata_raw : Dict Text

abbrev pub deployed : Ledger → State
deployed d = record {
  installer = found (Key.account d.installer);
  collection_name = stored d.collection_name;
  collection_symbol = stored d.collection_symbol;
  total_token_supply = stored d.total_token_supply;
  ownership_mode = stored (ownership_mode_as_u8 d.ownership_mode);
  nft_kind = stored (nft_kind_as_u8 d.nft_kind);
  json_schema = stored d.json_schema;
  minting_mode = stored (minting_mode_as_u8 d.minting_mode);
  holder_mode = stored (holder_mode_as_u8 d.holder_mode);
  whitelist_mode = stored (whitelist_mode_as_u8 d.whitelist_mode);
  contract_whitelist = stored d.contract_whitelist;
  account_whitelist = stored d.account_whitelist;
  receipt_name = stored d.receipt_name;
  nft_metadata_kind = stored (nft_metadata_kind_as_u8 d.nft_metadata_kind);
  identifier_mode = stored (identifier_mode_as_u8 d.identifier_mode);
  metadata_mutability = stored (metadata_mutability_as_u8 d.metadata_mutability);
  allow_minting = stored d.allow_minting;
  number_of_minted_tokens = stored d.number_of_minted_tokens;
  metadata_schema = missing;
  token_owners = stored_dict d.token_owners;
  token_issuers = stored_dict d.token_issuers;
  owned_tokens = stored_dict d.owned_tokens;
  operator = stored_dict d.operator;
  burnt_tokens = stored_dict d.burnt_tokens;
  token_counts = stored_dict d.token_counts;
  metadata_custom_validated = stored_dict d.metadata_custom_validated;
  metadata_cep78 = stored_dict d.metadata_cep78;
  metadata_nft721 = stored_dict d.metadata_nft721;
  metadata_raw = stored_dict d.metadata_raw;
}

pub stored-injective : {A : Type 0} {a b : A} → ◌≡◌ (stored a) (stored b) → a ≡ b
stored-injective same = cc
