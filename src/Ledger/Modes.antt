-- ===== src/Ledger/Modes.antt =====
-- The modes and their discriminants (the `TryFrom<u8>` of casper/contract/src/utils.rs).
use devxdao_m.Common.{ℕ, ◌≡◌, refl, arith}
use devxdao_m.Runtime.{Try, success}
use devxdao_m.Contract.Modes.{
  WhitelistMode, whitelist_mode_try_from, whitelist_mode_as_u8, NftHolderMode, holder_mode_try_from,
  holder_mode_as_u8, MintingMode, minting_mode_try_from, minting_mode_as_u8, NftKind,
  nft_kind_try_from, nft_kind_as_u8, NftMetadataKind, nft_metadata_kind_try_from,
  nft_metadata_kind_as_u8, OwnershipMode, ownership_mode_try_from, ownership_mode_as_u8,
  NftIdentifierMode, identifier_mode_try_from, identifier_mode_as_u8, MetadataMutability,
  metadata_mutability_try_from, metadata_mutability_as_u8,
}

pub whitelist_mode_try_from-as_u8 :
    (m : WhitelistMode) → whitelist_mode_try_from (whitelist_mode_as_u8 m) ≡ success m
unfolding whitelist_mode_try_from whitelist_mode_as_u8
whitelist_mode_try_from-as_u8 WhitelistMode.unlocked = refl
whitelist_mode_try_from-as_u8 WhitelistMode.locked = refl

pub holder_mode_try_from-as_u8 :
    (m : NftHolderMode) → holder_mode_try_from (holder_mode_as_u8 m) ≡ success m
unfolding holder_mode_try_from holder_mode_as_u8
holder_mode_try_from-as_u8 NftHolderMode.accounts = refl
holder_mode_try_from-as_u8 NftHolderMode.contracts = refl
holder_mode_try_from-as_u8 NftHolderMode.mixed = refl

pub minting_mode_try_from-as_u8 :
    (m : MintingMode) → minting_mode_try_from (minting_mode_as_u8 m) ≡ success m
unfolding minting_mode_try_from minting_mode_as_u8
minting_mode_try_from-as_u8 MintingMode.installer = refl
minting_mode_try_from-as_u8 MintingMode.public = refl

pub nft_kind_try_from-as_u8 : (m : NftKind) → nft_kind_try_from (nft_kind_as_u8 m) ≡ success m
unfolding nft_kind_try_from nft_kind_as_u8
nft_kind_try_from-as_u8 NftKind.physical = refl
nft_kind_try_from-as_u8 NftKind.digital = refl
nft_kind_try_from-as_u8 NftKind.virtual = refl

pub nft_metadata_kind_try_from-as_u8 :
    (m : NftMetadataKind) → nft_metadata_kind_try_from (nft_metadata_kind_as_u8 m) ≡ success m
unfolding nft_metadata_kind_try_from nft_metadata_kind_as_u8
nft_metadata_kind_try_from-as_u8 NftMetadataKind.cep78 = refl
nft_metadata_kind_try_from-as_u8 NftMetadataKind.nft721 = refl
nft_metadata_kind_try_from-as_u8 NftMetadataKind.raw = refl
nft_metadata_kind_try_from-as_u8 NftMetadataKind.custom_validated = refl

pub ownership_mode_try_from-as_u8 :
    (m : OwnershipMode) → ownership_mode_try_from (ownership_mode_as_u8 m) ≡ success m
unfolding ownership_mode_try_from ownership_mode_as_u8
ownership_mode_try_from-as_u8 OwnershipMode.minter = refl
ownership_mode_try_from-as_u8 OwnershipMode.assigned = refl
ownership_mode_try_from-as_u8 OwnershipMode.transferable = refl

pub identifier_mode_try_from-as_u8 :
    (m : NftIdentifierMode) → identifier_mode_try_from (identifier_mode_as_u8 m) ≡ success m
unfolding identifier_mode_try_from identifier_mode_as_u8
identifier_mode_try_from-as_u8 NftIdentifierMode.ordinal = refl
identifier_mode_try_from-as_u8 NftIdentifierMode.hash = refl

pub metadata_mutability_try_from-as_u8 :
    (m : MetadataMutability)
    → metadata_mutability_try_from (metadata_mutability_as_u8 m) ≡ success m
unfolding metadata_mutability_try_from metadata_mutability_as_u8
metadata_mutability_try_from-as_u8 MetadataMutability.immutable = refl
metadata_mutability_try_from-as_u8 MetadataMutability.mutable = refl

-- `try_from` accepts the discriminants and nothing else.
abbrev pub Decodes : {M : Type 0} → (ℕ → Try M) → (M → ℕ) → Type 0
Decodes {M} try_from as_u8 =
    ((m : M) → try_from (as_u8 m) ≡ success m)
    × ((value : ℕ) (m : M) → try_from value ≡ success m → value ≡ as_u8 m)

pub whitelist_mode_Decodes : Decodes whitelist_mode_try_from whitelist_mode_as_u8
unfolding whitelist_mode_try_from whitelist_mode_as_u8
whitelist_mode_Decodes = (whitelist_mode_try_from-as_u8, λ value m h. ground arith)

pub holder_mode_Decodes : Decodes holder_mode_try_from holder_mode_as_u8
unfolding holder_mode_try_from holder_mode_as_u8
holder_mode_Decodes = (holder_mode_try_from-as_u8, λ value m h. ground arith)

pub minting_mode_Decodes : Decodes minting_mode_try_from minting_mode_as_u8
unfolding minting_mode_try_from minting_mode_as_u8
minting_mode_Decodes = (minting_mode_try_from-as_u8, λ value m h. ground arith)

pub nft_kind_Decodes : Decodes nft_kind_try_from nft_kind_as_u8
unfolding nft_kind_try_from nft_kind_as_u8
nft_kind_Decodes = (nft_kind_try_from-as_u8, λ value m h. ground arith)

pub nft_metadata_kind_Decodes : Decodes nft_metadata_kind_try_from nft_metadata_kind_as_u8
unfolding nft_metadata_kind_try_from nft_metadata_kind_as_u8
nft_metadata_kind_Decodes = (nft_metadata_kind_try_from-as_u8, λ value m h. ground arith)

pub ownership_mode_Decodes : Decodes ownership_mode_try_from ownership_mode_as_u8
unfolding ownership_mode_try_from ownership_mode_as_u8
ownership_mode_Decodes = (ownership_mode_try_from-as_u8, λ value m h. ground arith)

pub identifier_mode_Decodes : Decodes identifier_mode_try_from identifier_mode_as_u8
unfolding identifier_mode_try_from identifier_mode_as_u8
identifier_mode_Decodes = (identifier_mode_try_from-as_u8, λ value m h. ground arith)

pub metadata_mutability_Decodes : Decodes metadata_mutability_try_from metadata_mutability_as_u8
unfolding metadata_mutability_try_from metadata_mutability_as_u8
metadata_mutability_Decodes = (metadata_mutability_try_from-as_u8, λ value m h. ground arith)

-- Each of the eight modes is read back from the discriminant that `init` stores for it, and no other
-- number is accepted as a mode.
modes_decode :
    Decodes whitelist_mode_try_from whitelist_mode_as_u8
    × Decodes holder_mode_try_from holder_mode_as_u8
    × Decodes minting_mode_try_from minting_mode_as_u8
    × Decodes nft_kind_try_from nft_kind_as_u8
    × Decodes nft_metadata_kind_try_from nft_metadata_kind_as_u8
    × Decodes ownership_mode_try_from ownership_mode_as_u8
    × Decodes identifier_mode_try_from identifier_mode_as_u8
    × Decodes metadata_mutability_try_from metadata_mutability_as_u8
modes_decode = (
  whitelist_mode_Decodes, holder_mode_Decodes, minting_mode_Decodes, nft_kind_Decodes,
  nft_metadata_kind_Decodes, ownership_mode_Decodes, identifier_mode_Decodes,
  metadata_mutability_Decodes,
)
