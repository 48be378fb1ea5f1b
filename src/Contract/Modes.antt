-- ===== src/Contract/Modes.antt =====
-- The modes of a contract instance (enums of casper/contract/src/utils.rs), each with its `TryFrom<u8>`
-- and its discriminant, the `as u8` that `init` stores.
use Prim.Native.Nat.{ℕ}
use devxdao_m.Common.Tests.{◌==◌, if◌then◌else◌}
use devxdao_m.Runtime.{Try, success, failure}
use devxdao_m.Contract.Error.{
  invalid_holder_mode, invalid_identifier_mode, invalid_metadata_mutability, invalid_minting_mode,
  invalid_nft_metadata_kind, invalid_ownership_mode, invalid_whitelist_mode,
}

pub data WhitelistMode : Type 0 where
  unlocked locked : WhitelistMode

unfoldable pub whitelist_mode_try_from : ℕ → Try WhitelistMode
whitelist_mode_try_from value =
    if value == 0
    then success WhitelistMode.unlocked
    else if value == 1
    then success WhitelistMode.locked
    else failure invalid_whitelist_mode

unfoldable pub whitelist_mode_as_u8 : WhitelistMode → ℕ
whitelist_mode_as_u8 WhitelistMode.unlocked = 0
whitelist_mode_as_u8 WhitelistMode.locked = 1

pub data NftHolderMode : Type 0 where
  accounts contracts mixed : NftHolderMode

unfoldable pub holder_mode_try_from : ℕ → Try NftHolderMode
holder_mode_try_from value =
    if value == 0
    then success NftHolderMode.accounts
    else if value == 1
    then success NftHolderMode.contracts
    else if value == 2
    then success NftHolderMode.mixed
    else failure invalid_holder_mode

unfoldable pub holder_mode_as_u8 : NftHolderMode → ℕ
holder_mode_as_u8 NftHolderMode.accounts = 0
holder_mode_as_u8 NftHolderMode.contracts = 1
holder_mode_as_u8 NftHolderMode.mixed = 2

pub data MintingMode : Type 0 where
  installer public : MintingMode

unfoldable pub minting_mode_try_from : ℕ → Try MintingMode
minting_mode_try_from value =
    if value == 0
    then success MintingMode.installer
    else if value == 1
    then success MintingMode.public
    else failure invalid_minting_mode

unfoldable pub minting_mode_as_u8 : MintingMode → ℕ
minting_mode_as_u8 MintingMode.installer = 0
minting_mode_as_u8 MintingMode.public = 1

pub data NftKind : Type 0 where
  physical digital virtual : NftKind

unfoldable pub nft_kind_try_from : ℕ → Try NftKind
nft_kind_try_from value =
    if value == 0
    then success NftKind.physical
    else if value == 1
    then success NftKind.digital
    else if value == 2
    then success NftKind.virtual
    else failure invalid_ownership_mode

unfoldable pub nft_kind_as_u8 : NftKind → ℕ
nft_kind_as_u8 NftKind.physical = 0
nft_kind_as_u8 NftKind.digital = 1
nft_kind_as_u8 NftKind.virtual = 2

pub data NftMetadataKind : Type 0 where
  cep78 nft721 raw custom_validated : NftMetadataKind

unfoldable pub nft_metadata_kind_try_from : ℕ → Try NftMetadataKind
nft_metadata_kind_try_from value =
    if value == 0
    then success NftMetadataKind.cep78
    else if value == 1
    then success NftMetadataKind.nft721
    else if value == 2
    then success NftMetadataKind.raw
    else if value == 3
    then success NftMetadataKind.custom_validated
    else failure invalid_nft_metadata_kind

unfoldable pub nft_metadata_kind_as_u8 : NftMetadataKind → ℕ
nft_metadata_kind_as_u8 NftMetadataKind.cep78 = 0
nft_metadata_kind_as_u8 NftMetadataKind.nft721 = 1
nft_metadata_kind_as_u8 NftMetadataKind.raw = 2
nft_metadata_kind_as_u8 NftMetadataKind.custom_validated = 3

pub data OwnershipMode : Type 0 where
  minter assigned transferable : OwnershipMode

unfoldable pub ownership_mode_try_from : ℕ → Try OwnershipMode
ownership_mode_try_from value =
    if value == 0
    then success OwnershipMode.minter
    else if value == 1
    then success OwnershipMode.assigned
    else if value == 2
    then success OwnershipMode.transferable
    else failure invalid_ownership_mode

unfoldable pub ownership_mode_as_u8 : OwnershipMode → ℕ
ownership_mode_as_u8 OwnershipMode.minter = 0
ownership_mode_as_u8 OwnershipMode.assigned = 1
ownership_mode_as_u8 OwnershipMode.transferable = 2

pub data NftIdentifierMode : Type 0 where
  ordinal hash : NftIdentifierMode

unfoldable pub identifier_mode_try_from : ℕ → Try NftIdentifierMode
identifier_mode_try_from value =
    if value == 0
    then success NftIdentifierMode.ordinal
    else if value == 1
    then success NftIdentifierMode.hash
    else failure invalid_identifier_mode

unfoldable pub identifier_mode_as_u8 : NftIdentifierMode → ℕ
identifier_mode_as_u8 NftIdentifierMode.ordinal = 0
identifier_mode_as_u8 NftIdentifierMode.hash = 1

pub data MetadataMutability : Type 0 where
  immutable mutable : MetadataMutability

unfoldable pub metadata_mutability_try_from : ℕ → Try MetadataMutability
metadata_mutability_try_from value =
    if value == 0
    then success MetadataMutability.immutable
    else if value == 1
    then success MetadataMutability.mutable
    else failure invalid_metadata_mutability

unfoldable pub metadata_mutability_as_u8 : MetadataMutability → ℕ
metadata_mutability_as_u8 MetadataMutability.immutable = 0
metadata_mutability_as_u8 MetadataMutability.mutable = 1
