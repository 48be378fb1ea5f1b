-- ===== src/Sessions.antt =====
-- The sessions and the minting contract (casper/client), which call the NFT contract for an account.
pub mod Defs
pub mod Effects
pub mod Ownership
pub mod Minting
pub mod Installed
