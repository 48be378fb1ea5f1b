-- ===== src/Owned.antt =====
-- The lists of owned tokens (OWNED_TOKENS of casper/contract/src/main.rs) of an instance that numbers its
-- tokens, against the owners.
pub mod Occurrences
pub mod Updates
pub mod Defs
pub mod Moves
pub mod Mint
pub mod Transfer
pub mod Succeeds
pub mod History
pub mod Approvals
pub mod Unapproved
pub mod Operators
pub mod Grants
pub mod Granted
pub mod Rightful
pub mod Delegation
