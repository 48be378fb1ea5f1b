-- ===== src/Contract.antt =====
-- The NFT contract (casper/contract/src).
pub mod Error
pub mod Constants
pub mod Modes
pub mod State
pub mod Utils
pub mod Init
pub mod EntryPoints
pub mod Install
pub mod Admin
pub mod Counts
pub mod Mint
pub mod Burn
pub mod Approve
pub mod Transfer
pub mod Query
pub mod Dispatch
pub mod Call
