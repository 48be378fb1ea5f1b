-- ===== src/Rights.antt =====
-- Who may do what, and what a call does for the token that it names.
pub mod Plan
pub mod Transfer
pub mod Burn
pub mod Approve
pub mod Whitelist
pub mod Metadata
pub mod Mint
pub mod Install
