-- ===== src/Ledger.antt =====
-- A contract instance after `init`, as plain values: the state space on which the theorems about
-- the entry points are stated.
pub mod Defs
pub mod Modes
pub mod Reads
pub mod Writes
pub mod Checks
pub mod Burn
pub mod Owned
pub mod Mint
pub mod Transfer
pub mod Init
pub mod Arguments
pub mod Admin
pub mod Approve
pub mod Describe
