-- ===== src/Balances.antt =====
-- The books of an instance in ordinal mode: which tokens exist, who holds them, which are burnt, and
-- how many are counted for an item key.
pub mod Defs
pub mod Moves
pub mod Burn
pub mod Mint
pub mod Transfer
pub mod Init
pub mod Answers
