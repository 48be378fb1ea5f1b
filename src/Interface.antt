-- ===== src/Interface.antt =====
-- The contract as the host sees it (casper/contract/src/main.rs): its table of entry points, the
-- functions behind them, and the session that installs them.
pub mod Table
pub mod Agree
pub mod Declared
pub mod Call
pub mod Plain
pub mod Lifetime
