-- ===== src/Contract/Utils.antt =====
-- The helpers of casper/contract/src/utils.rs.
pub mod Reads
pub mod Args
pub mod Caller
pub mod Tokens
pub mod Metadata
pub mod Serial
pub mod Buffers
