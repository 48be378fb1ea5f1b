-- ===== src/Bytes.antt =====
-- The byte serialisation of the metadata schemas (casper/contract/src/utils.rs) against the contract of
-- `casper_types::bytesrepr`, with a concrete encoding that meets it.
pub mod Schema
pub mod Simple
pub mod Fetch
