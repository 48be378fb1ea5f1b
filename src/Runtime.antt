-- ===== src/Runtime.antt =====
-- What the contract takes from the Casper host (crates casper_contract and casper_types): keys, the
-- call stack, decoded runtime arguments, named keys and dictionaries as the host answers for them,
-- and how a call ends. Hashes are numbers; the formats and the JSON codec are fields of `Host`.
mod Types
mod Results
mod Store
pub mod Bytes
pub mod Contracts
pub mod Ffi
pub use Types.*
pub use Results.*
unfoldable pub use Store.*
