-- ===== src/Tests.antt =====
-- Concrete runs of the contract: fixtures, the calls they make, and an example of each result.
pub mod Fixtures
pub mod Runs
pub mod MoreRuns
pub mod Checks
mod Examples
mod Refusals
mod Kept
mod Delegation
mod Sessions
mod Interface
mod Installing
mod Lifetime
