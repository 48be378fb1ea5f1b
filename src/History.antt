-- ===== src/History.antt =====
-- Sequences of calls.
pub mod Steps
pub mod Config
pub mod Invariant
pub mod Books
