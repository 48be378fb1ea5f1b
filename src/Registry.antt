-- ===== src/Registry.antt =====
-- An abstract registry of tokens, without dictionaries, modes and arguments, and the contract against it.
pub mod Spec
pub mod Refinement
