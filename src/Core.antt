-- ===== src/Core.antt =====
-- crates/fineco-core: the leaf crate's shared types and pure functions.
pub mod Clock
pub mod Classes
pub mod SafeError
pub mod Freshness
pub mod Text
pub mod Validate
pub mod Transport
