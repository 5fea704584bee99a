-- ===== src/Gateway.antt =====
-- crates/fineco-gateway: who calls, and which tools a caller may call.
pub mod Access
pub mod Scope
pub mod Calls
