-- ===== src/Refresh.antt =====
-- crates/fineco-refresh: refresh orchestration.
pub mod Preflight
pub mod Retry
pub mod Run
