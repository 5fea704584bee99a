-- ===== src/Live.antt =====
-- crates/fineco-live/src/lib.rs: the socket between the store-server and the credential worker.
pub mod Wire
pub mod Errors
pub mod Call
pub mod Client
