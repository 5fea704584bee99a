-- ===== src/Ipc.antt =====
-- crates/fineco-ipc: the messages between the processes, their validation, and the policy.
pub mod Capability
pub mod Request
pub mod Refresh
pub mod Market
pub mod Details
pub mod Validate
pub mod Answers
pub mod Frame
