-- ===== src/Controller.antt =====
-- crates/fineco-helper/src/controller.rs: the refresh and market controller.
pub mod Login
pub mod Refresh
pub mod Circuit
pub mod Permits
pub mod Market
