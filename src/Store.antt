-- ===== src/Store.antt =====
-- crates/fineco-store: the SQLite history store.
pub mod Rows
pub mod Db
pub mod Jobs
pub mod Captures
pub mod Portfolio
pub mod Orders
pub mod Tax
pub mod Movements
pub mod Categories
pub mod Freshness
pub mod Health
pub mod History
pub mod Report
