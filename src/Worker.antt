-- ===== src/Worker.antt =====
-- crates/fineco-worker: logging in, holding a session, and reading.
pub mod Errors
pub mod Cookies
pub mod Dates
pub mod Expiry
pub mod Login
pub mod Session
pub mod Parse
pub mod Movements
pub mod Urls
pub mod Taxonomy
pub mod Categories
pub mod Fetch
