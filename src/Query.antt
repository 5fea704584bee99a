-- ===== src/Query.antt =====
-- crates/fineco-query: the cached reads.
pub mod Dividends
pub mod Answer
pub mod Dto
pub mod Handle
