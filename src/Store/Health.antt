-- ===== src/Store/Health.antt =====
-- crates/fineco-store/src/health.rs: job counts, one for each status that a row of `job_runs` has.
pub mod Moves
use fineco_helper.Store.Rows.{JobRunRow}
use fineco_helper.Base.{ℕ, List, count}
use fineco_helper.Store.Db.{StoreM, query}
use fineco_helper.Store.Jobs.{is_running, is_completed, is_failed}

pub record JobCounts : Type 0 where
  pub running : ℕ
  pub completed : ℕ
  pub failed : ℕ

-- SELECT status, COUNT(*) FROM job_runs GROUP BY status
unfoldable pub counts_of : List JobRunRow → JobCounts
counts_of rows = record {
  running = count (λ r. is_running r.status) rows;
  completed = count is_completed rows;
  failed = count is_failed rows;
}

unfoldable pub job_counts : StoreM JobCounts
job_counts = query (λ t. counts_of t.job_runs)
