-- ===== src/Store/Freshness.antt =====
-- crates/fineco-store/src/freshness.rs: the freshness of a data area, from its latest capture and its
-- jobs.
use mathlib.Core.Option
use fineco_helper.Base.Int.{ℤ}
use fineco_helper.Core.Freshness.{FreshnessState, freshness_from_age}
use fineco_helper.Base.{
  none, some, Option, String, Text, if◌then◌else◌, ℕ, str_eq, pure, ◌>>=◌, ◌||◌,
}
use fineco_helper.Store.Db.{StoreM, query}
use fineco_helper.Core.Clock.{parse_iso8601_utc}
use fineco_helper.Store.Rows.{JobRunRow}
use fineco_helper.Store.Jobs.{latest_job_run, running_job_for, is_failed}
use fineco_helper.Store.Portfolio.{latest_snapshot}
use fineco_helper.Store.Captures.{latest_mark}

pub record DataAreaFreshness : Type 0 where
  pub state : FreshnessState
  pub captured_at : Option Text

-- MAX over no rows is NULL.
unfoldable pub latest_capture_at : String → StoreM (Option Text)
latest_capture_at area =
    if str_eq area "portfolio"
    then query (λ t. Option.map (λ s. s.captured_at) (latest_snapshot t.portfolio_snapshots))
    else if str_eq area "orders" || str_eq area "tax" || str_eq area "movements"
    then query (λ t. latest_mark area t.data_captures)
    else pure none

-- The state of an area with a capture.
unfoldable pub captured_state : ℤ → ℤ → Text → FreshnessState
captured_state now max_age at = elim (parse_iso8601_utc at) [
  | none ↦ FreshnessState.stale
  | some epoch ↦ freshness_from_age (some epoch) now max_age
]

unfoldable pub failed_state : Option String → FreshnessState
failed_state none = FreshnessState.refresh_failed
failed_state (some code) =
    if str_eq code "auth_required"
    then FreshnessState.auth_required
    else if str_eq code "step_up_required"
    then FreshnessState.step_up_required
    else FreshnessState.refresh_failed

-- The state of an area without a capture, from its latest job.
unfoldable pub uncaptured_state : Option JobRunRow → FreshnessState
uncaptured_state none = FreshnessState.missing
uncaptured_state (some job) =
    if is_failed job then failed_state job.safe_error_code else FreshnessState.missing

unfoldable pub not_running : String → ℤ → ℤ → Option Text → StoreM DataAreaFreshness
not_running area now max_age (some at) =
    pure (record { state = captured_state now max_age at; captured_at = some at })
not_running area now max_age none = do
  job ← latest_job_run area
  pure (record { state = uncaptured_state job; captured_at = none })

unfoldable pub after_running : String → ℤ → ℤ → Option Text → Option ℕ → StoreM DataAreaFreshness
after_running area now max_age captured (some job) =
    pure (record { state = FreshnessState.refreshing; captured_at = captured })
after_running area now max_age captured none = not_running area now max_age captured

unfoldable pub freshness_for : String → ℤ → ℤ → StoreM DataAreaFreshness
unfolding after_running not_running
freshness_for area now max_age = do
  captured ← latest_capture_at area
  running ← running_job_for area
  after_running area now max_age captured running
