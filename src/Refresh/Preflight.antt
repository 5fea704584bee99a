-- ===== src/Refresh/Preflight.antt =====
-- crates/fineco-refresh/src/lib.rs: the gate before a refresh.
pub mod Denial
pub mod Passed
use fineco_helper.Base.Int.{ℤ, pos, leb_ℤ, ltb_ℤ, saturating_sub}
use fineco_helper.Core.SafeError
use fineco_helper.Core.SafeError.{SafeError}
use fineco_helper.Store.Rows.{Status, JobRunRow}
use fineco_helper.Base.{
  [], ◌∷◌, none, some, true, false, ok, err, Exec, ℕ, Option, Text, Bool, List, String, Result,
  map_err, str_eq, if◌then◌else◌, and_then, ◌>>=◌, ◌||◌, ◌&&◌, ltb, ◌==◌, ok_or, leb, lift, length,
  pure, not, ◌>>◌, all, take,
}
use fineco_helper.Store.Db.{StoreM, Store}
use fineco_helper.Store.Jobs.{
  is_failed_status, is_running, latest_job_run, recent_job_outcomes, count_jobs_on_utc_date,
}
use fineco_helper.Core.Clock.{parse_iso8601_utc}

abbrev pub stale_refresh_secs : ℤ
stale_refresh_secs = pos 900

-- The store's actions inside the refresh, whose errors are safe envelopes.
abbrev pub RefreshM : Type 0 → Type 0
RefreshM A = Exec Store SafeError A

pub record RefreshLimits : Type 0 where
  pub cooldown_secs : ℤ
  pub daily_budget : ℕ
  pub circuit_consecutive_failures : ℕ
  pub circuit_cooldown_secs : ℤ

-- `.map_err(|_| SafeError::internal())?`
unfoldable pub or_internal : {A : Type 0} → StoreM A → RefreshM A
or_internal m = map_err SafeError.internal m

unfoldable pub is_upstream_failure : Option String → Bool
is_upstream_failure none = false
is_upstream_failure (some code) =
    str_eq code "fineco_timeout" || str_eq code "fineco_upstream_error"

abbrev pub Outcome : Type 0
Outcome = Text × Status × Option String

abbrev is_upstream_outcome : Outcome → Bool
is_upstream_outcome (at, status, code) = is_failed_status status && is_upstream_failure code

-- An unparseable timestamp keeps the circuit open.
unfoldable pub within_cooldown : ℤ → ℤ → Text → Bool
within_cooldown now cooldown at = elim (parse_iso8601_utc at) [
  | none ↦ true
  | some newest ↦ ltb_ℤ (saturating_sub now newest) cooldown
]

newest_within : ℤ → ℤ → List Outcome → Bool
newest_within now cooldown [] = false
newest_within now cooldown ((at, status, code) ∷ rest) = within_cooldown now cooldown at

-- What the last `n` outcomes, newest first, make of the circuit; `n` is not 0.
unfoldable pub opens : ℕ → ℤ → ℤ → List Outcome → Bool
unfolding newest_within
opens n now cooldown recent =
    if ltb (length recent) n
    then false
    else if not (all is_upstream_outcome recent)
    then false
    else newest_within now cooldown recent

unfoldable pub circuit_is_open : String → RefreshLimits → ℤ → RefreshM Bool
circuit_is_open area limits now =
    if limits.circuit_consecutive_failures == 0 then pure false else do
      recent ← or_internal (recent_job_outcomes area limits.circuit_consecutive_failures)
      pure (opens limits.circuit_consecutive_failures now limits.circuit_cooldown_secs recent)

-- What the latest job refuses, by its age.
unfoldable pub check_age : RefreshLimits → Status → ℤ → Result SafeError (Unit {0})
check_age limits status age =
    let stale_running = is_running status && not (leb_ℤ age stale_refresh_secs) in
    if is_running status && not stale_running
    then err SafeError.already_refreshing
    else if not stale_running
        && ltb_ℤ (pos 0) limits.cooldown_secs
        && ltb_ℤ age limits.cooldown_secs
    then err SafeError.refresh_cooldown
    else ok tt

unfoldable pub check_latest : RefreshLimits → ℤ → Option JobRunRow → Result SafeError (Unit {0})
check_latest limits now none = ok tt
check_latest limits now (some latest) =
    and_then (ok_or (parse_iso8601_utc latest.started_at) SafeError.internal)
      (λ started. check_age limits latest.status (saturating_sub now started))

unfoldable pub check_budget : RefreshLimits → ℕ → Result SafeError (Unit {0})
check_budget limits today =
    if leb limits.daily_budget today then err SafeError.refresh_budget_exhausted else ok tt

unfoldable pub check_circuit : Bool → Result SafeError (Unit {0})
check_circuit opened = if opened then err SafeError.refresh_circuit_open else ok tt

-- The checks of the gate, once the clock is read.
unfoldable pub preflight_at : String → RefreshLimits → Text → ℤ → RefreshM (Unit {0})
preflight_at area limits now_iso now = do
  latest ← or_internal (latest_job_run area)
  lift (check_latest limits now latest)
  today ← or_internal (count_jobs_on_utc_date area (take 10 now_iso))
  lift (check_budget limits today)
  opened ← circuit_is_open area limits now
  lift (check_circuit opened)

unfoldable pub refresh_preflight : String → RefreshLimits → Text → RefreshM (Unit {0})
refresh_preflight area limits now_iso = do
  now ← lift (ok_or (parse_iso8601_utc now_iso) SafeError.internal)
  preflight_at area limits now_iso now
