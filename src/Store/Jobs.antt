-- ===== src/Store/Jobs.antt =====
-- crates/fineco-store/src/jobs.rs: the `job_runs` table and the lock that its partial unique index is.
-- Rows stand newest first, so the first row found has the greatest id.
pub mod Sorting
pub mod Lock
pub mod History
pub mod Acquire
pub mod Release
use mathlib.Core.Option
use fineco_helper.Base.Int.{ℤ, leb_ℤ, saturating_sub}
use fineco_helper.Core.Clock.{parse_iso8601_utc}
use fineco_helper.Store.Rows.{JobRunRow, Status, JobOutcome, outcome_status}
use fineco_helper.Store.Db.{
  Store, StoreM, StoreError, Statement, Tables, execute, query, constraint_violation,
}
use fineco_helper.Base.{
  Bool, String, ℕ, Result, Text, Option, true, str_eq, List, none, if◌then◌else◌, ◌==◌, ok, pure,
  text_lt, count, false, ◌&&◌, ◌∷◌, is_some, some, ◌||◌, head?, map, err, not, text_eq, keep, take,
  suc, ltb, [], ◌>>=◌,
}

abbrev pub is_running : Status → Bool
is_running Status.running = true
is_running _ = false

abbrev pub is_completed_status : Status → Bool
is_completed_status Status.completed = true
is_completed_status _ = false

abbrev pub is_failed_status : Status → Bool
is_failed_status Status.failed = true
is_failed_status _ = false

abbrev pub is_completed : JobRunRow → Bool
is_completed r = is_completed_status r.status

abbrev pub is_failed : JobRunRow → Bool
is_failed r = is_failed_status r.status

-- `data_area = ?1 AND status = 'running'`
abbrev pub runs_in : String → JobRunRow → Bool
runs_in area r = str_eq r.data_area area && is_running r.status

abbrev pub find_first : {A : Type 0} → (A → Bool) → List A → Option A
find_first p [] = none
find_first p (x ∷ xs) = if p x then some x else find_first p xs

abbrev pub new_run : ℕ → String → String → Text → JobRunRow
new_run id auth_id area started_at = record {
  id = id;
  auth_id = auth_id;
  data_area = area;
  started_at = started_at;
  finished_at = none;
  status = Status.running;
  safe_error_code = none;
}

unfoldable pub with_run : String → String → Text → Tables → Tables
with_run auth_id area started_at t = record t {
  job_runs = new_run t.next_job_id auth_id area started_at ∷ t.job_runs;
  next_job_id = suc t.next_job_id;
}

-- INSERT INTO job_runs; the index `one_running_job_per_data_area` refuses a second running row.
unfoldable pub insert_job : String → String → Text → Statement ℕ
insert_job auth_id area started_at t =
    if is_some (find_first (runs_in area) t.job_runs)
    then err constraint_violation
    else ok (t.next_job_id, with_run auth_id area started_at t)

unfoldable pub record_job_start : String → String → Text → StoreM ℕ
record_job_start auth_id area started_at = execute (insert_job auth_id area started_at)

-- A refused insert is an answer, not a failure.
abbrev pub lock_refused : Result StoreError ℕ → Result StoreError (Option ℕ)
lock_refused (ok id) = ok (some id)
lock_refused (err constraint_violation) = ok none
lock_refused (err e) = err e

unfoldable pub insert_running_job : String → String → Text → StoreM (Option ℕ)
insert_running_job auth_id area started_at s =
    let (r, s') = execute (insert_job auth_id area started_at) s in (lock_refused r, s')

-- UPDATE job_runs SET ... WHERE id = ?1 AND status = 'running'
unfoldable pub finish_run : ℕ → Text → Status → Option String → JobRunRow → JobRunRow
finish_run id finished_at status code r =
    if r.id == id && is_running r.status
    then record r { finished_at = some finished_at; status = status; safe_error_code = code }
    else r

abbrev pub is_run : ℕ → JobRunRow → Bool
is_run id r = r.id == id && is_running r.status

-- The answer says whether a row was updated.
unfoldable pub update_run : ℕ → Text → Status → Option String → Statement Bool
update_run id finished_at status code t = ok (
  is_some (find_first (is_run id) t.job_runs),
  record t { job_runs = map (finish_run id finished_at status code) t.job_runs },
)

unfoldable pub record_job_finish : ℕ → Text → JobOutcome → Option String → StoreM Bool
record_job_finish id finished_at outcome code =
    execute (update_run id finished_at (outcome_status outcome) code)

-- Whether a job that started at `then` is presumed dead at `now`.
unfoldable pub is_stale : Text → Text → ℤ → Bool
is_stale now_iso started stale_after = elim (parse_iso8601_utc now_iso) [
  | none ↦ false
  | some now ↦ elim (parse_iso8601_utc started) [
    | none ↦ false
    | some then_ ↦ not (leb_ℤ (saturating_sub now then_) stale_after)
  ]
]

unfoldable pub reclaim_found : Option JobRunRow → Text → ℤ → StoreM Bool
reclaim_found none now_iso stale_after = pure false
reclaim_found (some r) now_iso stale_after =
    if is_stale now_iso r.started_at stale_after
    then execute (update_run r.id now_iso Status.failed (some "stale"))
    else pure false

unfoldable pub reclaim_stale_running : String → Text → ℤ → StoreM Bool
unfolding reclaim_found
reclaim_stale_running area now_iso stale_after = do
  found ← query (λ t. find_first (runs_in area) t.job_runs)
  reclaim_found found now_iso stale_after

unfoldable pub retry_insert : Bool → String → String → Text → StoreM (Option ℕ)
retry_insert true auth_id area started_at = insert_running_job auth_id area started_at
retry_insert false auth_id area started_at = pure none

unfoldable pub or_reclaim : Option ℕ → String → String → Text → ℤ → StoreM (Option ℕ)
or_reclaim (some id) auth_id area started_at stale_after = pure (some id)
or_reclaim none auth_id area started_at stale_after = do
  reclaimed ← reclaim_stale_running area started_at stale_after
  retry_insert reclaimed auth_id area started_at

unfoldable pub try_begin_job : String → String → Text → ℤ → StoreM (Option ℕ)
unfolding or_reclaim retry_insert
try_begin_job auth_id area started_at stale_after = do
  inserted ← insert_running_job auth_id area started_at
  or_reclaim inserted auth_id area started_at stale_after

-- ORDER BY started_at DESC, id DESC
unfoldable pub started_later : JobRunRow → JobRunRow → Bool
started_later a b =
    text_lt b.started_at a.started_at || (text_eq a.started_at b.started_at && ltb b.id a.id)

unfoldable pub insert_by : {A : Type 0} → (A → A → Bool) → A → List A → List A
insert_by before x [] = x ∷ []
insert_by before x (y ∷ ys) = if before y x then y ∷ insert_by before x ys else x ∷ y ∷ ys

unfoldable pub sort_by : {A : Type 0} → (A → A → Bool) → List A → List A
unfolding insert_by
sort_by before [] = []
sort_by before (x ∷ xs) = insert_by before x (sort_by before xs)

abbrev pub of_area : String → JobRunRow → Bool
of_area area r = str_eq r.data_area area

unfoldable pub latest_run : String → List JobRunRow → Option JobRunRow
latest_run area runs = head? (sort_by started_later (keep (of_area area) runs))

unfoldable pub latest_job_run : String → StoreM (Option JobRunRow)
latest_job_run area = query (λ t. latest_run area t.job_runs)

unfoldable pub running_job_for : String → StoreM (Option ℕ)
running_job_for area = query (λ t. Option.map (λ r. r.id) (find_first (runs_in area) t.job_runs))

-- `data_area = ?1 AND substr(started_at, 1, 10) = ?2`
abbrev pub started_on : String → Text → JobRunRow → Bool
started_on area utc_date r = str_eq r.data_area area && text_eq (take 10 r.started_at) utc_date

unfoldable pub count_jobs_on_utc_date : String → Text → StoreM ℕ
count_jobs_on_utc_date area utc_date = query (λ t. count (started_on area utc_date) t.job_runs)

-- `status IN ('completed', 'failed')`
abbrev is_terminal_in : String → JobRunRow → Bool
is_terminal_in area r = str_eq r.data_area area && (is_completed r || is_failed r)

unfoldable pub recent_outcomes : String → ℕ → List JobRunRow → List (Text × Status × Option String)
recent_outcomes area limit runs =
    map (λ r. (r.started_at, r.status, r.safe_error_code))
      (take limit (sort_by started_later (keep (is_terminal_in area) runs)))

unfoldable pub recent_job_outcomes : String → ℕ → StoreM (List (Text × Status × Option String))
recent_job_outcomes area limit = query (λ t. recent_outcomes area limit t.job_runs)
