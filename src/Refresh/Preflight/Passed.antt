-- ===== src/Refresh/Preflight/Passed.antt =====
-- crates/fineco-refresh/src/lib.rs: what is known once the gate has let a refresh through.
use fineco_helper.Core.SafeError
use fineco_helper.Base.{
  [], ◌∷◌, true, false, ok, err, refl, Result, Exec, continue, ◌>>=◌, ◌≡◌, replace_err, List, ℕ,
  Bool, ◌<◌, arith, String, Text, count, take, lift, ok_or,
}
use fineco_helper.Core.SafeError.{SafeError}
use fineco_helper.Store.Db.{execute_next, StoreError, written, execute, Tables, Store}
use fineco_helper.Refresh.Preflight.{
  or_internal, check_budget, refresh_preflight, RefreshLimits, preflight_at, check_latest,
}
use fineco_helper.Store.Db.{query}
use fineco_helper.Store.Jobs.{latest_job_run, count_jobs_on_utc_date, started_on, latest_run}
use fineco_helper.Core.Clock.{parse_iso8601_utc}
use fineco_helper.Refresh.Preflight.Denial.{or_internal-Keeps}
use fineco_helper.Store.Db.Keeps.{Keeps-query}

module _ {S E A B : Type 0} where
  continue_ok :
      (r : Result E A) (f : A → Exec S E B) (s : S) (b : B)
      → (continue r f s).0 ≡ ok b
      → (a : A) × (r ≡ ok a) × ((f a s).0 ≡ ok b)
  continue_ok (ok a) f s b h = (a, refl, h)
  continue_ok (err e) f s b h = absurd cc

  -- A chain that returns has passed each of its steps.
  pub bind_ok :
      (m : Exec S E A) (f : A → Exec S E B) (s : S) (b : B)
      → ((m >>= f) s).0 ≡ ok b
      → (a : A) × ((m s).0 ≡ ok a) × ((f a (m s).1).0 ≡ ok b)
  bind_ok m f s b h = continue_ok (m s).0 f (m s).1 b h

module _ {A : Type 0} where
  replace_err_ok :
      (e : SafeError) (r : Result StoreError A) (a : A) → replace_err e r ≡ ok a → r ≡ ok a
  replace_err_ok e (ok b) a h = cc
  replace_err_ok e (err x) a h = absurd cc

  execute_next_ok :
      (faults : List Bool) (f : Tables → A) (s : Store) (a : A)
      → (execute_next faults (λ t. ok (f t, t)) s).0 ≡ ok a
      → a ≡ f s.tables
  unfolding execute_next written
  execute_next_ok [] f s a h = cc
  execute_next_ok (true ∷ rest) f s a h = absurd cc
  execute_next_ok (false ∷ rest) f s a h = cc

  -- A query that returns answers with what the tables hold.
  pub query_ok :
      (f : Tables → A) (s : Store) (a : A) → (or_internal (query f) s).0 ≡ ok a → a ≡ f s.tables
  unfolding or_internal query execute
  query_ok f s a h = execute_next_ok s.faults f s a (replace_err_ok SafeError.internal _ a h)

check_budget_ok :
    (limits : RefreshLimits) (today : ℕ) (u : Unit {0})
    → check_budget limits today ≡ ok u
    → today < limits.daily_budget
unfolding check_budget
check_budget_ok limits today u h = ground (arith, h)

-- A refresh that passes the gate has had fewer jobs today than its area's budget.
pub refresh_preflight_budget :
    (area : String) (limits : RefreshLimits) (now_iso : Text) (s : Store)
    → (refresh_preflight area limits now_iso s).0 ≡ ok tt
    → count (started_on area (take 10 now_iso)) s.tables.job_runs < limits.daily_budget
unfolding refresh_preflight preflight_at latest_job_run count_jobs_on_utc_date
refresh_preflight_budget area limits now_iso s h =
    let (now, _, h1) =
      bind_ok (lift (ok_or (parse_iso8601_utc now_iso) SafeError.internal))
        (preflight_at area limits now_iso) s tt h in
    let (latest, _, h2) = bind_ok (or_internal (latest_job_run area)) _ s tt h1 in
    let s1 = (or_internal (latest_job_run area) s).1 in
    let (_, _, h3) = bind_ok (lift (check_latest limits now latest)) _ s1 tt h2 in
    let (today, q, h4) =
      bind_ok (or_internal (count_jobs_on_utc_date area (take 10 now_iso))) _ s1 tt h3 in
    let s2 = (or_internal (count_jobs_on_utc_date area (take 10 now_iso)) s1).1 in
    let (u, b, _) = bind_ok (lift (check_budget limits today)) _ s2 tt h4 in
    let day = take 10 now_iso in
    let jobs_on : Tables → ℕ = λ t. count (started_on area day) t.job_runs in
    let same : jobs_on s1.tables ≡ jobs_on s.tables =
      (or_internal-Keeps {P = λ t. jobs_on t ≡ jobs_on s.tables} _
          (Keeps-query (λ t. latest_run area t.job_runs))).at
        s refl in
    omega (arith, query_ok jobs_on s1 today q, same, check_budget_ok limits today u b)
