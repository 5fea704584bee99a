-- ===== src/Examples/Jobs.antt =====
-- The theorems about jobs, captures and refreshes, at a store with one finished job.
use fineco_helper.Store.Health.{counts_of}
use fineco_helper.Store.Health.Moves.{counts_of-record_job_finish, when_completed, when_failed}
use fineco_helper.Store.Jobs.{is_run, with_run}
use fineco_helper.Store.Db.{Store}
use fineco_helper.Base.{◌+◌, [], ◌∷◌, none, some, false, ok, err, refl}
use mathlib.Core.Option
use fineco_helper.Ipc.Request.{Request}
use fineco_helper.Ipc.Capability.{Capability, Policy}
use fineco_helper.Base.Int.{pos}
use fineco_helper.Store.Rows.{JobOutcome}
use fineco_helper.Core.SafeError
use fineco_helper.Store.Jobs.History.{begin, run, run-one_running}
use fineco_helper.Refresh.Run.{for_portfolio, area_of, run_refresh}
use fineco_helper.Base.{[], ◌∷◌, none, some, ok, err, refl, count, ◌≡◌, ap, ◌≤◌, false}
use fineco_helper.Store.Jobs.{try_begin_job, find_first, runs_in, record_job_finish}
use fineco_helper.Store.Db.Keeps.{Keeps}
use fineco_helper.Samples.{new_year, finished_job, sample_store, one_job-IsLocked, empty_store}
use fineco_helper.Refresh.Run.Frees.{IsFree, run_refresh-frees}
use fineco_helper.Refresh.Preflight.{refresh_preflight, RefreshLimits}
use fineco_helper.Store.Jobs.Release.{try_begin_job-record_job_finish}
use fineco_helper.Refresh.Preflight.Denial.{refresh_preflight-Keeps}
use fineco_helper.Store.Jobs.Acquire.{try_begin_job_free}
use fineco_helper.Controller.Refresh.{for_area, defaults}
use fineco_helper.Query.Handle.{Floats, handle_query, default_max_age}
use fineco_helper.Query.Handle.Reads.{handle_query-Keeps}

run-one_running_example :
    count
      (runs_in "orders")
      (run
        (begin "owner" "orders" new_year (pos 900) ∷ begin "owner" "orders" new_year (pos 900) ∷ [])
        empty_store).tables.job_runs
    ≤ 1
run-one_running_example =
    run-one_running
      (begin "owner" "orders" new_year (pos 900) ∷ begin "owner" "orders" new_year (pos 900) ∷ [])
      empty_store "orders" refl

orders_given : (try_begin_job "owner" "orders" new_year (pos 900) sample_store).0 ≡ ok (some 2)
orders_given =
    ap (λ p. p.0) (try_begin_job_free "owner" "orders" new_year (pos 900) sample_store refl refl)

try_begin_job-record_job_finish_example :
    (Option.map
        (λ r. r.id)
        (find_first
          (runs_in "orders")
          (try_begin_job "owner" "orders" new_year (pos 900) sample_store).1.tables.job_runs)
      ≡ some 2)
    × (find_first
          (runs_in "orders")
          (record_job_finish 2 new_year JobOutcome.completed none
            (try_begin_job "owner" "orders" new_year (pos 900) sample_store).1).1.tables.job_runs
        ≡ none)
try_begin_job-record_job_finish_example =
    try_begin_job-record_job_finish "owner" "orders" new_year (pos 900) sample_store 2 new_year
      JobOutcome.completed none one_job-IsLocked refl orders_given

run_refresh-frees_example :
    IsFree
      (area_of (for_portfolio (λ at. err SafeError.fineco_timeout)))
      (run_refresh
        (for_portfolio (λ at. err SafeError.fineco_timeout))
        "owner"
        new_year
        sample_store).1
unfolding area_of
run_refresh-frees_example =
    run_refresh-frees (for_portfolio (λ at. err SafeError.fineco_timeout)) "owner" new_year
      sample_store one_job-IsLocked refl refl

abbrev whole_floats : Floats
whole_floats = record { heavier = λ a b. false; euros_of = λ c. 0; cents_of = λ x. none }

abbrev orders_readable : Policy
orders_readable = record {
  version = 1;
  auth_ids = ("owner", record { capabilities = Capability.orders_cached_read ∷ [] }) ∷ [];
}

handle_query-Keeps_example :
    Keeps
      (λ t. t.job_runs ≡ finished_job ∷ [])
      (handle_query whole_floats default_max_age orders_readable Request.orders_get_latest_monitor
        (pos 0))
handle_query-Keeps_example =
    handle_query-Keeps {P = λ t. t.job_runs ≡ finished_job ∷ []} whole_floats default_max_age
      orders_readable Request.orders_get_latest_monitor (pos 0)

abbrev order_limits : RefreshLimits
order_limits = for_area defaults "orders"

refresh_preflight-Keeps_example :
    Keeps (λ t. t.job_runs ≡ finished_job ∷ []) (refresh_preflight "orders" order_limits new_year)
refresh_preflight-Keeps_example =
    refresh_preflight-Keeps {P = λ t. t.job_runs ≡ finished_job ∷ []} "orders" order_limits new_year

abbrev running_store : Store
running_store = record sample_store {
  tables = with_run "owner" "orders" new_year sample_store.tables;
}

counts_of-record_job_finish_example :
    let moved = count (is_run 2) running_store.tables.job_runs in
    let before = counts_of running_store.tables.job_runs in
    let after =
      counts_of
        (record_job_finish 2 new_year JobOutcome.failed
          (some "fineco_timeout")
          running_store).1.tables.job_runs in
    (after.running + moved ≡ before.running)
    × ((after.completed ≡ before.completed + when_completed JobOutcome.failed moved)
        × (after.failed ≡ before.failed + when_failed JobOutcome.failed moved))
counts_of-record_job_finish_example =
    counts_of-record_job_finish 2 new_year JobOutcome.failed (some "fineco_timeout") running_store
      refl
