-- ===== src/Store/Jobs/History.antt =====
-- crates/fineco-store/src/jobs.rs: histories of calls on the job table.
use fineco_helper.Base.Int.{ℤ}
use fineco_helper.Store.Rows.{JobOutcome}
use fineco_helper.Store.Db.{Store}
use fineco_helper.Store.Jobs.{runs_in, record_job_start, record_job_finish, try_begin_job}
use fineco_helper.Store.Jobs.Lock.{
  IsLocked, record_job_start-IsLocked, record_job_finish-IsLocked, try_begin_job-IsLocked,
}
use fineco_helper.Base.{[], ◌∷◌, String, List, Text, ◌≡◌, ℕ, count, Option, ◌≤◌, arith, ap}

-- The calls that write the table.
pub data Call : Type 0 where
  start : String → String → Text → Call
  begin : String → String → Text → ℤ → Call
  finish : ℕ → Text → JobOutcome → Option String → Call

pub step : Call → Store → Store
step (start auth_id area at) s = (record_job_start auth_id area at s).1
step (begin auth_id area at stale_after) s = (try_begin_job auth_id area at stale_after s).1
step (finish id at outcome code) s = (record_job_finish id at outcome code s).1

pub run : List Call → Store → Store
run [] s = s
run (c ∷ cs) s = run cs (step c s)

step-IsLocked : (c : Call) (s : Store) → IsLocked s.tables → IsLocked (step c s).tables
unfolding step
step-IsLocked (start auth_id area at) s v = (record_job_start-IsLocked auth_id area at).at s v
step-IsLocked (begin auth_id area at stale) s v =
    (try_begin_job-IsLocked auth_id area at stale).at s v
step-IsLocked (finish id at outcome code) s v =
    (record_job_finish-IsLocked id at outcome code).at s v

run-IsLocked : (cs : List Call) (s : Store) → IsLocked s.tables → IsLocked (run cs s).tables
unfolding run
run-IsLocked [] s v = v
run-IsLocked (c ∷ cs) s v = run-IsLocked cs (step c s) (step-IsLocked c s v)

-- From a store whose job table is empty, after any calls, whichever statements the driver fails: at
-- most one job of each area is running.
pub run-one_running :
    (cs : List Call) (s : Store) (area : String)
    → s.tables.job_runs ≡ []
    → count (runs_in area) (run cs s).tables.job_runs ≤ 1
run-one_running cs s area e = (run-IsLocked cs s start_locked).one_running area
  where
    start_locked : IsLocked s.tables
    start_locked = record {
      one_running = λ a. omega (arith, ap (count (runs_in a)) e);
      fresh = rw e tt;
    }
