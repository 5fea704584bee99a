-- ===== src/Refresh/Run/Locked.antt =====
-- crates/fineco-refresh/src/lib.rs: the lock's invariant is one about job runs only, and how a refresh takes
-- the lock.
use fineco_helper.Core.SafeError
use fineco_helper.Store.Db.Keeps.{Keeps, Leads, Leads-answer, Keeps-bind, Keeps-pure, Keeps-fail}
use fineco_helper.Store.Captures.Frame.{IsJobs}
use fineco_helper.Store.Jobs.Lock.{IsLocked, Below}
use fineco_helper.Base.{none, some, subst, count, String, Option, Text, ◌≤◌, ℕ, replace_err}
use fineco_helper.Refresh.Run.{acquired, begin_job}
use fineco_helper.Store.Db.{Tables}
use fineco_helper.Refresh.Preflight.{or_internal, stale_refresh_secs}
use fineco_helper.Store.Jobs.{runs_in, try_begin_job}

pub IsLocked-IsJobs : IsJobs IsLocked
IsLocked-IsJobs = record {
  move = λ t u e f v. record {
    one_running = λ area. subst (λ js. count (runs_in area) js ≤ 1) e (v.one_running area);
    fresh = subst (λ js. Below u.next_job_id js) e (subst (λ n. Below n t.job_runs) f v.fresh);
  };
}

acquired-Keeps : {P : Tables → Type 0} (o : Option ℕ) → Keeps P (acquired o)
unfolding acquired
acquired-Keeps none = Keeps-fail SafeError.already_refreshing
acquired-Keeps (some id) = Keeps-pure id

-- A refresh begins as `try_begin_job` does.
pub begin_job-Leads :
    {P Q : Tables → Type 0} (auth_id area : String) (now_iso : Text)
    → Leads P Q (try_begin_job auth_id area now_iso stale_refresh_secs)
    → Leads P Q (begin_job auth_id area now_iso)
unfolding begin_job or_internal
begin_job-Leads auth_id area now_iso k =
    Keeps-bind _ _ (Leads-answer _ (replace_err SafeError.internal) k) acquired-Keeps
