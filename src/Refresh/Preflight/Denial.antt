-- ===== src/Refresh/Preflight/Denial.antt =====
-- crates/fineco-refresh/src/lib.rs: the gate changes no table, and what it lets through.
use fineco_helper.Core.SafeError
use fineco_helper.Store.Db.Keeps.{
  Keeps, Keeps-pure, Keeps-lift, Keeps-query, Keeps-bind, Leads-answer, Leads-if,
}
use fineco_helper.Base.{false, replace_err, String, Text, ◌==◌}
use fineco_helper.Refresh.Preflight.{
  or_internal, circuit_is_open, refresh_preflight, preflight_at, RefreshLimits,
}
use fineco_helper.Store.Db.{Tables, StoreM}
use fineco_helper.Store.Jobs.{recent_job_outcomes, latest_job_run, count_jobs_on_utc_date}
use fineco_helper.Base.Int.{ℤ}

pub or_internal-Keeps :
    {A : Type 0} {P : Tables → Type 0} (m : StoreM A) → Keeps P m → Keeps P (or_internal m)
unfolding or_internal
or_internal-Keeps m k = Leads-answer m (replace_err SafeError.internal) k

module _ {P : Tables → Type 0} where
  circuit_is_open-Keeps :
      (area : String) (limits : RefreshLimits) (now : ℤ) → Keeps P (circuit_is_open area limits now)
  unfolding circuit_is_open recent_job_outcomes
  circuit_is_open-Keeps area limits now =
      Leads-if (limits.circuit_consecutive_failures == 0) _ _ (Keeps-pure false)
        (Keeps-bind _ _ (or_internal-Keeps _ (Keeps-query _)) (λ recent. Keeps-pure _))

  -- The gate keeps any property of the tables, whatever it answers: a denial records no job.
  pub refresh_preflight-Keeps :
      (area : String) (limits : RefreshLimits) (now_iso : Text)
      → Keeps P (refresh_preflight area limits now_iso)
  unfolding refresh_preflight preflight_at latest_job_run count_jobs_on_utc_date
  refresh_preflight-Keeps area limits now_iso = Keeps-bind _ _ (Keeps-lift _) (λ now.
      Keeps-bind _ _ (or_internal-Keeps _ (Keeps-query _)) (λ latest.
        Keeps-bind _ _ (Keeps-lift _) (λ _.
          Keeps-bind _ _ (or_internal-Keeps _ (Keeps-query _)) (λ today.
            Keeps-bind _ _ (Keeps-lift _) (λ _.
              Keeps-bind _ _ (circuit_is_open-Keeps area limits now) (λ opened. Keeps-lift _))))))
