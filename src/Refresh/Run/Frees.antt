-- ===== src/Refresh/Run/Frees.antt =====
-- crates/fineco-refresh/src/lib.rs: when the driver executes every statement, a refresh of a free area
-- leaves it free, however it ends.
use fineco_helper.Core.SafeError
use fineco_helper.Refresh.Run.{
  for_portfolio, for_orders, for_tax, for_movements, run_refresh, area_of, after_capture,
  capture_fetched, begin_job, refresh_portfolio, finish_completed, finish_failed, refresh_orders,
  ignored, acquired, refresh_tax, refresh_movements, fetch_and_capture_orders,
  fetch_and_capture_movements, RefreshCall, counted, fetch_tax, capture_both,
  capture_movements_bundle,
}
use fineco_helper.Store.Jobs.Lock.{IsLocked, try_begin_job-IsLocked}
use fineco_helper.Store.Db.Keeps.{Keeps}
use fineco_helper.Store.Captures.Frame.{IsJobs, capture_portfolio_snapshot-Keeps}
use fineco_helper.Base.{
  [], none, some, ok, err, refl, String, Text, Result, ◌≡◌, ℕ, subst, ◌>>=◌, lift, continue, ◌>>◌,
  Bool, sym, replace_err, pure, length,
}
use fineco_helper.Store.Db.{Store, Tables, StoreError, StoreM}
use fineco_helper.Store.Rows.{JobRunRow, JobOutcome}
use fineco_helper.Store.Jobs.{find_first, new_run, with_run, runs_in, record_job_finish}
use fineco_helper.Core.SafeError.{SafeError}
use fineco_helper.Refresh.Preflight.{or_internal, RefreshM, stale_refresh_secs}
use fineco_helper.Store.Jobs.Acquire.{try_begin_job_free}
use fineco_helper.Store.Jobs.Release.{finish_frees, new_run_found}
use fineco_helper.Refresh.Run.Leads.{
  orders-Keeps, capture_both-Keeps, capture_movements_bundle-Keeps,
}
use fineco_helper.Refresh.Run.Locked.{IsLocked-IsJobs}
use fineco_helper.Store.Portfolio.{capture_portfolio_snapshot}
use fineco_helper.Store.Orders.{capture_orders}
use fineco_helper.Core.Validate.{
  validate_order_request, validate_tax_range, validate_movements_request,
}

abbrev pub IsFree : String → Store → Type 0
IsFree area s = find_first (runs_in area) s.tables.job_runs ≡ none

-- The job `r` holds the area.
pub record IsHeld (area : String) (r : JobRunRow) (t : Tables) : Type 0 where
  pub locked : IsLocked t
  pub found : find_first (runs_in area) t.job_runs ≡ some r

IsHeld-IsJobs : (area : String) (r : JobRunRow) → IsJobs (IsHeld area r)
IsHeld-IsJobs area r = record {
  move = λ t u e f h. record {
    locked = (IsLocked-IsJobs).move t u e f h.locked;
    found = subst (λ js. find_first (runs_in area) js ≡ some r) e h.found;
  };
}

module _ (area : String) (r : JobRunRow) (now_iso : Text) where
  after_capture-frees :
      {A : Type 0} (a : Result StoreError A) (s : Store)
      → s.faults ≡ []
      → IsHeld area r s.tables
      → IsFree area (after_capture r.id now_iso a s).1
  unfolding after_capture finish_completed finish_failed or_internal ignored
  after_capture-frees (ok a) s e h =
      done (record_job_finish r.id now_iso JobOutcome.completed none s)
        (finish_frees area now_iso JobOutcome.completed none s r h.locked e h.found)
    where
      done :
          (p : Result StoreError Bool × Store)
          → IsFree area p.1
          → IsFree area (continue (replace_err SafeError.internal p.0) (λ _. pure a) p.1).1
      done (ok b, s') k = k
      done (err e, s') k = k
  after_capture-frees (err x) s e h =
      finish_frees area now_iso JobOutcome.failed (some "internal") s r h.locked e h.found

  capture_fetched-frees :
      {F A : Type 0} (res : Result SafeError F) (capture : F → StoreM A) (s : Store)
      → ((f : F) → Keeps (IsHeld area r) (capture f))
      → s.faults ≡ []
      → IsHeld area r s.tables
      → IsFree area (capture_fetched r.id now_iso res capture s).1
  unfolding capture_fetched finish_failed ignored
  capture_fetched-frees (ok f) capture s k e h =
      let (a, s') = capture f s in after_capture-frees a s' ((k f).quiet s e) ((k f).at s h)
  capture_fetched-frees (err x) capture s k e h =
      finish_frees area now_iso JobOutcome.failed (some x.code) s r h.locked e h.found

-- The job that a refresh of a free area starts, and the store it starts it in.
abbrev first_job : String → String → Text → Store → JobRunRow
first_job auth_id area now_iso s = new_run s.tables.next_job_id auth_id area now_iso

abbrev started : String → String → Text → Store → Store
started auth_id area now_iso s = record s { tables = with_run auth_id area now_iso s.tables }

module _ (auth_id area : String) (now_iso : Text) (s : Store) where
  begin_job_free :
      s.faults ≡ []
      → IsFree area s
      → begin_job auth_id area now_iso s ≡ (ok s.tables.next_job_id, started auth_id area now_iso s)
  unfolding begin_job or_internal acquired
  begin_job_free e f = rw (try_begin_job_free auth_id area now_iso stale_refresh_secs s e f) refl

  started-IsHeld :
      s.faults ≡ []
      → IsFree area s
      → IsLocked s.tables
      → IsHeld area (first_job auth_id area now_iso s) (started auth_id area now_iso s).tables
  started-IsHeld e f v = record {
    locked =
        subst (λ p. IsLocked p.1.tables)
          (try_begin_job_free auth_id area now_iso stale_refresh_secs s e f)
          ((try_begin_job-IsLocked auth_id area now_iso stale_refresh_secs).at s v);
    found = new_run_found auth_id area now_iso s.tables;
  }

  -- The rest of a refresh that frees the area it holds.
  begun-frees :
      {A : Type 0} (rest : ℕ → RefreshM A)
      → s.faults ≡ []
      → IsFree area s
      → IsFree area (rest s.tables.next_job_id (started auth_id area now_iso s)).1
      → IsFree area ((begin_job auth_id area now_iso >>= rest) s).1
  begun-frees rest e f h =
      subst (λ p. IsFree area (continue p.0 rest p.1).1) (sym (begin_job_free e f)) h

lifted-frees :
    {A : Type 0} (area : String) (v : Result SafeError (Unit {0})) (rest : RefreshM A) (s : Store)
    → IsFree area s
    → IsFree area (rest s).1
    → IsFree area ((lift v >> rest) s).1
lifted-frees area (ok u) rest s f h = h
lifted-frees area (err e) rest s f h = f

-- When the driver executes every statement, no job of an area that had no running job is left
-- running by a refresh, however the request, the fetch and the capture turn out.
pub run_refresh-frees :
    (call : RefreshCall) (auth_id : String) (now_iso : Text) (s : Store)
    → IsLocked s.tables
    → s.faults ≡ []
    → IsFree (area_of call) s
    → IsFree (area_of call) (run_refresh call auth_id now_iso s).1
unfolding run_refresh area_of refresh_portfolio refresh_orders refresh_tax refresh_movements
    fetch_and_capture_orders fetch_and_capture_movements
run_refresh-frees (for_portfolio fetch) auth_id now_iso s v e f =
    let r = first_job auth_id "portfolio" now_iso s in
    let rest : ℕ → RefreshM ℕ =
      λ job. capture_fetched job now_iso (fetch now_iso) capture_portfolio_snapshot in
    let held = started-IsHeld auth_id "portfolio" now_iso s e f v in
    let freed =
      capture_fetched-frees "portfolio" r now_iso (fetch now_iso) capture_portfolio_snapshot
        (started auth_id "portfolio" now_iso s)
        (capture_portfolio_snapshot-Keeps (IsHeld-IsJobs "portfolio" r)) e held in
    begun-frees auth_id "portfolio" now_iso s rest e f freed
run_refresh-frees (for_orders fetch kind days) auth_id now_iso s v e f =
    let r = first_job auth_id "orders" now_iso s in
    let rest : ℕ → RefreshM ℕ = fetch_and_capture_orders fetch kind days now_iso in
    let held = started-IsHeld auth_id "orders" now_iso s e f v in
    let freed =
      capture_fetched-frees "orders" r now_iso
        (fetch (started auth_id "orders" now_iso s) kind days)
        (λ os. counted (capture_orders now_iso os) (length os)) (started auth_id "orders" now_iso s)
        (orders-Keeps (IsHeld-IsJobs "orders" r) now_iso) e held in
    lifted-frees "orders" (validate_order_request kind days)
      (begin_job auth_id "orders" now_iso >>= rest) s f
      (begun-frees auth_id "orders" now_iso s rest e f freed)
run_refresh-frees (for_tax fetch date_from date_to) auth_id now_iso s v e f =
    let r = first_job auth_id "tax" now_iso s in
    let rest : ℕ → RefreshM ℕ = λ job.
      capture_fetched job now_iso (fetch_tax fetch date_from date_to) (capture_both now_iso) in
    let held = started-IsHeld auth_id "tax" now_iso s e f v in
    let freed =
      capture_fetched-frees "tax" r now_iso (fetch_tax fetch date_from date_to)
        (capture_both now_iso) (started auth_id "tax" now_iso s)
        (capture_both-Keeps (IsHeld-IsJobs "tax" r) now_iso) e held in
    lifted-frees "tax" (validate_tax_range date_from date_to)
      (begin_job auth_id "tax" now_iso >>= rest) s f
      (begun-frees auth_id "tax" now_iso s rest e f freed)
run_refresh-frees (for_movements fetch days date_from date_to) auth_id now_iso s v e f =
    let r = first_job auth_id "movements" now_iso s in
    let rest : ℕ → RefreshM ℕ = fetch_and_capture_movements fetch date_from date_to now_iso in
    let held = started-IsHeld auth_id "movements" now_iso s e f v in
    let freed =
      capture_fetched-frees "movements" r now_iso
        (fetch (started auth_id "movements" now_iso s) date_from date_to)
        (capture_movements_bundle now_iso) (started auth_id "movements" now_iso s)
        (capture_movements_bundle-Keeps (IsHeld-IsJobs "movements" r) now_iso) e held in
    lifted-frees "movements" (validate_movements_request days)
      (begin_job auth_id "movements" now_iso >>= rest) s f
      (begun-frees auth_id "movements" now_iso s rest e f freed)
