-- ===== src/Refresh/Run/Leads.antt =====
-- crates/fineco-refresh/src/lib.rs: what a refresh does to the job runs is what its begin and its finish
-- do.
use fineco_helper.Core.SafeError
use fineco_helper.Refresh.Run.{for_portfolio, for_orders, for_tax, for_movements}
use fineco_helper.Store.Db.Keeps.{
  Keeps, Leads, Leads-answer, Keeps-bind, Keeps-pure, Keeps-fail, Leads-bind, Keeps-lift,
}
use fineco_helper.Store.Rows.{
  NewTaxCarryForward, NewTaxMinusByYear, MoneyMapCategory, JobOutcome, NewOrder,
}
use fineco_helper.Store.Captures.Frame.{
  IsJobs, capture_tax-Keeps, capture_movements-Keeps, capture_categories-Keeps,
  capture_orders-Keeps, capture_portfolio_snapshot-Keeps,
}
use fineco_helper.Store.Jobs.{record_job_finish}
use fineco_helper.Base.{[], ◌∷◌, none, some, ok, err, ℕ, Text, Option, String, Result, List, length}
use fineco_helper.Refresh.Run.{
  ignored, finish_failed, finish_completed, after_capture, capture_fetched, counted, capture_both,
  capture_taxonomy, capture_movements_bundle, run_refresh, MovementsCapture, area_of,
  refresh_portfolio, refresh_orders, refresh_tax, refresh_movements, fetch_and_capture_orders,
  fetch_and_capture_movements, RefreshCall, begin_job,
}
use fineco_helper.Store.Db.{Tables, StoreM, StoreError}
use fineco_helper.Core.SafeError.{SafeError}
use fineco_helper.Refresh.Preflight.Denial.{or_internal-Keeps}
use fineco_helper.Store.Orders.{capture_orders}
use fineco_helper.Store.Categories.{capture_categories}

ignored-Keeps : {A : Type 0} {P : Tables → Type 0} (m : StoreM A) → Keeps P m → Keeps P (ignored m)
unfolding ignored
ignored-Keeps m k = Leads-answer m (λ _. ok tt) k

-- An end of a job that keeps `Q`, whatever the job and its outcome.
pub record Finishes (Q : Tables → Type 0) : Type 0 where
  pub keeps :
      (id : ℕ) (at : Text) (o : JobOutcome) (code : Option String)
      → Keeps Q (record_job_finish id at o code)

module _ {Q : Tables → Type 0} (j : IsJobs Q) (fin : Finishes Q) where
  finish_failed-Keeps :
      {A : Type 0} (job : ℕ) (now_iso : Text) (code : String) (e : SafeError)
      → Keeps Q (finish_failed {A = A} job now_iso code e)
  unfolding finish_failed
  finish_failed-Keeps job now_iso code e =
      Keeps-bind _ _ (ignored-Keeps _ (fin.keeps job now_iso JobOutcome.failed (some code)))
        (λ _. Keeps-fail e)

  finish_completed-Keeps :
      {A : Type 0} (job : ℕ) (now_iso : Text) (a : A) → Keeps Q (finish_completed job now_iso a)
  unfolding finish_completed
  finish_completed-Keeps job now_iso a =
      Keeps-bind _ _ (or_internal-Keeps _ (fin.keeps job now_iso JobOutcome.completed none))
        (λ _. Keeps-pure a)

  after_capture-Keeps :
      {A : Type 0} (job : ℕ) (now_iso : Text) (r : Result StoreError A)
      → Keeps Q (after_capture job now_iso r)
  unfolding after_capture
  after_capture-Keeps job now_iso (ok a) = finish_completed-Keeps job now_iso a
  after_capture-Keeps job now_iso (err e) =
      finish_failed-Keeps job now_iso "internal" SafeError.internal

  pub capture_fetched-Keeps :
      {F A : Type 0} (job : ℕ) (now_iso : Text) (r : Result SafeError F) (capture : F → StoreM A)
      → ((f : F) → Keeps Q (capture f))
      → Keeps Q (capture_fetched job now_iso r capture)
  unfolding capture_fetched
  capture_fetched-Keeps job now_iso (ok f) capture k = record {
    at = λ s h.
        let (r, s') = capture f s in (after_capture-Keeps job now_iso r).at s' ((k f).at s h);
    quiet = λ s e.
        let (r, s') = capture f s in (after_capture-Keeps job now_iso r).quiet s' ((k f).quiet s e);
  }
  capture_fetched-Keeps job now_iso (err e) capture k = finish_failed-Keeps job now_iso e.code e

module _ {Q : Tables → Type 0} (j : IsJobs Q) where
  counted-Keeps : (m : StoreM (Unit {0})) (n : ℕ) → Keeps Q m → Keeps Q (counted m n)
  unfolding counted
  counted-Keeps m n k = Keeps-bind _ _ k (λ _. Keeps-pure n)

  pub orders-Keeps :
      (at : Text) (orders : List NewOrder)
      → Keeps Q (counted (capture_orders at orders) (length orders))
  orders-Keeps at orders = counted-Keeps _ _ (capture_orders-Keeps j at orders)

  pub capture_both-Keeps :
      (at : Text) (both : NewTaxCarryForward × List NewTaxMinusByYear)
      → Keeps Q (capture_both at both)
  unfolding capture_both
  capture_both-Keeps at (cf, mys) = counted-Keeps _ _ (capture_tax-Keeps j at (cf ∷ []) mys)

  capture_taxonomy-Keeps :
      (at : Text) (o : Option (List MoneyMapCategory)) → Keeps Q (capture_taxonomy at o)
  unfolding capture_taxonomy
  capture_taxonomy-Keeps at none = Keeps-pure tt
  capture_taxonomy-Keeps at (some cs) =
      Leads-answer (capture_categories at cs) (λ _. ok tt) (capture_categories-Keeps j at cs)

  pub capture_movements_bundle-Keeps :
      (at : Text) (c : MovementsCapture) → Keeps Q (capture_movements_bundle at c)
  unfolding capture_movements_bundle
  capture_movements_bundle-Keeps at c =
      Keeps-bind _ _ (capture_movements-Keeps j at c.movements _)
        (λ _. Keeps-bind _ _ (capture_taxonomy-Keeps at c.categories) (λ _. Keeps-pure _))

module _ {P Q : Tables → Type 0} (w : (t : Tables) → P t → Q t) (j : IsJobs Q)
    (fin : Finishes Q) where
  pub run_refresh-Leads :
      (call : RefreshCall) (auth_id : String) (now_iso : Text)
      → Leads P Q (begin_job auth_id (area_of call) now_iso)
      → Leads P Q (run_refresh call auth_id now_iso)
  unfolding run_refresh area_of refresh_portfolio refresh_orders refresh_tax refresh_movements
      fetch_and_capture_orders fetch_and_capture_movements
  run_refresh-Leads (for_portfolio fetch) auth_id now_iso b =
      Keeps-bind _ _ b
        (λ job. capture_fetched-Keeps j fin job now_iso _ _ (capture_portfolio_snapshot-Keeps j))
  run_refresh-Leads (for_orders fetch kind days) auth_id now_iso b =
      Leads-bind _ _ w (Keeps-lift _) (λ _. Keeps-bind _ _ b (λ job. record {
        at = λ s h.
            (capture_fetched-Keeps j fin job now_iso (fetch s kind days) _
                (orders-Keeps j now_iso)).at
              s h;
        quiet = λ s e.
            (capture_fetched-Keeps j fin job now_iso (fetch s kind days) _
                (orders-Keeps j now_iso)).quiet
              s e;
      }))
  run_refresh-Leads (for_tax fetch date_from date_to) auth_id now_iso b =
      Leads-bind _ _ w (Keeps-lift _) (λ _.
        Keeps-bind _ _ b
          (λ job. capture_fetched-Keeps j fin job now_iso _ _ (capture_both-Keeps j now_iso)))
  run_refresh-Leads (for_movements fetch days date_from date_to) auth_id now_iso b =
      Leads-bind _ _ w (Keeps-lift _) (λ _. Keeps-bind _ _ b (λ job. record {
        at = λ s h.
            (capture_fetched-Keeps j fin job now_iso (fetch s date_from date_to) _
                (capture_movements_bundle-Keeps j now_iso)).at
              s h;
        quiet = λ s e.
            (capture_fetched-Keeps j fin job now_iso (fetch s date_from date_to) _
                (capture_movements_bundle-Keeps j now_iso)).quiet
              s e;
      }))
