-- ===== src/Controller/Refresh/Daily.antt =====
-- crates/fineco-helper/src/controller.rs: the daily budget over any number of refreshes.
use fineco_helper.Core.SafeError
use fineco_helper.Base.{
  continue, ◌>>=◌, none, some, ok, err, String, Text, Result, ℕ, ◌+◌, lift, ◌≡◌, ◌>>◌, count,
  Option, take, arith, ◌<◌, true, inl, inr, refl, ◌≤◌, str_eq, subst, text_eq, eq_iff, Bool-cases,
  text_eq_sound,
}
use fineco_helper.Ipc.Refresh.{
  RefreshRequest, portfolio_refresh_live, orders_refresh_live, tax_refresh_live,
  movements_refresh_live, validate_refresh, data_area,
}
use fineco_helper.Store.Db.Keeps.{
  Keeps, Leads, Keeps-bind, Leads-weaken, Keeps-fail, Keeps-pure, Keeps-query,
}
use fineco_helper.Store.Db.{Tables}
use fineco_helper.Controller.Refresh.{
  gate, Fetchers, on_store, under_permit, admitted, Config, refresh_range, run_request, Controller,
  begin_refresh_live_operation, ControllerM, counted_outcome, portfolio_outcome, check_policy,
  for_area, days_to_date_range, RefreshLimitsByArea, handle,
}
use fineco_helper.Core.SafeError.{SafeError}
use fineco_helper.Refresh.Run.Budget.{AtMost, counts, run_refresh-AtMost}
use fineco_helper.Refresh.Preflight.{RefreshM}
use fineco_helper.Controller.Login.{admit_refresh_operation}
use fineco_helper.Refresh.Run.{
  run_refresh, area_of, for_portfolio, for_movements, for_orders, for_tax,
}
use fineco_helper.Refresh.Preflight.Denial.{refresh_preflight-Keeps, or_internal-Keeps}
use fineco_helper.Store.Jobs.{started_on}
use fineco_helper.Store.Portfolio.{positions_for_snapshot}
use fineco_helper.Refresh.Preflight.Passed.{bind_ok, refresh_preflight_budget}
use fineco_helper.Ipc.Capability.{owner_auth_id}

module _ (area : String) (day : Text) (n : ℕ) (f : Fetchers) (now_iso : Text) where
  abbrev Counted : String → Tables → Type 0
  Counted of_area = AtMost area day (n + counts area day of_area now_iso)

  answered :
      {A B : Type 0} (of_area : String) (m : RefreshM A) (g : A → RefreshM B)
      → Leads (AtMost area day n) (Counted of_area) m
      → ((a : A) → Keeps (Counted of_area) (g a))
      → Leads (AtMost area day n) (Counted of_area) (m >>= g)
  answered of_area m g k l = Keeps-bind m g k l

  refresh_range-Counted :
      (days : ℕ) (range : Option (Text × Text))
      → Leads
          (AtMost area day n)
          (Counted "movements")
          (refresh_range f.fetch_movements days now_iso range)
  unfolding refresh_range counted_outcome run_refresh area_of
  refresh_range-Counted days none =
      Leads-weaken _ (λ t h. omega (arith, h)) (Keeps-fail SafeError.internal)
  refresh_range-Counted days (some (date_from, date_to)) =
      Keeps-bind _ _
        (run_refresh-AtMost area day n (for_movements f.fetch_movements days date_from date_to)
          owner_auth_id now_iso)
        (λ rows. Keeps-pure _)

  -- A request adds at most one job, of its own area and day.
  run_request-Counted :
      (request : RefreshRequest)
      → Leads (AtMost area day n) (Counted (data_area request)) (run_request f request now_iso)
  unfolding run_request portfolio_outcome counted_outcome run_refresh area_of data_area
      positions_for_snapshot
  run_request-Counted portfolio_refresh_live =
      Keeps-bind _ _
        (run_refresh-AtMost area day n (for_portfolio f.fetch_portfolio) owner_auth_id now_iso)
        (λ id. Keeps-bind _ _ (or_internal-Keeps _ (Keeps-query _)) (λ positions. Keeps-pure _))
  run_request-Counted (orders_refresh_live p) =
      Keeps-bind _ _
        (run_refresh-AtMost area day n (for_orders f.fetch_orders p.instrument_kind p.days)
          owner_auth_id now_iso)
        (λ rows. Keeps-pure _)
  run_request-Counted (tax_refresh_live p) =
      Keeps-bind _ _
        (run_refresh-AtMost area day n (for_tax f.fetch_tax p.date_from p.date_to) owner_auth_id
          now_iso)
        (λ rows. Keeps-pure _)
  run_request-Counted (movements_refresh_live p) =
      refresh_range-Counted p.days (days_to_date_range now_iso p.days)

module _ {P Q : Tables → Type 0} (w : (t : Tables) → P t → Q t) (f : Fetchers)
    (request : RefreshRequest) (now_iso : Text) where
  permitted :
      (r : Result SafeError (Unit {0})) (c : Controller)
      → Leads P Q (run_request f request now_iso)
      → P c.store.tables
      → Q
          (continue r
            (λ _. under_permit (on_store (run_request f request now_iso)))
            c).1.store.tables
  unfolding under_permit on_store
  permitted (ok u) c k h = k.at c.store h
  permitted (err e) c k h = w c.store.tables h

  admitted-leads :
      (c : Controller)
      → Leads P Q (run_request f request now_iso)
      → P c.store.tables
      → Q (admitted f request now_iso c).1.store.tables
  unfolding admitted begin_refresh_live_operation
  admitted-leads c k h =
      let (r, l) = admit_refresh_operation c.live_login_state in
      permitted r (record c { live_login_state = l }) k h

module _ (P : Tables → Type 0) where
  checked_at :
      {A : Type 0} (r : Result SafeError (Unit {0})) (m : ControllerM A) (c : Controller)
      → P c.store.tables
      → P (m c).1.store.tables
      → P ((lift r >> m) c).1.store.tables
  checked_at (ok u) m c h k = k
  checked_at (err e) m c h k = h

  -- The gate changes no table.
  pub gate-keeps :
      (config : Config) (request : RefreshRequest) (now_iso : Text) (c : Controller)
      → P c.store.tables
      → P (gate config request now_iso c).1.store.tables
  unfolding gate on_store
  gate-keeps config request now_iso c h = checked_at (check_policy config.policy request) _ c h (
      checked_at (validate_refresh request) _ c h (
        (refresh_preflight-Keeps {P = P} (data_area request)
            (for_area config.limits (data_area request)) now_iso).at
          c.store h))

gate_budget :
    (config : Config) (request : RefreshRequest) (now_iso : Text) (c : Controller)
    → (gate config request now_iso c).0 ≡ ok tt
    → count (started_on (data_area request) (take 10 now_iso)) c.store.tables.job_runs
      < (for_area config.limits (data_area request)).daily_budget
unfolding gate on_store
gate_budget config request now_iso c h =
    let (_, _, h1) = bind_ok (lift (check_policy config.policy request)) _ c tt h in
    let (_, _, h2) = bind_ok (lift (validate_refresh request)) _ c tt h1 in
    refresh_preflight_budget (data_area request) (for_area config.limits (data_area request))
      now_iso c.store h2

-- Every area has had at most its budget of jobs, on every day.
abbrev pub IsWithinDaily : RefreshLimitsByArea → Tables → Type 0
IsWithinDaily limits t =
    (area : String) (day : Text)
    → count (started_on area day) t.job_runs ≤ (for_area limits area).daily_budget

-- A job counts for an area and a day only if it is of that area and starts on that day.
counts_elsewhere :
    (area : String) (day : Text) (of_area : String) (now_iso : Text) (n b : ℕ)
    → n ≤ b
    → (str_eq of_area area ≡ true → text_eq (take 10 now_iso) day ≡ true → n < b)
    → n + counts area day of_area now_iso ≤ b
unfolding counts
counts_elsewhere area day of_area now_iso n b h k = elim (Bool-cases (str_eq of_area area)) [
  | inl e ↦ elim (Bool-cases (text_eq (take 10 now_iso) day)) [
    | inl d ↦ rw e (rw d (omega (arith, k e d)))
    | inr d ↦ rw e (rw d (omega (arith, h)))
  ]
  | inr e ↦ rw e (omega (arith, h))
]

module _ (config : Config) (f : Fetchers) (request : RefreshRequest) (now_iso : Text) where
  abbrev budget_of : String → ℕ
  budget_of area = (for_area config.limits area).daily_budget

  room :
      (area : String) (day : Text) (c : Controller)
      → IsWithinDaily config.limits c.store.tables
      → (gate config request now_iso c).0 ≡ ok tt
      → count (started_on area day) c.store.tables.job_runs
          + counts area day (data_area request) now_iso
        ≤ budget_of area
  room area day c v h =
      counts_elsewhere area day (data_area request) now_iso _ _ (v area day) (λ e d.
        subst (λ a. count (started_on a day) c.store.tables.job_runs < budget_of a)
          ((eq_iff (data_area request) area).0 e)
          (subst
            (λ x.
              count (started_on (data_area request) x) c.store.tables.job_runs
              < budget_of (data_area request))
            (text_eq_sound (take 10 now_iso) day d) (gate_budget config request now_iso c h)))

  after_gate :
      (area : String) (day : Text) (n : ℕ) (r : Result SafeError (Unit {0})) (c : Controller)
      → n ≤ budget_of area
      → (r ≡ ok tt → n + counts area day (data_area request) now_iso ≤ budget_of area)
      → AtMost area day n c.store.tables
      → AtMost area day
          (budget_of area)
          (continue r (λ _. admitted f request now_iso) c).1.store.tables
  after_gate area day n (ok u) c b k h =
      let added =
        admitted-leads (λ t a. omega (arith, a)) f request now_iso c
          (run_request-Counted area day n f now_iso request) h in
      omega (arith, added, k refl)
  after_gate area day n (err e) c b k h = omega (arith, h, b)

  -- No refresh request takes an area over its daily budget: when every area has had at most its budget
  -- of jobs on every day, the same holds after the request, whatever the policy, the fetchers and
  -- the driver do.
  pub handle-IsWithinDaily :
      (c : Controller)
      → IsWithinDaily config.limits c.store.tables
      → IsWithinDaily config.limits (handle config f request now_iso c).1.store.tables
  unfolding handle
  handle-IsWithinDaily c v area day =
      let n = count (started_on area day) c.store.tables.job_runs in
      let (r, c1) = gate config request now_iso c in
      after_gate area day n r c1 (v area day) (room area day c v)
        (gate-keeps (AtMost area day n) config request now_iso c (omega arith))
