-- ===== src/Controller/Refresh.antt =====
-- crates/fineco-helper/src/controller.rs: the limits of the areas, and `handle`, which gates and runs one
-- refresh. A poisoned lock is not modelled; a permit that is dropped finishes as
-- `finish_recording(false)` does.
pub mod Daily
use fineco_helper.Core.SafeError
use mathlib.Core.Option
use fineco_helper.Base.Int.{pos, saturating_sub}
use fineco_helper.Core.SafeError.{SafeError}
use fineco_helper.Ipc.Refresh.{
  RefreshRequest, RefreshOutcome, portfolio_refresh_live, orders_refresh_live, tax_refresh_live,
  movements_refresh_live, validate_refresh, refresh_capability, data_area,
}
use fineco_helper.Ipc.Capability.{Policy, owner_auth_id, allows}
use fineco_helper.Refresh.Run.{
  PortfolioFetcher, OrdersFetcher, TaxFetcher, MovementsFetcher, refresh_portfolio,
  refresh_movements, refresh_orders, refresh_tax,
}
use fineco_helper.Base.{
  none, some, false, ok, err, ℕ, String, Text, Exec, Result, if◌then◌else◌, Option, ◌>>=◌, ◌>>◌,
  str_eq, take, pure, fail, not, lift, ◌*◌, length,
}
use fineco_helper.Refresh.Preflight.{RefreshLimits, RefreshM, or_internal, refresh_preflight}
use fineco_helper.Store.Db.{Store}
use fineco_helper.Controller.Login.{admit_refresh_operation, finish, LiveLoginState}
use fineco_helper.Core.Clock.{epoch_to_iso8601_utc, parse_iso8601_utc}
use fineco_helper.Store.Portfolio.{positions_for_snapshot}
use fineco_helper.Core.Validate.{invalid_request}
use fineco_helper.Controller.Circuit.{MarketCircuitState}

pub record RefreshLimitsByArea : Type 0 where
  pub portfolio : RefreshLimits
  pub orders : RefreshLimits
  pub tax : RefreshLimits
  pub movements : RefreshLimits

abbrev limits_of : ℕ → ℕ → RefreshLimits
limits_of cooldown budget = record {
  cooldown_secs = pos cooldown;
  daily_budget = budget;
  circuit_consecutive_failures = 3;
  circuit_cooldown_secs = pos 600;
}

unfoldable pub defaults : RefreshLimitsByArea
defaults = record {
  portfolio = limits_of 1800 4;
  orders = limits_of 600 6;
  tax = limits_of 1800 6;
  movements = limits_of 900 6;
}

-- An unknown area has the limits of the portfolio.
unfoldable pub for_area : RefreshLimitsByArea → String → RefreshLimits
for_area l area =
    if str_eq area "orders"
    then l.orders
    else if str_eq area "tax"
    then l.tax
    else if str_eq area "movements"
    then l.movements
    else l.portfolio

-- `days` is a `u32`, so `days * 86400` does not overflow.
unfoldable pub days_to_date_range : Text → ℕ → Option (Text × Text)
days_to_date_range now_iso days =
    Option.map
      (λ now. (
        take 10 (epoch_to_iso8601_utc (saturating_sub now (pos (days * 86400)))),
        take 10 (epoch_to_iso8601_utc now),
      ))
      (parse_iso8601_utc now_iso)

-- What one call of each fetcher answers.
pub record Fetchers : Type 0 where
  pub fetch_portfolio : PortfolioFetcher
  pub fetch_orders : OrdersFetcher
  pub fetch_tax : TaxFetcher
  pub fetch_movements : MovementsFetcher

-- What the controller is made with.
pub record Config : Type 0 where
  pub policy : Policy
  pub limits : RefreshLimitsByArea

-- What it changes: the store, the state of the live logins, and the breaker of market reads.
pub record Controller : Type 0 where
  pub store : Store
  pub live_login_state : LiveLoginState
  pub market_circuit_state : MarketCircuitState

abbrev pub ControllerM : Type 0 → Type 0
ControllerM A = Exec Controller SafeError A

unfoldable pub on_store : {A : Type 0} → RefreshM A → ControllerM A
on_store m c = let (r, s) = m c.store in (r, record c { store = s })

unfoldable pub begin_refresh_live_operation : ControllerM (Unit {0})
begin_refresh_live_operation c =
    let (r, l) = admit_refresh_operation c.live_login_state in
    (r, record c { live_login_state = l })

-- An operation under a permit; every way out of it finishes the permit.
unfoldable pub under_permit : {A : Type 0} → ControllerM A → ControllerM A
under_permit m c =
    let (r, c') = m c in (r, record c' { live_login_state = finish false c'.live_login_state })

abbrev outcome_of : String → Text → Option ℕ → ℕ → RefreshOutcome
outcome_of area now_iso snapshot count = record {
  data_area = area;
  captured_at = now_iso;
  snapshot_id = snapshot;
  count = count;
}

unfoldable pub portfolio_outcome : Text → ℕ → RefreshM RefreshOutcome
portfolio_outcome now_iso snapshot_id = do
  positions ← or_internal (positions_for_snapshot snapshot_id)
  pure (outcome_of "portfolio" now_iso (some snapshot_id) (length positions))

unfoldable pub counted_outcome : String → Text → RefreshM ℕ → RefreshM RefreshOutcome
counted_outcome area now_iso m = do rows ← m; pure (outcome_of area now_iso none rows)

unfoldable pub refresh_range :
    MovementsFetcher → ℕ → Text → Option (Text × Text) → RefreshM RefreshOutcome
unfolding counted_outcome
refresh_range fetch days now_iso none = fail SafeError.internal
refresh_range fetch days now_iso (some (date_from, date_to)) =
    counted_outcome "movements" now_iso
      (refresh_movements fetch owner_auth_id days date_from date_to now_iso)

-- The `match` of `handle`.
unfoldable pub run_request : Fetchers → RefreshRequest → Text → RefreshM RefreshOutcome
unfolding portfolio_outcome counted_outcome
run_request f portfolio_refresh_live now_iso =
    refresh_portfolio f.fetch_portfolio owner_auth_id now_iso >>= portfolio_outcome now_iso
run_request f (orders_refresh_live p) now_iso =
    counted_outcome "orders" now_iso
      (refresh_orders f.fetch_orders owner_auth_id p.instrument_kind p.days now_iso)
run_request f (tax_refresh_live p) now_iso =
    counted_outcome "tax" now_iso
      (refresh_tax f.fetch_tax owner_auth_id p.date_from p.date_to now_iso)
run_request f (movements_refresh_live p) now_iso =
    refresh_range f.fetch_movements p.days now_iso (days_to_date_range now_iso p.days)

unfoldable pub check_policy : Policy → RefreshRequest → Result SafeError (Unit {0})
check_policy policy request =
    if not (allows policy owner_auth_id (refresh_capability request))
    then err (invalid_request "the configured policy does not permit this refresh.")
    else ok tt

unfoldable pub admitted : Fetchers → RefreshRequest → Text → ControllerM RefreshOutcome
admitted f request now_iso = do
  begin_refresh_live_operation
  under_permit (on_store (run_request f request now_iso))

-- The checks that come before the permit.
unfoldable pub gate : Config → RefreshRequest → Text → ControllerM (Unit {0})
gate config request now_iso = do
  lift (check_policy config.policy request)
  lift (validate_refresh request)
  on_store
      (refresh_preflight (data_area request) (for_area config.limits (data_area request)) now_iso)

unfoldable pub handle : Config → Fetchers → RefreshRequest → Text → ControllerM RefreshOutcome
handle config f request now_iso = do gate config request now_iso; admitted f request now_iso
