-- ===== src/Refresh/Run.antt =====
-- crates/fineco-refresh/src/lib.rs: the four refreshes. A fetcher is what one fetch answers; it
-- reads the store only to hash ids.
pub mod Leads
pub mod Locked
pub mod Budget
pub mod Frees
use fineco_helper.Base.Int.{ℤ}
use fineco_helper.Core.SafeError
use fineco_helper.Core.SafeError.{SafeError}
use fineco_helper.Store.Rows.{
  NewPortfolioSnapshot, NewOrder, NewTaxCarryForward, NewTaxMinusByYear, NewMovement,
  MovementsSummary, MoneyMapCategory, JobOutcome, is_empty,
}
use fineco_helper.Base.{
  [], ◌∷◌, none, some, ok, err, Text, List, Option, String, ℕ, Result, ◌>>◌, pure, fail, ◌>>=◌,
  lift, and_then, ◌+◌, length, map_ok, if◌then◌else◌,
}
use fineco_helper.Store.Db.{Store, StoreM, StoreError}
use fineco_helper.Refresh.Preflight.{RefreshM, or_internal, stale_refresh_secs}
use fineco_helper.Store.Tax.{capture_tax}
use fineco_helper.Store.Jobs.{record_job_finish, try_begin_job}
use fineco_helper.Store.Orders.{capture_orders}
use fineco_helper.Store.Categories.{capture_categories}
use fineco_helper.Store.Movements.{capture_movements}
use fineco_helper.Store.Portfolio.{capture_portfolio_snapshot}
use fineco_helper.Core.Validate.{
  validate_order_request, validate_tax_range, validate_movements_request,
}

-- `PortfolioFetcher`
abbrev pub PortfolioFetcher : Type 0
PortfolioFetcher = Text → Result SafeError NewPortfolioSnapshot

abbrev pub OrdersFetcher : Type 0
OrdersFetcher = Store → String → ℕ → Result SafeError (List NewOrder)

pub record TaxFetcher : Type 0 where
  pub fetch_tax_carry_forward : Text → Text → Result SafeError NewTaxCarryForward
  pub fetch_tax_minus_by_year : Result SafeError (List NewTaxMinusByYear)

pub record MovementsCapture : Type 0 where
  pub movements : List NewMovement
  pub summary : MovementsSummary
  pub categories : Option (List MoneyMapCategory)

abbrev pub MovementsFetcher : Type 0
MovementsFetcher = Store → Text → Text → Result SafeError MovementsCapture

-- `let _ = ...`: the answer is dropped.
unfoldable pub ignored : {A : Type 0} → StoreM A → RefreshM (Unit {0})
ignored m s = let (_, s') = m s in (ok tt, s')

-- The job's id, or the refusal.
unfoldable pub acquired : Option ℕ → RefreshM ℕ
acquired none = fail SafeError.already_refreshing
acquired (some id) = pure id

unfoldable pub begin_job : String → String → Text → RefreshM ℕ
begin_job auth_id area now_iso = do
  job ← or_internal (try_begin_job auth_id area now_iso stale_refresh_secs)
  acquired job

-- A job that failed, with the error that the caller gets.
unfoldable pub finish_failed : {A : Type 0} → ℕ → Text → String → SafeError → RefreshM A
finish_failed job now_iso code e = do
  ignored (record_job_finish job now_iso JobOutcome.failed (some code))
  fail e

unfoldable pub finish_completed : {A : Type 0} → ℕ → Text → A → RefreshM A
finish_completed job now_iso a = do
  or_internal (record_job_finish job now_iso JobOutcome.completed none)
  pure a

-- The end of a refresh whose capture has been tried.
unfoldable pub after_capture : {A : Type 0} → ℕ → Text → Result StoreError A → RefreshM A
after_capture job now_iso (ok a) = finish_completed job now_iso a
after_capture job now_iso (err _) = finish_failed job now_iso "internal" SafeError.internal

-- The rest of a refresh that has its job: what was fetched is captured, and the job ends.
unfoldable pub capture_fetched :
    {F A : Type 0} → ℕ → Text → Result SafeError F → (F → StoreM A) → RefreshM A
capture_fetched job now_iso (ok fetched) capture s =
    let (r, s') = capture fetched s in after_capture job now_iso r s'
capture_fetched job now_iso (err e) capture s = finish_failed job now_iso e.code e s

unfoldable pub refresh_portfolio : PortfolioFetcher → String → Text → RefreshM ℕ
refresh_portfolio fetch auth_id now_iso = do
  job ← begin_job auth_id "portfolio" now_iso
  capture_fetched job now_iso (fetch now_iso) capture_portfolio_snapshot

-- A capture that answers with a number of rows.
unfoldable pub counted : StoreM (Unit {0}) → ℕ → StoreM ℕ
counted capture n = do capture; pure n

unfoldable pub fetch_and_capture_orders : OrdersFetcher → String → ℕ → Text → ℕ → RefreshM ℕ
fetch_and_capture_orders fetch kind days now_iso job s =
    capture_fetched job now_iso (fetch s kind days)
      (λ orders. counted (capture_orders now_iso orders) (length orders)) s

unfoldable pub refresh_orders : OrdersFetcher → String → String → ℕ → Text → RefreshM ℕ
refresh_orders fetch auth_id kind days now_iso = do
  lift (validate_order_request kind days)
  job ← begin_job auth_id "orders" now_iso
  fetch_and_capture_orders fetch kind days now_iso job

-- Both halves, or the first error.
unfoldable pub fetch_tax :
    TaxFetcher → Text → Text → Result SafeError (NewTaxCarryForward × List NewTaxMinusByYear)
fetch_tax fetch date_from date_to =
    and_then (fetch.fetch_tax_carry_forward date_from date_to) (λ carry_forward.
      map_ok (λ minus_by_year. (carry_forward, minus_by_year)) fetch.fetch_tax_minus_by_year)

unfoldable pub capture_both : Text → NewTaxCarryForward × List NewTaxMinusByYear → StoreM ℕ
capture_both now_iso (carry_forward, minus_by_year) =
    counted (capture_tax now_iso (carry_forward ∷ []) minus_by_year) (1 + length minus_by_year)

unfoldable pub refresh_tax : TaxFetcher → String → Text → Text → Text → RefreshM ℕ
unfolding capture_both
refresh_tax fetch auth_id date_from date_to now_iso = do
  lift (validate_tax_range date_from date_to)
  job ← begin_job auth_id "tax" now_iso
  capture_fetched job now_iso (fetch_tax fetch date_from date_to) (capture_both now_iso)

-- A failure to capture the categories is dropped.
unfoldable pub capture_taxonomy : Text → Option (List MoneyMapCategory) → StoreM (Unit {0})
capture_taxonomy now_iso none s = (ok tt, s)
capture_taxonomy now_iso (some categories) s =
    let (_, s') = capture_categories now_iso categories s in (ok tt, s')

unfoldable pub capture_movements_bundle : Text → MovementsCapture → StoreM ℕ
unfolding capture_taxonomy
capture_movements_bundle now_iso c = do
  capture_movements now_iso c.movements (if is_empty c.summary then none else some c.summary)
  capture_taxonomy now_iso c.categories
  pure (length c.movements)

unfoldable pub fetch_and_capture_movements : MovementsFetcher → Text → Text → Text → ℕ → RefreshM ℕ
fetch_and_capture_movements fetch date_from date_to now_iso job s =
    capture_fetched job now_iso (fetch s date_from date_to) (capture_movements_bundle now_iso) s

unfoldable pub refresh_movements : MovementsFetcher → String → ℕ → Text → Text → Text → RefreshM ℕ
refresh_movements fetch auth_id days date_from date_to now_iso = do
  lift (validate_movements_request days)
  job ← begin_job auth_id "movements" now_iso
  fetch_and_capture_movements fetch date_from date_to now_iso job

-- A call of one of the four refreshes, with what its fetcher answers.
pub data RefreshCall : Type 0 where
  for_portfolio : PortfolioFetcher → RefreshCall
  for_orders : OrdersFetcher → String → ℕ → RefreshCall
  for_tax : TaxFetcher → Text → Text → RefreshCall
  for_movements : MovementsFetcher → ℕ → Text → Text → RefreshCall

unfoldable pub area_of : RefreshCall → String
area_of (for_portfolio fetch) = "portfolio"
area_of (for_orders fetch kind days) = "orders"
area_of (for_tax fetch date_from date_to) = "tax"
area_of (for_movements fetch days date_from date_to) = "movements"

unfoldable pub run_refresh : RefreshCall → String → Text → RefreshM ℕ
run_refresh (for_portfolio fetch) auth_id now_iso = refresh_portfolio fetch auth_id now_iso
run_refresh (for_orders fetch kind days) auth_id now_iso =
    refresh_orders fetch auth_id kind days now_iso
run_refresh (for_tax fetch date_from date_to) auth_id now_iso =
    refresh_tax fetch auth_id date_from date_to now_iso
run_refresh (for_movements fetch days date_from date_to) auth_id now_iso =
    refresh_movements fetch auth_id days date_from date_to now_iso
