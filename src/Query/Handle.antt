-- ===== src/Query/Handle.antt =====
-- crates/fineco-query/src/lib.rs: `QueryHandler::handle`, which answers a cached read from the store.
pub mod Reads
use mathlib.Core.Option
use fineco_helper.Base.Int.{ℤ, pos}
use fineco_helper.Store.Rows.{
  F64, OrderRow, TaxCarryForwardRow, TaxMinusByYearRow, PositionRow, PortfolioSnapshotRow,
  MovementsSummary,
}
use fineco_helper.Store.History.{
  AllocationPoint, PositionHistoryPoint, ShareableRow, max_history_snapshots, shareable_report_rows,
  allocation_history, position_history,
}
use fineco_helper.Ipc.Capability.{Policy, allows, owner_auth_id}
use fineco_helper.Ipc.Answers.{
  OrderDto, OrdersDto, TaxCarryForwardDto, TaxCarryForwardListDto, TaxMinusDto, TaxMinusListDto,
  MovementDto, MovementsDto, MovementsAccountSummaryDto, DividendsDto, PortfolioSummaryDto,
  PositionDto, FullSnapshotDto, ShareableRowDto, ShareableReportDto, PortfolioHistoryPointDto,
  PortfolioHistoryDto, AllocationPointDto, AllocationHistoryDto, PositionHistoryPointDto,
  PositionHistoryDto, FreshnessDto, FreshnessReportDto,
}
use fineco_helper.Ipc.Request.{Request, HistoryParams, PositionHistoryParams, required_capability}
use fineco_helper.Base.{
  [], none, some, Option, ◌*◌, String, Bool, ℕ, ◌>>=◌, Text, List, pure, fail, if◌then◌else◌,
  length, not, map,
}
use fineco_helper.Refresh.Preflight.{RefreshM, or_internal}
use fineco_helper.Store.Categories.{
  CategoryLookup, category_name, subcategory_name, latest_categories,
}
use fineco_helper.Store.Movements.{MovementRow, latest_movements, latest_movements_summary}
use fineco_helper.Query.Answer.{latest_dividends}
use fineco_helper.Core.Validate.{invalid_request}
use fineco_helper.Store.Orders.{latest_orders}
use fineco_helper.Store.Tax.{latest_tax_carry_forward, latest_tax_minus_by_year}
use fineco_helper.Store.Portfolio.{
  latest_portfolio_snapshot, positions_for_snapshot, portfolio_history,
}
use fineco_helper.Store.Freshness.{freshness_for, latest_capture_at}
use fineco_helper.Core.Freshness.{state_name}
use fineco_helper.Query.Dto.{
  ResponseBody, shareable_row_dto, order_dto, carry_forward_dto, minus_dto, account_summary_dto,
  summary_dto, history_point_dto, allocation_point_dto, position_history_point_dto, movement_dto,
  position_dto,
}

pub record FreshnessMaxAge : Type 0 where
  pub portfolio : ℤ
  pub orders : ℤ
  pub tax : ℤ
  pub movements : ℤ

-- `FreshnessMaxAge::default`
abbrev pub default_max_age : FreshnessMaxAge
default_max_age = record {
  portfolio = pos (24 * 3600);
  orders = pos (24 * 3600);
  tax = pos (7 * 24 * 3600);
  movements = pos (24 * 3600);
}

unfoldable pub answer_orders : RefreshM ResponseBody
answer_orders = do
  rows ← or_internal latest_orders
  captured ← or_internal (latest_capture_at "orders")
  pure (ResponseBody.orders_body (record { captured_at = captured; orders = map order_dto rows }))

unfoldable pub answer_tax_carry_forward : RefreshM ResponseBody
answer_tax_carry_forward = do
  rows ← or_internal latest_tax_carry_forward
  captured ← or_internal (latest_capture_at "tax")
  pure (
      ResponseBody.tax_carry_forward_body
        (record { captured_at = captured; entries = map carry_forward_dto rows }))

unfoldable pub answer_tax_minus : RefreshM ResponseBody
answer_tax_minus = do
  rows ← or_internal latest_tax_minus_by_year
  captured ← or_internal (latest_capture_at "tax")
  pure (
      ResponseBody.tax_minus_body (record { captured_at = captured; entries = map minus_dto rows }))

unfoldable pub answer_movements : RefreshM ResponseBody
answer_movements = do
  rows ← or_internal latest_movements
  captured ← or_internal (latest_capture_at "movements")
  summary ← or_internal latest_movements_summary
  taxonomy ← or_internal latest_categories
  pure (
      ResponseBody.movements_body (record {
        captured_at = captured;
        account_summary = Option.map account_summary_dto summary;
        movements = map (movement_dto taxonomy) rows;
      }))

unfoldable pub answer_summary : RefreshM ResponseBody
answer_summary = do
  snapshot ← or_internal latest_portfolio_snapshot
  pure (ResponseBody.portfolio_summary_body (summary_dto snapshot))

unfoldable pub positions_of_latest : Option PortfolioSnapshotRow → RefreshM (List PositionRow)
positions_of_latest none = pure []
positions_of_latest (some row) = or_internal (positions_for_snapshot row.id)

unfoldable pub answer_full_snapshot : RefreshM ResponseBody
answer_full_snapshot = do
  snapshot ← or_internal latest_portfolio_snapshot
  positions ← positions_of_latest snapshot
  pure (
      ResponseBody.portfolio_full_snapshot_body
        (record { summary = summary_dto snapshot; positions = map position_dto positions }))

unfoldable pub answer_history : HistoryParams → RefreshM ResponseBody
answer_history params = do
  rows ← or_internal (portfolio_history params.limit)
  pure (ResponseBody.portfolio_history_body (record { points = map history_point_dto rows }))

unfoldable pub answer_allocation_history : RefreshM ResponseBody
answer_allocation_history = do
  rows ← or_internal (allocation_history max_history_snapshots)
  pure (ResponseBody.allocation_history_body (record { points = map allocation_point_dto rows }))

unfoldable pub answer_position_history : PositionHistoryParams → RefreshM ResponseBody
answer_position_history params = do
  rows ← or_internal (position_history params.instr_id params.venue_system max_history_snapshots)
  pure
      (ResponseBody.position_history_body (record { points = map position_history_point_dto rows }))

unfoldable pub answer_freshness : String → ℤ → ℤ → RefreshM FreshnessDto
answer_freshness area max_age now = do
  f ← or_internal (freshness_for area now max_age)
  pure (record { state = state_name f.state; captured_at = f.captured_at })

unfoldable pub freshness_report : FreshnessMaxAge → ℤ → RefreshM ResponseBody
freshness_report max_age now = do
  portfolio ← answer_freshness "portfolio" max_age.portfolio now
  order_state ← answer_freshness "orders" max_age.orders now
  tax_state ← answer_freshness "tax" max_age.tax now
  movement_state ← answer_freshness "movements" max_age.movements now
  pure (
      ResponseBody.freshness_body (record {
        portfolio = portfolio;
        orders = order_state;
        tax = tax_state;
        movements = movement_state;
      }))

-- What the floating-point numbers are taken through: their order, and to and from cents.
pub record Floats : Type 0 where
  pub heavier : F64 → F64 → Bool
  pub euros_of : ℤ → F64
  pub cents_of : F64 → Option ℤ

unfoldable pub rows_of_latest : Floats → Option PortfolioSnapshotRow → RefreshM ShareableReportDto
rows_of_latest fl none = pure (record { captured_at = none; rows = [] })
rows_of_latest fl (some row) = do
  rows ← or_internal (shareable_report_rows fl.heavier row.id)
  pure (record { captured_at = some row.captured_at; rows = map shareable_row_dto rows })

unfoldable pub answer_shareable_report : Floats → RefreshM ResponseBody
answer_shareable_report fl = do
  snapshot ← or_internal latest_portfolio_snapshot
  report ← rows_of_latest fl snapshot
  pure (ResponseBody.portfolio_shareable_report_body report)

unfoldable pub answer_dividends : Floats → RefreshM ResponseBody
answer_dividends fl = do
  dto ← latest_dividends fl.euros_of fl.cents_of
  pure (ResponseBody.dividends_body dto)

-- The `match` of `handle`.
unfoldable pub answer : Floats → FreshnessMaxAge → Request → ℤ → RefreshM ResponseBody
answer fl max_age Request.portfolio_get_freshness now = freshness_report max_age now
answer fl max_age Request.orders_get_latest_monitor now = answer_orders
answer fl max_age Request.tax_get_latest_carry_forward now = answer_tax_carry_forward
answer fl max_age Request.tax_get_latest_minus_by_year now = answer_tax_minus
answer fl max_age Request.movements_get_latest now = answer_movements
answer fl max_age Request.movements_get_dividends now = answer_dividends fl
answer fl max_age Request.portfolio_get_latest_snapshot_summary now = answer_summary
answer fl max_age Request.portfolio_get_latest_full_snapshot now = answer_full_snapshot
answer fl max_age Request.portfolio_get_latest_shareable_report now = answer_shareable_report fl
answer fl max_age (Request.portfolio_get_history p) now = answer_history p
answer fl max_age Request.portfolio_get_allocation_history now = answer_allocation_history
answer fl max_age (Request.portfolio_get_position_history p) now = answer_position_history p
answer fl max_age (Request.market_get_zero_commission_etfs p) now =
    fail (invalid_request "Command not yet supported.")

unfoldable pub handle_query :
    Floats → FreshnessMaxAge → Policy → Request → ℤ → RefreshM ResponseBody
handle_query fl max_age policy request now =
    if not (allows policy owner_auth_id (required_capability request))
    then fail (invalid_request "the configured policy does not permit this command.")
    else answer fl max_age request now
