-- ===== src/Ipc/Refresh.antt =====
-- crates/fineco-ipc/src/lib.rs: the requests of a live refresh. An instrument kind is a string, and dates
-- are bytes.
use fineco_helper.Core.SafeError.{SafeError}
use fineco_helper.Ipc.Capability.{Capability}
use fineco_helper.Base.{ok, ℕ, String, Text, Result, Option}
use fineco_helper.Core.Validate.{
  validate_order_request, validate_tax_range, validate_movements_request,
}

pub record MovementsRefreshParams : Type 0 where
  pub days : ℕ

pub record OrdersRefreshParams : Type 0 where
  pub instrument_kind : String
  pub days : ℕ

pub record TaxRefreshParams : Type 0 where
  pub date_from : Text
  pub date_to : Text

pub data RefreshRequest : Type 0 where
  portfolio_refresh_live : RefreshRequest
  orders_refresh_live : OrdersRefreshParams → RefreshRequest
  tax_refresh_live : TaxRefreshParams → RefreshRequest
  movements_refresh_live : MovementsRefreshParams → RefreshRequest

unfoldable pub refresh_capability : RefreshRequest → Capability
refresh_capability portfolio_refresh_live = Capability.portfolio_live_refresh
refresh_capability (orders_refresh_live p) = Capability.orders_live_refresh
refresh_capability (tax_refresh_live p) = Capability.tax_live_refresh
refresh_capability (movements_refresh_live p) = Capability.movements_live_refresh

unfoldable pub refresh_audit_tool : RefreshRequest → String
refresh_audit_tool portfolio_refresh_live = "private_portfolio_refresh_live_sensitive"
refresh_audit_tool (orders_refresh_live p) = "private_orders_refresh_live_sensitive"
refresh_audit_tool (tax_refresh_live p) = "private_tax_refresh_live_sensitive"
refresh_audit_tool (movements_refresh_live p) = "private_movements_refresh_live_sensitive"

unfoldable pub data_area : RefreshRequest → String
data_area portfolio_refresh_live = "portfolio"
data_area (orders_refresh_live p) = "orders"
data_area (tax_refresh_live p) = "tax"
data_area (movements_refresh_live p) = "movements"

unfoldable pub validate_refresh : RefreshRequest → Result SafeError (Unit {0})
validate_refresh portfolio_refresh_live = ok tt
validate_refresh (orders_refresh_live p) = validate_order_request p.instrument_kind p.days
validate_refresh (tax_refresh_live p) = validate_tax_range p.date_from p.date_to
validate_refresh (movements_refresh_live p) = validate_movements_request p.days

pub record RefreshOutcome : Type 0 where
  pub data_area : String
  pub captured_at : Text
  pub snapshot_id : Option ℕ
  pub count : ℕ
