-- ===== src/Ipc/Request.antt =====
-- crates/fineco-ipc/src/lib.rs: the commands of the cached reads. Text is code points.
use fineco_helper.Core.SafeError.{SafeError}
use fineco_helper.Ipc.Capability.{Capability}
use fineco_helper.Base.{
  [], ◌∷◌, none, some, true, false, ok, err, ℕ, Text, Option, String, Result, if◌then◌else◌, Bool,
  and_then, ltb, ◌==◌, ◌||◌, length,
}
use fineco_helper.Core.Validate.{invalid_request}

abbrev max_param_len : ℕ
max_param_len = 256

abbrev max_history_limit : ℕ
max_history_limit = 1000

pub record HistoryParams : Type 0 where
  pub limit : ℕ

pub record PositionHistoryParams : Type 0 where
  pub instr_id : Text
  pub venue_system : Text

pub record MarketEtfsParams : Type 0 where
  pub query : Option Text

pub data Request : Type 0 where
  portfolio_get_freshness : Request
  portfolio_get_latest_snapshot_summary : Request
  portfolio_get_latest_full_snapshot : Request
  portfolio_get_latest_shareable_report : Request
  orders_get_latest_monitor : Request
  tax_get_latest_carry_forward : Request
  tax_get_latest_minus_by_year : Request
  portfolio_get_history : HistoryParams → Request
  portfolio_get_allocation_history : Request
  portfolio_get_position_history : PositionHistoryParams → Request
  market_get_zero_commission_etfs : MarketEtfsParams → Request
  movements_get_latest : Request
  movements_get_dividends : Request

unfoldable pub required_capability : Request → Capability
required_capability Request.portfolio_get_freshness = Capability.portfolio_shareable_read
required_capability Request.portfolio_get_latest_shareable_report =
    Capability.portfolio_shareable_read
required_capability Request.portfolio_get_allocation_history = Capability.portfolio_shareable_read
required_capability Request.portfolio_get_latest_snapshot_summary =
    Capability.portfolio_cached_full_read
required_capability Request.portfolio_get_latest_full_snapshot =
    Capability.portfolio_cached_full_read
required_capability (Request.portfolio_get_history p) = Capability.portfolio_cached_full_read
required_capability (Request.portfolio_get_position_history p) =
    Capability.portfolio_cached_full_read
required_capability Request.orders_get_latest_monitor = Capability.orders_cached_read
required_capability Request.tax_get_latest_carry_forward = Capability.tax_cached_read
required_capability Request.tax_get_latest_minus_by_year = Capability.tax_cached_read
required_capability (Request.market_get_zero_commission_etfs p) = Capability.market_read
required_capability Request.movements_get_latest = Capability.movements_cached_read
required_capability Request.movements_get_dividends = Capability.movements_cached_read

unfoldable pub audit_tool : Request → String
audit_tool Request.portfolio_get_freshness = "portfolio_get_freshness"
audit_tool Request.portfolio_get_latest_snapshot_summary = "portfolio_get_latest_snapshot_summary"
audit_tool Request.portfolio_get_latest_full_snapshot = "portfolio_get_latest_full_snapshot"
audit_tool Request.portfolio_get_latest_shareable_report = "portfolio_get_latest_shareable_report"
audit_tool Request.orders_get_latest_monitor = "orders_get_latest_monitor"
audit_tool Request.tax_get_latest_carry_forward = "tax_get_latest_carry_forward"
audit_tool Request.tax_get_latest_minus_by_year = "tax_get_latest_minus_by_year"
audit_tool (Request.portfolio_get_history p) = "portfolio_get_history"
audit_tool Request.portfolio_get_allocation_history = "portfolio_get_allocation_history"
audit_tool (Request.portfolio_get_position_history p) = "portfolio_get_position_history"
audit_tool (Request.market_get_zero_commission_etfs p) = "market_get_zero_commission_etfs"
audit_tool Request.movements_get_latest = "movements_get_latest"
audit_tool Request.movements_get_dividends = "movements_get_dividends"

check_length : Text → Result SafeError (Unit {0})
check_length s =
    if ltb max_param_len (length s)
    then err (invalid_request "A request field is too long.")
    else ok tt

check_query : Option Text → Result SafeError (Unit {0})
unfolding check_length
check_query none = ok tt
check_query (some query) = check_length query

abbrev is_blank_text : Text → Bool
is_blank_text [] = true
is_blank_text (c ∷ cs) = false

check_history : HistoryParams → Result SafeError (Unit {0})
check_history p =
    if p.limit == 0 || ltb max_history_limit p.limit
    then err (invalid_request "limit must be 1..=1000.")
    else ok tt

check_position : PositionHistoryParams → Result SafeError (Unit {0})
unfolding check_length
check_position p = and_then (check_length p.instr_id) (λ _.
    and_then (check_length p.venue_system) (λ _.
      if is_blank_text p.instr_id || is_blank_text p.venue_system
      then err (invalid_request "instr_id and venue_system must not be empty.")
      else ok tt))

unfoldable pub validate_bounds : Request → Result SafeError (Unit {0})
unfolding check_query check_history check_position
validate_bounds (Request.market_get_zero_commission_etfs p) = check_query p.query
validate_bounds (Request.portfolio_get_history p) = check_history p
validate_bounds (Request.portfolio_get_position_history p) = check_position p
validate_bounds _ = ok tt
