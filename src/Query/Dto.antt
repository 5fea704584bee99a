-- ===== src/Query/Dto.antt =====
-- crates/fineco-query/src/lib.rs: the rows of the store as the values of answers, and the answers of
-- crates/fineco-ipc/src/lib.rs.

use fineco_helper.Store.Rows.{
  OrderRow, TaxCarryForwardRow, TaxMinusByYearRow, PositionRow, PortfolioSnapshotRow,
  MovementsSummary,
}
use fineco_helper.Store.History.{AllocationPoint, PositionHistoryPoint, ShareableRow}
use fineco_helper.Ipc.Answers.{
  OrderDto, OrdersDto, TaxCarryForwardDto, TaxCarryForwardListDto, TaxMinusDto, TaxMinusListDto,
  MovementDto, MovementsDto, MovementsAccountSummaryDto, DividendsDto, PortfolioSummaryDto,
  PositionDto, FullSnapshotDto, ShareableRowDto, ShareableReportDto, PortfolioHistoryPointDto,
  PortfolioHistoryDto, AllocationPointDto, AllocationHistoryDto, PositionHistoryPointDto,
  PositionHistoryDto, FreshnessReportDto,
}
use fineco_helper.Base.{none, some, Option, ℕ, Text, length}
use fineco_helper.Store.Categories.{CategoryLookup, category_name, subcategory_name}
use fineco_helper.Store.Movements.{MovementRow}

pub data ResponseBody : Type 0 where
  freshness_body : FreshnessReportDto → ResponseBody
  orders_body : OrdersDto → ResponseBody
  tax_carry_forward_body : TaxCarryForwardListDto → ResponseBody
  tax_minus_body : TaxMinusListDto → ResponseBody
  portfolio_summary_body : PortfolioSummaryDto → ResponseBody
  portfolio_full_snapshot_body : FullSnapshotDto → ResponseBody
  portfolio_shareable_report_body : ShareableReportDto → ResponseBody
  portfolio_history_body : PortfolioHistoryDto → ResponseBody
  allocation_history_body : AllocationHistoryDto → ResponseBody
  position_history_body : PositionHistoryDto → ResponseBody
  movements_body : MovementsDto → ResponseBody
  dividends_body : DividendsDto → ResponseBody

-- `ResponseBody::audit_count`
unfoldable pub audit_count : ResponseBody → Option ℕ
audit_count (ResponseBody.freshness_body dto) = none
audit_count (ResponseBody.portfolio_summary_body dto) = none
audit_count (ResponseBody.orders_body dto) = some (length dto.orders)
audit_count (ResponseBody.tax_carry_forward_body dto) = some (length dto.entries)
audit_count (ResponseBody.tax_minus_body dto) = some (length dto.entries)
audit_count (ResponseBody.portfolio_full_snapshot_body dto) = some (length dto.positions)
audit_count (ResponseBody.portfolio_shareable_report_body dto) = some (length dto.rows)
audit_count (ResponseBody.portfolio_history_body dto) = some (length dto.points)
audit_count (ResponseBody.allocation_history_body dto) = some (length dto.points)
audit_count (ResponseBody.position_history_body dto) = some (length dto.points)
audit_count (ResponseBody.movements_body dto) = some (length dto.movements)
audit_count (ResponseBody.dividends_body dto) = some (length dto.events)

abbrev pub order_dto : OrderRow → OrderDto
order_dto row = record {
  trans_id_hash = row.trans_id_hash;
  instr_id = row.asset_instr_id;
  venue_system = row.asset_venue_system;
  status = row.status;
  sign = row.sign;
  order_size = row.order_size;
  size_filled = row.size_filled;
  avg_price = row.avg_price;
  submit_time = row.submit_time;
}

abbrev pub carry_forward_dto : TaxCarryForwardRow → TaxCarryForwardDto
carry_forward_dto row = record {
  date_from = row.date_from;
  date_to = row.date_to;
  total = row.total;
}

abbrev pub minus_dto : TaxMinusByYearRow → TaxMinusDto
minus_dto row = record {
  year = row.year;
  minus_residue = row.minus_residue;
  expiration_date = row.expiration_date;
}

abbrev pub account_summary_dto : MovementsSummary → MovementsAccountSummaryDto
account_summary_dto s = record {
  balance_at_movement = s.balance_at_movement;
  balance_at_search_date = s.balance_at_search_date;
  current_month_credit_spending = s.current_month_credit_spending;
  current_month_debit_spending = s.current_month_debit_spending;
}

abbrev pub name_of : CategoryLookup → Option Text → Option Text
name_of taxonomy none = none
name_of taxonomy (some id) = category_name taxonomy id

-- A subcategory's name is that under its own category.
abbrev pub subname_of : CategoryLookup → Option Text → Option Text → Option Text
subname_of taxonomy none sub = none
subname_of taxonomy (some cat) none = none
subname_of taxonomy (some cat) (some sub) = subcategory_name taxonomy cat sub

unfoldable pub movement_dto : CategoryLookup → MovementRow → MovementDto
movement_dto taxonomy row = record {
  movement_id_hash = row.value.movement_id_hash;
  causale = row.value.causale;
  descrizione = row.value.descrizione;
  descrizione_breve = row.value.descrizione_breve;
  importo = row.value.importo;
  tipo_movimento = row.value.tipo_movimento;
  data_operazione = row.value.data_operazione;
  data_registrazione = row.value.data_registrazione;
  data_valuta = row.value.data_valuta;
  causale_movimento = row.value.causale_movimento;
  categoria_id = row.value.categoria_id;
  sottocategoria_id = row.value.sottocategoria_id;
  categoria_name = name_of taxonomy row.value.categoria_id;
  sottocategoria_name = subname_of taxonomy row.value.categoria_id row.value.sottocategoria_id;
}

unfoldable pub summary_dto : Option PortfolioSnapshotRow → PortfolioSummaryDto
summary_dto none = record {
  captured_at = none;
  source = none;
  market_value = none;
  book_value = none;
  profit_loss = none;
  profit_loss_perc = none;
}
summary_dto (some row) = record {
  captured_at = some row.captured_at;
  source = some row.source;
  market_value = row.market_value;
  book_value = row.book_value;
  profit_loss = row.profit_loss;
  profit_loss_perc = row.profit_loss_perc;
}

abbrev pub position_dto : PositionRow → PositionDto
position_dto row = record {
  instr_id = row.asset_instr_id;
  venue_system = row.asset_venue_system;
  symbol = row.symbol;
  qty = row.qty;
  avg_price = row.avg_price;
  market_price = row.market_price;
  book_value = row.book_value;
  market_value = row.market_value;
  profit_loss = row.profit_loss;
  profit_loss_perc = row.profit_loss_perc;
  weight_perc = row.weight_perc;
}

abbrev pub history_point_dto : PortfolioSnapshotRow → PortfolioHistoryPointDto
history_point_dto row = record {
  captured_at = row.captured_at;
  market_value = row.market_value;
  book_value = row.book_value;
  profit_loss = row.profit_loss;
  profit_loss_perc = row.profit_loss_perc;
}

abbrev pub allocation_point_dto : AllocationPoint → AllocationPointDto
allocation_point_dto p = record {
  captured_at = p.captured_at;
  instr_id = p.instr_id;
  venue_system = p.venue_system;
  symbol = p.symbol;
  weight_perc = p.weight_perc;
}

abbrev pub position_history_point_dto : PositionHistoryPoint → PositionHistoryPointDto
position_history_point_dto p = record {
  captured_at = p.captured_at;
  weight_perc = p.weight_perc;
  profit_loss_perc = p.profit_loss_perc;
  market_value = p.market_value;
}

abbrev pub shareable_row_dto : ShareableRow → ShareableRowDto
shareable_row_dto row = record {
  description = row.description;
  symbol = row.symbol;
  instr_id = row.instr_id;
  venue_system = row.venue_system;
  kind = row.kind;
  currency = row.currency;
  weight_perc = row.weight_perc;
  profit_loss_perc = row.profit_loss_perc;
}
