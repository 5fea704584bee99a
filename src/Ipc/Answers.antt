-- ===== src/Ipc/Answers.antt =====
-- crates/fineco-ipc/src/lib.rs: the answers to cached reads. Text is code points, a name is a string; an `f64` is its bits.
use fineco_helper.Store.Rows.{F64}
use fineco_helper.Base.{Text, List, Option, ℕ, String}
use fineco_helper.Base.Int.{ℤ}

pub record PortfolioHistoryPointDto : Type 0 where
  pub captured_at : Text
  pub market_value : Option F64
  pub book_value : Option F64
  pub profit_loss : Option F64
  pub profit_loss_perc : Option F64

pub record PortfolioHistoryDto : Type 0 where
  pub points : List PortfolioHistoryPointDto

pub record AllocationPointDto : Type 0 where
  pub captured_at : Text
  pub instr_id : Text
  pub venue_system : Text
  pub symbol : Option String
  pub weight_perc : Option F64

pub record AllocationHistoryDto : Type 0 where
  pub points : List AllocationPointDto

pub record PositionHistoryPointDto : Type 0 where
  pub captured_at : Text
  pub weight_perc : Option F64
  pub profit_loss_perc : Option F64
  pub market_value : Option F64

pub record PositionHistoryDto : Type 0 where
  pub points : List PositionHistoryPointDto

pub record PortfolioSummaryDto : Type 0 where
  pub captured_at : Option Text
  pub source : Option String
  pub market_value : Option F64
  pub book_value : Option F64
  pub profit_loss : Option F64
  pub profit_loss_perc : Option F64

pub record PositionDto : Type 0 where
  pub instr_id : Text
  pub venue_system : Text
  pub symbol : Option String
  pub qty : Option F64
  pub avg_price : Option F64
  pub market_price : Option F64
  pub book_value : Option F64
  pub market_value : Option F64
  pub profit_loss : Option F64
  pub profit_loss_perc : Option F64
  pub weight_perc : Option F64

pub record FullSnapshotDto : Type 0 where
  pub summary : PortfolioSummaryDto
  pub positions : List PositionDto

pub record ShareableRowDto : Type 0 where
  pub description : String
  pub symbol : String
  pub instr_id : Text
  pub venue_system : Text
  pub kind : String
  pub currency : String
  pub weight_perc : Option F64
  pub profit_loss_perc : Option F64

pub record ShareableReportDto : Type 0 where
  pub captured_at : Option Text
  pub rows : List ShareableRowDto

pub record OrderDto : Type 0 where
  pub trans_id_hash : Text
  pub instr_id : Text
  pub venue_system : Text
  pub status : Option String
  pub sign : Option String
  pub order_size : Option F64
  pub size_filled : Option F64
  pub avg_price : Option F64
  pub submit_time : Option String

pub record OrdersDto : Type 0 where
  pub captured_at : Option Text
  pub orders : List OrderDto

pub record TaxCarryForwardDto : Type 0 where
  pub date_from : Text
  pub date_to : Text
  pub total : Option F64

pub record TaxCarryForwardListDto : Type 0 where
  pub captured_at : Option Text
  pub entries : List TaxCarryForwardDto

pub record TaxMinusDto : Type 0 where
  pub year : ℤ
  pub minus_residue : Option F64
  pub expiration_date : Option String

pub record TaxMinusListDto : Type 0 where
  pub captured_at : Option Text
  pub entries : List TaxMinusDto

pub record MovementsAccountSummaryDto : Type 0 where
  pub balance_at_movement : Option F64
  pub balance_at_search_date : Option F64
  pub current_month_credit_spending : Option F64
  pub current_month_debit_spending : Option F64

pub record MovementDto : Type 0 where
  pub movement_id_hash : Text
  pub causale : Option String
  pub descrizione : Option Text
  pub descrizione_breve : Option String
  pub importo : Option F64
  pub tipo_movimento : Option String
  pub data_operazione : Option Text
  pub data_registrazione : Option Text
  pub data_valuta : Option Text
  pub causale_movimento : Option Text
  pub categoria_id : Option Text
  pub sottocategoria_id : Option Text
  pub categoria_name : Option Text
  pub sottocategoria_name : Option Text

pub record MovementsDto : Type 0 where
  pub captured_at : Option Text
  pub account_summary : Option MovementsAccountSummaryDto
  pub movements : List MovementDto

pub record DividendTotalsDto : Type 0 where
  pub gross : F64
  pub withholding : F64
  pub net : F64
  pub events_excluded : ℕ

pub record DividendEventDto : Type 0 where
  pub pay_date : Option Text
  pub security : Option Text
  pub kind : String
  pub gross : Option F64
  pub withholding : Option F64
  pub net : Option F64
  pub unpaired : Option String

pub record DividendsDto : Type 0 where
  pub captured_at : Option Text
  pub totals : DividendTotalsDto
  pub events : List DividendEventDto

pub record FreshnessDto : Type 0 where
  pub state : String
  pub captured_at : Option Text

pub record FreshnessReportDto : Type 0 where
  pub portfolio : FreshnessDto
  pub orders : FreshnessDto
  pub tax : FreshnessDto
  pub movements : FreshnessDto
