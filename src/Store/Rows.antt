-- ===== src/Store/Rows.antt =====
-- crates/fineco-store/src: the rows of the tables, and the values that captures take. An `f64` is
-- carried as its 64 bits, and no operation here looks into one. Keys and hashes are strings;
-- timestamps are lists of bytes, for they are parsed and ordered.
use fineco_helper.Base.{ℕ, Option, List, Text, String, Bool, is_some, not, ◌&&◌}
use fineco_helper.Base.Int.{ℤ}

abbrev pub F64 : Type 0
F64 = ℕ

-- The text of a job's status; `other` is any text but those of the three that the code writes.
pub data Status : Type 0 where
  running completed failed : Status
  other : String → Status

pub data JobOutcome : Type 0 where
  completed failed : JobOutcome

-- `JobOutcome::as_str`
abbrev pub outcome_status : JobOutcome → Status
outcome_status JobOutcome.completed = Status.completed
outcome_status JobOutcome.failed = Status.failed

pub record JobRunRow : Type 0 where
  pub id : ℕ
  pub auth_id : String
  pub data_area : String
  pub started_at : Text
  pub finished_at : Option Text
  pub status : Status
  pub safe_error_code : Option String

pub record NewAsset : Type 0 where
  pub instr_id : Text
  pub venue_system : Text
  pub symbol : Option String
  pub description : Option String
  pub kind : Option String
  pub currency : Option String

pub record NewPosition : Type 0 where
  pub asset : NewAsset
  pub position_key_hash : Option String
  pub qty : Option F64
  pub avg_price : Option F64
  pub market_price : Option F64
  pub book_value : Option F64
  pub market_value : Option F64
  pub profit_loss : Option F64
  pub profit_loss_perc : Option F64
  pub weight_perc : Option F64

pub record NewFxRate : Type 0 where
  pub currency : String
  pub rate_to_eur : F64

pub record NewPortfolioSnapshot : Type 0 where
  pub captured_at : Text
  pub source : String
  pub market_value : Option F64
  pub book_value : Option F64
  pub profit_loss : Option F64
  pub profit_loss_perc : Option F64
  pub positions : List NewPosition
  pub fx_rates : List NewFxRate

pub record PortfolioSnapshotRow : Type 0 where
  pub id : ℕ
  pub captured_at : Text
  pub source : String
  pub market_value : Option F64
  pub book_value : Option F64
  pub profit_loss : Option F64
  pub profit_loss_perc : Option F64

pub record NewOrder : Type 0 where
  pub trans_id_hash : Text
  pub asset : NewAsset
  pub status : Option String
  pub sign : Option String
  pub order_size : Option F64
  pub size_filled : Option F64
  pub avg_price : Option F64
  pub submit_time : Option String

pub record NewTaxCarryForward : Type 0 where
  pub date_from : Text
  pub date_to : Text
  pub total : Option F64

pub record NewTaxMinusByYear : Type 0 where
  pub year : ℤ
  pub minus_residue : Option F64
  pub expiration_date : Option String

pub record NewMovement : Type 0 where
  pub movement_id_hash : Text
  pub causale : Option String
  pub descrizione : Option Text
  pub descrizione_breve : Option String
  pub importo : Option F64
  pub tipo_movimento : Option String
  pub data_operazione : Option Text
  pub data_registrazione : Option Text
  pub data_valuta : Option Text
  pub causale_movimento : Option Text
  pub categoria_id : Option Text
  pub sottocategoria_id : Option Text

pub record MovementsSummary : Type 0 where
  pub balance_at_movement : Option F64
  pub balance_at_search_date : Option F64
  pub current_month_credit_spending : Option F64
  pub current_month_debit_spending : Option F64

pub record MoneyMapCategory : Type 0 where
  pub category_id : Text
  pub subcategory_id : Option Text
  pub name : Option Text
  pub flag_spesa_ricavo : Option Text

-- `MovementsSummary::is_empty`
unfoldable pub is_empty : MovementsSummary → Bool
is_empty s =
    not (is_some s.balance_at_movement)
    && not (is_some s.balance_at_search_date)
    && not (is_some s.current_month_credit_spending)
    && not (is_some s.current_month_debit_spending)

-- Rows that reads return.
pub record PositionRow : Type 0 where
  pub asset_instr_id : Text
  pub asset_venue_system : Text
  pub symbol : Option String
  pub qty : Option F64
  pub avg_price : Option F64
  pub market_price : Option F64
  pub book_value : Option F64
  pub market_value : Option F64
  pub profit_loss : Option F64
  pub profit_loss_perc : Option F64
  pub weight_perc : Option F64
  pub position_key_hash : Option String

pub record OrderRow : Type 0 where
  pub captured_at : Text
  pub trans_id_hash : Text
  pub asset_instr_id : Text
  pub asset_venue_system : Text
  pub status : Option String
  pub sign : Option String
  pub order_size : Option F64
  pub size_filled : Option F64
  pub avg_price : Option F64
  pub submit_time : Option String

pub record TaxCarryForwardRow : Type 0 where
  pub captured_at : Text
  pub date_from : Text
  pub date_to : Text
  pub total : Option F64

pub record TaxMinusByYearRow : Type 0 where
  pub captured_at : Text
  pub year : ℤ
  pub minus_residue : Option F64
  pub expiration_date : Option String
