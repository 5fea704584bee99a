-- ===== src/Worker/Parse.antt =====
-- crates/fineco-worker/src/parse.rs: the answers of the private reads as rows of the store. The records
-- are what the JSON library reads; a missing field is `none` or an empty list. An `f64` is its bits:
-- `positive` says which are greater than 0, and `weight` is `value / total * 100.0`.

use fineco_helper.Base.Maybe.{◌>>=◌}
use fineco_helper.Base.{
  [], ◌∷◌, none, some, true, false, Option, Bool, or_else, Text, List, String, is_some,
  if◌then◌else◌, ◌||◌, map,
}
use fineco_helper.Store.Rows.{
  F64, NewPosition, NewPortfolioSnapshot, NewAsset, NewTaxCarryForward, NewTaxMinusByYear,
}
use fineco_helper.Base.Int.{ℤ}

pub record Totals : Type 0 where
  pub book_value : Option F64
  pub market_value : Option F64
  pub profit_loss : Option F64
  pub profit_loss_perc : Option F64

pub record SummarySection : Type 0 where
  pub show : Option Totals
  pub total : Option Totals

pub record RawPosition : Type 0 where
  pub instr_id : Option Text
  pub venue_system : Option Text
  pub symbol : Option String
  pub description : Option String
  pub kind : Option String
  pub currency_cd : Option String
  pub qty : Option F64
  pub avg_price : Option F64
  pub market_price : Option F64
  pub book_value : Option F64
  pub market_value : Option F64
  pub profit_loss : Option F64
  pub profit_loss_perc : Option F64

pub record PositionsSummaryResponse : Type 0 where
  pub summary : Option SummarySection
  pub positions : Option (List RawPosition)

unfoldable pub totals_have_data : Totals → Bool
totals_have_data t =
    is_some t.book_value
    || is_some t.market_value
    || is_some t.profit_loss
    || is_some t.profit_loss_perc

-- `show`, if it has data, or else `total`
unfoldable pub shown_totals : Option Totals → Option Totals → Option Totals
shown_totals none total = total
shown_totals (some show) total = if totals_have_data show then some show else total

abbrev no_totals : Totals
no_totals = record {
  book_value = none;
  market_value = none;
  profit_loss = none;
  profit_loss_perc = none;
}

unfoldable pub totals_of : PositionsSummaryResponse → Totals
totals_of resp = or_else (resp.summary >>= λ s. shown_totals s.show s.total) no_totals

abbrev non_empty : Text → Bool
non_empty [] = false
non_empty (c ∷ cs) = true

-- An identifier that is there and not empty.
abbrev pub identifier : Option Text → Option Text
identifier none = none
identifier (some s) = if non_empty s then some s else none

unfoldable pub to_position : RawPosition → Option NewPosition
to_position raw = do
  instr_id ← identifier raw.instr_id
  venue_system ← identifier raw.venue_system
  some (record {
    asset = record {
      instr_id = instr_id;
      venue_system = venue_system;
      symbol = raw.symbol;
      description = raw.description;
      kind = raw.kind;
      currency = raw.currency_cd;
    };
    position_key_hash = none;
    qty = raw.qty;
    avg_price = raw.avg_price;
    market_price = raw.market_price;
    book_value = raw.book_value;
    market_value = raw.market_value;
    profit_loss = raw.profit_loss;
    profit_loss_perc = raw.profit_loss_perc;
    weight_perc = none;
  })

abbrev pub add_some : {B : Type 0} → Option B → List B → List B
add_some none ys = ys
add_some (some y) ys = y ∷ ys

-- `filter_map(..).collect()`
abbrev pub filter_map : {A B : Type 0} → (A → Option B) → List A → List B
filter_map f [] = []
filter_map f (x ∷ xs) = add_some (f x) (filter_map f xs)

module _ (positive : F64 → Bool) (weight : F64 → F64 → F64) where
  unfoldable pub weighted : F64 → NewPosition → NewPosition
  weighted total position = elim position.market_value [
    | none ↦ position
    | some value ↦ record position { weight_perc = some (weight value total) }
  ]

  unfoldable pub weigh : Option F64 → List NewPosition → List NewPosition
  weigh none positions = positions
  weigh (some total) positions =
      if positive total then map (weighted total) positions else positions

  unfoldable pub to_snapshot : PositionsSummaryResponse → Text → NewPortfolioSnapshot
  to_snapshot resp captured_at =
      let totals = totals_of resp in
      record {
        captured_at = captured_at;
        source = "fineco";
        market_value = totals.market_value;
        book_value = totals.book_value;
        profit_loss = totals.profit_loss;
        profit_loss_perc = totals.profit_loss_perc;
        positions = weigh totals.market_value (filter_map to_position (or_else resp.positions []));
        fx_rates = [];
      }

pub record RawTransaction : Type 0 where
  pub trans_id : Option Text
  pub instr_id : Option Text
  pub venue_system : Option Text
  pub symbol : Option String
  pub description : Option String
  pub kind : Option String
  pub currency_cd : Option String
  pub status : Option String
  pub sign : Option String
  pub order_size : Option F64
  pub size_filled : Option F64
  pub avg_price : Option F64
  pub submit_time : Option String

pub record RawOrder : Type 0 where
  pub trans_id : Text
  pub asset : NewAsset
  pub status : Option String
  pub sign : Option String
  pub order_size : Option F64
  pub size_filled : Option F64
  pub avg_price : Option F64
  pub submit_time : Option String

unfoldable pub to_raw_order : RawTransaction → Option RawOrder
to_raw_order raw = do
  trans_id ← identifier raw.trans_id
  instr_id ← identifier raw.instr_id
  venue_system ← identifier raw.venue_system
  some (record {
    trans_id = trans_id;
    asset = record {
      instr_id = instr_id;
      venue_system = venue_system;
      symbol = raw.symbol;
      description = raw.description;
      kind = raw.kind;
      currency = raw.currency_cd;
    };
    status = raw.status;
    sign = raw.sign;
    order_size = raw.order_size;
    size_filled = raw.size_filled;
    avg_price = raw.avg_price;
    submit_time = raw.submit_time;
  })

unfoldable pub to_raw_orders : List RawTransaction → List RawOrder
to_raw_orders transactions = filter_map to_raw_order transactions

unfoldable pub to_tax_carry_forward : Option F64 → Text → Text → NewTaxCarryForward
to_tax_carry_forward total date_from date_to = record {
  date_from = date_from;
  date_to = date_to;
  total = total;
}

pub record RawMinus : Type 0 where
  pub year : Option ℤ
  pub minus_residue : Option F64
  pub expiration_date : Option String

unfoldable pub minus_of : RawMinus → Option NewTaxMinusByYear
minus_of raw = do
  year ← raw.year
  some (record {
    year = year;
    minus_residue = raw.minus_residue;
    expiration_date = raw.expiration_date;
  })

unfoldable pub to_tax_minus : List RawMinus → List NewTaxMinusByYear
to_tax_minus minuses = filter_map minus_of minuses
