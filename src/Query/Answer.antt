-- ===== src/Query/Answer.antt =====
-- crates/fineco-query/src/lib.rs: the dividends answer. `euros_of` stands for the division of cents by
-- 100 to an `f64`.
use mathlib.Core.Option
use fineco_helper.Base.Int.{ℤ, pos, ◌+ℤ◌, ◌-ℤ◌}
use fineco_helper.Store.Rows.{F64}
use fineco_helper.Ipc.Answers.{DividendsDto, DividendEventDto, DividendTotalsDto}
use fineco_helper.Base.{[], ◌∷◌, none, some, suc, ℕ, List, Option, or_else, ◌>>=◌, pure, map}
use fineco_helper.Query.Dividends.{DividendEvent, kind_name, unpaired_name, pair_dividends}
use fineco_helper.Refresh.Preflight.{RefreshM, or_internal}
use fineco_helper.Store.Movements.{latest_movements}
use fineco_helper.Store.Freshness.{latest_capture_at}

pub record Totals : Type 0 where
  pub gross_cents : ℤ
  pub withholding_cents : ℤ
  pub events_excluded : ℕ

-- One step of the fold over the events.
unfoldable pub add_event : Totals → DividendEvent → Totals
add_event t e = elim e.net_cents [
  | none ↦ record t { events_excluded = suc t.events_excluded }
  | some net ↦ record t {
    gross_cents = t.gross_cents +ℤ or_else e.gross_cents (pos 0);
    withholding_cents = t.withholding_cents +ℤ or_else e.withholding_cents (pos 0);
  }
]

unfoldable pub totals_from : Totals → List DividendEvent → Totals
totals_from t [] = t
totals_from t (e ∷ es) = totals_from (add_event t e) es

unfoldable pub totals_of : List DividendEvent → Totals
totals_of es =
    totals_from (record { gross_cents = pos 0; withholding_cents = pos 0; events_excluded = 0 }) es

-- `gross_cents - withholding_cents`
abbrev pub net_total : Totals → ℤ
net_total t = t.gross_cents -ℤ t.withholding_cents

module _ (euros_of : ℤ → F64) (cents_of : F64 → Option ℤ) where
  unfoldable pub totals_dto : Totals → DividendTotalsDto
  totals_dto t = record {
    gross = euros_of t.gross_cents;
    withholding = euros_of t.withholding_cents;
    net = euros_of (net_total t);
    events_excluded = t.events_excluded;
  }

  unfoldable pub event_dto : DividendEvent → DividendEventDto
  event_dto e = record {
    pay_date = e.pay_date;
    security = e.security;
    kind = kind_name e.kind;
    gross = Option.map euros_of e.gross_cents;
    withholding = Option.map euros_of e.withholding_cents;
    net = Option.map euros_of e.net_cents;
    unpaired = Option.map unpaired_name e.unpaired;
  }

  unfoldable pub latest_dividends : RefreshM DividendsDto
  latest_dividends = do
    rows ← or_internal latest_movements
    captured ← or_internal (latest_capture_at "movements")
    pure (record {
      captured_at = captured;
      totals = totals_dto (totals_of (pair_dividends cents_of rows));
      events = map event_dto (pair_dividends cents_of rows);
    })
