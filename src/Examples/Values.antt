-- ===== src/Examples/Values.antt =====
-- The theorems about texts, requests, reports and dividends at concrete inputs.
use fineco_helper.Base.Int.{pos}
use fineco_helper.Base.{
  codes, [], ◌∷◌, some, false, ok, refl, All, List, ◌≡◌, ◌↔◌, ◌++◌, ◌⊎◌, length, ◌≤◌, String, count,
  none, ℕ, Option, arith, true,
}
use fineco_helper.Core.Validate.{validate_order_request}
use fineco_helper.Store.Report.Reads.{
  read_cell, read_cell-csv_text_cell, neutralize_formula_safe, is_risky,
}
use fineco_helper.Store.Report.{csv_text_cell, neutralize_formula}
use fineco_helper.Query.Answer.{net_total, totals_of}
use fineco_helper.Core.Text.Clean.{IsClean, sanitize_text-IsClean}
use fineco_helper.Store.Movements.{MovementRow}
use fineco_helper.Core.Text.{sanitize_text}
use fineco_helper.Samples.{gross_movement}
use fineco_helper.Query.Dividends.{pair_dividends}
use fineco_helper.Core.Validate.Bounds.{validate_order_request_ok}
use fineco_helper.Query.Dividends.Totals.{sum_of_nets, has_no_net, totals_of-pair_dividends}
use fineco_helper.Ipc.Frame.{Bytes, write_message, read_message}
use fineco_helper.Ipc.Frame.Messages.{write_message-read_message}

sanitize_text-IsClean_example :
    All IsClean (sanitize_text (10 ∷ codes "a b"))
    × (length (sanitize_text (10 ∷ codes "a b")) ≤ 2000)
sanitize_text-IsClean_example = sanitize_text-IsClean (10 ∷ codes "a b")

abbrev equity : String
equity = "equity"

validate_order_request_ok_example :
    (validate_order_request equity 30 ≡ ok tt)
    ↔ ((30 ≤ 30) × ((equity ≡ "equity") ⊎ (equity ≡ "fundpac")))
validate_order_request_ok_example = validate_order_request_ok equity 30

read_cell-csv_text_cell_example :
    read_cell (csv_text_cell (codes "=a,b") ++ codes ",c")
    ≡ (neutralize_formula (codes "=a,b"), codes ",c")
read_cell-csv_text_cell_example = read_cell-csv_text_cell (codes "=a,b") (codes ",c") refl

neutralize_formula_safe_example :
    (is_risky (neutralize_formula (codes "@SUM")) ≡ false)
    × ((neutralize_formula (codes "@SUM") ≡ codes "@SUM")
        ⊎ ((is_risky (codes "@SUM") ≡ true)
            × (neutralize_formula (codes "@SUM") ≡ 39 ∷ codes "@SUM")))
neutralize_formula_safe_example = neutralize_formula_safe (codes "@SUM")

abbrev one_leg : List MovementRow
one_leg = record { captured_at = codes "2026-01-02T00:00:00Z"; value = gross_movement } ∷ []

totals_of-pair_dividends_example :
    (net_total (totals_of (pair_dividends (λ x. some (pos x)) one_leg))
      ≡ sum_of_nets (pair_dividends (λ x. some (pos x)) one_leg))
    × ((totals_of (pair_dividends (λ x. some (pos x)) one_leg)).events_excluded
        ≡ count has_no_net (pair_dividends (λ x. some (pos x)) one_leg))
totals_of-pair_dividends_example = totals_of-pair_dividends (λ x. some (pos x)) one_leg

abbrev one_byte : ℕ → Option Bytes
one_byte n = some (n ∷ [])

abbrev the_byte : Bytes → Option ℕ
the_byte [] = none
the_byte (n ∷ ns) = some n

write_message-read_message_example :
    let (r, w) = write_message one_byte 7 (record { sent = []; room = 64 }) in
    (r ≡ ok tt) × (read_message the_byte (w.sent ++ 1 ∷ []) ≡ (ok 7, 1 ∷ []))
write_message-read_message_example =
    write_message-read_message one_byte the_byte 7 (7 ∷ []) (1 ∷ []) 64 refl refl (omega arith)
      (omega arith)
