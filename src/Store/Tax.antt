-- ===== src/Store/Tax.antt =====
-- crates/fineco-store/src/tax.rs: tax captures.
use fineco_helper.Store.Rows.{
  NewTaxCarryForward, NewTaxMinusByYear, TaxCarryForwardRow, TaxMinusByYearRow,
}
use fineco_helper.Base.{Text, Bool, text_eq, List, text_lt, ◌&&◌, map_ok, ◌||◌, map, keep, ◌>>◌}
use fineco_helper.Store.Db.{Captured, StoreM, Statement, transaction, query, execute}
use fineco_helper.Store.Captures.{insert_row, is_latest, latest_mark, for_each, mark_capture}
use fineco_helper.Store.Jobs.{sort_by}
use fineco_helper.Base.Int.{eqb_ℤ, ltb_ℤ}

abbrev is_carry_forward : Text → NewTaxCarryForward → Captured NewTaxCarryForward → Bool
is_carry_forward at cf row =
    text_eq row.captured_at at
    && text_eq row.value.date_from cf.date_from
    && text_eq row.value.date_to cf.date_to

-- INSERT INTO tax_carry_forward
unfoldable pub insert_carry_forward : Text → NewTaxCarryForward → Statement (Unit {0})
insert_carry_forward at cf t =
    map_ok (λ rows. (tt, record t { tax_carry_forward = rows }))
      (insert_row (is_carry_forward at cf) (record { captured_at = at; value = cf })
        t.tax_carry_forward)

abbrev is_year : Text → NewTaxMinusByYear → Captured NewTaxMinusByYear → Bool
is_year at my row = text_eq row.captured_at at && eqb_ℤ row.value.year my.year

-- INSERT INTO tax_minus_by_year
unfoldable pub insert_minus : Text → NewTaxMinusByYear → Statement (Unit {0})
insert_minus at my t =
    map_ok (λ rows. (tt, record t { tax_minus_by_year = rows }))
      (insert_row (is_year at my) (record { captured_at = at; value = my }) t.tax_minus_by_year)

-- The statements of the transaction.
unfoldable pub write_tax :
    Text → List NewTaxCarryForward → List NewTaxMinusByYear → StoreM (Unit {0})
write_tax at carry_forward minus_by_year = do
  for_each (λ cf. execute (insert_carry_forward at cf)) carry_forward
  for_each (λ my. execute (insert_minus at my)) minus_by_year
  execute (mark_capture "tax" at)

unfoldable pub capture_tax :
    Text → List NewTaxCarryForward → List NewTaxMinusByYear → StoreM (Unit {0})
capture_tax at carry_forward minus_by_year = transaction (write_tax at carry_forward minus_by_year)

abbrev carry_forward_row : Captured NewTaxCarryForward → TaxCarryForwardRow
carry_forward_row c = record {
  captured_at = c.captured_at;
  date_from = c.value.date_from;
  date_to = c.value.date_to;
  total = c.value.total;
}

-- ORDER BY date_from, date_to
abbrev range_before : TaxCarryForwardRow → TaxCarryForwardRow → Bool
range_before a b =
    text_lt a.date_from b.date_from
    || (text_eq a.date_from b.date_from && text_lt a.date_to b.date_to)

unfoldable pub latest_tax_carry_forward : StoreM (List TaxCarryForwardRow)
latest_tax_carry_forward = query (λ t. sort_by range_before (
    map carry_forward_row (
      keep (λ c. is_latest (latest_mark "tax" t.data_captures) c.captured_at) t.tax_carry_forward)))

abbrev minus_row : Captured NewTaxMinusByYear → TaxMinusByYearRow
minus_row c = record {
  captured_at = c.captured_at;
  year = c.value.year;
  minus_residue = c.value.minus_residue;
  expiration_date = c.value.expiration_date;
}

abbrev year_before : TaxMinusByYearRow → TaxMinusByYearRow → Bool
year_before a b = ltb_ℤ a.year b.year

unfoldable pub latest_tax_minus_by_year : StoreM (List TaxMinusByYearRow)
latest_tax_minus_by_year = query (λ t. sort_by year_before (
    map minus_row (
      keep (λ c. is_latest (latest_mark "tax" t.data_captures) c.captured_at) t.tax_minus_by_year)))
