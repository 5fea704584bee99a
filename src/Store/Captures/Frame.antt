-- ===== src/Store/Captures/Frame.antt =====
-- crates/fineco-store/src: a capture touches neither the job runs nor the tables of other captures.
use fineco_helper.Store.Db.{StoreM, Tables, Statement, execute}
use fineco_helper.Store.Db.Keeps.{
  Keeps, Keeps-pure, Keeps-bind, or_tables, Keeps-execute, Keeps-transaction,
}
use fineco_helper.Store.Captures.{for_each, mark_capture, upsert_asset, upsert, insert_row}
use fineco_helper.Base.{[], ◌∷◌, List, none, some, refl, ◌≡◌, String, Text, ℕ, arith, sym, Option}
use fineco_helper.Store.Orders.{insert_order, capture_orders, write_orders, capture_order}
use fineco_helper.Store.Tax.{insert_carry_forward, insert_minus, capture_tax, write_tax}
use fineco_helper.Store.Movements.{
  insert_movement, capture_movements, write_movements, write_summary, replace_summary,
}
use fineco_helper.Store.Categories.{replace_category, capture_categories, write_categories}
use fineco_helper.Store.Portfolio.{
  insert_position, upsert_rate, insert_snapshot, capture_portfolio_snapshot, write_snapshot,
  capture_position,
}
use fineco_helper.Store.Rows.{
  NewAsset, NewPortfolioSnapshot, NewOrder, NewTaxCarryForward, NewTaxMinusByYear, NewMovement,
  MoneyMapCategory, NewPosition, NewFxRate, MovementsSummary,
}

pub Keeps-for_each :
    {A : Type 0} {P : Tables → Type 0} (body : A → StoreM (Unit {0})) (xs : List A)
    → ((x : A) → Keeps P (body x))
    → Keeps P (for_each body xs)
unfolding for_each
Keeps-for_each body [] k = Keeps-pure tt
Keeps-for_each body (x ∷ xs) k = Keeps-bind _ _ (k x) (λ _. Keeps-for_each body xs k)

-- A property of the job runs alone.
pub record IsJobs (P : Tables → Type 0) : Type 0 where
  pub move : (t u : Tables) → t.job_runs ≡ u.job_runs → t.next_job_id ≡ u.next_job_id → P t → P u

module _ {P : Tables → Type 0} (j : IsJobs P) where
  pub Keeps-statement :
      {A : Type 0} (stmt : Statement A)
      → ((t : Tables) → (or_tables (stmt t) t).job_runs ≡ t.job_runs)
      → ((t : Tables) → (or_tables (stmt t) t).next_job_id ≡ t.next_job_id)
      → Keeps P (execute stmt)
  Keeps-statement stmt e f =
      Keeps-execute stmt (λ t h. j.move t (or_tables (stmt t) t) (sym (e t)) (sym (f t)) h)

  pub mark_capture-Keeps : (area : String) (at : Text) → Keeps P (execute (mark_capture area at))
  unfolding mark_capture or_tables
  mark_capture-Keeps area at =
      Keeps-statement (mark_capture area at) (λ t. ground arith) (λ t. ground arith)

  pub upsert_asset-Keeps : (a : NewAsset) → Keeps P (upsert_asset a)
  unfolding upsert_asset upsert or_tables
  upsert_asset-Keeps a = Keeps-statement (upsert a) (λ t. ground arith) (λ t. ground arith)

  insert_order-Keeps :
      (at : Text) (id : ℕ) (o : NewOrder) → Keeps P (execute (insert_order at id o))
  unfolding insert_order insert_row or_tables
  insert_order-Keeps at id o =
      Keeps-statement (insert_order at id o) (λ t. ground arith) (λ t. ground arith)

  pub capture_orders-Keeps :
      (at : Text) (orders : List NewOrder) → Keeps P (capture_orders at orders)
  unfolding capture_orders write_orders capture_order
  capture_orders-Keeps at orders = Keeps-transaction _ (
      Keeps-bind _ _
        (Keeps-for_each _ orders
          (λ o. Keeps-bind _ _ (upsert_asset-Keeps o.asset) (λ id. insert_order-Keeps at id o)))
        (λ _. mark_capture-Keeps "orders" at))

  insert_carry_forward-Keeps :
      (at : Text) (cf : NewTaxCarryForward) → Keeps P (execute (insert_carry_forward at cf))
  unfolding insert_carry_forward insert_row or_tables
  insert_carry_forward-Keeps at cf =
      Keeps-statement (insert_carry_forward at cf) (λ t. ground arith) (λ t. ground arith)

  insert_minus-Keeps : (at : Text) (my : NewTaxMinusByYear) → Keeps P (execute (insert_minus at my))
  unfolding insert_minus insert_row or_tables
  insert_minus-Keeps at my =
      Keeps-statement (insert_minus at my) (λ t. ground arith) (λ t. ground arith)

  pub capture_tax-Keeps :
      (at : Text) (cfs : List NewTaxCarryForward) (mys : List NewTaxMinusByYear)
      → Keeps P (capture_tax at cfs mys)
  unfolding capture_tax write_tax
  capture_tax-Keeps at cfs mys = Keeps-transaction _ (
      Keeps-bind _ _ (Keeps-for_each _ cfs (insert_carry_forward-Keeps at)) (λ _.
        Keeps-bind _ _ (Keeps-for_each _ mys (insert_minus-Keeps at))
          (λ _. mark_capture-Keeps "tax" at)))

  insert_movement-Keeps : (at : Text) (m : NewMovement) → Keeps P (execute (insert_movement at m))
  unfolding insert_movement insert_row or_tables
  insert_movement-Keeps at m =
      Keeps-statement (insert_movement at m) (λ t. ground arith) (λ t. ground arith)

  write_summary-Keeps : (at : Text) (o : Option MovementsSummary) → Keeps P (write_summary at o)
  unfolding write_summary replace_summary or_tables
  write_summary-Keeps at none = Keeps-pure tt
  write_summary-Keeps at (some s) = Keeps-statement (replace_summary at s) (λ t. refl) (λ t. refl)

  pub capture_movements-Keeps :
      (at : Text) (ms : List NewMovement) (o : Option MovementsSummary)
      → Keeps P (capture_movements at ms o)
  unfolding capture_movements write_movements
  capture_movements-Keeps at ms o = Keeps-transaction _ (
      Keeps-bind _ _ (Keeps-for_each _ ms (insert_movement-Keeps at))
        (λ _. Keeps-bind _ _ (write_summary-Keeps at o) (λ _. mark_capture-Keeps "movements" at)))

  replace_category-Keeps :
      (at : Text) (c : MoneyMapCategory) → Keeps P (execute (replace_category at c))
  unfolding replace_category or_tables
  replace_category-Keeps at c = Keeps-statement (replace_category at c) (λ t. refl) (λ t. refl)

  pub capture_categories-Keeps :
      (at : Text) (cs : List MoneyMapCategory) → Keeps P (capture_categories at cs)
  unfolding capture_categories write_categories
  capture_categories-Keeps at cs = Keeps-transaction _ (
      Keeps-bind _ _ (Keeps-for_each _ cs (replace_category-Keeps at))
        (λ _. mark_capture-Keeps "moneymap_categories" at))

  insert_position-Keeps :
      (snap id : ℕ) (p : NewPosition) → Keeps P (execute (insert_position snap id p))
  unfolding insert_position insert_row or_tables
  insert_position-Keeps snap id p =
      Keeps-statement (insert_position snap id p) (λ t. ground arith) (λ t. ground arith)

  upsert_rate-Keeps : (at : Text) (fx : NewFxRate) → Keeps P (execute (upsert_rate at fx))
  unfolding upsert_rate or_tables
  upsert_rate-Keeps at fx =
      Keeps-statement (upsert_rate at fx) (λ t. ground arith) (λ t. ground arith)

  insert_snapshot-Keeps : (n : NewPortfolioSnapshot) → Keeps P (execute (insert_snapshot n))
  unfolding insert_snapshot or_tables
  insert_snapshot-Keeps n = Keeps-statement (insert_snapshot n) (λ t. refl) (λ t. refl)

  pub capture_portfolio_snapshot-Keeps :
      (n : NewPortfolioSnapshot) → Keeps P (capture_portfolio_snapshot n)
  unfolding capture_portfolio_snapshot write_snapshot capture_position
  capture_portfolio_snapshot-Keeps n = Keeps-transaction _ (
      Keeps-bind _ _ (insert_snapshot-Keeps n) (λ snap.
        Keeps-bind _ _
          (Keeps-for_each _ n.positions (λ p.
            Keeps-bind _ _ (upsert_asset-Keeps p.asset) (λ id. insert_position-Keeps snap id p)))
          (λ _.
            Keeps-bind _ _ (Keeps-for_each _ n.fx_rates (upsert_rate-Keeps n.captured_at))
              (λ _. Keeps-pure snap))))
