-- ===== src/Query/Handle/Reads.antt =====
-- crates/fineco-query/src/lib.rs: a cached read writes nothing.
use fineco_helper.Store.Db.Keeps.{Keeps, Keeps-pure, Keeps-fail, Keeps-query, Keeps-bind, Leads-if}
use fineco_helper.Store.Db.{Tables, StoreM}
use fineco_helper.Base.{[], none, some, String, ◌>>=◌, str_eq, Option, ◌||◌, Text, not, ℕ}
use fineco_helper.Refresh.Preflight.{RefreshM, or_internal}
use fineco_helper.Store.Freshness.{latest_capture_at, not_running, after_running, freshness_for}
use fineco_helper.Query.Handle.{
  answer_freshness, freshness_report, answer_orders, answer_tax_carry_forward, answer_tax_minus,
  answer_movements, answer_dividends, answer_summary, positions_of_latest, answer_full_snapshot,
  rows_of_latest, answer_shareable_report, answer_history, answer_allocation_history,
  answer_position_history, answer, handle_query, FreshnessMaxAge, Floats,
}
use fineco_helper.Store.Jobs.{latest_job_run, running_job_for}
use fineco_helper.Store.Orders.{latest_orders}
use fineco_helper.Store.Tax.{latest_tax_carry_forward, latest_tax_minus_by_year}
use fineco_helper.Store.Movements.{latest_movements, latest_movements_summary}
use fineco_helper.Query.Answer.{latest_dividends}
use fineco_helper.Store.Portfolio.{
  latest_portfolio_snapshot, positions_for_snapshot, portfolio_history,
}
use fineco_helper.Store.History.{shareable_report_rows, allocation_history, position_history}
use fineco_helper.Base.Int.{ℤ}
use fineco_helper.Ipc.Request.{HistoryParams, PositionHistoryParams, Request, required_capability}
use fineco_helper.Ipc.Capability.{Policy, allows, owner_auth_id}
use fineco_helper.Refresh.Preflight.Denial.{or_internal-Keeps}
use fineco_helper.Store.Categories.{latest_categories}
use fineco_helper.Store.Rows.{PortfolioSnapshotRow}

module _ {P : Tables → Type 0} where
  read-Keeps :
      {A B : Type 0} (m : StoreM A) (f : A → RefreshM B)
      → Keeps P m
      → ((a : A) → Keeps P (f a))
      → Keeps P (or_internal m >>= f)
  read-Keeps m f k ks = Keeps-bind _ _ (or_internal-Keeps m k) ks

  latest_capture_at-Keeps : (area : String) → Keeps P (latest_capture_at area)
  unfolding latest_capture_at
  latest_capture_at-Keeps area = Leads-if (str_eq area "portfolio") _ _ (Keeps-query _) (
      Leads-if (str_eq area "orders" || str_eq area "tax" || str_eq area "movements") _ _
        (Keeps-query _) (Keeps-pure none))

  not_running-Keeps :
      (area : String) (now max_age : ℤ) (captured : Option Text)
      → Keeps P (not_running area now max_age captured)
  unfolding not_running latest_job_run
  not_running-Keeps area now max_age (some at) = Keeps-pure _
  not_running-Keeps area now max_age none = Keeps-bind _ _ (Keeps-query _) (λ job. Keeps-pure _)

  after_running-Keeps :
      (area : String) (now max_age : ℤ) (captured : Option Text) (running : Option ℕ)
      → Keeps P (after_running area now max_age captured running)
  unfolding after_running
  after_running-Keeps area now max_age captured (some job) = Keeps-pure _
  after_running-Keeps area now max_age captured none = not_running-Keeps area now max_age captured

  freshness_for-Keeps : (area : String) (now max_age : ℤ) → Keeps P (freshness_for area now max_age)
  unfolding freshness_for running_job_for
  freshness_for-Keeps area now max_age = Keeps-bind _ _ (latest_capture_at-Keeps area) (λ captured.
      Keeps-bind _ _ (Keeps-query _)
        (λ running. after_running-Keeps area now max_age captured running))

  answer_freshness-Keeps :
      (area : String) (max_age now : ℤ) → Keeps P (answer_freshness area max_age now)
  unfolding answer_freshness
  answer_freshness-Keeps area max_age now =
      read-Keeps _ _ (freshness_for-Keeps area now max_age) (λ f. Keeps-pure _)

  freshness_report-Keeps :
      (max_age : FreshnessMaxAge) (now : ℤ) → Keeps P (freshness_report max_age now)
  unfolding freshness_report
  freshness_report-Keeps max_age now = Keeps-bind _ _ (answer_freshness-Keeps _ _ now) (λ p.
      Keeps-bind _ _ (answer_freshness-Keeps _ _ now) (λ o.
        Keeps-bind _ _ (answer_freshness-Keeps _ _ now)
          (λ t. Keeps-bind _ _ (answer_freshness-Keeps _ _ now) (λ m. Keeps-pure _))))

  answer_orders-Keeps : Keeps P answer_orders
  unfolding answer_orders latest_orders
  answer_orders-Keeps =
      read-Keeps _ _ (Keeps-query _)
        (λ rows. read-Keeps _ _ (latest_capture_at-Keeps "orders") (λ at. Keeps-pure _))

  answer_tax_carry_forward-Keeps : Keeps P answer_tax_carry_forward
  unfolding answer_tax_carry_forward latest_tax_carry_forward
  answer_tax_carry_forward-Keeps =
      read-Keeps _ _ (Keeps-query _)
        (λ rows. read-Keeps _ _ (latest_capture_at-Keeps "tax") (λ at. Keeps-pure _))

  answer_tax_minus-Keeps : Keeps P answer_tax_minus
  unfolding answer_tax_minus latest_tax_minus_by_year
  answer_tax_minus-Keeps =
      read-Keeps _ _ (Keeps-query _)
        (λ rows. read-Keeps _ _ (latest_capture_at-Keeps "tax") (λ at. Keeps-pure _))

  answer_movements-Keeps : Keeps P answer_movements
  unfolding answer_movements latest_movements latest_movements_summary latest_categories
  answer_movements-Keeps = read-Keeps _ _ (Keeps-query _) (λ rows.
      read-Keeps _ _ (latest_capture_at-Keeps "movements") (λ at.
        read-Keeps _ _ (Keeps-query _)
          (λ summary. read-Keeps _ _ (Keeps-query _) (λ taxonomy. Keeps-pure _))))

  answer_dividends-Keeps : (fl : Floats) → Keeps P (answer_dividends fl)
  unfolding answer_dividends latest_dividends latest_movements
  answer_dividends-Keeps fl =
      Keeps-bind _ _
        (read-Keeps _ _ (Keeps-query _)
          (λ rows. read-Keeps _ _ (latest_capture_at-Keeps "movements") (λ at. Keeps-pure _)))
        (λ dto. Keeps-pure _)

  answer_summary-Keeps : Keeps P answer_summary
  unfolding answer_summary latest_portfolio_snapshot
  answer_summary-Keeps = read-Keeps _ _ (Keeps-query _) (λ s. Keeps-pure _)

  positions_of_latest-Keeps : (s : Option PortfolioSnapshotRow) → Keeps P (positions_of_latest s)
  unfolding positions_of_latest positions_for_snapshot
  positions_of_latest-Keeps none = Keeps-pure []
  positions_of_latest-Keeps (some row) = or_internal-Keeps _ (Keeps-query _)

  answer_full_snapshot-Keeps : Keeps P answer_full_snapshot
  unfolding answer_full_snapshot latest_portfolio_snapshot
  answer_full_snapshot-Keeps =
      read-Keeps _ _ (Keeps-query _)
        (λ s. Keeps-bind _ _ (positions_of_latest-Keeps s) (λ held. Keeps-pure _))

  rows_of_latest-Keeps :
      (fl : Floats) (s : Option PortfolioSnapshotRow) → Keeps P (rows_of_latest fl s)
  unfolding rows_of_latest shareable_report_rows
  rows_of_latest-Keeps fl none = Keeps-pure _
  rows_of_latest-Keeps fl (some row) = read-Keeps _ _ (Keeps-query _) (λ rows. Keeps-pure _)

  answer_shareable_report-Keeps : (fl : Floats) → Keeps P (answer_shareable_report fl)
  unfolding answer_shareable_report latest_portfolio_snapshot
  answer_shareable_report-Keeps fl =
      read-Keeps _ _ (Keeps-query _)
        (λ s. Keeps-bind _ _ (rows_of_latest-Keeps fl s) (λ report. Keeps-pure _))

  answer_history-Keeps : (p : HistoryParams) → Keeps P (answer_history p)
  unfolding answer_history portfolio_history
  answer_history-Keeps p = read-Keeps _ _ (Keeps-query _) (λ rows. Keeps-pure _)

  answer_allocation_history-Keeps : Keeps P answer_allocation_history
  unfolding answer_allocation_history allocation_history
  answer_allocation_history-Keeps = read-Keeps _ _ (Keeps-query _) (λ rows. Keeps-pure _)

  answer_position_history-Keeps : (p : PositionHistoryParams) → Keeps P (answer_position_history p)
  unfolding answer_position_history position_history
  answer_position_history-Keeps p = read-Keeps _ _ (Keeps-query _) (λ rows. Keeps-pure _)

  answer-Keeps :
      (fl : Floats) (max_age : FreshnessMaxAge) (request : Request) (now : ℤ)
      → Keeps P (answer fl max_age request now)
  unfolding answer
  answer-Keeps fl max_age Request.portfolio_get_freshness now = freshness_report-Keeps max_age now
  answer-Keeps fl max_age Request.orders_get_latest_monitor now = answer_orders-Keeps
  answer-Keeps fl max_age Request.tax_get_latest_carry_forward now = answer_tax_carry_forward-Keeps
  answer-Keeps fl max_age Request.tax_get_latest_minus_by_year now = answer_tax_minus-Keeps
  answer-Keeps fl max_age Request.movements_get_latest now = answer_movements-Keeps
  answer-Keeps fl max_age Request.movements_get_dividends now = answer_dividends-Keeps fl
  answer-Keeps fl max_age Request.portfolio_get_latest_snapshot_summary now = answer_summary-Keeps
  answer-Keeps fl max_age Request.portfolio_get_latest_full_snapshot now =
      answer_full_snapshot-Keeps
  answer-Keeps fl max_age Request.portfolio_get_latest_shareable_report now =
      answer_shareable_report-Keeps fl
  answer-Keeps fl max_age (Request.portfolio_get_history p) now = answer_history-Keeps p
  answer-Keeps fl max_age Request.portfolio_get_allocation_history now =
      answer_allocation_history-Keeps
  answer-Keeps fl max_age (Request.portfolio_get_position_history p) now =
      answer_position_history-Keeps p
  answer-Keeps fl max_age (Request.market_get_zero_commission_etfs p) now = Keeps-fail _

  -- Any property of the tables is kept by a cached read, whatever the request and the answer.
  pub handle_query-Keeps :
      (fl : Floats) (max_age : FreshnessMaxAge) (policy : Policy) (request : Request) (now : ℤ)
      → Keeps P (handle_query fl max_age policy request now)
  unfolding handle_query
  handle_query-Keeps fl max_age policy request now =
      Leads-if (not (allows policy owner_auth_id (required_capability request))) _ _ (Keeps-fail _)
        (answer-Keeps fl max_age request now)
