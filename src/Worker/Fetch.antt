-- ===== src/Worker/Fetch.antt =====
-- crates/fineco-worker/src/lib.rs: the private reads of a refresh, each under a login of its own. What
-- the network answers, and what JSON makes of it, is a record. The texts of URLs are bytes.
pub mod Fresh
use fineco_helper.Base.Int.{pos}
use fineco_helper.Core.SafeError
use mathlib.Core.Option
use fineco_helper.Base.{
  none, some, ok, err, Text, Result, Bool, Option, codes, String, ℕ, and_then, List, ◌>>=◌, ◌>>◌,
  if◌then◌else◌, lift, not, pure, ◌++◌, ok_or,
}
use fineco_helper.Worker.Session.{World, WorkerM, refresh_login}
use fineco_helper.Worker.Movements.{
  Fetched, fetch_movement_pages, MovementsApiRequest, MovementsApiResponse,
}
use fineco_helper.Core.SafeError.{SafeError, from_upstream_status}
use fineco_helper.Worker.Login.{
  TransportError, Response, ensure_secure_transport, transported, is_success,
}
use fineco_helper.Store.Rows.{
  NewPortfolioSnapshot, NewTaxCarryForward, MoneyMapCategory, NewTaxMinusByYear, F64,
}
use fineco_helper.Live.Wire.{RawMovementsBundle}
use fineco_helper.Worker.Parse.{
  RawOrder, PositionsSummaryResponse, RawTransaction, to_snapshot, to_tax_minus,
  to_tax_carry_forward, RawMinus, to_raw_orders,
}
use fineco_helper.Worker.Categories.{to_category_rows, MoneyMapCategoriesResponse}
use fineco_helper.Core.Validate.{
  validate_order_request, validate_tax_range, validate_movements_range,
}
use fineco_helper.Worker.Errors.{read_status_error}
use fineco_helper.Core.Clock.{pad}

pub record Endpoints : Type 0 where
  pub positions_summary : Text
  pub transactions : Text
  pub tax_carry_forward : Text
  pub tax_minus : Text
  pub movements : Text
  pub moneymap_categories : Text

-- The answer to a read with a URL, a cookie and a referer; the answer to the n-th page of a walk; and
-- the parsers. A body's encoding cannot fail.
pub record Network : Type 0 where
  pub loopback_ip : Text → Bool
  pub endpoints : Endpoints
  pub get : Text → Text → Text → Result TransportError Response
  pub post_page : ℕ → MovementsApiRequest → Text → Result TransportError Response
  pub post_categories : Text → Result TransportError Response
  pub positions_from : Text → Option PositionsSummaryResponse
  pub transactions_from : Text → Option (List RawTransaction)
  pub carry_forward_from : Text → Option (Option F64)
  pub minuses_from : Text → Option (List RawMinus)
  pub movements_from : Text → Option MovementsApiResponse
  pub categories_from : Text → Option MoneyMapCategoriesResponse
  pub positive : F64 → Bool
  pub weight : F64 → F64 → F64

abbrev pub body_of : {E : Type 0} → Result E Text → Option Text
body_of (ok body) = some body
body_of (err e) = none

-- The value in a response, or the safe error of its status.
unfoldable pub json_of :
    {T : Type 0} → (Text → Option T) → (ℕ → SafeError) → Response → Result SafeError T
json_of from_str map_status response =
    if not (is_success response.status)
    then err (read_status_error (body_of response.body) response.status map_status)
    else and_then (transported response.body) (λ body. ok_or (from_str body) SafeError.internal)

abbrev portfolio_referer : Text
portfolio_referer = codes "https://finecobank.com/pvt/portfolio/trading-summary/home"

abbrev orders_referer : Text
orders_referer = codes "https://finecobank.com/pvt/portfolio/order-monitor/shares"

abbrev tax_referer : Text
tax_referer = codes "https://finecobank.com/pvt/portfolio/report/tax-carry-forward/current-month"

module _ (net : Network) where
  unfoldable pub get_json :
      {T : Type 0} → (Text → Option T) → Text → Text → Text → Result SafeError T
  get_json from_str url cookie referer =
      and_then (ensure_secure_transport net.loopback_ip url) (λ _.
        and_then (transported (net.get url cookie referer)) (json_of from_str from_upstream_status))

  unfoldable pub post_json :
      {T : Type 0} → (Text → Option T) → Text → Result TransportError Response → Result SafeError T
  post_json from_str url answer =
      and_then (ensure_secure_transport net.loopback_ip url)
        (λ _. and_then (transported answer) (json_of from_str from_upstream_status))

  abbrev pub fetch_pages : Text → Text → Text → Fetched
  fetch_pages cookie date_from date_to =
      fetch_movement_pages
        (λ n request.
          post_json net.movements_from net.endpoints.movements (net.post_page n request cookie))
        date_from date_to

  abbrev pub ok_of : {A : Type 0} → Result SafeError A → Option A
  ok_of (ok a) = some a
  ok_of (err e) = none

  unfoldable pub fetch_moneymap_categories_best_effort : Text → Option (List MoneyMapCategory)
  fetch_moneymap_categories_best_effort cookie = Option.map to_category_rows (
      ok_of (
        post_json net.categories_from net.endpoints.moneymap_categories
          (net.post_categories cookie)))

  module _ {T : Type 0} (world : World T) (ttl : Option ℕ) where
    unfoldable pub fetch_portfolio : Text → WorkerM NewPortfolioSnapshot
    fetch_portfolio now_iso = do
      session ← refresh_login world ttl
      response ← lift (
          get_json net.positions_from net.endpoints.positions_summary session.cookie
            portfolio_referer)
      pure (to_snapshot net.positive net.weight response now_iso)

    unfoldable pub fetch_raw_orders : String → ℕ → WorkerM (List RawOrder)
    fetch_raw_orders instrument_kind days = do
      lift (validate_order_request instrument_kind days)
      session ← refresh_login world ttl
      transactions ← lift (
          get_json net.transactions_from
            (net.endpoints.transactions
              ++ (codes "?type="
                  ++ (codes instrument_kind ++ (codes "&days=" ++ pad 0 (pos days)))))
            session.cookie orders_referer)
      pure (to_raw_orders transactions)

    unfoldable pub fetch_tax_carry_forward : Text → Text → WorkerM NewTaxCarryForward
    fetch_tax_carry_forward date_from date_to = do
      lift (validate_tax_range date_from date_to)
      session ← refresh_login world ttl
      total ← lift (
          get_json net.carry_forward_from
            (net.endpoints.tax_carry_forward
              ++ (codes "?dateFrom=" ++ (date_from ++ (codes "&dateTo=" ++ date_to))))
            session.cookie tax_referer)
      pure (to_tax_carry_forward total date_from date_to)

    unfoldable pub fetch_tax_minus_by_year : WorkerM (List NewTaxMinusByYear)
    fetch_tax_minus_by_year = do
      session ← refresh_login world ttl
      minuses ← lift (get_json net.minuses_from net.endpoints.tax_minus session.cookie tax_referer)
      pure (to_tax_minus minuses)

    unfoldable pub fetch_raw_movements : Text → Text → WorkerM RawMovementsBundle
    fetch_raw_movements date_from date_to = do
      lift (validate_movements_range date_from date_to)
      session ← refresh_login world ttl
      walked ← lift (fetch_pages session.cookie date_from date_to)
      pure (record {
        movements = walked.0;
        summary = walked.1;
        categories = fetch_moneymap_categories_best_effort session.cookie;
      })
