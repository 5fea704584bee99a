-- ===== src/Live/Wire.antt =====
-- crates/fineco-live/src/lib.rs: what is said on the live socket, and the request's dispatch. `Json` is
-- the type of JSON values.
use fineco_helper.Base.{none, ok, err, Text, String, List, ℕ, Option, Result, Bool}
use fineco_helper.Ipc.Market.{
  MarketSearchParams, MarketDetailsParams, MarketIndicesParams, MarketSessionStatus,
  MarketSearchLiveResult, MarketIndicesLiveResult,
}
use fineco_helper.Core.SafeError.{SafeError}
use fineco_helper.Store.Rows.{
  NewPortfolioSnapshot, MovementsSummary, NewTaxCarryForward, MoneyMapCategory, NewTaxMinusByYear,
}
use fineco_helper.Refresh.Run.{PortfolioFetcher, TaxFetcher}
use fineco_helper.Worker.Movements.{RawMovement}
use fineco_helper.Core.Classes.{as_str}
use fineco_helper.Worker.Parse.{RawOrder}
use fineco_helper.Controller.Market.{MarketLiveError, MarketFetchers}
use fineco_helper.Ipc.Details.{MarketAssetDetailsLiveResult}

pub record LivePortfolioParams : Type 0 where
  pub now_iso : Text

pub record LiveOrdersParams : Type 0 where
  pub instrument_kind : String
  pub days : ℕ

pub record LiveTaxCarryForwardParams : Type 0 where
  pub date_from : Text
  pub date_to : Text

pub record LiveMarketSearchParams : Type 0 where
  pub search : MarketSearchParams
  pub now_iso : Text

pub record LiveMarketDetailsParams : Type 0 where
  pub details : MarketDetailsParams
  pub now_iso : Text

pub record LiveMarketIndicesParams : Type 0 where
  pub indices : MarketIndicesParams
  pub now_iso : Text

pub record LiveMovementsParams : Type 0 where
  pub date_from : Text
  pub date_to : Text

pub data LiveRequest : Type 0 where
  portfolio : LivePortfolioParams → LiveRequest
  orders : LiveOrdersParams → LiveRequest
  tax_carry_forward : LiveTaxCarryForwardParams → LiveRequest
  tax_minus_by_year : LiveRequest
  market_search : LiveMarketSearchParams → LiveRequest
  market_asset_details : LiveMarketDetailsParams → LiveRequest
  market_indices : LiveMarketIndicesParams → LiveRequest
  movements : LiveMovementsParams → LiveRequest

pub record RawMovementsBundle : Type 0 where
  pub movements : List RawMovement
  pub summary : MovementsSummary
  pub categories : Option (List MoneyMapCategory)

pub record SafeErrorDto : Type 0 where
  pub code : String
  pub class : String
  pub retryable : Bool
  pub safe_message : Text

unfoldable pub error_dto : SafeError → SafeErrorDto
error_dto e = record {
  code = e.code;
  class = as_str e.class;
  retryable = e.retryable;
  safe_message = e.safe_message;
}

-- The seconds that the client waits for an answer.
unfoldable pub client_timeout_for : LiveRequest → ℕ
client_timeout_for (market_search p) = 180
client_timeout_for (market_indices p) = 180
client_timeout_for (market_asset_details p) = 960
client_timeout_for (movements p) = 900
client_timeout_for (portfolio p) = 120
client_timeout_for (orders p) = 120
client_timeout_for (tax_carry_forward p) = 120
client_timeout_for tax_minus_by_year = 120

module _ (Json : Type 0) where
  pub data LiveResponse : Type 0 where
    portfolio_answer : NewPortfolioSnapshot → LiveResponse
    orders_answer : List RawOrder → LiveResponse
    tax_carry_forward_answer : NewTaxCarryForward → LiveResponse
    tax_minus_by_year_answer : List NewTaxMinusByYear → LiveResponse
    market_search_answer : MarketSearchLiveResult → LiveResponse
    market_asset_details_answer : MarketAssetDetailsLiveResult Json → LiveResponse
    market_indices_answer : MarketIndicesLiveResult → LiveResponse
    movements_answer : RawMovementsBundle → LiveResponse

  pub data LiveReply : Type 0 where
    ok_reply : LiveResponse → LiveReply
    err_reply : SafeErrorDto → Option MarketSessionStatus → LiveReply

  -- The traits that a worker implements: what one call of each method answers.
  pub record LiveFetcher : Type 0 where
    pub fetch_portfolio : PortfolioFetcher
    pub fetch_raw_orders : String → ℕ → Result SafeError (List RawOrder)
    pub fetch_raw_movements : Text → Text → Result SafeError RawMovementsBundle
    pub tax : TaxFetcher
    pub market : MarketFetchers Json

-- `LiveError`, and `LiveCallError`
pub record LiveError : Type 0 where
  pub error : SafeError
  pub market_session : Option MarketSessionStatus

module _ {A B : Type 0} where
  -- `.map_err(LiveError::from).map(f)` of a read without, and with, a session's status
  abbrev pub plain : (A → B) → Result SafeError A → Result LiveError B
  plain f (ok a) = ok (f a)
  plain f (err e) = err (record { error = e; market_session = none })

  abbrev pub with_session : (A → B) → Result MarketLiveError A → Result LiveError B
  with_session f (ok a) = ok (f a)
  with_session f (err e) = err (record { error = e.error; market_session = e.session })

module _ {Json : Type 0} where
  unfoldable pub handle_live_request :
      LiveFetcher Json → LiveRequest → Result LiveError (LiveResponse Json)
  handle_live_request f (portfolio p) =
      plain LiveResponse.portfolio_answer (f.fetch_portfolio p.now_iso)
  handle_live_request f (orders p) =
      plain LiveResponse.orders_answer (f.fetch_raw_orders p.instrument_kind p.days)
  handle_live_request f (tax_carry_forward p) =
      plain LiveResponse.tax_carry_forward_answer
        (f.tax.fetch_tax_carry_forward p.date_from p.date_to)
  handle_live_request f tax_minus_by_year =
      plain LiveResponse.tax_minus_by_year_answer f.tax.fetch_tax_minus_by_year
  handle_live_request f (market_search p) =
      with_session LiveResponse.market_search_answer
        (f.market.fetch_market_search p.search p.now_iso)
  handle_live_request f (market_asset_details p) =
      with_session LiveResponse.market_asset_details_answer
        (f.market.fetch_market_asset_details p.details p.now_iso)
  handle_live_request f (market_indices p) =
      with_session LiveResponse.market_indices_answer
        (f.market.fetch_market_indices p.indices p.now_iso)
  handle_live_request f (movements p) =
      plain LiveResponse.movements_answer (f.fetch_raw_movements p.date_from p.date_to)
