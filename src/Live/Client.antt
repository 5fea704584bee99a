-- ===== src/Live/Client.antt =====
-- crates/fineco-live/src/lib.rs: `LiveClient`, the fetchers of the store-server, as calls over the socket.
-- The HMAC of ids is a parameter.
pub mod Crossed
use fineco_helper.Core.SafeError
use fineco_helper.Base.{
  [], ◌∷◌, ok, err, Result, Option, List, String, Text, and_then, ℕ, ok_or, map_ok,
}
use fineco_helper.Live.Wire.{LiveResponse, LiveError, RawMovementsBundle, LiveFetcher, LiveRequest}
use fineco_helper.Live.Call.{Codec, Socket, call}
use fineco_helper.Core.SafeError.{SafeError}
use fineco_helper.Controller.Market.{MarketLiveError}
use fineco_helper.Store.Rows.{
  NewPortfolioSnapshot, NewTaxCarryForward, NewTaxMinusByYear, NewOrder, NewMovement,
}
use fineco_helper.Ipc.Market.{
  MarketSearchLiveResult, MarketIndicesLiveResult, MarketSearchParams, MarketDetailsParams,
  MarketIndicesParams,
}
use fineco_helper.Ipc.Details.{MarketAssetDetailsLiveResult}
use fineco_helper.Worker.Parse.{RawOrder}
use fineco_helper.Worker.Session.{no_status}
use fineco_helper.Refresh.Run.{PortfolioFetcher, OrdersFetcher, MovementsFetcher}
use fineco_helper.Store.Db.{Store}
use fineco_helper.Worker.Movements.{RawMovement}

module _ {Json : Type 0} where
  -- Each method takes its own answer out; any other is a violation of the protocol.
  abbrev pub portfolio_in : LiveResponse Json → Result SafeError NewPortfolioSnapshot
  portfolio_in (LiveResponse.portfolio_answer snapshot) = ok snapshot
  portfolio_in _ = err SafeError.internal

  abbrev pub orders_in : LiveResponse Json → Result SafeError (List RawOrder)
  orders_in (LiveResponse.orders_answer orders) = ok orders
  orders_in _ = err SafeError.internal

  abbrev pub movements_in : LiveResponse Json → Result SafeError RawMovementsBundle
  movements_in (LiveResponse.movements_answer bundle) = ok bundle
  movements_in _ = err SafeError.internal

  abbrev pub tax_carry_forward_in : LiveResponse Json → Result SafeError NewTaxCarryForward
  tax_carry_forward_in (LiveResponse.tax_carry_forward_answer carry_forward) = ok carry_forward
  tax_carry_forward_in _ = err SafeError.internal

  abbrev pub tax_minus_by_year_in : LiveResponse Json → Result SafeError (List NewTaxMinusByYear)
  tax_minus_by_year_in (LiveResponse.tax_minus_by_year_answer rows) = ok rows
  tax_minus_by_year_in _ = err SafeError.internal

  abbrev pub market_search_in : LiveResponse Json → Result MarketLiveError MarketSearchLiveResult
  market_search_in (LiveResponse.market_search_answer result) = ok result
  market_search_in _ = err (no_status SafeError.internal)

  abbrev pub market_asset_details_in :
      LiveResponse Json → Result MarketLiveError (MarketAssetDetailsLiveResult Json)
  market_asset_details_in (LiveResponse.market_asset_details_answer result) = ok result
  market_asset_details_in _ = err (no_status SafeError.internal)

  abbrev pub market_indices_in : LiveResponse Json → Result MarketLiveError MarketIndicesLiveResult
  market_indices_in (LiveResponse.market_indices_answer result) = ok result
  market_indices_in _ = err (no_status SafeError.internal)

module _ {A : Type 0} where
  -- `into_safe_error`, and `into_market_error`
  abbrev pub into_safe : Result LiveError A → Result SafeError A
  into_safe (ok a) = ok a
  into_safe (err e) = err e.error

  abbrev pub into_market : Result LiveError A → Result MarketLiveError A
  into_market (ok a) = ok a
  into_market (err e) = err (record { error = e.error; session = e.market_session })

module _ {Json : Type 0} (codec : Codec Json) (socket : Option Socket) where
  unfoldable pub fetch_portfolio : PortfolioFetcher
  fetch_portfolio now_iso =
      and_then
        (into_safe (call codec socket (LiveRequest.portfolio (record { now_iso = now_iso }))))
        portfolio_in

  unfoldable pub fetch_raw_orders : String → ℕ → Result SafeError (List RawOrder)
  fetch_raw_orders kind days =
      and_then
        (into_safe
          (call codec socket (LiveRequest.orders (record { instrument_kind = kind; days = days }))))
        orders_in

  unfoldable pub fetch_raw_movements : Text → Text → Result SafeError RawMovementsBundle
  fetch_raw_movements date_from date_to =
      and_then
        (into_safe (
          call codec socket
            (LiveRequest.movements (record { date_from = date_from; date_to = date_to }))))
        movements_in

  unfoldable pub fetch_tax_carry_forward : Text → Text → Result SafeError NewTaxCarryForward
  fetch_tax_carry_forward date_from date_to =
      and_then
        (into_safe (
          call codec socket
            (LiveRequest.tax_carry_forward (record { date_from = date_from; date_to = date_to }))))
        tax_carry_forward_in

  unfoldable pub fetch_tax_minus_by_year : Result SafeError (List NewTaxMinusByYear)
  fetch_tax_minus_by_year =
      and_then (into_safe (call codec socket LiveRequest.tax_minus_by_year)) tax_minus_by_year_in

  unfoldable pub fetch_market_search_live :
      MarketSearchParams → Text → Result MarketLiveError MarketSearchLiveResult
  fetch_market_search_live search now_iso =
      and_then
        (into_market (
          call codec socket
            (LiveRequest.market_search (record { search = search; now_iso = now_iso }))))
        market_search_in

  unfoldable pub fetch_market_asset_details_live :
      MarketDetailsParams → Text → Result MarketLiveError (MarketAssetDetailsLiveResult Json)
  fetch_market_asset_details_live details now_iso =
      and_then
        (into_market (
          call codec socket
            (LiveRequest.market_asset_details (record { details = details; now_iso = now_iso }))))
        market_asset_details_in

  unfoldable pub fetch_market_indices_live :
      MarketIndicesParams → Text → Result MarketLiveError MarketIndicesLiveResult
  fetch_market_indices_live indices now_iso =
      and_then
        (into_market (
          call codec socket
            (LiveRequest.market_indices (record { indices = indices; now_iso = now_iso }))))
        market_indices_in

  abbrev pub client : LiveFetcher Json
  client = record {
    fetch_portfolio = fetch_portfolio;
    fetch_raw_orders = fetch_raw_orders;
    fetch_raw_movements = fetch_raw_movements;
    tax = record {
      fetch_tax_carry_forward = fetch_tax_carry_forward;
      fetch_tax_minus_by_year = fetch_tax_minus_by_year;
    };
    market = record {
      fetch_market_search = fetch_market_search_live;
      fetch_market_asset_details = fetch_market_asset_details_live;
      fetch_market_indices = fetch_market_indices_live;
    };
  }

  -- `collect::<Result<_, _>>`, of ids that are hashed
  abbrev pub hash_all : {A B : Type 0} → (A → Option B) → List A → Result SafeError (List B)
  hash_all hash [] = ok []
  hash_all hash (a ∷ rest) =
      and_then (ok_or (hash a) SafeError.internal) (λ b. map_ok (λ bs. b ∷ bs) (hash_all hash rest))

  unfoldable pub fetch_orders : (Store → RawOrder → Option NewOrder) → OrdersFetcher
  fetch_orders hash_raw_order store kind days =
      and_then (fetch_raw_orders kind days) (hash_all (hash_raw_order store))

  unfoldable pub fetch_movements : (Store → RawMovement → Option NewMovement) → MovementsFetcher
  fetch_movements hash_raw_movement store date_from date_to =
      and_then (fetch_raw_movements date_from date_to) (λ bundle.
        map_ok
          (λ movements. record {
            movements = movements;
            summary = bundle.summary;
            categories = bundle.categories;
          })
          (hash_all (hash_raw_movement store) bundle.movements))
