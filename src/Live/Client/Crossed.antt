-- ===== src/Live/Client/Crossed.antt =====
-- crates/fineco-live/src/lib.rs: the client is the worker's fetcher, but for the errors.
use fineco_helper.Base.{some, ok, err, refl, Result, ℕ, ◌≡◌, ◌+◌, and_then, ◌≤◌, Option, ap, ◌∙◌}
use fineco_helper.Core.SafeError.{SafeError}
use fineco_helper.Live.Wire.{
  LiveFetcher, LiveRequest, LiveResponse, handle_live_request, error_dto, plain, with_session,
}
use fineco_helper.Live.Call.{Codec, received, handled, worker, Socket, call}
use fineco_helper.Live.Errors.{safe_error_from_dto}
use fineco_helper.Controller.Market.{MarketLiveError}
use fineco_helper.Live.Client.{
  fetch_portfolio, fetch_raw_orders, into_safe, into_market, fetch_raw_movements,
  fetch_tax_carry_forward, fetch_tax_minus_by_year, fetch_market_search_live, client,
  fetch_market_asset_details_live, fetch_market_indices_live, portfolio_in, orders_in,
  tax_carry_forward_in, tax_minus_by_year_in, market_search_in, market_asset_details_in,
  market_indices_in, movements_in,
}
use fineco_helper.Ipc.Frame.{max_message_bytes}
use fineco_helper.Live.Call.Carried.{IsSent, IsReplied, call-worker}

-- An error as the other side builds it again.
abbrev pub crossed_error : SafeError → SafeError
crossed_error e = safe_error_from_dto (error_dto e)

abbrev pub crossed : {A : Type 0} → Result SafeError A → Result SafeError A
crossed (ok a) = ok a
crossed (err e) = err (crossed_error e)

abbrev pub crossed_market : {A : Type 0} → Result MarketLiveError A → Result MarketLiveError A
crossed_market (ok a) = ok a
crossed_market (err e) = err (record { error = crossed_error e.error; session = e.session })

module _ {Json : Type 0} where
  -- Two fetchers answer a request alike, but for how an error is built.
  abbrev pub AnswersAs : LiveFetcher Json → LiveFetcher Json → LiveRequest → Type 0
  AnswersAs near far (LiveRequest.portfolio p) =
      near.fetch_portfolio p.now_iso ≡ crossed (far.fetch_portfolio p.now_iso)
  AnswersAs near far (LiveRequest.orders p) =
      near.fetch_raw_orders p.instrument_kind p.days
      ≡ crossed (far.fetch_raw_orders p.instrument_kind p.days)
  AnswersAs near far (LiveRequest.tax_carry_forward p) =
      near.tax.fetch_tax_carry_forward p.date_from p.date_to
      ≡ crossed (far.tax.fetch_tax_carry_forward p.date_from p.date_to)
  AnswersAs near far LiveRequest.tax_minus_by_year =
      near.tax.fetch_tax_minus_by_year ≡ crossed far.tax.fetch_tax_minus_by_year
  AnswersAs near far (LiveRequest.market_search p) =
      near.market.fetch_market_search p.search p.now_iso
      ≡ crossed_market (far.market.fetch_market_search p.search p.now_iso)
  AnswersAs near far (LiveRequest.market_asset_details p) =
      near.market.fetch_market_asset_details p.details p.now_iso
      ≡ crossed_market (far.market.fetch_market_asset_details p.details p.now_iso)
  AnswersAs near far (LiveRequest.market_indices p) =
      near.market.fetch_market_indices p.indices p.now_iso
      ≡ crossed_market (far.market.fetch_market_indices p.indices p.now_iso)
  AnswersAs near far (LiveRequest.movements p) =
      near.fetch_raw_movements p.date_from p.date_to
      ≡ crossed (far.fetch_raw_movements p.date_from p.date_to)

module _ {Json A : Type 0} (codec : Codec Json) (put : A → LiveResponse Json) where
  plain_lem :
      (get : LiveResponse Json → Result SafeError A)
      → ((a : A) → get (put a) ≡ ok a)
      → (r : Result SafeError A)
      → and_then (into_safe (received codec (handled codec (plain put r)))) get ≡ crossed r
  unfolding received
  plain_lem get same (ok a) = same a
  plain_lem get same (err e) = refl

  with_session_lem :
      (get : LiveResponse Json → Result MarketLiveError A)
      → ((a : A) → get (put a) ≡ ok a)
      → (r : Result MarketLiveError A)
      → and_then (into_market (received codec (handled codec (with_session put r)))) get
        ≡ crossed_market r
  unfolding received
  with_session_lem get same (ok a) = same a
  with_session_lem get same (err e) = refl

module _ {Json : Type 0} (codec : Codec Json) where
  answers_lem :
      (fetcher : LiveFetcher Json) (socket : Option Socket) (request : LiveRequest)
      → call codec socket request
        ≡ received codec (handled codec (handle_live_request fetcher request))
      → AnswersAs (client codec socket) fetcher request
  unfolding handle_live_request fetch_portfolio fetch_raw_orders fetch_raw_movements
      fetch_tax_carry_forward fetch_tax_minus_by_year fetch_market_search_live
      fetch_market_asset_details_live fetch_market_indices_live
  answers_lem f socket (LiveRequest.portfolio p) e =
      ap (λ r. and_then (into_safe r) portfolio_in) e
      ∙ plain_lem codec _ _ (λ a. refl) (f.fetch_portfolio p.now_iso)
  answers_lem f socket (LiveRequest.orders p) e =
      ap (λ r. and_then (into_safe r) orders_in) e
      ∙ plain_lem codec _ _ (λ a. refl) (f.fetch_raw_orders p.instrument_kind p.days)
  answers_lem f socket (LiveRequest.tax_carry_forward p) e =
      ap (λ r. and_then (into_safe r) tax_carry_forward_in) e
      ∙ plain_lem codec _ _ (λ a. refl) (f.tax.fetch_tax_carry_forward p.date_from p.date_to)
  answers_lem f socket LiveRequest.tax_minus_by_year e =
      ap (λ r. and_then (into_safe r) tax_minus_by_year_in) e
      ∙ plain_lem codec _ _ (λ a. refl) f.tax.fetch_tax_minus_by_year
  answers_lem f socket (LiveRequest.market_search p) e =
      ap (λ r. and_then (into_market r) market_search_in) e
      ∙ with_session_lem codec _ _ (λ a. refl) (f.market.fetch_market_search p.search p.now_iso)
  answers_lem f socket (LiveRequest.market_asset_details p) e =
      ap (λ r. and_then (into_market r) market_asset_details_in) e
      ∙ with_session_lem codec _ _ (λ a. refl)
          (f.market.fetch_market_asset_details p.details p.now_iso)
  answers_lem f socket (LiveRequest.market_indices p) e =
      ap (λ r. and_then (into_market r) market_indices_in) e
      ∙ with_session_lem codec _ _ (λ a. refl) (f.market.fetch_market_indices p.indices p.now_iso)
  answers_lem f socket (LiveRequest.movements p) e =
      ap (λ r. and_then (into_safe r) movements_in) e
      ∙ plain_lem codec _ _ (λ a. refl) (f.fetch_raw_movements p.date_from p.date_to)

  -- The client of a worker answers each request as the worker's own fetcher does, with the errors built
  -- again by their codes and a market read's session status unchanged: where JSON carries the request
  -- and the reply, each in at most 8 MiB, and the sockets take a whole frame.
  pub client-AnswersAs :
      (fetcher : LiveFetcher Json) (room : ℕ) (request : LiveRequest)
      → 4 + max_message_bytes ≤ room
      → IsSent codec request
      → IsReplied codec (handled codec (handle_live_request fetcher request))
      → AnswersAs (client codec (some (worker codec fetcher room))) fetcher request
  client-AnswersAs fetcher room request h sent replied =
      answers_lem fetcher (some (worker codec fetcher room)) request
        (call-worker codec fetcher room request h sent replied)
