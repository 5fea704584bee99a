-- ===== src/Controller/Market.antt =====
-- crates/fineco-helper/src/controller.rs: `handle_market_control`, which gates, runs and settles one market
-- read. `encoded` is the length of what the JSON library makes of a result, if it makes something.
use fineco_helper.Core.SafeError
use fineco_helper.Base.Int.{ℤ}
use fineco_helper.Core.SafeError.{SafeError}
use fineco_helper.Controller.Refresh.{Config, ControllerM}
use fineco_helper.Ipc.Market.{
  MarketSearchParams, MarketDetailsParams, MarketIndicesParams, MarketSearchResult,
  MarketIndicesResult, MarketSearchLiveResult, MarketIndicesLiveResult, MarketSessionStatus,
}
use fineco_helper.Ipc.Details.{MarketAssetDetailsResult, MarketAssetDetailsLiveResult}
use fineco_helper.Ipc.Validate.{
  MarketControlRequest, market_search_asset, market_get_asset_details, market_get_indices,
  max_details_response_bytes, market_capability, validate_market,
}
use fineco_helper.Base.{
  none, some, true, false, ok, err, Option, Bool, Text, Result, not, str_eq, ◌||◌, if◌then◌else◌,
  ◌>>◌, ℕ, ◌&&◌, map_ok, lift, ltb, ◌>>=◌, pure, fail, ok_or,
}
use fineco_helper.Controller.Login.{LiveLoginState, finish_market, admit_market_operation}
use fineco_helper.Controller.Circuit.{record_outcome, check_closed}
use fineco_helper.Ipc.Capability.{allows, owner_auth_id}
use fineco_helper.Core.Validate.{invalid_request}
use fineco_helper.Core.Clock.{parse_iso8601_utc}

pub record MarketLiveError : Type 0 where
  pub error : SafeError
  pub session : Option MarketSessionStatus

unfoldable pub should_record_assumed_fresh_login : SafeError → Bool
should_record_assumed_fresh_login e = not (str_eq e.code "live_transport_failure")

unfoldable pub should_preserve_market_session_after_error : SafeError → Bool
should_preserve_market_session_after_error e =
    str_eq e.code "market_not_found"
    || str_eq e.code "market_ambiguous_identifier"
    || str_eq e.code "market_unsupported_asset_type"

abbrev pub logged_in : MarketSessionStatus → Bool
logged_in session = session.login_performed || session.reused_session_401_recovered

unfoldable pub finish_with_session_status :
    MarketSessionStatus → ℤ → LiveLoginState → LiveLoginState
finish_with_session_status session now s = finish_market (logged_in session) true now s

unfoldable pub finish_with_error :
    SafeError → Option MarketSessionStatus → ℤ → LiveLoginState → LiveLoginState
finish_with_error e (some session) now s =
    if should_preserve_market_session_after_error e
    then finish_with_session_status session now s
    else finish_market (logged_in session) false now s
finish_with_error e none now s =
    let preserves_session = should_preserve_market_session_after_error e in
    finish_market (not preserves_session && should_record_assumed_fresh_login e) preserves_session
      now s

unfoldable pub finish_after_error : MarketLiveError → ℤ → LiveLoginState → LiveLoginState
unfolding finish_with_error
finish_after_error e now s = finish_with_error e.error e.session now s

unfoldable pub begin_market_live_operation : Text → ControllerM (Unit {0})
begin_market_live_operation now_iso c =
    let (r, l) = admit_market_operation now_iso c.live_login_state in
    (map_ok (λ _. tt) r, record c { live_login_state = l })

unfoldable pub record_market_outcome : Text → Option SafeError → ControllerM (Unit {0})
record_market_outcome now_iso e c =
    let (r, m) = record_outcome now_iso e c.market_circuit_state in
    (r, record c { market_circuit_state = m })

unfoldable pub finish_login : (LiveLoginState → LiveLoginState) → ControllerM (Unit {0})
finish_login f c = (ok tt, record c { live_login_state = f c.live_login_state })

abbrev pub error_of : Result SafeError (Unit {0}) → Option SafeError
error_of (ok u) = none
error_of (err e) = some e

-- The end of a read, once the fetcher has answered: `check` is the validation of its result.
unfoldable pub settle :
    {L A : Type 0}
    → Text
    → ℤ
    → (L → MarketSessionStatus)
    → (L → Result SafeError (Unit {0}))
    → (L → A)
    → Result MarketLiveError L
    → ControllerM A
settle now_iso now session check outcome (ok live) = do
  finish_login (finish_with_session_status (session live) now)
  record_market_outcome now_iso (error_of (check live))
  lift (check live)
  pure (outcome live)
settle now_iso now session check outcome (err e) = do
  finish_login (finish_after_error e now)
  record_market_outcome now_iso (some e.error)
  fail e.error

-- The checks that come before the permit, and the time that they read.
unfoldable pub market_gate : Config → MarketControlRequest → Text → ControllerM ℤ
market_gate config request now_iso c =
    ((if not (allows config.policy owner_auth_id (market_capability request))
        then fail (invalid_request "the configured policy does not permit this market read.")
        else do
          lift (validate_market request)
          now ← lift (ok_or (parse_iso8601_utc now_iso) SafeError.internal)
          lift (check_closed now_iso c.market_circuit_state)
          pure now)
      c)

module _ (Json : Type 0) where
  pub data MarketControlOutcome : Type 0 where
    search : MarketSearchResult → MarketSessionStatus → MarketControlOutcome
    details : MarketAssetDetailsResult Json → MarketSessionStatus → MarketControlOutcome
    indices : MarketIndicesResult → MarketSessionStatus → MarketControlOutcome

  -- What one call of each fetcher answers.
  pub record MarketFetchers : Type 0 where
    pub fetch_market_search :
        MarketSearchParams → Text → Result MarketLiveError MarketSearchLiveResult
    pub fetch_market_asset_details :
        MarketDetailsParams → Text → Result MarketLiveError (MarketAssetDetailsLiveResult Json)
    pub fetch_market_indices :
        MarketIndicesParams → Text → Result MarketLiveError MarketIndicesLiveResult

module _ {Json : Type 0} (encoded : MarketAssetDetailsResult Json → Option ℕ) where
  check_size : Option ℕ → Result SafeError (Unit {0})
  check_size none = err SafeError.internal
  check_size (some bytes) =
      if ltb max_details_response_bytes bytes
      then err SafeError.market_unexpected_response
      else ok tt

  -- `MarketAssetDetailsResult::validate_response_size`
  unfoldable pub validate_response_size :
      MarketAssetDetailsResult Json → Result SafeError (Unit {0})
  unfolding check_size
  validate_response_size result = check_size (encoded result)

  unfoldable pub read_market :
      MarketFetchers Json
      → MarketControlRequest
      → Text
      → ℤ
      → ControllerM (MarketControlOutcome Json)
  read_market f (market_search_asset p) now_iso now =
      settle now_iso now (λ live. live.session) (λ live. ok tt)
        (λ live. MarketControlOutcome.search live.result live.session)
        (f.fetch_market_search p now_iso)
  read_market f (market_get_asset_details p) now_iso now =
      settle now_iso now (λ live. live.session) (λ live. validate_response_size live.result)
        (λ live. MarketControlOutcome.details live.result live.session)
        (f.fetch_market_asset_details p now_iso)
  read_market f (market_get_indices p) now_iso now =
      settle now_iso now (λ live. live.session) (λ live. ok tt)
        (λ live. MarketControlOutcome.indices live.result live.session)
        (f.fetch_market_indices p now_iso)

  unfoldable pub handle_market_control :
      Config
      → MarketFetchers Json
      → MarketControlRequest
      → Text
      → ControllerM (MarketControlOutcome Json)
  handle_market_control config f request now_iso = do
    now ← market_gate config request now_iso
    begin_market_live_operation now_iso
    read_market f request now_iso now
