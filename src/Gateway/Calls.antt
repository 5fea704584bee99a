-- ===== src/Gateway/Calls.antt =====
-- crates/fineco-gateway/src/lib.rs and src/audit.rs: what a tool call does before and after a worker is
-- asked. What a worker answers is a parameter; `none` is a task that could not run. The state is the
-- journal, newest record first, and how many requests were handed to a worker.
pub mod Guarded
pub mod Enriched
pub mod Audited
use mathlib.Core.Option
use fineco_helper.Base.{
  ◌∷◌, none, some, false, ok, err, Text, List, String, Exec, codes, Result, Option, ℕ,
  if◌then◌else◌, ◌+◌, Bool, str_eq, ◌>>◌, fail, lift, [], true, not, length, ◌>>=◌, map_ok,
}
use fineco_helper.Live.Wire.{SafeErrorDto, error_dto}
use fineco_helper.Core.SafeError.{SafeError}
use fineco_helper.Query.Dto.{ResponseBody, audit_count}
use fineco_helper.Ipc.Capability.{Policy, owner_auth_id, Capability, allows, audit_data_class}
use fineco_helper.Ipc.Refresh.{
  RefreshOutcome, RefreshRequest, refresh_audit_tool, refresh_capability, validate_refresh,
}
use fineco_helper.Ipc.Market.{MarketSessionStatus, MarketSearchGroup}
use fineco_helper.Ipc.Request.{Request, audit_tool, required_capability, validate_bounds}
use fineco_helper.Ipc.Details.{MarketAssetDetailsResult}
use fineco_helper.Ipc.Validate.{
  MarketControlRequest, market_capability, market_audit_tool, validate_market,
}
use fineco_helper.Controller.Market.{MarketControlOutcome, validate_response_size}

-- `rmcp::ErrorData`
pub data ErrorData : Type 0 where
  invalid_request invalid_params internal_error : Text → ErrorData

pub record AuditRecord : Type 0 where
  pub ts : Text
  pub auth_id : String
  pub tool : String
  pub data_class : String
  pub outcome : String
  pub error_code : Option String
  pub duration_ms : ℕ
  pub result_count : Option ℕ
  pub login_performed : Option Bool
  pub session_reused : Option Bool
  pub session_evicted : Option Bool
  pub reused_session_401_recovered : Option Bool

pub record Served : Type 0 where
  pub journal : List AuditRecord
  pub asked : ℕ

abbrev pub Refusal : Type 0
Refusal = String × ErrorData

abbrev pub DispatchM : Type 0 → Type 0
DispatchM A = Exec Served Refusal A

unfoldable pub error_from_dto : SafeErrorDto → ErrorData
error_from_dto dto =
    if str_eq dto.class "validation"
    then ErrorData.invalid_params dto.safe_message
    else if str_eq dto.class "internal"
    then ErrorData.internal_error dto.safe_message
    else ErrorData.invalid_request dto.safe_message

abbrev pub unexpected : ErrorData
unexpected = ErrorData.internal_error (codes "unexpected worker response")

unfoldable pub audit_market_error : SafeError → Refusal
audit_market_error e = ((error_dto e).code, error_from_dto (error_dto e))

abbrev pub refused : {A : Type 0} → Result SafeError A → Result Refusal A
refused (ok a) = ok a
refused (err e) = err (audit_market_error e)

abbrev pub is_allowed : Option Policy → Capability → Bool
is_allowed none capability = false
is_allowed (some policy) capability = allows policy owner_auth_id capability

unfoldable pub authorize : Option Policy → Capability → Result ErrorData (Unit {0})
authorize policy capability =
    if is_allowed policy capability
    then ok tt
    else err (ErrorData.invalid_request (codes "the configured policy does not permit this tool"))

abbrev pub after_policy :
    Result ErrorData (Unit {0}) → Result SafeError (Unit {0}) → Result Refusal (Unit {0})
after_policy (err e) valid = err ("policy_denied", e)
after_policy (ok _) valid = refused valid

-- The policy first, and then the bounds of the request.
unfoldable pub admitted :
    Option Policy → Capability → Result SafeError (Unit {0}) → Result Refusal (Unit {0})
admitted policy capability valid = after_policy (authorize policy capability) valid

-- `Client::call` in a task of its own
abbrev pub Client : Type 0 → Type 0 → Type 0
Client R A = R → Option (Result SafeErrorDto A)

module _ {A : Type 0} where
  abbrev pub heard : Refusal → Option (Result SafeErrorDto A) → Result Refusal A
  heard lost none = err lost
  heard lost (some (ok a)) = ok a
  heard lost (some (err dto)) = err (dto.code, error_from_dto dto)

  -- One request to a worker.
  unfoldable pub ask : Refusal → Option (Result SafeErrorDto A) → DispatchM A
  ask lost answer s = (heard lost answer, record s { asked = s.asked + 1 })

-- The time of the record, and how long the call took.
pub record Timing : Type 0 where
  pub ts : Text
  pub duration_ms : ℕ

-- What a record says of a call's end: its outcome, code, count and session.
pub record Ending : Type 0 where
  pub outcome : String
  pub error_code : Option String
  pub result_count : Option ℕ
  pub session : Option MarketSessionStatus

unfoldable pub entry_of : Timing → String → String → Ending → AuditRecord
entry_of timing tool data_class e = record {
  ts = timing.ts;
  auth_id = owner_auth_id;
  tool = tool;
  data_class = data_class;
  outcome = e.outcome;
  error_code = e.error_code;
  duration_ms = timing.duration_ms;
  result_count = e.result_count;
  login_performed = Option.map (λ status. status.login_performed) e.session;
  session_reused = Option.map (λ status. status.session_reused) e.session;
  session_evicted = Option.map (λ status. status.session_evicted) e.session;
  reused_session_401_recovered =
      Option.map (λ status. status.reused_session_401_recovered) e.session;
}

abbrev pub emit : AuditRecord → Served → Served
emit entry s = record s { journal = entry ∷ s.journal }

abbrev pub failed : String → Ending
failed code = record {
  outcome = "error";
  error_code = some code;
  result_count = none;
  session = none;
}

abbrev pub succeeded : Option ℕ → Option MarketSessionStatus → Ending
succeeded count session = record {
  outcome = "ok";
  error_code = none;
  result_count = count;
  session = session;
}

-- A dispatch, the record of its end, and what the client receives.
unfoldable pub audited :
    {E A T : Type 0}
    → Timing
    → String
    → String
    → Exec Served E A
    → (Result E A → Result ErrorData T × Ending)
    → Served
    → Result ErrorData T × Served
audited timing tool data_class dispatched finish s =
    let (r, s') = dispatched s in
    let (answer, ending) = finish r in (answer, emit (entry_of timing tool data_class ending) s')

abbrev pub extracted : {T : Type 0} → Option ℕ → Result ErrorData T → Result ErrorData T × Ending
extracted count (ok value) = (ok value, succeeded count none)
extracted count (err e) = (err e, failed "unexpected_response")

-- The end of a cached read: an answer that does not fit the request is an error.
abbrev pub cached_end :
    {T : Type 0}
    → (ResponseBody → Result ErrorData T)
    → Result Refusal ResponseBody
    → Result ErrorData T × Ending
cached_end extract (err (code, e)) = (err e, failed code)
cached_end extract (ok body) = extracted (audit_count body) (extract body)

abbrev pub refresh_end : Result Refusal RefreshOutcome → Result ErrorData RefreshOutcome × Ending
refresh_end (err (code, e)) = (err e, failed code)
refresh_end (ok outcome) = (ok outcome, succeeded (some outcome.count) none)

module _ {Json : Type 0} (encoded : MarketAssetDetailsResult Json → Option ℕ) where
  abbrev pub matches_request : MarketControlRequest → MarketControlOutcome Json → Bool
  matches_request (MarketControlRequest.market_search_asset p)
        (MarketControlOutcome.search result session) =
      true
  matches_request (MarketControlRequest.market_get_asset_details p)
        (MarketControlOutcome.details result session) =
      true
  matches_request (MarketControlRequest.market_get_indices p)
        (MarketControlOutcome.indices result session) =
      true
  matches_request _ _ = false

  abbrev pub check_outcome : MarketControlOutcome Json → Result SafeError (Unit {0})
  check_outcome (MarketControlOutcome.search result session) = ok tt
  check_outcome (MarketControlOutcome.details result session) =
      validate_response_size encoded result
  check_outcome (MarketControlOutcome.indices result session) = ok tt

  unfoldable pub validate_market_control_outcome :
      MarketControlRequest → MarketControlOutcome Json → Result Refusal (MarketControlOutcome Json)
  validate_market_control_outcome request outcome =
      if not (matches_request request outcome)
      then err
          ("controller_protocol_error", ErrorData.internal_error (codes "market request failed"))
      else map_ok (λ _. outcome) (refused (check_outcome outcome))

  abbrev pub count_candidates : List MarketSearchGroup → ℕ
  count_candidates [] = 0
  count_candidates (group ∷ groups) = length group.candidates + count_candidates groups

  abbrev pub market_ending : MarketControlOutcome Json → Ending
  market_ending (MarketControlOutcome.search result session) =
      succeeded (some (count_candidates result.groups)) (some session)
  market_ending (MarketControlOutcome.details result session) = succeeded (some 1) (some session)
  market_ending (MarketControlOutcome.indices result session) =
      succeeded (some (length result.indices)) (some session)

  abbrev pub market_end :
      Result Refusal (MarketControlOutcome Json)
      → Result ErrorData (MarketControlOutcome Json) × Ending
  market_end (err (code, e)) = (err e, failed code)
  market_end (ok outcome) = (ok outcome, market_ending outcome)

module _ (policy : Option Policy) (timing : Timing) where
  unfoldable pub dispatch : Client Request ResponseBody → Request → DispatchM ResponseBody
  dispatch worker request = do
    lift (admitted policy (required_capability request) (validate_bounds request))
    ask ("worker_unavailable", ErrorData.internal_error (codes "worker request failed"))
        (worker request)

  unfoldable pub call :
      {T : Type 0}
      → Client Request ResponseBody
      → (ResponseBody → Result ErrorData T)
      → Request
      → Served
      → Result ErrorData T × Served
  call worker extract request =
      audited timing (audit_tool request) (audit_data_class (required_capability request))
        (dispatch worker request) (cached_end extract)

  abbrev pub ask_refresh :
      Option (Client RefreshRequest RefreshOutcome) → RefreshRequest → DispatchM RefreshOutcome
  ask_refresh none request = fail (
    "live_refresh_unconfigured",
    ErrorData.internal_error (codes "live refresh is not configured"),
  )
  ask_refresh (some controller) request =
      ask ("controller_unavailable", ErrorData.internal_error (codes "refresh request failed"))
        (controller request)

  unfoldable pub refresh_dispatch :
      Option (Client RefreshRequest RefreshOutcome) → RefreshRequest → DispatchM RefreshOutcome
  refresh_dispatch controller request = do
    lift (admitted policy (refresh_capability request) (validate_refresh request))
    ask_refresh controller request

  unfoldable pub refresh_call :
      Option (Client RefreshRequest RefreshOutcome)
      → RefreshRequest
      → Served
      → Result ErrorData RefreshOutcome × Served
  refresh_call controller request =
      audited timing (refresh_audit_tool request) (audit_data_class (refresh_capability request))
        (refresh_dispatch controller request) refresh_end

  module _ {Json : Type 0} (encoded : MarketAssetDetailsResult Json → Option ℕ) where
    abbrev pub ask_market :
        Option (Client MarketControlRequest (MarketControlOutcome Json))
        → MarketControlRequest
        → DispatchM (MarketControlOutcome Json)
    ask_market none request = fail (
      "market_control_unconfigured",
      ErrorData.internal_error (codes "authenticated market reads are not configured"),
    )
    ask_market (some controller) request = do
      outcome ←
          ask ("controller_unavailable", ErrorData.internal_error (codes "market request failed"))
            (controller request)
      lift (validate_market_control_outcome encoded request outcome)

    unfoldable pub market_control_dispatch :
        Option (Client MarketControlRequest (MarketControlOutcome Json))
        → MarketControlRequest
        → DispatchM (MarketControlOutcome Json)
    market_control_dispatch controller request = do
      lift (admitted policy (market_capability request) (validate_market request))
      ask_market controller request

    unfoldable pub market_control_call :
        Option (Client MarketControlRequest (MarketControlOutcome Json))
        → MarketControlRequest
        → Served
        → Result ErrorData (MarketControlOutcome Json) × Served
    market_control_call controller request =
        audited timing (market_audit_tool request) (audit_data_class (market_capability request))
          (market_control_dispatch controller request) (market_end encoded)
