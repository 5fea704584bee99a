-- ===== src/Gateway/Calls/Enriched.antt =====
-- crates/fineco-gateway/src/lib.rs: `market_asset_details_call`, which joins the details of an asset
-- with an enrichment. What the values of a fetched report add to the details is a parameter, and so is
-- the market client; a fetch whose task could not run answers `SafeError::internal`.
pub mod Notes
pub mod Journal
use mathlib.Core.Option
use fineco_helper.Core.SafeError
use fineco_helper.Core.SafeError.{SafeError}
use fineco_helper.Base.{
  Bool, Text, List, Option, String, Result, Exec, ℕ, [], ◌∷◌, none, some, true, false, ok, err,
  keep, not, codes, ◌++◌, if◌then◌else◌, ltb, length, pure, fail, lift, ◌>>=◌, ◌>>◌,
}
use fineco_helper.Ipc.Market.{
  MarketDetailsParams, MarketDetailsSection, MarketWarning, MarketAssetType, MarketSessionStatus,
}
use fineco_helper.Ipc.Details.{MarketAssetDetailsResult}
use fineco_helper.Ipc.Capability.{Policy, Capability, audit_data_class}
use fineco_helper.Ipc.Validate.{MarketControlRequest, validate_details}
use fineco_helper.Controller.Market.{MarketControlOutcome, validate_response_size}
use fineco_helper.Gateway.Calls.{
  ErrorData, Served, Timing, Refusal, DispatchM, Client, Ending, AuditRecord, entry_of, emit,
  failed, succeeded, audited, authorize, admitted, after_policy, refused, market_control_dispatch,
}

abbrev pub is_external : MarketDetailsSection → Bool
is_external MarketDetailsSection.external_enrichment = true
is_external _ = false

abbrev pub has_external : List MarketDetailsSection → Bool
has_external [] = false
has_external (section ∷ sections) = if is_external section then true else has_external sections

abbrev pub some_external : Option (List MarketDetailsSection) → Bool
some_external none = false
some_external (some sections) = has_external sections

-- `wants_details_section(params, MarketDetailsSection::ExternalEnrichment)`
abbrev pub needs_external : MarketDetailsParams → Bool
needs_external p = some_external p.sections

abbrev pub or_identity : List MarketDetailsSection → List MarketDetailsSection
or_identity [] = MarketDetailsSection.identity ∷ []
or_identity (section ∷ sections) = section ∷ sections

-- The worker is not asked for the section that it does not have.
unfoldable pub details_params_for_fineco_worker : MarketDetailsParams → MarketDetailsParams
details_params_for_fineco_worker p = record p {
  sections =
      Option.map (λ sections. or_identity (keep (λ section. not (is_external section)) sections))
        p.sections;
}

unfoldable pub authorize_external_enrichment_for_details :
    Option Policy → Bool → Result ErrorData (Unit {0})
authorize_external_enrichment_for_details policy true = authorize policy Capability.market_read
authorize_external_enrichment_for_details policy false = ok tt

abbrev max_warnings : ℕ
max_warnings = 20

abbrev pub enrichment_tool : String
enrichment_tool = "external_enrichment.market_get_asset_details"

-- `external_enrichment_audit_record`
abbrev pub enrichment_entry : Timing → Ending → AuditRecord
enrichment_entry fetched ending = entry_of fetched enrichment_tool "external_enrichment" ending

-- The market client: which enrichments are configured, and what a fetch answers.
pub record MarketClient (Report EtfReport : Type 0) : Type 0 where
  pub stock_enrichment_enabled : Bool
  pub etf_enrichment_enabled : Bool
  pub fetch_enrichment : Text → Option Text → Result SafeError Report
  pub fetch_etf_enrichment : Text → Option Text → Result SafeError EtfReport

abbrev pub Ended : Type 0 → Type 0
Ended A = Exec Served (Refusal × Option MarketSessionStatus) A

module _ {A : Type 0} where
  abbrev pub with_session :
      Option MarketSessionStatus
      → Result Refusal A
      → Result (Refusal × Option MarketSessionStatus) A
  with_session session (ok a) = ok a
  with_session session (err e) = err (e, session)

  -- An error is recorded with the session that the worker reported, if it reported one.
  unfoldable pub noting : Option MarketSessionStatus → DispatchM A → Ended A
  noting session m s = let (r, s') = m s in (with_session session r, s')

-- The end of a details call.
abbrev pub details_end :
    {A : Type 0}
    → Result (Refusal × Option MarketSessionStatus) (A × MarketSessionStatus)
    → Result ErrorData A × Ending
details_end (ok (details, session)) = (ok details, succeeded (some 1) (some session))
details_end (err ((code, e), session)) = (err e, record (failed code) { session = session })

module _ {Json : Type 0} where
  unfoldable pub push_bounded_details_warning :
      Text → Text → MarketAssetDetailsResult Json → MarketAssetDetailsResult Json
  push_bounded_details_warning code message details =
      if ltb (length details.warnings) max_warnings
      then record details {
        warnings = details.warnings ++ record { code = code; message = message } ∷ [];
      }
      else details

  abbrev pub warn :
      Text → Text → MarketAssetDetailsResult Json → DispatchM (MarketAssetDetailsResult Json)
  warn code message details = pure (push_bounded_details_warning code message details)

  -- What follows a fetch: its record in the journal, and the report or a warning in the details.
  unfoldable pub after_fetch :
      {Report : Type 0}
      → Timing
      → Text
      → (Report → MarketAssetDetailsResult Json → MarketAssetDetailsResult Json)
      → Result SafeError Report
      → MarketAssetDetailsResult Json
      → DispatchM (MarketAssetDetailsResult Json)
  after_fetch fetched unavailable add (ok report) details s =
      (ok (add report details), emit (enrichment_entry fetched (succeeded (some 1) none)) s)
  after_fetch fetched unavailable add (err e) details s = (
    ok (
        push_bounded_details_warning (codes "external_enrichment_" ++ codes e.code)
          (unavailable ++ e.safe_message) details),
    emit (enrichment_entry fetched (failed e.code)) s,
  )

module _ {Json Report EtfReport : Type 0} (fetched : Timing)
    (add_stock : Report → MarketAssetDetailsResult Json → MarketAssetDetailsResult Json)
    (add_etf : EtfReport → MarketAssetDetailsResult Json → MarketAssetDetailsResult Json)
    (market : Option (MarketClient Report EtfReport)) (params : MarketDetailsParams) where
  abbrev pub stock_client :
      Option (MarketClient Report EtfReport) → Option (MarketClient Report EtfReport)
  stock_client none = none
  stock_client (some client) = if client.stock_enrichment_enabled then some client else none

  abbrev pub etf_client :
      Option (MarketClient Report EtfReport) → Option (MarketClient Report EtfReport)
  etf_client none = none
  etf_client (some client) = if client.etf_enrichment_enabled then some client else none

  abbrev pub stock_enrichment :
      Option (MarketClient Report EtfReport)
      → MarketAssetDetailsResult Json
      → DispatchM (MarketAssetDetailsResult Json)
  stock_enrichment none details =
      warn (codes "external_enrichment_unconfigured")
        (codes
          "External enrichment is not configured; Fineco details are returned without that supplemental section.")
        details
  stock_enrichment (some client) details =
      after_fetch fetched
        (codes
          "External enrichment was unavailable; Fineco details are returned without that supplemental section. ")
        add_stock (client.fetch_enrichment details.asset.identifier params.expected_isin) details

  abbrev pub etf_enrichment_of :
      MarketClient Report EtfReport
      → Option Text
      → MarketAssetDetailsResult Json
      → DispatchM (MarketAssetDetailsResult Json)
  etf_enrichment_of client none details =
      warn (codes "external_enrichment_missing_isin")
        (codes
          "ETF external enrichment requires an ISIN, which Fineco did not provide; the supplemental section is omitted.")
        details
  etf_enrichment_of client (some isin) details =
      after_fetch fetched
        (codes
          "ETF external enrichment was unavailable; Fineco details are returned without that supplemental section. ")
        add_etf (client.fetch_etf_enrichment isin params.expected_isin) details

  abbrev pub etf_enrichment :
      Option (MarketClient Report EtfReport)
      → MarketAssetDetailsResult Json
      → DispatchM (MarketAssetDetailsResult Json)
  etf_enrichment none details =
      warn (codes "external_enrichment_unconfigured")
        (codes
          "ETF external enrichment is not configured; Fineco details are returned without that supplemental section.")
        details
  etf_enrichment (some client) details =
      etf_enrichment_of client (Option.map (λ isin. isin.value) details.asset.isin) details

  abbrev pub enrichment_by_type :
      MarketAssetType → MarketAssetDetailsResult Json → DispatchM (MarketAssetDetailsResult Json)
  enrichment_by_type MarketAssetType.stock details = stock_enrichment (stock_client market) details
  enrichment_by_type MarketAssetType.etf details = etf_enrichment (etf_client market) details
  enrichment_by_type _ details =
      warn (codes "external_enrichment_unsupported_asset_type")
        (codes "external_enrichment is available for stock and ETF details only.") details

  unfoldable pub append_external_enrichment :
      MarketAssetDetailsResult Json → DispatchM (MarketAssetDetailsResult Json)
  append_external_enrichment details = enrichment_by_type details.asset.asset_type.value details

  abbrev pub enrich_if :
      Bool → MarketAssetDetailsResult Json → DispatchM (MarketAssetDetailsResult Json)
  enrich_if true details = append_external_enrichment details
  enrich_if false details = pure details

  module _ (encoded : MarketAssetDetailsResult Json → Option ℕ) where
    -- What follows the answer of the controller.
    unfoldable pub settle_details :
        MarketControlOutcome Json → Ended (MarketAssetDetailsResult Json × MarketSessionStatus)
    settle_details (MarketControlOutcome.details result session) = do
      details ← noting (some session) (enrich_if (needs_external params) result)
      noting (some session) (lift (refused (validate_response_size encoded details)))
      pure (details, session)
    settle_details _ = fail (
      ("controller_protocol_error", ErrorData.internal_error (codes "market request failed")),
      none,
    )

    module _ (policy : Option Policy) (timing : Timing)
        (controller : Option (Client MarketControlRequest (MarketControlOutcome Json))) where
      unfoldable pub details_dispatch : DispatchM (MarketControlOutcome Json)
      details_dispatch = do
        lift (admitted policy Capability.market_authenticated_read (ok tt))
        lift (
            after_policy (authorize_external_enrichment_for_details policy (needs_external params))
              (validate_details params))
        market_control_dispatch policy timing encoded controller (
            MarketControlRequest.market_get_asset_details (details_params_for_fineco_worker params))

      unfoldable pub market_asset_details_call :
          Served → Result ErrorData (MarketAssetDetailsResult Json) × Served
      market_asset_details_call =
          audited timing "market_get_asset_details"
            (audit_data_class Capability.market_authenticated_read)
            (do outcome ← noting none details_dispatch; settle_details outcome) details_end
