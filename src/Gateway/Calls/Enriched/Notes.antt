-- ===== src/Gateway/Calls/Enriched/Notes.antt =====
-- crates/fineco-gateway/src/lib.rs: an enrichment leaves at most one record in the journal.

use fineco_helper.Base.{
  Bool, Text, List, Option, Result, ℕ, [], ◌∷◌, none, some, true, false, ok, err, ◌≡◌, refl, ◌≤◌,
  ◌++◌, length, All, arith, sym, subst, lift, ◌>>◌, pure, continue,
}
use fineco_helper.Ipc.Market.{MarketDetailsParams, MarketAssetType, MarketSessionStatus}
use fineco_helper.Ipc.Details.{MarketAssetDetailsResult}
use fineco_helper.Controller.Market.{MarketControlOutcome, validate_response_size}
use fineco_helper.Core.SafeError.{SafeError}
use fineco_helper.Gateway.Calls.{Served, Timing, Refusal, AuditRecord, entry_of, refused}
use fineco_helper.Gateway.Calls.Guarded.{bit}
use fineco_helper.Gateway.Calls.Enriched.{
  needs_external, enrichment_tool, MarketClient, Ended, with_session, noting, after_fetch,
  stock_enrichment, etf_enrichment_of, etf_enrichment, enrichment_by_type,
  append_external_enrichment, enrich_if, settle_details,
}

-- Records of enrichment fetches, at most one and only where `may`, that were added to a journal.
pub record Notes (may : Bool) (s s' : Served) : Type 0 where
  pub notes : List AuditRecord
  pub noted : s'.journal ≡ notes ++ s.journal
  pub named : All (λ r. r.tool ≡ enrichment_tool) notes
  pub few_notes : length notes ≤ bit may

pub quiet : (may : Bool) (s s' : Served) → s'.journal ≡ s.journal → Notes may s s'
quiet may s s' e = record { notes = []; noted = e; named = tt; few_notes = omega arith }

-- A step that fetches at most one enrichment, and asks no worker.
abbrev pub Fetches : {E A : Type 0} → Bool → (Served → Result E A × Served) → Type 0
Fetches may m = (s : Served) → Notes may s (m s).1 × ((m s).1.asked ≡ s.asked)

module _ {Json : Type 0} where
  after_fetch-Fetches :
      {Report : Type 0} (fetched : Timing) (unavailable : Text)
      (add : Report → MarketAssetDetailsResult Json → MarketAssetDetailsResult Json)
      (r : Result SafeError Report) (details : MarketAssetDetailsResult Json)
      → Fetches true (after_fetch fetched unavailable add r details)
  unfolding after_fetch entry_of
  after_fetch-Fetches fetched unavailable add (ok report) details s =
      (record { notes = _ ∷ []; noted = refl; named = (refl, tt); few_notes = omega arith }, refl)
  after_fetch-Fetches fetched unavailable add (err e) details s =
      (record { notes = _ ∷ []; noted = refl; named = (refl, tt); few_notes = omega arith }, refl)

module _ {Json Report EtfReport : Type 0} (fetched : Timing)
    (add_stock : Report → MarketAssetDetailsResult Json → MarketAssetDetailsResult Json)
    (add_etf : EtfReport → MarketAssetDetailsResult Json → MarketAssetDetailsResult Json)
    (market : Option (MarketClient Report EtfReport)) (params : MarketDetailsParams) where
  stock_enrichment-Fetches :
      (client : Option (MarketClient Report EtfReport)) (details : MarketAssetDetailsResult Json)
      → Fetches true (stock_enrichment fetched add_stock add_etf market params client details)
  stock_enrichment-Fetches none details s = (quiet true s s refl, refl)
  stock_enrichment-Fetches (some client) details s =
      after_fetch-Fetches fetched _ add_stock _ details s

  etf_enrichment_of-Fetches :
      (client : MarketClient Report EtfReport) (isin : Option Text)
      (details : MarketAssetDetailsResult Json)
      → Fetches true (etf_enrichment_of fetched add_stock add_etf market params client isin details)
  etf_enrichment_of-Fetches client none details s = (quiet true s s refl, refl)
  etf_enrichment_of-Fetches client (some isin) details s =
      after_fetch-Fetches fetched _ add_etf _ details s

  etf_enrichment-Fetches :
      (client : Option (MarketClient Report EtfReport)) (details : MarketAssetDetailsResult Json)
      → Fetches true (etf_enrichment fetched add_stock add_etf market params client details)
  etf_enrichment-Fetches none details s = (quiet true s s refl, refl)
  etf_enrichment-Fetches (some client) details s = etf_enrichment_of-Fetches client _ details s

  enrichment_by_type-Fetches :
      (kind : MarketAssetType) (details : MarketAssetDetailsResult Json)
      → Fetches true (enrichment_by_type fetched add_stock add_etf market params kind details)
  enrichment_by_type-Fetches MarketAssetType.stock details s = stock_enrichment-Fetches _ details s
  enrichment_by_type-Fetches MarketAssetType.etf details s = etf_enrichment-Fetches _ details s
  enrichment_by_type-Fetches MarketAssetType.bond details s = (quiet true s s refl, refl)
  enrichment_by_type-Fetches MarketAssetType.cfd details s = (quiet true s s refl, refl)
  enrichment_by_type-Fetches MarketAssetType.fixed_leverage details s = (quiet true s s refl, refl)
  enrichment_by_type-Fetches MarketAssetType.turbo details s = (quiet true s s refl, refl)
  enrichment_by_type-Fetches MarketAssetType.knockout details s = (quiet true s s refl, refl)
  enrichment_by_type-Fetches MarketAssetType.fx_cfd details s = (quiet true s s refl, refl)
  enrichment_by_type-Fetches MarketAssetType.unknown details s = (quiet true s s refl, refl)

  enrich_if-Fetches :
      (needs : Bool) (details : MarketAssetDetailsResult Json)
      → Fetches needs (enrich_if fetched add_stock add_etf market params needs details)
  unfolding append_external_enrichment
  enrich_if-Fetches true details s =
      enrichment_by_type-Fetches details.asset.asset_type.value details s
  enrich_if-Fetches false details s = (quiet false s s refl, refl)

  module _ (encoded : MarketAssetDetailsResult Json → Option ℕ) where
    abbrev checks :
        MarketSessionStatus
        → MarketAssetDetailsResult Json
        → Ended (MarketAssetDetailsResult Json × MarketSessionStatus)
    checks session details = do
      noting (some session) (lift (refused (validate_response_size encoded details)))
      pure (details, session)

    checked :
        (v : Result Refusal (Unit {0})) (session : MarketSessionStatus)
        (end : MarketAssetDetailsResult Json × MarketSessionStatus) (s : Served)
        → (continue (with_session (some session) v) (λ _. pure end) s).1 ≡ s
    checked (ok _) session end s = refl
    checked (err e) session end s = refl

    checks_same :
        (r : Result Refusal (MarketAssetDetailsResult Json)) (session : MarketSessionStatus)
        (s : Served)
        → (continue (with_session (some session) r) (checks session) s).1 ≡ s
    unfolding noting
    checks_same (ok details) session s =
        checked (refused (validate_response_size encoded details)) session (details, session) s
    checks_same (err e) session s = refl

    pub settle_details-Fetches :
        (o : MarketControlOutcome Json)
        → Fetches
            (needs_external params)
            (settle_details fetched add_stock add_etf market params encoded o)
    unfolding settle_details noting
    settle_details-Fetches (MarketControlOutcome.details result session) s =
        let (r, s') =
          enrich_if fetched add_stock add_etf market params (needs_external params) result s in
        subst (λ t. Notes (needs_external params) s t × (t.asked ≡ s.asked))
          (sym (checks_same r session s')) (enrich_if-Fetches (needs_external params) result s)
    settle_details-Fetches (MarketControlOutcome.search result session) s = (quiet _ s s refl, refl)
    settle_details-Fetches (MarketControlOutcome.indices result session) s =
        (quiet _ s s refl, refl)
