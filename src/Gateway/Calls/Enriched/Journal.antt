-- ===== src/Gateway/Calls/Enriched/Journal.antt =====
-- crates/fineco-gateway/src/lib.rs: what a call for an asset's details leaves in the journal.

use fineco_helper.Base.{
  Bool, Option, Result, ℕ, ◌∷◌, none, true, false, ok, err, ◌≡◌, refl, ◌≤◌, ◌+◌, ◌++◌, ◌&&◌, ◌||◌,
  not, is_some, is_ok, arith, Bool-cases, inl, inr, ap, sym, ◌∙◌, subst, continue,
}
use fineco_helper.Ipc.Market.{MarketDetailsParams, MarketSessionStatus}
use fineco_helper.Ipc.Details.{MarketAssetDetailsResult}
use fineco_helper.Ipc.Capability.{Policy, Capability, audit_data_class}
use fineco_helper.Ipc.Validate.{
  MarketControlRequest, validate_details, validate_market, market_capability,
}
use fineco_helper.Controller.Market.{MarketControlOutcome}
use fineco_helper.Core.SafeError.{SafeError}
use fineco_helper.Gateway.Calls.{
  ErrorData, Served, Timing, Refusal, DispatchM, Client, AuditRecord, entry_of, audited, authorize,
  admitted, after_policy, market_control_dispatch, is_allowed,
}
use fineco_helper.Gateway.Calls.Guarded.{
  bit, outcome_of, IsGuarded, Agree, after_lift, denial, denied, ask_market-IsGuarded,
}
use fineco_helper.Gateway.Calls.Enriched.{
  needs_external, authorize_external_enrichment_for_details, MarketClient, Ended, with_session,
  noting, details_end, settle_details, details_dispatch, market_asset_details_call,
  details_params_for_fineco_worker,
}
use fineco_helper.Gateway.Calls.Enriched.Notes.{Notes, quiet, settle_details-Fetches}

abbrev external_allowed : Option Policy → MarketDetailsParams → Bool
external_allowed policy params =
    not (needs_external params) || is_allowed policy Capability.market_read

-- Whether the policy allows a details call: the enrichment needs a capability of its own.
unfoldable pub allows_details : Option Policy → MarketDetailsParams → Bool
allows_details policy params =
    is_allowed policy Capability.market_authenticated_read && external_allowed policy params

passed :
    (policy : Option Policy) (capability : Capability)
    → is_allowed policy capability ≡ true
    → admitted policy capability (ok tt) ≡ ok tt
unfolding admitted authorize
passed policy capability h = rw h refl

details_end-Agree :
    {A : Type 0} (r : Result (Refusal × Option MarketSessionStatus) (A × MarketSessionStatus))
    → Agree (details_end r)
details_end-Agree (ok (details, session)) = (refl, refl)
details_end-Agree (err ((code, e), session)) = (refl, refl)

-- A details call added its record to the journal, after at most one record of an enrichment.
pub record IsAuditedDetails {T : Type 0} (enriches allowed : Bool) (s : Served)
    (end : Result ErrorData T × Served) : Type 0 where
  pub entry : AuditRecord
  pub before : Served
  pub fetched : Notes enriches s before
  pub written : end.1.journal ≡ entry ∷ before.journal
  pub tool_named : entry.tool ≡ "market_get_asset_details"
  pub class_named : entry.data_class ≡ audit_data_class Capability.market_authenticated_read
  pub outcome_told : entry.outcome ≡ outcome_of end.0
  pub code_told : is_some entry.error_code ≡ not (is_ok end.0)
  pub asked_allowed : end.1.asked ≤ s.asked + bit allowed

external_denied :
    (policy : Option Policy) (needs : Bool) (valid : Result SafeError (Unit {0}))
    → (not needs || is_allowed policy Capability.market_read) ≡ false
    → after_policy (authorize_external_enrichment_for_details policy needs) valid ≡ err denial
unfolding authorize_external_enrichment_for_details authorize
external_denied policy true valid h = rw h refl
external_denied policy false valid h = absurd cc

module _ {Json : Type 0} (encoded : MarketAssetDetailsResult Json → Option ℕ)
    {Report EtfReport : Type 0} (fetched : Timing)
    (add_stock : Report → MarketAssetDetailsResult Json → MarketAssetDetailsResult Json)
    (add_etf : EtfReport → MarketAssetDetailsResult Json → MarketAssetDetailsResult Json)
    (market : Option (MarketClient Report EtfReport)) (params : MarketDetailsParams)
    (policy : Option Policy) (timing : Timing)
    (controller : Option (Client MarketControlRequest (MarketControlOutcome Json))) where
  abbrev dispatched : DispatchM (MarketControlOutcome Json)
  dispatched =
      details_dispatch fetched add_stock add_etf market params encoded policy timing controller

  dispatched_denied :
      (s : Served) → allows_details policy params ≡ false → dispatched s ≡ (err denial, s)
  unfolding details_dispatch allows_details
  dispatched_denied s h =
      elim (Bool-cases (is_allowed policy Capability.market_authenticated_read)) [
        | inl e ↦
            let external =
              external_denied policy (needs_external params) (validate_details params)
                (sym (ap (λ b. b && external_allowed policy params) e) ∙ h) in
            rw (passed policy Capability.market_authenticated_read e) (rw external refl)
        | inr e ↦ rw (denied policy Capability.market_authenticated_read (ok tt) e) refl
      ]

  dispatched-IsGuarded : IsGuarded true dispatched
  unfolding details_dispatch market_control_dispatch
  dispatched-IsGuarded =
      let request =
        MarketControlRequest.market_get_asset_details (details_params_for_fineco_worker params) in
      after_lift (admitted policy Capability.market_authenticated_read (ok tt)) _ (
        after_lift
          (after_policy (authorize_external_enrichment_for_details policy (needs_external params))
            (validate_details params))
          _
          (after_lift (admitted policy (market_capability request) (validate_market request)) _
            (ask_market-IsGuarded encoded policy timing controller request)))

  abbrev settled :
      Result Refusal (MarketControlOutcome Json)
      → Ended (MarketAssetDetailsResult Json × MarketSessionStatus)
  settled r =
      continue (with_session none r)
        (settle_details fetched add_stock add_etf market params encoded)

  abbrev Kept : Bool → Served → Served → Type 0
  Kept allowed s s' =
      Notes (allowed && needs_external params) s s' × (s'.asked ≤ s.asked + bit allowed)

  settled-Kept :
      (r : Result Refusal (MarketControlOutcome Json)) (s s1 : Served)
      → s1.journal ≡ s.journal
      → s1.asked ≤ s.asked + 1
      → Kept true s (settled r s1).1
  settled-Kept (err e) s s1 j a = (quiet _ s s1 j, a)
  settled-Kept (ok o) s s1 j a =
      let (n, same) = settle_details-Fetches fetched add_stock add_etf market params encoded o s1 in
      (
        record {
          notes = n.notes;
          noted = n.noted ∙ ap (λ journal. n.notes ++ journal) j;
          named = n.named;
          few_notes = n.few_notes;
        },
        subst (λ k. k ≤ s.asked + 1) (sym same) a,
      )

  run-Kept :
      (s : Served)
      → Kept (allows_details policy params) s (settled (dispatched s).0 (dispatched s).1).1
  run-Kept s = elim (Bool-cases (allows_details policy params)) [
    | inl granted ↦
        subst (λ b. Kept b s (settled (dispatched s).0 (dispatched s).1).1) (sym granted)
          (settled-Kept (dispatched s).0 s (dispatched s).1 (dispatched-IsGuarded.silent s)
            (dispatched-IsGuarded.few s))
    | inr closed ↦
        subst (λ q. Kept (allows_details policy params) s (settled q.0 q.1).1)
          (sym (dispatched_denied s closed)) (quiet _ s s refl, omega arith)
  ]

  pub market_asset_details_call-IsAuditedDetails :
      (s : Served)
      → IsAuditedDetails
          (allows_details policy params && needs_external params)
          (allows_details policy params)
          s
          (market_asset_details_call fetched add_stock add_etf market params encoded policy timing
            controller s)
  unfolding market_asset_details_call audited entry_of noting
  market_asset_details_call-IsAuditedDetails s =
      let (r, before) = settled (dispatched s).0 (dispatched s).1 in
      record {
        entry =
            entry_of timing "market_get_asset_details"
              (audit_data_class Capability.market_authenticated_read) (details_end r).1;
        before = before;
        fetched = (run-Kept s).0;
        written = refl;
        tool_named = refl;
        class_named = refl;
        outcome_told = (details_end-Agree r).0;
        code_told = (details_end-Agree r).1;
        asked_allowed = (run-Kept s).1;
      }
