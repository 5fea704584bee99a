-- ===== src/Gateway/Calls/Guarded.antt =====
-- crates/fineco-gateway/src/lib.rs: a dispatch asks a worker only where the policy allows it, and the
-- record of a call tells what the client received.
use fineco_helper.Base.{
  ◌∷◌, true, false, inl, inr, ok, err, refl, Bool, Result, String, Option, ℕ, ◌≡◌, is_some, ◌≤◌, ap,
  not, ◌+◌, is_ok, Bool-cases, lift, ◌>>=◌, arith, codes, none, some, continue, ◌∙◌, subst, sym,
}
use fineco_helper.Gateway.Calls.{
  ErrorData, audited, Served, DispatchM, Refusal, AuditRecord, Ending, Timing, admitted, authorize,
  is_allowed, ask, cached_end, entry_of, refresh_end, extracted, ask_refresh, market_end,
  ask_market, validate_market_control_outcome, Client,
}
use fineco_helper.Ipc.Capability.{Policy, Capability}
use fineco_helper.Core.SafeError.{SafeError}
use fineco_helper.Query.Dto.{ResponseBody, audit_count}
use fineco_helper.Live.Wire.{SafeErrorDto}
use fineco_helper.Ipc.Refresh.{RefreshOutcome, RefreshRequest}
use fineco_helper.Ipc.Details.{MarketAssetDetailsResult}
use fineco_helper.Controller.Market.{MarketControlOutcome}
use fineco_helper.Ipc.Validate.{MarketControlRequest}

abbrev pub bit : Bool → ℕ
bit true = 1
bit false = 0

abbrev pub outcome_of : {T : Type 0} → Result ErrorData T → String
outcome_of (ok value) = "ok"
outcome_of (err e) = "error"

-- A call added one record of its tool to the journal, which says how it ended, and handed at most one
-- request to a worker, and none where the policy does not allow it.
pub record IsAudited {T : Type 0} (tool data_class : String) (allowed : Bool) (s : Served)
    (end : Result ErrorData T × Served) : Type 0 where
  pub entry : AuditRecord
  pub written : end.1.journal ≡ entry ∷ s.journal
  pub tool_named : entry.tool ≡ tool
  pub class_named : entry.data_class ≡ data_class
  pub outcome_told : entry.outcome ≡ outcome_of end.0
  pub code_told : is_some entry.error_code ≡ not (is_ok end.0)
  pub asked_allowed : end.1.asked ≤ s.asked + bit allowed

-- A dispatch asks only where it may, and writes nothing.
pub record IsGuarded {A : Type 0} (allowed : Bool) (m : DispatchM A) : Type 0 where
  pub silent : (s : Served) → (m s).1.journal ≡ s.journal
  pub few : (s : Served) → (m s).1.asked ≤ s.asked + bit allowed

-- What a pair of an answer and its record's end has to fulfil.
abbrev pub Agree : {T : Type 0} → Result ErrorData T × Ending → Type 0
Agree (answer, ending) =
    (ending.outcome ≡ outcome_of answer) × (is_some ending.error_code ≡ not (is_ok answer))

pub audited-IsAudited :
    {A T : Type 0} (timing : Timing) (tool data_class : String) (allowed : Bool)
    (dispatched : DispatchM A) (finish : Result Refusal A → Result ErrorData T × Ending)
    (s : Served)
    → IsGuarded allowed dispatched
    → Agree (finish (dispatched s).0)
    → IsAudited tool data_class allowed s (audited timing tool data_class dispatched finish s)
unfolding audited entry_of
audited-IsAudited timing tool data_class allowed dispatched finish s g a = record {
  entry = entry_of timing tool data_class (finish (dispatched s).0).1;
  written = ap (◌∷◌ (entry_of timing tool data_class (finish (dispatched s).0).1)) (g.silent s);
  tool_named = refl;
  class_named = refl;
  outcome_told = a.0;
  code_told = a.1;
  asked_allowed = g.few s;
}

pub after_lift :
    {A : Type 0} (r : Result Refusal (Unit {0})) (m : DispatchM A)
    → IsGuarded true m
    → IsGuarded true (lift r >>= λ _. m)
after_lift (ok _) m g = g
after_lift (err e) m g = record { silent = λ s. refl; few = λ s. omega arith }

abbrev pub denial : Refusal
denial = (
  "policy_denied",
  ErrorData.invalid_request (codes "the configured policy does not permit this tool"),
)

module _ (policy : Option Policy) (capability : Capability) where
  pub denied :
      (valid : Result SafeError (Unit {0}))
      → is_allowed policy capability ≡ false
      → admitted policy capability valid ≡ err denial
  unfolding admitted authorize
  denied valid h = rw h refl

  -- What follows the policy asks at most once.
  pub guarded :
      {A : Type 0} (valid : Result SafeError (Unit {0})) (m : DispatchM A)
      → IsGuarded true m
      → IsGuarded
          (is_allowed policy capability)
          (lift (admitted policy capability valid) >>= λ _. m)
  guarded valid m g = elim (Bool-cases (is_allowed policy capability)) [
    | inl e ↦ rw e (after_lift (admitted policy capability valid) m g)
    | inr e ↦
        let is_refused = denied valid e in
        record { silent = λ s. rw is_refused refl; few = λ s. rw is_refused (omega arith) }
  ]

pub ask-IsGuarded :
    {A : Type 0} (lost : Refusal) (answer : Option (Result SafeErrorDto A))
    → IsGuarded true (ask lost answer)
unfolding ask
ask-IsGuarded lost answer = record { silent = λ s. refl; few = λ s. omega arith }

lifted_same :
    {A B : Type 0} (r : Result Refusal A) (f : A → Result Refusal B) (s : Served)
    → (continue r (λ a. lift (f a)) s).1 ≡ s
lifted_same (ok a) f s = refl
lifted_same (err e) f s = refl

-- A check of what was answered changes nothing.
then_check :
    {A B : Type 0} (m : DispatchM A) (f : A → Result Refusal B)
    → IsGuarded true m
    → IsGuarded true (m >>= λ a. lift (f a))
then_check m f g = record {
  silent = λ s. ap (λ t. t.journal) (lifted_same (m s).0 f (m s).1) ∙ g.silent s;
  few = λ s. subst (λ t. t.asked ≤ s.asked + 1) (sym (lifted_same (m s).0 f (m s).1)) (g.few s);
}

extracted-Agree :
    {T : Type 0} (count : Option ℕ) (r : Result ErrorData T) → Agree (extracted count r)
extracted-Agree count (ok value) = (refl, refl)
extracted-Agree count (err e) = (refl, refl)

pub cached_end-Agree :
    {T : Type 0} (extract : ResponseBody → Result ErrorData T) (r : Result Refusal ResponseBody)
    → Agree (cached_end extract r)
cached_end-Agree extract (ok body) = extracted-Agree (audit_count body) (extract body)
cached_end-Agree extract (err e) = (refl, refl)

pub refresh_end-Agree : (r : Result Refusal RefreshOutcome) → Agree (refresh_end r)
refresh_end-Agree (ok outcome) = (refl, refl)
refresh_end-Agree (err e) = (refl, refl)

module _ {Json : Type 0} (encoded : MarketAssetDetailsResult Json → Option ℕ) where
  pub market_end-Agree :
      (r : Result Refusal (MarketControlOutcome Json)) → Agree (market_end encoded r)
  market_end-Agree (ok (MarketControlOutcome.search result session)) = (refl, refl)
  market_end-Agree (ok (MarketControlOutcome.details result session)) = (refl, refl)
  market_end-Agree (ok (MarketControlOutcome.indices result session)) = (refl, refl)
  market_end-Agree (err e) = (refl, refl)

  pub ask_market-IsGuarded :
      (policy : Option Policy) (timing : Timing)
      (controller : Option (Client MarketControlRequest (MarketControlOutcome Json)))
      (request : MarketControlRequest)
      → IsGuarded true (ask_market policy timing encoded controller request)
  ask_market-IsGuarded policy timing none request = record {
    silent = λ s. refl;
    few = λ s. omega arith;
  }
  ask_market-IsGuarded policy timing (some controller) request =
      then_check _ (validate_market_control_outcome encoded request)
        (ask-IsGuarded _ (controller request))

pub ask_refresh-IsGuarded :
    (policy : Option Policy) (timing : Timing)
    (controller : Option (Client RefreshRequest RefreshOutcome)) (request : RefreshRequest)
    → IsGuarded true (ask_refresh policy timing controller request)
ask_refresh-IsGuarded policy timing none request = record {
  silent = λ s. refl;
  few = λ s. omega arith;
}
ask_refresh-IsGuarded policy timing (some controller) request = ask-IsGuarded _ (controller request)
