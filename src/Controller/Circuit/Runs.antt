-- ===== src/Controller/Circuit/Runs.antt =====
-- crates/fineco-helper/src/controller.rs: what a run of outcomes makes of the breaker.
use fineco_helper.Core.SafeError
use fineco_helper.Base.Int.{ℤ, ltb_ℤ, saturating_sub}
use fineco_helper.Core.SafeError.{SafeError}
use fineco_helper.Base.{
  [], ◌∷◌, some, suc, Text, List, ℕ, ◌≡◌, Option, if◌then◌else◌, min, true, false, inl, inr, ok,
  err, refl, arith, ◌≤◌, Bool, Bool-cases, ◌<◌, leb, ap, ◌&&◌, ◌∙◌, ltb,
}
use fineco_helper.Core.Clock.{parse_iso8601_utc}
use fineco_helper.Controller.Circuit.{
  MarketCircuitState, closed_circuit, record_outcome, trips, failed_at, check_closed, check_failure,
  check_cooldown, circuit_cooldown_secs,
}

-- Outcomes, the latest first: when each was recorded, at which epoch, and its error.
pub record Recorded : Type 0 where
  pub now_iso : Text
  pub epoch : ℤ
  pub reads : parse_iso8601_utc now_iso ≡ some epoch
  pub error : Option SafeError

-- The breaker after the outcomes, from the closed one.
abbrev pub after : List Recorded → MarketCircuitState
after [] = closed_circuit
after (r ∷ rs) = (record_outcome r.now_iso r.error (after rs)).1

-- How many of the latest outcomes are upstream failures, without a break.
abbrev pub streak : List Recorded → ℕ
streak [] = 0
streak (r ∷ rs) = if trips r.error then suc (streak rs) else 0

failed_after :
    (r : Recorded) (s : MarketCircuitState)
    → trips r.error ≡ true
    → (record_outcome r.now_iso r.error s).1 ≡ record {
      consecutive_upstream_failures = min (suc s.consecutive_upstream_failures) 4294967295;
      newest_failure_epoch = some r.epoch;
    }
unfolding record_outcome failed_at
failed_after r s h = rw h (rw r.reads refl)

good_after :
    (r : Recorded) (s : MarketCircuitState)
    → trips r.error ≡ false
    → (record_outcome r.now_iso r.error s).1 ≡ closed_circuit
unfolding record_outcome
good_after r s h = rw h refl

-- The breaker counts the streak, up to the greatest `u32`.
after-streak :
    (rs : List Recorded) → (after rs).consecutive_upstream_failures ≡ min (streak rs) 4294967295
after-streak [] = omega arith
after-streak (r ∷ rs) = elim (Bool-cases (trips r.error)) [
  | inl t ↦
      ap (λ m. m.consecutive_upstream_failures) (failed_after r (after rs) t)
      ∙ rw t (omega (arith, after-streak rs))
  | inr f ↦
      ap (λ m. m.consecutive_upstream_failures) (good_after r (after rs) f) ∙ rw f (omega arith)
]

-- The time that the cooldown runs from.
after-newest :
    (r : Recorded) (rs : List Recorded)
    → 3 ≤ streak (r ∷ rs)
    → (after (r ∷ rs)).newest_failure_epoch ≡ some r.epoch
after-newest r rs h = elim (Bool-cases (trips r.error)) [
  | inl t ↦ ap (λ m. m.newest_failure_epoch) (failed_after r (after rs) t)
  | inr f ↦ absurd (ground (arith, h, f))
]

abbrev pub cooling : ℤ → Recorded → Bool
cooling now r = ltb_ℤ (saturating_sub now r.epoch) circuit_cooldown_secs

closed_early :
    (now_iso : Text) (s : MarketCircuitState)
    → s.consecutive_upstream_failures < 3
    → check_closed now_iso s ≡ ok tt
unfolding check_closed
closed_early now_iso s h = ground (arith, h)

closed_late :
    (now_iso : Text) (now newest : ℤ) (s : MarketCircuitState)
    → parse_iso8601_utc now_iso ≡ some now
    → 3 ≤ s.consecutive_upstream_failures
    → s.newest_failure_epoch ≡ some newest
    → check_closed now_iso s ≡ (
        if ltb_ℤ (saturating_sub now newest) circuit_cooldown_secs
        then err SafeError.market_circuit_open
        else ok tt)
unfolding check_closed check_failure check_cooldown
closed_late now_iso now newest s e h n =
    let late : ltb s.consecutive_upstream_failures 3 ≡ false = ground (arith, h) in
    rw late (rw n (rw e refl))

-- After any outcomes, read at times that parse, a market read is refused exactly when the latest three
-- or more of them are upstream failures and the last of these is less than 600 seconds old; else it
-- is let through.
pub check_closed-after :
    (r : Recorded) (rs : List Recorded) (now_iso : Text) (now : ℤ)
    → parse_iso8601_utc now_iso ≡ some now
    → check_closed now_iso (after (r ∷ rs)) ≡ (
        if leb 3 (streak (r ∷ rs)) && cooling now r
        then err SafeError.market_circuit_open
        else ok tt)
check_closed-after r rs now_iso now e = elim (Bool-cases (leb 3 (streak (r ∷ rs)))) [
  | inl long ↦
      let many : 3 ≤ streak (r ∷ rs) = ground (arith, long) in
      closed_late now_iso now r.epoch (after (r ∷ rs)) e
        (omega (arith, after-streak (r ∷ rs), many)) (after-newest r rs many)
      ∙ rw long refl
  | inr short ↦
      let few : streak (r ∷ rs) < 3 = ground (arith, short) in
      closed_early now_iso (after (r ∷ rs)) (omega (arith, after-streak (r ∷ rs), few))
      ∙ rw short refl
]
