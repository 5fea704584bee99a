-- ===== src/Refresh/Retry/Bounds.antt =====
-- crates/fineco-refresh/src/lib.rs: how often `with_retry` calls the operation.
use fineco_helper.Core.SafeError.{SafeError}
use fineco_helper.Refresh.Retry.{
  after_answer, attempt_from, with_retry, Tried, RetryPolicy, is_transient, pause, backoff,
}
use fineco_helper.Base.{
  [], false, inl, inr, ok, err, zero, suc, refl, Result, ℕ, ◌≤◌, List, max, ◌≡◌, arith, ◌+◌, ◌-◌,
  Bool-cases, ◌∷◌, true, String, ◌⊎◌, All, eq_iff,
}
use fineco_helper.Refresh.Preflight.{is_upstream_failure}

-- The operation with its calls counted.
abbrev pub counting :
    {W A : Type 0} → (W → Result SafeError A × W) → W × ℕ → Result SafeError A × (W × ℕ)
counting op (w, n) = let (r, w') = op w in (r, (w', suc n))

abbrev pub calls_of : {W A : Type 0} → Tried (W × ℕ) A → ℕ
calls_of t = t.world.1

abbrev pub IsBetween : ℕ → ℕ → ℕ → Type 0
IsBetween a b n = (a ≤ n) × (n ≤ b)

-- The errors that a retry is for: those that say so, of a timeout or of the bank's server.
abbrev pub upstream_codes : List String
upstream_codes = "fineco_timeout" ∷ "fineco_upstream_error" ∷ []

-- An error that says it is not to be retried, or whose code is neither of the two.
abbrev pub IsPermanent : SafeError → Type 0
IsPermanent e = (e.retryable ≡ false) ⊎ All (λ code. ¬ (e.code ≡ code)) upstream_codes

is_transient-permanent : (e : SafeError) → IsPermanent e → is_transient e ≡ false
unfolding is_transient is_upstream_failure
is_transient-permanent e (inl h) = rw h refl
is_transient-permanent e (inr (t, (u, _))) =
    ground (arith, t, u, eq_iff e.code "fineco_timeout", eq_iff e.code "fineco_upstream_error")

is_transient-retryable :
    (e : SafeError)
    → e.retryable ≡ true
    → (e.code ≡ "fineco_timeout") ⊎ (e.code ≡ "fineco_upstream_error")
    → is_transient e ≡ true
unfolding is_transient is_upstream_failure
is_transient-retryable e h (inl t) = rw (h, t) refl
is_transient-retryable e h (inr u) = rw (h, u) refl

module _ {W A : Type 0} (op : W → Result SafeError A × W) (policy : RetryPolicy) where
  after_answer-calls :
      (r : Result SafeError A) (w : W) (n m : ℕ) (ds : List ℕ) (next : Tried (W × ℕ) A)
      → n ≤ m
      → IsBetween n m (calls_of next)
      → IsBetween n m (calls_of (after_answer r (w, n) ds next))
  unfolding after_answer
  after_answer-calls (ok a) w n m ds next l h = (omega arith, l)
  after_answer-calls (err e) w n m ds next l h = elim (Bool-cases (is_transient e)) [
    | inl again ↦ rw again h
    | inr stop ↦ rw stop (omega arith, l)
  ]

  attempt_from-calls :
      (attempt left : ℕ) (w : W) (n : ℕ) (ds : List ℕ)
      → IsBetween
          (suc n)
          (suc n + left)
          (calls_of (attempt_from (counting op) policy attempt left (w, n) ds))
  unfolding attempt_from
  attempt_from-calls attempt zero w n ds = (omega arith, omega arith)
  attempt_from-calls attempt (suc left) w n ds =
      let (r, w') = op w in
      let pauses = pause (backoff policy.backoff_base attempt) ds in
      let next = attempt_from-calls (suc attempt) left w' (suc n) pauses in
      after_answer-calls r w' (suc n) (suc n + suc left) ds
        (attempt_from (counting op) policy (suc attempt) left (w', suc n) pauses) (omega arith)
        (omega (arith, next.0), omega (arith, next.1))

  -- `with_retry` calls its operation at least once and at most `max_attempts` times, or once where
  -- that is 0.
  pub with_retry-calls :
      (w : W)
      → IsBetween 1 (max policy.max_attempts 1) (calls_of (with_retry (counting op) policy (w, 0)))
  unfolding with_retry
  with_retry-calls w =
      let h = attempt_from-calls 1 (max policy.max_attempts 1 - 1) w 0 [] in
      (h.0, omega (arith, h.1))

  -- An error that says it is not to be retried, or whose code is neither that of a timeout nor that of
  -- an upstream error, is the answer at once: one call and no pause.
  pub with_retry_permanent :
      (w : W) (e : SafeError)
      → (op w).0 ≡ err e
      → IsPermanent e
      → with_retry op policy w ≡ record { answer = err e; world = (op w).1; pauses = [] }
  unfolding with_retry attempt_from after_answer
  with_retry_permanent w e f h = permanent (max policy.max_attempts 1 - 1)
    where
      permanent :
          (left : ℕ)
          → attempt_from op policy 1 left w []
            ≡ record { answer = err e; world = (op w).1; pauses = [] }
      permanent zero = rw f refl
      permanent (suc left) = rw f (rw (is_transient-permanent e h) refl)

  -- A timeout or an upstream error that says it may be retried is retried: the operation is called a
  -- second time, where the policy has two attempts or more.
  pub with_retry_transient :
      (w : W) (e : SafeError)
      → (op w).0 ≡ err e
      → e.retryable ≡ true
      → (e.code ≡ "fineco_timeout") ⊎ (e.code ≡ "fineco_upstream_error")
      → 2 ≤ policy.max_attempts
      → 2 ≤ calls_of (with_retry (counting op) policy (w, 0))
  unfolding with_retry attempt_from after_answer
  with_retry_transient w e f r c h = again (max policy.max_attempts 1 - 1) (omega (arith, h))
    where
      again :
          (left : ℕ) → 1 ≤ left → 2 ≤ calls_of (attempt_from (counting op) policy 1 left (w, 0) [])
      again zero l = absurd (omega (arith, l))
      again (suc left) l = rw f (
          rw (is_transient-retryable e r c)
            (attempt_from-calls 2 left (op w).1 1 (pause (backoff policy.backoff_base 1) [])).0)
