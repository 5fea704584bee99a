-- ===== src/Refresh/Retry.antt =====
-- crates/fineco-refresh/src/lib.rs: retries. The operation acts on a world of its own (what the calls
-- may change), and the pauses taken are listed, the latest first, in nanoseconds.
pub mod Bounds
use fineco_helper.Core.SafeError.{SafeError}
use fineco_helper.Base.{
  [], ◌∷◌, some, true, false, ok, err, zero, suc, ℕ, Bool, Result, min, ◌&&◌, List, max, ◌*◌,
  if◌then◌else◌, ◌-◌, ◌^◌, ◌==◌,
}
use fineco_helper.Refresh.Preflight.{is_upstream_failure}

pub record RetryPolicy : Type 0 where
  pub max_attempts : ℕ
  pub backoff_base : ℕ

-- `RetryPolicy::immediate`
unfoldable pub immediate : ℕ → RetryPolicy
immediate attempts = record { max_attempts = attempts; backoff_base = 0 }

abbrev u32_max : ℕ
u32_max = 4294967295

-- `Duration::MAX` in nanoseconds
abbrev duration_max : ℕ
duration_max = 18446744073709551615999999999

-- `backoff_base.saturating_mul(2u32.saturating_pow(attempt - 1))`
unfoldable pub backoff : ℕ → ℕ → ℕ
backoff base attempt = min (base * min (2 ^ (attempt - 1)) u32_max) duration_max

-- The errors that are tried again.
unfoldable pub is_transient : SafeError → Bool
is_transient e = e.retryable && is_upstream_failure (some e.code)

pub record Tried (W A : Type 0) : Type 0 where
  pub answer : Result SafeError A
  pub world : W
  pub pauses : List ℕ

unfoldable pub pause : ℕ → List ℕ → List ℕ
pause d ds = if d == 0 then ds else d ∷ ds

-- What follows an answer when there is an attempt left.
unfoldable pub after_answer :
    {W A : Type 0} → Result SafeError A → W → List ℕ → Tried W A → Tried W A
after_answer (ok a) w ds next = record { answer = ok a; world = w; pauses = ds }
after_answer (err e) w ds next =
    if is_transient e then next else record { answer = err e; world = w; pauses = ds }

module _ {W A : Type 0} (op : W → Result SafeError A × W) (policy : RetryPolicy) where
  -- The guard `attempt < max_attempts` of the source is that `left`, which is
  -- `max_attempts - attempt`, is not 0.
  unfoldable pub attempt_from : ℕ → ℕ → W → List ℕ → Tried W A
  unfolding after_answer
  attempt_from attempt zero w ds =
      let (r, w') = op w in record { answer = r; world = w'; pauses = ds }
  attempt_from attempt (suc left) w ds =
      let (r, w') = op w in
      let next =
        attempt_from (suc attempt) left w' (pause (backoff policy.backoff_base attempt) ds) in
      after_answer r w' ds next

  unfoldable pub with_retry : W → Tried W A
  with_retry w = attempt_from 1 (max policy.max_attempts 1 - 1) w []
