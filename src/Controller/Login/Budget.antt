-- ===== src/Controller/Login/Budget.antt =====
-- crates/fineco-helper/src/controller.rs: over every run of admissions and finishes, the recorded
-- logins stay within the hourly budget.
use fineco_helper.Base.{
  inl, inr, [], ◌∷◌, Bool, length, List, Text, ◌≤◌, arith, is_some, ◌∷◌, Option-cases, ◌≡◌, true,
  ◌<◌, ◌++◌, ◌+◌, length-append,
}
use fineco_helper.Base.Int.{ℤ}
use fineco_helper.Controller.Login.{
  LiveLoginState, admit_refresh_operation, admit_market_operation, finish, finish_market, prune,
}
use fineco_helper.Core.Clock.{parse_iso8601_utc}

-- What the controller does with the state, under its lock. A market operation is finished as such
-- only while one is pending; any operation may end by `finish`.
pub data Step : LiveLoginState → LiveLoginState → Type 0 where
  refresh_admitted : (s : LiveLoginState) → Step s (admit_refresh_operation s).1
  market_admitted :
      (s : LiveLoginState) (now_iso : Text) → Step s (admit_market_operation now_iso s).1
  finished : (s : LiveLoginState) (login : Bool) → Step s (finish login s)
  market_finished :
      (s : LiveLoginState) (login held : Bool) (now : ℤ)
      → is_some s.pending_epoch ≡ true
      → Step s (finish_market login held now s)

pub data Reach (s : LiveLoginState) : LiveLoginState → Type 0 where
  here : Reach s s
  next : {t u : LiveLoginState} → Reach s t → Step t u → Reach s u

pub record IsWithinBudget (s : LiveLoginState) : Type 0 where
  pub bounded : length s.login_attempts ≤ 12
  pub room : is_some s.pending_epoch ≡ true → length s.login_attempts < 12

length-prune-le : (now : ℤ) (ts : List ℤ) → length (prune now ts) ≤ length ts
unfolding prune
length-prune-le now [] = omega arith
length-prune-le now (t ∷ ts) = ground (arith, length-prune-le now ts)

length_record : (ts : List ℤ) (z : ℤ) → length (ts ++ z ∷ []) ≡ length ts + 1
length_record ts z = omega (arith, length-append ts (z ∷ []))

Step-IsWithinBudget : {s t : LiveLoginState} → Step s t → IsWithinBudget s → IsWithinBudget t
unfolding admit_refresh_operation admit_market_operation finish finish_market
Step-IsWithinBudget (refresh_admitted s) v = ground arith
Step-IsWithinBudget (market_admitted s now_iso) v =
    elim (Option-cases (parse_iso8601_utc now_iso)) [
      | inl e ↦ rw (e, admit_market_operation) v
      | inr (now, e) ↦
          rw (e, admit_market_operation) (ground (arith, length-prune-le now s.login_attempts))
    ]
Step-IsWithinBudget (finished s login) v = elim (Option-cases s.pending_epoch) [
  | inl e ↦ ground (arith, e)
  | inr (z, e) ↦ ground (arith, e, length_record s.login_attempts z)
]
Step-IsWithinBudget (market_finished s login held now p) v =
    ground (arith, length_record s.login_attempts now)

-- From a state within the budget, any run of admissions and finishes leaves at most twelve recorded
-- logins, and fewer than twelve while a market operation is pending.
pub Reach-IsWithinBudget : {s t : LiveLoginState} → IsWithinBudget s → Reach s t → IsWithinBudget t
Reach-IsWithinBudget v here = v
Reach-IsWithinBudget v (next r st) = Step-IsWithinBudget st (Reach-IsWithinBudget v r)
