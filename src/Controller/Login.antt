-- ===== src/Controller/Login.antt =====
-- crates/fineco-helper/src/controller.rs: `LiveLoginState`, which admits one live operation at a time
-- and bounds the fresh logins of market reads. A method returns its result beside the new state; a
-- refused admission keeps the pruning of old attempts, as the source does.
pub mod Budget
mod Examples
use mathlib.Core.Option
use fineco_helper.Base.{
  ℕ, Bool, Option, Result, List, Text, false, if◌then◌else◌, ◌∷◌, none, some, err, leb, ◌++◌, ok,
  length, not, [], true, ◌&&◌,
}
use fineco_helper.Base.Int.{ℤ, pos, saturating_sub, saturating_add, ltb_ℤ, leb_ℤ}
use fineco_helper.Core.SafeError.{SafeError}
use fineco_helper.Core.SafeError
use fineco_helper.Core.Clock.{parse_iso8601_utc}

-- `MARKET_LOGIN_BUDGET_PER_ACCOUNT_PER_HOUR` and the like
abbrev pub login_budget : ℕ
login_budget = 12

abbrev pub login_min_cooldown_secs : ℤ
login_min_cooldown_secs = pos 60

abbrev pub login_budget_window_secs : ℤ
login_budget_window_secs = pos 3600

pub record LiveLoginState : Type 0 where
  pub in_flight : Bool
  pub pending_epoch : Option ℤ
  pub last_login_epoch : Option ℤ
  pub login_attempts : List ℤ
  pub market_session_valid_until : Option ℤ

unfoldable pub admit_refresh_operation :
    LiveLoginState → Result SafeError (Unit {0}) × LiveLoginState
admit_refresh_operation s =
    if s.in_flight
    then (err SafeError.already_refreshing, s)
    else (ok tt, record s { in_flight = true; market_session_valid_until = none })

-- The oldest attempts that have left the budget's window are dropped.
pub prune : ℤ → List ℤ → List ℤ
prune now [] = []
prune now (t ∷ ts) =
    let rest = prune now ts in
    if leb_ℤ login_budget_window_secs (saturating_sub now t) then rest else t ∷ ts

unfoldable pub reuse_eligible : ℤ → Option ℤ → Bool
reuse_eligible now none = false
reuse_eligible now (some until) = ltb_ℤ now until

unfoldable pub in_cooldown : ℤ → Option ℤ → Bool
in_cooldown now none = false
in_cooldown now (some last_login) = ltb_ℤ (saturating_sub now last_login) login_min_cooldown_secs

unfoldable pub admit_budget : ℤ → Bool → LiveLoginState → Result SafeError Bool × LiveLoginState
admit_budget now reuse s =
    let attempts = prune now s.login_attempts in
    if leb login_budget (length attempts)
    then (err SafeError.market_rate_limited, record s { login_attempts = attempts })
    else (
      ok reuse,
      record s { login_attempts = attempts; in_flight = true; pending_epoch = some now },
    )

unfoldable pub admit_at : ℤ → LiveLoginState → Result SafeError Bool × LiveLoginState
unfolding admit_budget reuse_eligible in_cooldown
admit_at now s =
    let reuse = reuse_eligible now s.market_session_valid_until in
    if s.in_flight
    then (err SafeError.market_rate_limited, s)
    else if not reuse && in_cooldown now s.last_login_epoch
    then (err SafeError.market_rate_limited, s)
    else admit_budget now reuse s

unfoldable pub admit_market_operation :
    Text → LiveLoginState → Result SafeError Bool × LiveLoginState
unfolding admit_at
admit_market_operation now_iso s = elim (parse_iso8601_utc now_iso) [
  | none ↦ (err SafeError.internal, s)
  | some now ↦ admit_at now s
]

-- The pending login is recorded only where the caller asks for it.
pub record_pending : Bool → Option ℤ → LiveLoginState → LiveLoginState
record_pending false p s = s
record_pending true none s = s
record_pending true (some epoch) s = record s {
  last_login_epoch = some epoch;
  login_attempts = s.login_attempts ++ epoch ∷ [];
}

unfoldable pub finish : Bool → LiveLoginState → LiveLoginState
unfolding record_pending
finish should_record_login s = record (record_pending should_record_login s.pending_epoch s) {
  in_flight = false;
  pending_epoch = none;
  market_session_valid_until = none;
}

-- `MARKET_SESSION_REUSE_TTL_SECS`
abbrev pub session_reuse_ttl_secs : Option ℤ
session_reuse_ttl_secs = some (pos 180)

-- The reuse window of a held session.
pub reuse_window_from : ℤ → Option ℤ
reuse_window_from now = Option.map (λ ttl. saturating_add now ttl) session_reuse_ttl_secs

unfoldable pub finish_market : Bool → Bool → ℤ → LiveLoginState → LiveLoginState
unfolding record_pending reuse_window_from
finish_market performed_login holds_session now s =
    record (record_pending performed_login (some now) s) {
      market_session_valid_until = if holds_session then reuse_window_from now else none;
      in_flight = false;
      pending_epoch = none;
    }
