-- ===== src/Controller/Circuit.antt =====
-- crates/fineco-helper/src/controller.rs: `MarketCircuitState`, the breaker of market reads.
pub mod Runs
use fineco_helper.Base.Int.{ℤ, pos, ltb_ℤ, saturating_sub}
use fineco_helper.Core.SafeError
use fineco_helper.Core.SafeError.{SafeError}
use fineco_helper.Base.{
  none, some, false, ok, err, suc, ℕ, Option, Text, Bool, Result, str_eq, if◌then◌else◌, ◌||◌, min,
  ltb,
}
use fineco_helper.Core.Clock.{parse_iso8601_utc}

abbrev pub circuit_consecutive_failures : ℕ
circuit_consecutive_failures = 3

abbrev pub circuit_cooldown_secs : ℤ
circuit_cooldown_secs = pos 600

pub record MarketCircuitState : Type 0 where
  pub consecutive_upstream_failures : ℕ
  pub newest_failure_epoch : Option ℤ

-- `MarketCircuitState::default`
abbrev pub closed_circuit : MarketCircuitState
closed_circuit = record { consecutive_upstream_failures = 0; newest_failure_epoch = none }

unfoldable pub check_cooldown : ℤ → Option ℤ → Result SafeError (Unit {0})
check_cooldown newest none = err SafeError.internal
check_cooldown newest (some now) =
    if ltb_ℤ (saturating_sub now newest) circuit_cooldown_secs
    then err SafeError.market_circuit_open
    else ok tt

unfoldable pub check_failure : Text → Option ℤ → Result SafeError (Unit {0})
unfolding check_cooldown
check_failure now_iso none = ok tt
check_failure now_iso (some newest) = check_cooldown newest (parse_iso8601_utc now_iso)

unfoldable pub check_closed : Text → MarketCircuitState → Result SafeError (Unit {0})
unfolding check_failure
check_closed now_iso s =
    if ltb s.consecutive_upstream_failures circuit_consecutive_failures
    then ok tt
    else check_failure now_iso s.newest_failure_epoch

unfoldable pub is_market_upstream_failure : SafeError → Bool
is_market_upstream_failure e =
    str_eq e.code "market_upstream_failure"
    || str_eq e.code "fineco_timeout"
    || str_eq e.code "fineco_upstream_error"

abbrev u32_max : ℕ
u32_max = 4294967295

unfoldable pub failed_at :
    Option ℤ → MarketCircuitState → Result SafeError (Unit {0}) × MarketCircuitState
failed_at none s = (err SafeError.internal, s)
failed_at (some now) s = (
  ok tt,
  record s {
    consecutive_upstream_failures = min (suc s.consecutive_upstream_failures) u32_max;
    newest_failure_epoch = some now;
  },
)

-- `error.is_some_and(is_market_upstream_failure)`
unfoldable pub trips : Option SafeError → Bool
trips none = false
trips (some e) = is_market_upstream_failure e

unfoldable pub record_outcome :
    Text → Option SafeError → MarketCircuitState → Result SafeError (Unit {0}) × MarketCircuitState
unfolding failed_at
record_outcome now_iso error s =
    if trips error then failed_at (parse_iso8601_utc now_iso) s else (ok tt, closed_circuit)
