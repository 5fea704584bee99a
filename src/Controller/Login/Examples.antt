-- ===== src/Controller/Login/Examples.antt =====
-- crates/fineco-helper/src/controller.rs: a market read from an idle state, and the instance of the
-- budget's theorem at it.
use fineco_helper.Base.{◌≡◌, refl, arith, true, false, none, some, [], codes, is_some, Text}
use fineco_helper.Base.Int.{pos, ◌+ℤ◌, ◌-ℤ◌, ◌*ℤ◌, div_trunc, rem_trunc}
use fineco_helper.Core.Clock.{
  days_from_civil, era_of, year_days, month_days, march_year, march_month, is_leap, days_in_month,
  digits, parse_date, parse_time, drop_fraction, epoch_of, parse_iso8601_utc,
}
use fineco_helper.Controller.Login.{LiveLoginState, admit_market_operation, finish_market, prune}
use fineco_helper.Controller.Login.Budget.{
  market_admitted, market_finished, here, next, IsWithinBudget, Reach-IsWithinBudget,
}

abbrev idle : LiveLoginState
idle = record {
  in_flight = false;
  pending_epoch = none;
  last_login_epoch = none;
  login_attempts = [];
  market_session_valid_until = none;
}

abbrev new_year : Text
new_year = codes "2026-01-01T00:00:00Z"

new_year_parsed : parse_iso8601_utc new_year ≡ some (pos 1767225600)
unfolding parse_iso8601_utc parse_date parse_time drop_fraction digits epoch_of days_in_month
    is_leap days_from_civil era_of year_days month_days march_year march_month ◌+ℤ◌ ◌-ℤ◌ ◌*ℤ◌
    div_trunc rem_trunc
new_year_parsed = refl

admitted_pending : is_some (admit_market_operation new_year idle).1.pending_epoch ≡ true
unfolding admit_market_operation prune
admitted_pending = rw (new_year_parsed, admit_market_operation) refl

idle-IsWithinBudget : IsWithinBudget idle
idle-IsWithinBudget = record { bounded = omega arith; room = λ e. cc }

Reach-IsWithinBudget_example :
    IsWithinBudget
      (finish_market true true (pos 1767225600) (admit_market_operation new_year idle).1)
Reach-IsWithinBudget_example = Reach-IsWithinBudget idle-IsWithinBudget (
    next (next here (market_admitted idle new_year)) (
      market_finished (admit_market_operation new_year idle).1 true true (pos 1767225600)
        admitted_pending))
