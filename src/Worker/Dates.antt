-- ===== src/Worker/Dates.antt =====
-- crates/fineco-worker/src/lib.rs: the lifetime that a session cookie declares. Text is a list of
-- bytes, an `i32`, an `i64` or a `u64` is an integer; a year has at most ten digits here.
pub mod Calendar
use mathlib.Core.Option
use fineco_helper.Base.Maybe.{◌>>=◌, ◌>>◌, guard}
use fineco_helper.Core.Clock
use fineco_helper.Base.{
  none, some, Bool, ℕ, Option, if◌then◌else◌, ◌==◌, leb, ◌&&◌, ◌||◌, not, ltb, ◌*◌, ◌+◌,
}
use fineco_helper.Base.Int.{ℤ, eqb_ℤ, ◌-ℤ◌, leb_ℤ, rem_trunc, pos, div_trunc, ◌*ℤ◌, ◌+ℤ◌, negsuc}

abbrev pub is_leap_year : ℤ → Bool
is_leap_year year =
    (eqb_ℤ (rem_trunc year 4) (pos 0) && not (eqb_ℤ (rem_trunc year 100) (pos 0)))
    || eqb_ℤ (rem_trunc year 400) (pos 0)

unfoldable pub days_in_month : ℤ → ℕ → Option ℕ
days_in_month year month =
    if (month == 1)
      || (month == 3)
      || (month == 5)
      || (month == 7)
      || (month == 8)
      || (month == 10)
      || (month == 12)
    then some 31
    else if (month == 4) || (month == 6) || (month == 9) || (month == 11)
    then some 30
    else if (month == 2) && is_leap_year year
    then some 29
    else if month == 2
    then some 28
    else none

unfoldable pub days_from_civil : ℤ → ℕ → ℕ → ℤ
days_from_civil civil_year month day =
    let year = civil_year -ℤ (if leb month 2 then pos 1 else pos 0) in
    let era = div_trunc (if leb_ℤ (pos 0) year then year else year -ℤ pos 399) 400 in
    let year_of_era = year -ℤ era *ℤ pos 400 in
    let day_of_year =
      div_trunc (pos 153 *ℤ (pos month +ℤ (if ltb 2 month then negsuc 2 else pos 9)) +ℤ pos 2) 5
      +ℤ pos day
      -ℤ pos 1 in
    let day_of_era =
      year_of_era *ℤ pos 365
      +ℤ div_trunc year_of_era 4
      -ℤ div_trunc year_of_era 100
      +ℤ day_of_year in
    era *ℤ pos 146097 +ℤ day_of_era -ℤ pos 719468

-- `u64::try_from`
abbrev pub u64_of : ℤ → Option ℕ
u64_of (pos n) = some n
u64_of (negsuc n) = none

unfoldable pub unix_secs_from_ymdhms : ℤ → ℕ → ℕ → ℕ → ℕ → ℕ → Option ℕ
unix_secs_from_ymdhms year month day hour minute second = do
  guard (leb_ℤ (pos 1970) year && leb_ℤ year (pos 9999) && (leb 1 month && leb month 12))
  max_day ← days_in_month year month
  guard (not (day == 0) && leb day max_day)
  u64_of (days_from_civil year month day *ℤ pos 86400 +ℤ pos (hour * 3600 + minute * 60 + second))
