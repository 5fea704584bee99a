-- ===== src/Core/Clock/Examples.antt =====
-- crates/fineco-core/src/freshness.rs: tests of the calendar and the timestamps, and instances of
-- their theorems.
use fineco_helper.Base.{◌≡◌, refl, arith, some, none, codes, true}
use fineco_helper.Base.Int.{pos, ◌+ℤ◌, ◌-ℤ◌, ◌*ℤ◌, div_trunc, rem_trunc, leb_ℤ}
use fineco_helper.Core.Clock.{
  days_from_civil, civil_from_days, era_of, era_year, year_days, month_days, march_year,
  march_month, civil_month, civil_year, date_of_year, pad, epoch_to_iso8601_utc, is_leap,
  days_in_month, digits, parse_date, parse_time, drop_fraction, epoch_of, parse_iso8601_utc,
}
use fineco_helper.Core.Clock.CivilPos.{days_from_civil-civil_from_days}
use fineco_helper.Core.Clock.Valid.{civil_from_days-IsDate}
use fineco_helper.Core.Clock.RoundTrip.{parse-epoch_to_iso8601_utc}

printed_leap_day : epoch_to_iso8601_utc (pos 1582982645) ≡ codes "2020-02-29T13:24:05Z"
unfolding epoch_to_iso8601_utc civil_from_days era_of era_year year_days month_days civil_month
    civil_year date_of_year pad ◌+ℤ◌ ◌-ℤ◌ ◌*ℤ◌ div_trunc
printed_leap_day = refl

parsed_fraction : parse_iso8601_utc (codes "2020-02-29T13:24:05.75Z") ≡ some (pos 1582982645)
unfolding parse_iso8601_utc parse_date parse_time drop_fraction digits epoch_of days_in_month
    is_leap days_from_civil era_of year_days month_days march_year march_month ◌+ℤ◌ ◌-ℤ◌ ◌*ℤ◌
    div_trunc rem_trunc
parsed_fraction = refl

no_leap_day : parse_iso8601_utc (codes "2021-02-29T13:24:05Z") ≡ none
unfolding parse_iso8601_utc parse_date parse_time drop_fraction digits epoch_of days_in_month
    is_leap rem_trunc
no_leap_day = refl

parse-epoch_to_iso8601_utc_example :
    parse_iso8601_utc (epoch_to_iso8601_utc (pos 1582982645)) ≡ some (pos 1582982645)
parse-epoch_to_iso8601_utc_example = parse-epoch_to_iso8601_utc 1582982645 (omega arith)

civil_from_days-IsDate_example :
    (leb_ℤ (pos 1) (civil_from_days (pos 18321)).1 ≡ true)
    × (leb_ℤ (civil_from_days (pos 18321)).1 (pos 12) ≡ true)
    × (leb_ℤ (pos 1) (civil_from_days (pos 18321)).2 ≡ true)
    × (leb_ℤ
          (civil_from_days (pos 18321)).2
          (days_in_month (civil_from_days (pos 18321)).0 (civil_from_days (pos 18321)).1)
        ≡ true)
civil_from_days-IsDate_example = civil_from_days-IsDate 18321

days_from_civil-civil_from_days_example :
    days_from_civil
      (civil_from_days (pos 18321)).0
      (civil_from_days (pos 18321)).1
      (civil_from_days (pos 18321)).2
    ≡ pos 18321
days_from_civil-civil_from_days_example = days_from_civil-civil_from_days 18321
