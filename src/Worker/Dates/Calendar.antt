-- ===== src/Worker/Dates/Calendar.antt =====
-- crates/fineco-worker/src/lib.rs and crates/fineco-core/src/freshness.rs: the two calendars agree.
use fineco_helper.Base.Maybe.{◌>>=◌, ◌>>◌, guard}
use fineco_helper.Core.Clock
use fineco_helper.Core.Clock.{march_year, march_month, year_days, month_days, era_of, epoch_of}
use fineco_helper.Base.Int.{
  ◌*ℤ◌, ◌-ℤ◌, ℤ, ◌+ℤ◌, pos, negsuc, pos_part, ◌≤ℤ◌, *ℤ-pos, int_laws, neg_part,
}
use fineco_helper.Worker.Dates.{
  days_from_civil, days_in_month, u64_of, is_leap_year, unix_secs_from_ymdhms,
}
use fineco_helper.Base.{
  ℕ, ◌≡◌, if◌then◌else◌, leb, ltb, arith, none, some, inl, inr, refl, Option, ◌==◌, true, or_else,
  not, ◌&&◌, Bool-cases, ◌≤◌, ◌*◌, ◌+◌, false, le→leb, ◌∙◌, sym,
}

march_year_lem :
    (year : ℤ) (month : ℕ)
    → march_year year (pos month) ≡ year -ℤ (if leb month 2 then pos 1 else pos 0)
unfolding march_year ◌-ℤ◌
march_year_lem (pos n) month = ground arith
march_year_lem (negsuc n) month = ground arith

march_month_lem :
    (month : ℕ) → march_month (pos month) ≡ pos month +ℤ (if ltb 2 month then negsuc 2 else pos 9)
unfolding march_month ◌-ℤ◌ ◌+ℤ◌
march_month_lem month = ground arith

days_from_civil_lem :
    (year : ℤ) (month day : ℕ)
    → Clock.days_from_civil year (pos month) (pos day) ≡ days_from_civil year month day
unfolding Clock.days_from_civil days_from_civil year_days month_days era_of
days_from_civil_lem year month day = rw (march_year_lem year month, march_month_lem month) refl

days_in_month_lem :
    (year : ℤ) (month : ℕ)
    → Clock.days_in_month year (pos month) ≡ pos (or_else (days_in_month year month) 0)
unfolding days_in_month Clock.days_in_month Clock.is_leap
days_in_month_lem year month = elim (Bool-cases (is_leap_year year)) [
  | inl e ↦ rw e (ground arith)
  | inr e ↦ rw e (ground arith)
]

seconds_lem :
    (days : ℤ) (hour minute second : ℕ)
    → days *ℤ pos 86400 +ℤ pos hour *ℤ pos 3600 +ℤ pos minute *ℤ pos 60 +ℤ pos second
      ≡ days *ℤ pos 86400 +ℤ pos (hour * 3600 + minute * 60 + second)
seconds_lem days hour minute second = rw (*ℤ-pos hour 3600, *ℤ-pos minute 60) (omega int_laws)

-- The checks, at a month's last day.
module _ (year : ℤ) (month day hour minute second : ℕ) where
  checked_secs : Option ℕ → Option ℕ
  checked_secs none = none
  checked_secs (some last) = do
    guard (not (day == 0) && leb day last)
    u64_of (days_from_civil year month day *ℤ pos 86400 +ℤ pos (hour * 3600 + minute * 60 + second))

  epoch_of_lem :
      (last : Option ℕ)
      → days_in_month year month ≡ last
      → leb 1 month && leb month 12 ≡ true
      → hour ≤ 23
      → minute ≤ 59
      → second ≤ 59
      → (epoch_of (year, pos month, pos day) (pos hour, pos minute, pos second) >>= u64_of)
        ≡ checked_secs last
  unfolding epoch_of checked_secs
  epoch_of_lem none e h i j k = rw (days_in_month_lem year month, e) (ground arith)
  epoch_of_lem (some last) e h i j k =
      rw
        (
          days_in_month_lem year month,
          e,
          days_from_civil_lem year month day,
          seconds_lem (days_from_civil year month day) hour minute second,
        )
        (ground arith)

  checked_secs_lem :
      (last : Option ℕ)
      → (last >>= λ max_day. guard (not (day == 0) && leb day max_day) >>= λ _.
          u64_of (
            days_from_civil year month day *ℤ pos 86400
            +ℤ pos (hour * 3600 + minute * 60 + second)))
        ≡ checked_secs last
  unfolding checked_secs
  checked_secs_lem none = refl
  checked_secs_lem (some last) = refl

  epoch_of_bad_month :
      leb 1 month && leb month 12 ≡ false
      → (epoch_of (year, pos month, pos day) (pos hour, pos minute, pos second) >>= u64_of) ≡ none
  unfolding epoch_of
  epoch_of_bad_month e = ground arith

-- The seconds of a `Set-Cookie` date are those that the timestamps' calendar gives for the same date
-- and time, and the same dates are refused: for years from 1970 to 9999 and times of a day.
pub unix_secs_from_ymdhms-epoch_of :
    (year : ℤ) (month day hour minute second : ℕ)
    → pos 1970 ≤ℤ year
    → year ≤ℤ pos 9999
    → hour ≤ 23
    → minute ≤ 59
    → second ≤ 59
    → unix_secs_from_ymdhms year month day hour minute second
      ≡ (epoch_of (year, pos month, pos day) (pos hour, pos minute, pos second) >>= u64_of)
unfolding unix_secs_from_ymdhms
unix_secs_from_ymdhms-epoch_of year month day hour minute second a b i j k =
    rw
      (
        le→leb (1970 + neg_part year) (pos_part year + 0) (omega arith),
        le→leb (pos_part year + 0) (9999 + neg_part year) (omega arith),
      )
      (elim (Bool-cases (leb 1 month && leb month 12)) [
        | inl e ↦ rw e (
            checked_secs_lem year month day hour minute second (days_in_month year month)
            ∙ sym (
                epoch_of_lem year month day hour minute second (days_in_month year month) refl e i j
                  k))
        | inr e ↦ rw (e, epoch_of_bad_month year month day hour minute second e) refl
      ])
