-- ===== src/Core/Clock/CivilPos.antt =====
-- crates/fineco-core/src/freshness.rs: on days from 1970 on, the calendar's integer operations are
-- those of natural numbers.
use fineco_helper.Base.{
  ℕ, ap, ◌+◌, ◌-◌, ◌*◌, ◌/◌, ◌%◌, ◌≤◌, ◌<◌, ◌≡◌, leb, ltb, arith, if◌then◌else◌,
}
use fineco_helper.Base.Int.{pos, div_trunc, ◌+ℤ◌, ◌-ℤ◌, +ℤ-pos, -ℤ-pos, *ℤ-pos, div_trunc-pos}
use fineco_helper.Core.Clock.{
  civil_from_days, days_from_civil, era_of, year_days, month_days, era_year, date_of_year,
  civil_month, civil_year, march_year, march_month,
}
use fineco_helper.Core.Clock.Civil.{year_start, year_of_era, year_of_era_bounds}

era_of-pos : (n k : ℕ) → era_of (pos n) k ≡ pos (n / k)
unfolding era_of div_trunc
era_of-pos n k = ground arith

year_days-pos : (k : ℕ) → k < 400 → year_days (pos k) ≡ pos (year_start k)
unfolding year_days
year_days-pos k h =
    simp (*ℤ-pos, div_trunc-pos, +ℤ-pos, -ℤ-pos (k * 365 + k / 4) (k / 100) (omega arith))
      (ap pos (omega arith))

month_days-pos : (m : ℕ) → month_days (pos m) ≡ pos ((153 * m + 2) / 5)
unfolding month_days
month_days-pos m = simp (*ℤ-pos, div_trunc-pos, +ℤ-pos)

era_year-pos : (doe : ℕ) → era_year (pos doe) ≡ pos (year_of_era doe)
unfolding era_year
era_year-pos doe = simp (
  div_trunc-pos,
  +ℤ-pos,
  -ℤ-pos doe (doe / 1460) (omega arith),
  -ℤ-pos (doe - doe / 1460 + doe / 36524) (doe / 146096) (omega arith),
)

-- The month (1 to 12) and the day of the month of a day of the year.
abbrev pub month_index : ℕ → ℕ
month_index doy = (5 * doy + 2) / 153

abbrev pub month_of : ℕ → ℕ
month_of doy = if ltb (month_index doy) 10 then month_index doy + 3 else month_index doy - 9

abbrev pub day_of : ℕ → ℕ
day_of doy = doy - (153 * month_index doy + 2) / 5 + 1

abbrev pub year_of : ℕ → ℕ → ℕ
year_of y doy = if leb (month_of doy) 2 then y + 1 else y

civil_month-pos : (m : ℕ) → civil_month (pos m) ≡ pos (if ltb m 10 then m + 3 else m - 9)
unfolding civil_month ◌+ℤ◌ ◌-ℤ◌
civil_month-pos m = ground arith

civil_year-pos : (y m : ℕ) → civil_year (pos y) (pos m) ≡ pos (if leb m 2 then y + 1 else y)
unfolding civil_year ◌+ℤ◌
civil_year-pos y m = ground arith

pub date_of_year-pos :
    (y doy : ℕ)
    → date_of_year (pos y) (pos doy) ≡ (pos (year_of y doy), pos (month_of doy), pos (day_of doy))
unfolding date_of_year
date_of_year-pos y doy = simp (
  *ℤ-pos,
  div_trunc-pos,
  +ℤ-pos,
  month_days-pos,
  -ℤ-pos doy ((153 * month_index doy + 2) / 5) (omega arith),
  civil_month-pos,
  civil_year-pos,
)

-- The era and the day of the era of a day number, and the day of the year.
abbrev pub era : ℕ → ℕ
era n = (n + 719468) / 146097

abbrev pub day_of_era : ℕ → ℕ
day_of_era n = (n + 719468) % 146097

abbrev pub day_of_year : ℕ → ℕ
day_of_year n = day_of_era n - year_start (year_of_era (day_of_era n))

abbrev pub year_from_march : ℕ → ℕ
year_from_march n = year_of_era (day_of_era n) + era n * 400

-- `civil_from_days` from 1970 on.
pub civil_from_days-pos :
    (n : ℕ)
    → civil_from_days (pos n) ≡ (
      pos (year_of (year_from_march n) (day_of_year n)),
      pos (month_of (day_of_year n)),
      pos (day_of (day_of_year n)),
    )
unfolding civil_from_days
civil_from_days-pos n =
    let doe_eq : n + 719468 - era n * 146097 ≡ day_of_era n = omega arith in
    let (small, above, below) = year_of_era_bounds (day_of_era n) (omega arith) in
    simp (
      +ℤ-pos,
      era_of-pos,
      *ℤ-pos,
      -ℤ-pos (n + 719468) (era n * 146097) (omega arith),
      doe_eq,
      era_year-pos,
      year_days-pos (year_of_era (day_of_era n)) small,
      -ℤ-pos (day_of_era n) (year_start (year_of_era (day_of_era n))) above,
      date_of_year-pos,
    )

pub day_of_year_bound : (n : ℕ) → day_of_year n ≤ 365
day_of_year_bound n =
    let (small, above, below) = year_of_era_bounds (day_of_era n) (omega arith) in omega arith

march_year-pos : (y doy : ℕ) → march_year (pos (year_of y doy)) (pos (month_of doy)) ≡ pos y
unfolding march_year ◌-ℤ◌
march_year-pos y doy = ground arith

march_month-pos : (doy : ℕ) → doy ≤ 365 → march_month (pos (month_of doy)) ≡ pos (month_index doy)
unfolding march_month ◌+ℤ◌ ◌-ℤ◌
march_month-pos doy h = ground arith

-- Back from the date of a day to the day.
days_from_civil-pos :
    (e k doy : ℕ)
    → k < 400
    → doy ≤ 365
    → 719468 ≤ e * 146097 + (year_start k + doy)
    → days_from_civil (pos (year_of (k + e * 400) doy)) (pos (month_of doy)) (pos (day_of doy))
      ≡ pos (e * 146097 + (year_start k + doy) - 719468)
unfolding days_from_civil
days_from_civil-pos e k doy small short h =
    let era_eq : (k + e * 400) / 400 ≡ e = omega arith in
    let year_eq : k + e * 400 - e * 400 ≡ k = omega arith in
    let day_eq : (153 * month_index doy + 2) / 5 + day_of doy - 1 ≡ doy = omega arith in
    simp (
      march_year-pos,
      era_of-pos,
      era_eq,
      *ℤ-pos,
      -ℤ-pos (k + e * 400) (e * 400) (omega arith),
      year_eq,
      year_days-pos k small,
      march_month-pos doy short,
      month_days-pos,
      +ℤ-pos,
      -ℤ-pos ((153 * month_index doy + 2) / 5 + day_of doy) 1 (omega arith),
      day_eq,
      -ℤ-pos (e * 146097 + (year_start k + doy)) 719468 h,
    )

-- On every day from 1970-01-01 on, `days_from_civil` of the date that `civil_from_days` gives is
-- that day again.
pub days_from_civil-civil_from_days :
    (n : ℕ)
    → days_from_civil
        (civil_from_days (pos n)).0
        (civil_from_days (pos n)).1
        (civil_from_days (pos n)).2
      ≡ pos n
days_from_civil-civil_from_days n =
    let (small, above, below) = year_of_era_bounds (day_of_era n) (omega arith) in
    simp
      (
        civil_from_days-pos n,
        days_from_civil-pos (era n) (year_of_era (day_of_era n)) (day_of_year n) small
            (day_of_year_bound n) (omega arith),
      )
      (ap pos (omega arith))
