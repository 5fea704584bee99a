-- ===== src/Core/Clock/Valid.antt =====
-- crates/fineco-core/src/freshness.rs: the dates that `civil_from_days` gives are dates of the
-- calendar, so that the parser's range checks pass.
use fineco_helper.Base.{ℕ, ◌+◌, ◌*◌, ◌≤◌, ◌<◌, ◌≡◌, true, arith, le→leb, ◌-◌, dec_lt}
use native.Mathlib.Nat.{le_trans}
use Prim.Native.Nat.{suc-le-suc}
use fineco_helper.Base.Int.{pos, leb_ℤ}
use fineco_helper.Core.Clock.{is_leap, days_in_month, civil_from_days}
use fineco_helper.Core.Clock.Civil.{year_start, year_of_era_bounds, year_of_era}
use fineco_helper.Core.Clock.CivilPos.{
  month_of, day_of, year_of, day_of_year, year_from_march, day_of_era, day_of_year_bound,
  civil_from_days-pos, era,
}

is_leap-pos :
    (k e : ℕ)
    → k < 400
    → year_start k + 365 < year_start (k + 1)
    → is_leap (pos (k + e * 400 + 1)) ≡ true
unfolding is_leap
is_leap-pos k e small h = ground arith

-- Month by month: `f` is the first day of the month in a year from March, `l` the month's length.
days_in_month-pos :
    (y doy : ℕ)
    → doy ≤ 365
    → (doy ≡ 365 → is_leap (pos (y + 1)) ≡ true)
    → leb_ℤ (pos (day_of doy)) (days_in_month (pos (year_of y doy)) (pos (month_of doy))) ≡ true
unfolding days_in_month
days_in_month-pos y doy short leap = ground arith

-- The month lies in 1 to 12.
pub month_of_bounds : (doy : ℕ) → doy ≤ 365 → (1 ≤ month_of doy) × (month_of doy ≤ 12)
month_of_bounds doy h = ground arith

-- The day lies within its month, leap days included.
pub day_of_valid :
    (n : ℕ)
    → leb_ℤ (pos (day_of (day_of_year n))) (
        days_in_month
          (pos (year_of (year_from_march n) (day_of_year n)))
          (pos (month_of (day_of_year n))))
      ≡ true
day_of_valid n =
    let (small, above, below) = year_of_era_bounds (day_of_era n) (omega arith) in
    days_in_month-pos (year_from_march n) (day_of_year n) (day_of_year_bound n)
      (λ e. is_leap-pos (year_of_era (day_of_era n)) (era n) small (omega arith))

-- On every day from 1970-01-01 on, `civil_from_days` gives a month from 1 to 12 and a day from 1
-- to that month's length.
pub civil_from_days-IsDate :
    (n : ℕ)
    → let (year, month, day) = civil_from_days (pos n) in
      (leb_ℤ (pos 1) month ≡ true)
      × (leb_ℤ month (pos 12) ≡ true)
      × (leb_ℤ (pos 1) day ≡ true)
      × (leb_ℤ day (days_in_month year month) ≡ true)
civil_from_days-IsDate n =
    let (low, high) = month_of_bounds (day_of_year n) (day_of_year_bound n) in
    rw (civil_from_days-pos n)
      (le→leb _ _ (omega arith), le→leb _ _ (omega arith), le→leb _ _ (omega arith), day_of_valid n)

year_of-le : (y doy : ℕ) → year_of y doy ≤ y + 1
year_of-le y doy = ground arith

year_of_early : (y doy : ℕ) → doy ≤ 305 → year_of y doy ≤ y
year_of_early y doy h = ground arith

last_era : (n : ℕ) → n < 2932897 → (era n ≤ 24) × (era n ≡ 24 → day_of_era n < 146037)
last_era n h = (omega arith, λ e. omega arith)

last_day : (k doe : ℕ) → k ≡ 399 → doe < 146037 → doe - year_start k ≤ 305
last_day k doe e h = rw e (omega arith)

year_bound :
    (k e doe : ℕ)
    → k < 400
    → e ≤ 24
    → (e ≡ 24 → doe < 146037)
    → year_of (k + e * 400) (doe - year_start k) < 10000
year_bound k e doe small last h = elim (dec_lt (k + e * 400) 9999) [
  | yes p ↦ le_trans (suc-le-suc (year_of-le (k + e * 400) (doe - year_start k))) (omega arith)
  | no p ↦
      le_trans
        (suc-le-suc (
          year_of_early (k + e * 400) (doe - year_start k)
            (last_day k doe (omega arith) (h (omega arith)))))
        (omega arith)
]

-- Up to 9999-12-31 the year has four digits.
pub year_of_bound : (n : ℕ) → n < 2932897 → year_of (year_from_march n) (day_of_year n) < 10000
year_of_bound n h =
    year_bound (year_of_era (day_of_era n)) (era n) (day_of_era n)
      (year_of_era_bounds (day_of_era n) (omega arith)).0 (last_era n h).0 (last_era n h).1
