-- ===== src/Core/Clock/Civil.antt =====
-- crates/fineco-core/src/freshness.rs: the calendar of `civil_from_days` on day numbers that are
-- not negative, as arithmetic of natural numbers.
use fineco_helper.Base.{
  ℕ, suc, ◌+◌, ◌-◌, ◌*◌, ◌/◌, ◌≤◌, ◌<◌, ◌≡◌, refl, Bool, true, ◌&&◌, leb, ltb, arith, zero, dec_lt,
  all_below, all_below_sound,
}

-- Days of the era (400 years from 1 March) before its year `k`.
abbrev pub year_start : ℕ → ℕ
year_start k = 365 * k + k / 4 - k / 100 + k / 400

-- The day number less its leap days, whose quotient by 365 is the year.
abbrev pub leapless : ℕ → ℕ
leapless doe = doe - doe / 1460 + doe / 36524 - doe / 146096

abbrev pub year_of_era : ℕ → ℕ
year_of_era doe = leapless doe / 365

leapless_mono : (a b : ℕ) → a ≤ b → b < 146097 → leapless a ≤ leapless b
leapless_mono a b h k = omega arith

year_fits : ℕ → Bool
year_fits k =
    leb (365 * k) (leapless (year_start k))
    && ltb (leapless (year_start (k + 1) - 1)) (365 * (k + 1))

years_fit : all_below 400 year_fits ≡ true
unfolding all_below year_fits
years_fit = refl

year_fits_lem :
    (k : ℕ)
    → k < 400
    → (365 * k ≤ leapless (year_start k)) × (leapless (year_start (k + 1) - 1) < 365 * (k + 1))
unfolding year_fits
year_fits_lem k h = ground (arith, all_below_sound 400 year_fits k years_fit h)

-- The year found holds the day.
pub year_of_era_bounds :
    (doe : ℕ)
    → doe < 146097
    → (year_of_era doe < 400)
      × (year_start (year_of_era doe) ≤ doe)
      × (doe < year_start (year_of_era doe + 1))
year_of_era_bounds doe h = (bound, above (year_of_era doe) refl, below)
  where
    bound : year_of_era doe < 400
    bound = omega arith

    above : (k : ℕ) → k ≡ year_of_era doe → year_start k ≤ doe
    above zero e = omega arith
    above (suc j) e = elim (dec_lt doe (year_start (suc j))) [
      | yes p ↦ absurd (
          omega (
            arith,
            year_fits_lem j (omega arith),
            leapless_mono doe (year_start (j + 1) - 1) (omega arith) (omega arith),
          ))
      | no p ↦ omega arith
    ]

    below : doe < year_start (year_of_era doe + 1)
    below = elim (dec_lt doe (year_start (year_of_era doe + 1))) [
      | yes p ↦ p
      | no p ↦ absurd (
          omega (
            arith,
            year_fits_lem (year_of_era doe + 1) (omega arith),
            leapless_mono (year_start (year_of_era doe + 1)) doe (omega arith) h,
          ))
    ]
