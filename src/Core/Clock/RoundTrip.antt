-- ===== src/Core/Clock/RoundTrip.antt =====
-- crates/fineco-core/src/freshness.rs: `parse_iso8601_utc` reads what `epoch_to_iso8601_utc`
-- prints.
use fineco_helper.Base.{
  ℕ, ◌+◌, ◌/◌, ◌%◌, ◌<◌, ◌≡◌, refl, true, arith, Text, [], ◌∷◌, some, text_eq, text_eq_sound,
  all_below, all_below_sound, split_once, ◌++◌, All, ◌≢◌, none, ◌≤◌, ◌*◌, ap,
}
use fineco_helper.Base.Int.{pos, leb_ℤ, *ℤ-pos, +ℤ-pos}
use fineco_helper.Core.Clock.{
  pad, digits, strip_suffix, parse_date, drop_fraction, parse_time, parse_iso8601_utc, epoch_of,
  epoch_to_iso8601_utc, days_in_month, days_from_civil,
}
use fineco_helper.Core.Clock.CivilPos.{
  year_of, month_of, day_of, day_of_year_bound, year_from_march, day_of_year, civil_from_days-pos,
  days_from_civil-civil_from_days,
}
use fineco_helper.Core.Clock.Valid.{month_of_bounds, year_of_bound, day_of_valid}

-- A digit's code.
abbrev digit : ℕ → ℕ
digit n = b'0' + n % 10

two_digits : ℕ → Text
two_digits n = digit (n / 10) ∷ digit n ∷ []

four_digits : ℕ → Text
four_digits n = digit (n / 1000) ∷ digit (n / 100) ∷ digit (n / 10) ∷ digit n ∷ []

pad-two_table : all_below 100 (λ n. text_eq (pad 2 (pos n)) (two_digits n)) ≡ true
unfolding all_below pad two_digits
pad-two_table = refl

pad-four_table : all_below 10000 (λ n. text_eq (pad 4 (pos n)) (four_digits n)) ≡ true
unfolding all_below pad four_digits
pad-four_table = refl

pad-two : (n : ℕ) → n < 100 → pad 2 (pos n) ≡ two_digits n
pad-two n h =
    text_eq_sound _ _
      (all_below_sound 100 (λ n. text_eq (pad 2 (pos n)) (two_digits n)) n pad-two_table h)

pad-four : (n : ℕ) → n < 10000 → pad 4 (pos n) ≡ four_digits n
pad-four n h =
    text_eq_sound _ _
      (all_below_sound 10000 (λ n. text_eq (pad 4 (pos n)) (four_digits n)) n pad-four_table h)

digits-two : (n : ℕ) → n < 100 → digits (two_digits n) ≡ some (pos n)
unfolding digits two_digits
digits-two n h = ground arith

digits-four : (n : ℕ) → n < 10000 → digits (four_digits n) ≡ some (pos n)
unfolding digits four_digits
digits-four n h = ground arith

-- The printed text of the fields.
stamp : ℕ → ℕ → ℕ → ℕ → ℕ → ℕ → Text
stamp y m d h i s =
    four_digits y
    ++ (b'-' ∷ two_digits m
        ++ (b'-' ∷ two_digits d
            ++ (b'T' ∷ two_digits h
                ++ (b':' ∷ two_digits i ++ (b':' ∷ two_digits s ++ (b'Z' ∷ []))))))

date_text : ℕ → ℕ → ℕ → Text
date_text y m d = four_digits y ++ (b'-' ∷ two_digits m ++ (b'-' ∷ two_digits d))

time_text : ℕ → ℕ → ℕ → Text
time_text h i s = two_digits h ++ (b':' ∷ two_digits i ++ (b':' ∷ two_digits s))

split_once-append :
    (c : ℕ) (a b : Text) → All (λ x. x ≢ c) a → split_once c (a ++ (c ∷ b)) ≡ some (a, b)
split_once-append c [] b h = ground arith
split_once-append c (x ∷ xs) b h = ground (arith, split_once-append c xs b h.1)

split_once_absent : (c : ℕ) (a : Text) → All (λ x. x ≢ c) a → split_once c a ≡ none
split_once_absent c [] h = refl
split_once_absent c (x ∷ xs) h = ground (arith, split_once_absent c xs h.1)

split_once-stamp :
    (y m d h i s : ℕ)
    → split_once b'T' (stamp y m d h i s) ≡ some (date_text y m d, time_text h i s ++ (b'Z' ∷ []))
unfolding stamp date_text time_text two_digits four_digits
split_once-stamp y m d h i s =
    split_once-append b'T' (date_text y m d) (time_text h i s ++ (b'Z' ∷ [])) (omega arith)

strip_suffix-time :
    (h i s : ℕ) → strip_suffix b'Z' (time_text h i s ++ (b'Z' ∷ [])) ≡ some (time_text h i s)
unfolding time_text two_digits
strip_suffix-time h i s = ground arith

parse_date-date_text :
    (y m d : ℕ)
    → y < 10000
    → m < 100
    → d < 100
    → parse_date (date_text y m d) ≡ some (pos y, pos m, pos d)
unfolding parse_date date_text two_digits four_digits
parse_date-date_text y m d hy hm hd = simp (digits-four y hy, digits-two m hm, digits-two d hd)

drop_fraction_absent : (t : Text) → split_once b'.' t ≡ none → drop_fraction t ≡ some t
unfolding drop_fraction
drop_fraction_absent t e = rw (e, drop_fraction)

time_text_no_point : (h i s : ℕ) → All (λ x. x ≢ b'.') (time_text h i s)
unfolding time_text two_digits
time_text_no_point h i s = omega arith

drop_fraction-time_text : (h i s : ℕ) → drop_fraction (time_text h i s) ≡ some (time_text h i s)
drop_fraction-time_text h i s =
    drop_fraction_absent (time_text h i s)
      (split_once_absent b'.' (time_text h i s) (time_text_no_point h i s))

parse_time-time_text :
    (h i s : ℕ)
    → h < 100
    → i < 100
    → s < 100
    → parse_time (time_text h i s) ≡ some (pos h, pos i, pos s)
unfolding parse_time time_text two_digits
parse_time-time_text h i s hh hi hs =
    rw (drop_fraction-time_text h i s) (simp (digits-two h hh, digits-two i hi, digits-two s hs))

-- What the parser does with a printed stamp.
parse-stamp :
    (y m d h i s : ℕ)
    → y < 10000
    → m < 100
    → d < 100
    → h < 100
    → i < 100
    → s < 100
    → parse_iso8601_utc (stamp y m d h i s) ≡ epoch_of (pos y, pos m, pos d) (pos h, pos i, pos s)
unfolding parse_iso8601_utc
parse-stamp y m d h i s hy hm hd hh hi hs = simp (
  split_once-stamp,
  strip_suffix-time,
  parse_date-date_text y m d hy hm hd,
  parse_time-time_text h i s hh hi hs,
)

epoch_of-pos :
    (y m d h i s n : ℕ)
    → 1 ≤ m
    → m ≤ 12
    → 1 ≤ d
    → leb_ℤ (pos d) (days_in_month (pos y) (pos m)) ≡ true
    → h < 24
    → i < 60
    → s < 60
    → days_from_civil (pos y) (pos m) (pos d) ≡ pos n
    → epoch_of (pos y, pos m, pos d) (pos h, pos i, pos s)
      ≡ some (pos (n * 86400 + h * 3600 + i * 60 + s))
unfolding epoch_of
epoch_of-pos y m d h i s n m1 m2 d1 d2 hh hi hs e = ground (
  arith,
  e,
  *ℤ-pos n 86400,
  *ℤ-pos h 3600,
  *ℤ-pos i 60,
  +ℤ-pos (n * 86400) (h * 3600),
  +ℤ-pos (n * 86400 + h * 3600) (i * 60),
  +ℤ-pos (n * 86400 + h * 3600 + i * 60) s,
)

module _ (e : ℕ) where
  -- The day, and the second of the day.
  abbrev day_number : ℕ
  day_number = e / 86400

  abbrev second : ℕ
  second = e % 86400

  abbrev y : ℕ
  y = year_of (year_from_march day_number) (day_of_year day_number)

  abbrev m : ℕ
  m = month_of (day_of_year day_number)

  abbrev d : ℕ
  d = day_of (day_of_year day_number)

  d_bounds : (1 ≤ d) × (d < 100)
  d_bounds = (omega arith, omega (arith, day_of_year_bound day_number))

  epoch_to_iso8601_utc-stamp :
      e < 253402300800
      → epoch_to_iso8601_utc (pos e)
        ≡ stamp y m d (second / 3600) (second % 3600 / 60) (second % 60)
  unfolding epoch_to_iso8601_utc stamp
  epoch_to_iso8601_utc-stamp h =
      let ms = month_of_bounds (day_of_year day_number) (day_of_year_bound day_number) in
      simp (
        civil_from_days-pos day_number,
        pad-four y (year_of_bound day_number (omega arith)),
        pad-two m (omega arith),
        pad-two d d_bounds.1,
        pad-two (second / 3600) (omega arith),
        pad-two (second % 3600 / 60) (omega arith),
        pad-two (second % 60) (omega arith),
      )

  -- An epoch from 1970 to the end of year 9999 is printed as a text that parses back to it.
  pub parse-epoch_to_iso8601_utc :
      e < 253402300800 → parse_iso8601_utc (epoch_to_iso8601_utc (pos e)) ≡ some (pos e)
  parse-epoch_to_iso8601_utc h =
      let ms = month_of_bounds (day_of_year day_number) (day_of_year_bound day_number) in
      let days : days_from_civil (pos y) (pos m) (pos d) ≡ pos day_number =
        rw (civil_from_days-pos day_number) at (days_from_civil-civil_from_days day_number) in
      rw
        (
          epoch_to_iso8601_utc-stamp h,
          parse-stamp y m d (second / 3600) (second % 3600 / 60) (second % 60)
              (year_of_bound day_number (omega arith)) (omega arith) d_bounds.1 (omega arith)
              (omega arith) (omega arith),
          epoch_of-pos y m d (second / 3600) (second % 3600 / 60) (second % 60) day_number ms.0 ms.1
              d_bounds.0 (day_of_valid day_number) (omega arith) (omega arith) (omega arith) days,
        )
        (ap (λ n. some (pos n)) (omega arith))
