-- ===== src/Core/Clock.antt =====
-- crates/fineco-core/src/freshness.rs: the calendar, and the timestamps' parser and printer.
-- An `i64` is a ℤ: a parsed year has four digits and a printed epoch is divided by 86400 first, so
-- no operation here leaves the `i64` range. Text is a list of bytes.
pub mod Civil
pub mod CivilPos
pub mod Valid
pub mod RoundTrip
mod Examples
use fineco_helper.Base.{
  ℕ, zero, suc, ◌+◌, ◌-◌, ◌*◌, ◌/◌, ◌%◌, Bool, true, false, not, ◌&&◌, ◌||◌, Option, none, some,
  List, [], ◌∷◌, ◌++◌, Text, length, take, drop, replicate, all, ltb, leb, ◌==◌, if◌then◌else◌,
  is_digit, split_once, get_elem?, ◌≡◌, refl, codes,
}
use fineco_helper.Base.Int.{
  ℤ, pos, negsuc, ◌+ℤ◌, ◌-ℤ◌, ◌*ℤ◌, ltb_ℤ, leb_ℤ, eqb_ℤ, div_trunc, rem_trunc, div_euclid,
  rem_euclid,
}
use fineco_helper.Base.Maybe.{◌>>=◌, ◌>>◌, guard}

unfoldable pub is_leap : ℤ → Bool
unfolding rem_trunc
is_leap year =
    (eqb_ℤ (rem_trunc year 4) (pos 0) && not (eqb_ℤ (rem_trunc year 100) (pos 0)))
    || eqb_ℤ (rem_trunc year 400) (pos 0)

is_month : ℤ → ℕ → Bool
is_month month n = eqb_ℤ month (pos n)

unfoldable pub days_in_month : ℤ → ℤ → ℤ
unfolding is_leap is_month
days_in_month year month =
    if is_month month 1
      || is_month month 3
      || is_month month 5
      || is_month month 7
      || is_month month 8
      || is_month month 10
      || is_month month 12
    then pos 31
    else if is_month month 4 || is_month month 6 || is_month month 9 || is_month month 11
    then pos 30
    else if is_month month 2 && is_leap year
    then pos 29
    else if is_month month 2
    then pos 28
    else pos 0

-- Days of an era (400 years from 1 March) before one of its years.
unfoldable pub year_days : ℤ → ℤ
year_days year_of_era =
    year_of_era *ℤ pos 365 +ℤ div_trunc year_of_era 4 -ℤ div_trunc year_of_era 100

-- Days of a year from 1 March before one of its months.
unfoldable pub month_days : ℤ → ℤ
month_days month_index = div_trunc (pos 153 *ℤ month_index +ℤ pos 2) 5

-- The era of a year or of a day, rounded down.
unfoldable pub era_of : ℤ → ℕ → ℤ
era_of n size = div_trunc (if leb_ℤ (pos 0) n then n else n -ℤ pos (size - 1)) size

-- The year and the month (0 to 11) of a date, for a year that begins on 1 March.
unfoldable pub march_year : ℤ → ℤ → ℤ
march_year year month = if leb_ℤ month (pos 2) then year -ℤ pos 1 else year

unfoldable pub march_month : ℤ → ℤ
march_month month = if ltb_ℤ (pos 2) month then month -ℤ pos 3 else month +ℤ pos 9

-- Days from 1970-01-01.
unfoldable pub days_from_civil : ℤ → ℤ → ℤ → ℤ
days_from_civil year month day =
    let y = march_year year month in
    let era = era_of y 400 in
    let year_of_era = y -ℤ era *ℤ pos 400 in
    let day_of_year = month_days (march_month month) +ℤ day -ℤ pos 1 in
    era *ℤ pos 146097 +ℤ (year_days year_of_era +ℤ day_of_year) -ℤ pos 719468

-- The year of a day of the era.
unfoldable pub era_year : ℤ → ℤ
era_year day_of_era =
    div_trunc
      (day_of_era
        -ℤ div_trunc day_of_era 1460
        +ℤ div_trunc day_of_era 36524
        -ℤ div_trunc day_of_era 146096)
      365

-- And back.
unfoldable pub civil_month : ℤ → ℤ
civil_month month_index =
    if ltb_ℤ month_index (pos 10) then month_index +ℤ pos 3 else month_index -ℤ pos 9

unfoldable pub civil_year : ℤ → ℤ → ℤ
civil_year year month = if leb_ℤ month (pos 2) then year +ℤ pos 1 else year

-- Month and day of a day of the year, whose January and February belong to the next year.
unfoldable pub date_of_year : ℤ → ℤ → ℤ × ℤ × ℤ
date_of_year year day_of_year =
    let month_index = div_trunc (pos 5 *ℤ day_of_year +ℤ pos 2) 153 in
    let day = day_of_year -ℤ month_days month_index +ℤ pos 1 in
    let month = civil_month month_index in (civil_year year month, month, day)

-- The inverse: year, month and day of a day number.
unfoldable pub civil_from_days : ℤ → ℤ × ℤ × ℤ
civil_from_days days =
    let z = days +ℤ pos 719468 in
    let era = era_of z 146097 in
    let day_of_era = z -ℤ era *ℤ pos 146097 in
    let year_of_era = era_year day_of_era in
    date_of_year (year_of_era +ℤ era *ℤ pos 400) (day_of_era -ℤ year_days year_of_era)

-- The number that a row of digits spells, after those already read.
decimal_value : ℕ → Text → ℕ
decimal_value n [] = n
decimal_value n (c ∷ cs) = decimal_value (n * 10 + (c - b'0')) cs

is_empty : Text → Bool
is_empty [] = true
is_empty (c ∷ cs) = false

-- An all-ASCII-digit field; `str::parse` fails past the `i64` range.
unfoldable pub digits : Text → Option ℤ
unfolding decimal_value is_empty
digits s =
    if is_empty s || not (all is_digit s)
    then none
    else if leb (decimal_value 0 s) 9223372036854775807
    then some (pos (decimal_value 0 s))
    else none

-- `s[from..to]`
abbrev pub slice : ℕ → ℕ → Text → Text
slice from to s = take (to - from) (drop from s)

-- `s.as_bytes()[i] == c`, where a length test has shown that `i` is in range.
byte_is : ℕ → ℕ → Text → Bool
byte_is i c s = elim (get_elem? s i) [ none ↦ false | some d ↦ d == c ]

unfoldable pub parse_date : Text → Option (ℤ × ℤ × ℤ)
unfolding byte_is
parse_date s = do
  guard (length s == 10 && byte_is 4 b'-' s && byte_is 7 b'-' s)
  year ← digits (slice 0 4 s)
  month ← digits (slice 5 7 s)
  day ← digits (slice 8 10 s)
  some (year, month, day)

-- The time without its optional fraction; a fraction that is no row of digits is refused.
unfoldable pub drop_fraction : Text → Option Text
unfolding is_empty
drop_fraction time = elim (split_once b'.' time) [
  | none ↦ some time
  | some (hms, frac) ↦ if not (is_empty frac) && all is_digit frac then some hms else none
]

unfoldable pub parse_time : Text → Option (ℤ × ℤ × ℤ)
unfolding byte_is
parse_time time = do
  hms ← drop_fraction time
  guard (length hms == 8 && byte_is 2 b':' hms && byte_is 5 b':' hms)
  hour ← digits (slice 0 2 hms)
  minute ← digits (slice 3 5 hms)
  second ← digits (slice 6 8 hms)
  some (hour, minute, second)

-- `str::strip_suffix` of one ASCII character.
abbrev pub strip_suffix : ℕ → Text → Option Text
strip_suffix c [] = none
strip_suffix c (x ∷ []) = if x == c then some [] else none
strip_suffix c (x ∷ y ∷ r) = strip_suffix c (y ∷ r) >>= λ s. some (x ∷ s)

abbrev in_range : ℕ → ℤ → ℤ → Bool
in_range low high n = leb_ℤ (pos low) n && leb_ℤ n high

-- The range checks, and the epoch, once the fields are read.
unfoldable pub epoch_of : ℤ × ℤ × ℤ → ℤ × ℤ × ℤ → Option ℤ
epoch_of (year, month, day) (hour, minute, second) =
    if not (in_range 1 (pos 12) month) || not (in_range 1 (days_in_month year month) day)
    then none
    else if ltb_ℤ (pos 23) hour || ltb_ℤ (pos 59) minute || ltb_ℤ (pos 59) second
    then none
    else some (
        days_from_civil year month day *ℤ pos 86400
        +ℤ hour *ℤ pos 3600
        +ℤ minute *ℤ pos 60
        +ℤ second)

-- `YYYY-MM-DDTHH:MM:SS[.fraction]Z` to seconds since the Unix epoch.
unfoldable pub parse_iso8601_utc : Text → Option ℤ
parse_iso8601_utc s = do
  parts ← split_once b'T' s
  time ← strip_suffix b'Z' parts.1
  date_fields ← parse_date parts.0
  time_fields ← parse_time time
  epoch_of date_fields time_fields

-- The decimal digits of a number below 10 ^ 20, which every `i64` is.
show_digits : ℕ → ℕ → Text → Text
show_digits zero n rest = rest
show_digits (suc f) n rest =
    let c = b'0' + n % 10 in
    let more = show_digits f (n / 10) (c ∷ rest) in if ltb n 10 then c ∷ rest else more

-- `{n:0width}`; the sign counts into the width.
unfoldable pub pad : ℕ → ℤ → Text
unfolding show_digits
pad width (pos n) = let s = show_digits 20 n [] in replicate (width - length s) b'0' ++ s
pad width (negsuc n) =
    let s = show_digits 20 (suc n) [] in b'-' ∷ (replicate (width - 1 - length s) b'0' ++ s)

unfoldable pub epoch_to_iso8601_utc : ℤ → Text
unfolding div_euclid rem_euclid
epoch_to_iso8601_utc epoch_seconds =
    let seconds = rem_euclid epoch_seconds 86400 in
    let (year, month, day) = civil_from_days (div_euclid epoch_seconds 86400) in
    pad 4 year
    ++ (b'-' ∷ pad 2 month
        ++ (b'-' ∷ pad 2 day
            ++ (b'T' ∷ pad 2 (pos (seconds / 3600))
                ++ (b':' ∷ pad 2 (pos (seconds % 3600 / 60))
                    ++ (b':' ∷ pad 2 (pos (seconds % 60)) ++ (b'Z' ∷ []))))))
