-- ===== src/Worker/Expiry.antt =====
-- crates/fineco-worker/src/lib.rs: reading the lifetime out of a `Set-Cookie` value. Numbers are read
-- the way `str::parse` reads them, with an optional sign.
use mathlib.Core.Option
use fineco_helper.Base.Maybe.{◌>>=◌, ◌>>◌, guard}
use fineco_helper.Base.{
  [], ◌∷◌, none, some, ℕ, Text, List, String, ◌*◌, Option, Bool, ◌+◌, if◌then◌else◌, text_eq, leb,
  split_once, ◌-◌, min, keep, all, ◌==◌, map, ◌&&◌, is_digit, to_lower, codes, ◌||◌,
}
use fineco_helper.Base.Int.{ℤ, pos_part, pos, sub_ℕ}
use fineco_helper.Worker.Cookies.{split_on}
use fineco_helper.Worker.Dates.{unix_secs_from_ymdhms}
use fineco_helper.Worker.Errors.{contains_text, to_ascii_lowercase}
use fineco_helper.Core.Text.{split_whitespace}
use fineco_helper.Core.Validate.{trim}
use fineco_helper.Core.Transport.{before_any}

-- The number that a row of digits spells, at most `max`.
abbrev digits_value : ℕ → Text → ℕ
digits_value n [] = n
digits_value n (c ∷ cs) = digits_value (n * 10 + (c - b'0')) cs

abbrev pub parse_digits : ℕ → Text → Option ℕ
parse_digits max [] = none
parse_digits max (c ∷ cs) =
    if all is_digit (c ∷ cs) && leb (digits_value 0 (c ∷ cs)) max
    then some (digits_value 0 (c ∷ cs))
    else none

-- `parse::<u32>` and `parse::<u64>`
unfoldable pub parse_unsigned : ℕ → Text → Option ℕ
parse_unsigned max [] = none
parse_unsigned max (c ∷ cs) = if c == b'+' then parse_digits max cs else parse_digits max (c ∷ cs)

-- `parse::<i32>` and `parse::<i64>`: down to `- max - 1`.
unfoldable pub parse_signed : ℕ → Text → Option ℤ
parse_signed max [] = none
parse_signed max (c ∷ cs) =
    if c == b'+'
    then Option.map pos (parse_digits max cs)
    else if c == b'-'
    then Option.map (λ n. sub_ℕ 0 n) (parse_digits (max + 1) cs)
    else Option.map pos (parse_digits max (c ∷ cs))

abbrev pub u32_max : ℕ
u32_max = 4294967295

abbrev i32_max : ℕ
i32_max = 2147483647

abbrev eq_ignore_case : Text → String → Bool
eq_ignore_case s name = text_eq (map to_lower s) (map to_lower (codes name))

unfoldable pub month_number : Text → Option ℕ
month_number s =
    if eq_ignore_case s "Jan"
    then some 1
    else if eq_ignore_case s "Feb"
    then some 2
    else if eq_ignore_case s "Mar"
    then some 3
    else if eq_ignore_case s "Apr"
    then some 4
    else if eq_ignore_case s "May"
    then some 5
    else if eq_ignore_case s "Jun"
    then some 6
    else if eq_ignore_case s "Jul"
    then some 7
    else if eq_ignore_case s "Aug"
    then some 8
    else if eq_ignore_case s "Sep"
    then some 9
    else if eq_ignore_case s "Oct"
    then some 10
    else if eq_ignore_case s "Nov"
    then some 11
    else if eq_ignore_case s "Dec"
    then some 12
    else none

unfoldable pub hms_of : List Text → Option (ℕ × ℕ × ℕ)
hms_of (h ∷ m ∷ s ∷ []) = do
  hour ← parse_unsigned u32_max h
  minute ← parse_unsigned u32_max m
  second ← parse_unsigned u32_max s
  guard (leb hour 23 && leb minute 59 && leb second 59)
  some (hour, minute, second)
hms_of parts = none

unfoldable pub parse_hms : Text → Option (ℕ × ℕ × ℕ)
parse_hms value = hms_of (split_on b':' value)

unfoldable pub date_of : List Text → Option (ℕ × ℕ × ℤ)
date_of (d ∷ m ∷ y ∷ []) = do
  day ← parse_unsigned u32_max d
  month ← month_number m
  year ← parse_signed i32_max y
  some (day, month, year)
date_of parts = none

unfoldable pub parse_hyphenated_cookie_date : Text → Option (ℕ × ℕ × ℤ)
parse_hyphenated_cookie_date date = date_of (split_on b'-' date)

-- The time, `GMT` and nothing more behind a date.
unfoldable pub secs_at : ℕ × ℕ × ℤ → List Text → Option ℕ
secs_at (day, month, year) (time ∷ zone ∷ []) = do
  (hour, minute, second) ← parse_hms time
  guard (eq_ignore_case zone "GMT")
  unix_secs_from_ymdhms year month day hour minute second
secs_at date parts = none

-- A date in three parts.
unfoldable pub secs_of_spaced : List Text → Option ℕ
secs_of_spaced (d ∷ m ∷ y ∷ parts) = do date ← date_of (d ∷ m ∷ y ∷ []); secs_at date parts
secs_of_spaced parts = none

unfoldable pub secs_of_parts : List Text → Option ℕ
secs_of_parts [] = none
secs_of_parts (date ∷ parts) = elim (parse_hyphenated_cookie_date date) [
  | none ↦ secs_of_spaced (date ∷ parts)
  | some fields ↦ secs_at fields parts
]

unfoldable pub parse_imf_fixdate_unix_secs : Text → Option ℕ
parse_imf_fixdate_unix_secs value = do
  (weekday, rest) ← split_once b',' value
  secs_of_parts (split_whitespace rest)

-- `find_map` over the attributes behind the first field.
abbrev pub find_map : {A : Type 0} → (Text → Option A) → List Text → Option A
find_map f [] = none
find_map f (x ∷ xs) = let rest = find_map f xs in elim (f x) [ none ↦ rest | some a ↦ some a ]

abbrev pub tail_of : List Text → List Text
tail_of [] = []
tail_of (x ∷ xs) = xs

abbrev pub attributes_of : Text → List Text
attributes_of set_cookie = tail_of (split_on b';' set_cookie)

-- The value of an attribute of that name.
abbrev pub attribute_value : String → Text → Option Text
attribute_value wanted attribute = do
  (name, value) ← split_once b'=' (trim attribute)
  guard (eq_ignore_case (trim name) wanted)
  some (trim value)

abbrev to_u64 : ℤ → ℕ
to_u64 n = pos_part n

unfoldable pub max_age_secs_from_set_cookie : Text → Option ℕ
max_age_secs_from_set_cookie set_cookie =
    find_map
      (λ a. do
        value ← attribute_value "Max-Age" a
        seconds ← parse_signed 9223372036854775807 value
        some (to_u64 seconds))
      (attributes_of set_cookie)

unfoldable pub expires_secs_from_set_cookie_at : ℕ → Text → Option ℕ
expires_secs_from_set_cookie_at now_unix_secs set_cookie =
    find_map
      (λ a. do
        value ← attribute_value "Expires" a
        expires ← parse_imf_fixdate_unix_secs value
        some (expires - now_unix_secs))
      (attributes_of set_cookie)

unfoldable pub ttl_secs_from_set_cookie_at : ℕ → Text → Option ℕ
ttl_secs_from_set_cookie_at now_unix_secs set_cookie =
    elim (max_age_secs_from_set_cookie set_cookie) [
      | none ↦ expires_secs_from_set_cookie_at now_unix_secs set_cookie
      | some secs ↦ some secs
    ]

unfoldable pub is_session_cookie : Text → Bool
is_session_cookie set_cookie =
    contains_text
      (to_ascii_lowercase (trim (before_any (λ c. (c == b'=') || (c == b';')) set_cookie)))
      (codes "session")

-- `min`, over those that declare a lifetime.
abbrev pub shortest : ℕ → List Text → Option ℕ
shortest now [] = none
shortest now (c ∷ cs) =
    let rest = shortest now cs in
    elim (ttl_secs_from_set_cookie_at now c) [
      | none ↦ rest
      | some secs ↦ some (elim rest [ none ↦ secs | some other ↦ min secs other ])
    ]

unfoldable pub session_expires_in_secs_from : ℕ → List Text → Option ℕ
session_expires_in_secs_from now set_cookies = shortest now (keep is_session_cookie set_cookies)
