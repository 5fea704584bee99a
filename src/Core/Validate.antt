-- ===== src/Core/Validate.antt =====
-- crates/fineco-core/src/lib.rs: the validators of requests. Dates are the bytes of the text; an
-- expected ISIN is its code points, of which the length in bytes is `byte_len`.
pub mod Bounds
use fineco_helper.Base.Int.{ℤ, ltb_ℤ, pos, div_trunc, ◌-ℤ◌}
use fineco_helper.Core.SafeError.{SafeError}
use fineco_helper.Core.Classes.{ErrorClass}
use fineco_helper.Base.{
  [], ◌∷◌, none, some, false, ok, err, String, ℕ, Text, Option, List, Result, if◌then◌else◌, ◌+◌,
  reverse, Bool, split_once, map, codes, and_then, map_ok, ltb, is_digit, ◌==◌, to_upper, str_eq,
  not, ◌&&◌, ◌||◌, length, all, ok_or, is_upper, take, ◌++◌,
}
use fineco_helper.Core.Text.{is_whitespace}
use fineco_helper.Core.Clock.{parse_iso8601_utc}

unfoldable pub invalid_request : String → SafeError
invalid_request message = record {
  code = "invalid_request";
  class = ErrorClass.validation;
  retryable = false;
  safe_message = codes message;
}

-- The bytes of a code point in UTF-8.
abbrev utf8_size : ℕ → ℕ
utf8_size c = if ltb c 128 then 1 else if ltb c 2048 then 2 else if ltb c 65536 then 3 else 4

-- `str::len`
abbrev pub byte_len : Text → ℕ
byte_len [] = 0
byte_len (c ∷ cs) = utf8_size c + byte_len cs

abbrev pub last? : Text → Option ℕ
last? [] = none
last? (c ∷ []) = some c
last? (c ∷ d ∷ cs) = last? (d ∷ cs)

abbrev trim_start : Text → Text
trim_start [] = []
trim_start (c ∷ cs) = let rest = trim_start cs in if is_whitespace c then rest else c ∷ cs

-- `str::trim`
unfoldable pub trim : Text → Text
trim s = reverse (trim_start (reverse (trim_start s)))

last_is_digit : Option ℕ → Bool
last_is_digit none = false
last_is_digit (some c) = is_digit c

unfoldable pub is_isin : Text → Bool
unfolding last_is_digit
is_isin s =
    (byte_len s == 12)
    && all (λ c. is_upper c || is_digit c) s
    && all is_upper (take 2 s)
    && last_is_digit (last? s)

-- The text before its first dot.
before_dot : Text → Text
before_dot s = elim (split_once b'.' s) [ none ↦ s | some (a, b) ↦ a ]

unfoldable pub normalize_expected_isin : Text → Result SafeError Text
unfolding before_dot
normalize_expected_isin expected =
    let isin = map to_upper (before_dot (trim expected)) in
    if is_isin isin
    then ok isin
    else err (invalid_request "expected_isin must be an ISIN, optionally followed by a suffix.")

abbrev pub max_order_days : ℕ
max_order_days = 30

abbrev pub max_movements_days : ℕ
max_movements_days = 90

abbrev pub order_transaction_kinds : List String
order_transaction_kinds = "equity" ∷ "fundpac" ∷ []

abbrev pub contains : String → List String → Bool
contains x [] = false
contains x (y ∷ ys) = str_eq x y || contains x ys

unfoldable pub validate_order_request : String → ℕ → Result SafeError (Unit {0})
validate_order_request kind days =
    if ltb max_order_days days
    then err (invalid_request "days must be <= 30.")
    else if not (contains kind order_transaction_kinds)
    then err (invalid_request "instrument type must be one of: equity, fundpac.")
    else ok tt

unfoldable pub validate_movements_request : ℕ → Result SafeError (Unit {0})
validate_movements_request days =
    if ltb max_movements_days days then err (invalid_request "days must be <= 90.") else ok tt

abbrev bad_date : SafeError
bad_date = invalid_request "dates must be valid YYYY-MM-DD."

-- The bytes of `T00:00:00Z`
abbrev midnight : Text
midnight = codes "T00:00:00Z"

unfoldable pub parse_iso_date : Text → Result SafeError ℤ
parse_iso_date date =
    if not (length date == 10)
    then err bad_date
    else ok_or (parse_iso8601_utc (date ++ midnight)) bad_date

range_of : ℤ → ℤ → Result SafeError (ℤ × ℤ)
range_of from to =
    if ltb_ℤ to from
    then err (invalid_request "date_from must be on or before date_to.")
    else ok (from, to)

-- The epochs of two dates, in order.
unfoldable pub parse_range : Text → Text → Result SafeError (ℤ × ℤ)
unfolding range_of
parse_range date_from date_to =
    and_then (parse_iso_date date_from)
      (λ from. and_then (parse_iso_date date_to) (λ to. range_of from to))

bounded_span : ℤ × ℤ → Result SafeError (Unit {0})
bounded_span (from, to) =
    if ltb_ℤ (pos max_movements_days) (div_trunc (to -ℤ from) 86400)
    then err (invalid_request "movements date range must be <= 90 days.")
    else ok tt

unfoldable pub validate_movements_range : Text → Text → Result SafeError (Unit {0})
unfolding bounded_span
validate_movements_range date_from date_to = and_then (parse_range date_from date_to) bounded_span

unfoldable pub validate_tax_range : Text → Text → Result SafeError (Unit {0})
validate_tax_range date_from date_to = map_ok (λ _. tt) (parse_range date_from date_to)
