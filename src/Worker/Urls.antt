-- ===== src/Worker/Urls.antt =====
-- crates/fineco-worker/src/lib.rs: the URLs that are built from a request. Text is a list of bytes.
pub mod Encoding
use fineco_helper.Core.SafeError
use fineco_helper.Core.SafeError.{SafeError}
use fineco_helper.Base.{
  [], ◌∷◌, none, some, ℕ, Text, Bool, if◌then◌else◌, ◌++◌, Option, Result, is_upper, ltb, ◌/◌,
  codes, split_once, ok_or, ◌||◌, ◌+◌, ◌%◌, reverse, is_lower, ◌-◌, is_digit, ◌==◌,
}

abbrev pub is_unreserved : ℕ → Bool
is_unreserved b =
    is_upper b
    || is_lower b
    || is_digit b
    || (b == b'-')
    || (b == b'.')
    || (b == b'_')
    || (b == b'~')

-- A digit of `{:X}`
abbrev pub hex_digit : ℕ → ℕ
hex_digit n = if ltb n 10 then b'0' + n else b'A' + (n - 10)

abbrev pub encode_byte : ℕ → Text
encode_byte b =
    if is_unreserved b then b ∷ [] else b'%' ∷ hex_digit (b / 16) ∷ hex_digit (b % 16) ∷ []

unfoldable pub percent_encode_query_component : Text → Text
percent_encode_query_component [] = []
percent_encode_query_component (b ∷ bs) = encode_byte b ++ percent_encode_query_component bs

unfoldable pub etf_query_url : Text → Text → Text → Text
etf_query_url base fineco_key view =
    base
    ++ (codes "?type=ETF&ids="
        ++ (percent_encode_query_component fineco_key ++ (codes "&view=" ++ view)))

unfoldable pub stock_details_url : Text → Text → Text → Text
stock_details_url base venue instr_id =
    base
    ++ (b'/'
        ∷ (percent_encode_query_component venue
            ++ (b'/' ∷ percent_encode_query_component instr_id)))

-- `rsplit_once('.')`: at the last dot.
abbrev pub rsplit_dot : Text → Option (Text × Text)
rsplit_dot s = elim (split_once b'.' (reverse s)) [
  | none ↦ none
  | some (after, before) ↦ some (reverse before, reverse after)
]

unfoldable pub fineco_key_parts : Text → Result SafeError (Text × Text)
fineco_key_parts fineco_key = ok_or (rsplit_dot fineco_key) SafeError.market_unexpected_response
