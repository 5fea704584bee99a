-- ===== src/Worker/Taxonomy.antt =====
-- crates/fineco-worker/src/parse.rs: the taxonomy of the movements' categories. A map is its entries in
-- any order. Text is a list of code points; where the source counts bytes up to a `;`, code points
-- give the same, as no entity with another character is known.
pub mod Entities
use mathlib.Core.Option
use fineco_helper.Base.Maybe.{◌>>=◌, ◌>>◌, guard}
use fineco_helper.Base.{
  [], ◌∷◌, none, some, true, false, zero, suc, ℕ, Text, List, Option, String, ◌==◌, if◌then◌else◌,
  length, is_digit, leb, ltb, ◌||◌, text_eq, ◌+◌, ◌-◌, ◌&&◌, codes, ◌*◌,
}
use fineco_helper.Worker.Expiry.{u32_max, parse_unsigned}

abbrev hex_digit_value : ℕ → Option ℕ
hex_digit_value c =
    if is_digit c
    then some (c - b'0')
    else if leb b'a' c && leb c b'f'
    then some (c - b'a' + 10)
    else if leb b'A' c && leb c b'F'
    then some (c - b'A' + 10)
    else none

abbrev hex_value : ℕ → Text → Option ℕ
hex_value n [] = if leb n u32_max then some n else none
hex_value n (c ∷ cs) = hex_digit_value c >>= λ d. hex_value (n * 16 + d) cs

abbrev hex_digits : Text → Option ℕ
hex_digits [] = none
hex_digits (c ∷ cs) = hex_value 0 (c ∷ cs)

-- `u32::from_str_radix(.., 16)`
abbrev pub parse_hex : Text → Option ℕ
parse_hex [] = none
parse_hex (c ∷ cs) = if c == b'+' then hex_digits cs else hex_digits (c ∷ cs)

-- `char::from_u32`
abbrev pub char_from : ℕ → Option ℕ
char_from n = if ltb n 55296 || (leb 57344 n && leb n 1114111) then some n else none

unfoldable pub numeric_entity : Text → Option ℕ
numeric_entity [] = none
numeric_entity (c ∷ cs) =
    if (c == b'x') || (c == b'X')
    then parse_hex cs >>= char_from
    else parse_unsigned u32_max (c ∷ cs) >>= char_from

abbrev named_entities : List (String × ℕ)
named_entities =
    ("amp", b'&')
    ∷ ("lt", b'<')
    ∷ ("gt", b'>')
    ∷ ("quot", b'"')
    ∷ ("apos", b'\'')
    ∷ ("nbsp", 160)
    ∷ ("agrave", 224)
    ∷ ("egrave", 232)
    ∷ ("eacute", 233)
    ∷ ("igrave", 236)
    ∷ ("ograve", 242)
    ∷ ("ugrave", 249)
    ∷ ("Agrave", 192)
    ∷ ("Egrave", 200)
    ∷ ("Eacute", 201)
    ∷ ("Igrave", 204)
    ∷ ("Ograve", 210)
    ∷ ("Ugrave", 217)
    ∷ ("ccedil", 231)
    ∷ ("Ccedil", 199)
    ∷ []

abbrev find_entity : Text → List (String × ℕ) → Option ℕ
find_entity entity [] = none
find_entity entity ((name, char) ∷ rest) =
    if text_eq entity (codes name) then some char else find_entity entity rest

unfoldable pub decode_one_entity : Text → Option ℕ
decode_one_entity [] = none
decode_one_entity (c ∷ cs) =
    if c == b'#' then numeric_entity cs else find_entity (c ∷ cs) named_entities

-- The text before the first `;`, if that is among the first characters.
abbrev pub up_to_semicolon : ℕ → Text → Option Text
up_to_semicolon limit [] = none
up_to_semicolon zero (c ∷ cs) = if c == b';' then some [] else none
up_to_semicolon (suc limit) (c ∷ cs) =
    let rest = Option.map (λ s. c ∷ s) (up_to_semicolon limit cs) in
    if c == b';' then some [] else rest

-- The character of an entity behind a `&`, and how many characters the entity takes with its `;`.
unfoldable pub entity_at : Text → Option (ℕ × ℕ)
entity_at after = do
  body ← up_to_semicolon 10 after
  char ← decode_one_entity body
  some (char, length body + 1)

-- The characters after those that are skipped.
unfoldable pub decode_from : ℕ → Text → Text
decode_from skip [] = []
decode_from (suc skip) (c ∷ cs) = decode_from skip cs
decode_from zero (c ∷ cs) = elim (c == b'&') [
  | false ↦ c ∷ decode_from 0 cs
  | true ↦ elim (entity_at cs) [
    | none ↦ b'&' ∷ decode_from 0 cs
    | some (char, taken) ↦ char ∷ decode_from taken cs
  ]
]

unfoldable pub decode_html_entities : Text → Text
decode_html_entities input = decode_from 0 input
