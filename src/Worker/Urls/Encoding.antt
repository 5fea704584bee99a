-- ===== src/Worker/Urls/Encoding.antt =====
-- crates/fineco-worker/src/lib.rs: an encoded component can be read back, and ends no component.
use fineco_helper.Worker.Urls.{
  is_unreserved, percent_encode_query_component, hex_digit, encode_byte,
}
use fineco_helper.Base.{
  [], ◌∷◌, ℕ, Text, if◌then◌else◌, Bool, ltb, ◌==◌, ◌||◌, ◌-◌, ◌*◌, ◌+◌, true, false, inl, inr,
  refl, ◌≡◌, ◌<◌, arith, All, ◌++◌, Bool-cases, ◌∙◌, ap, ◌/◌, ◌%◌, All-append, not, ◌&&◌,
}

-- The value of an upper-case hexadecimal digit.
abbrev hex_value : ℕ → ℕ
hex_value c = if ltb c b'A' then c - b'0' else c - b'A' + 10

-- What a server reads.
pub percent_decode : Text → Text
percent_decode [] = []
percent_decode (c ∷ []) = c ∷ []
percent_decode (c ∷ d ∷ []) = c ∷ d ∷ []
percent_decode (c ∷ d ∷ e ∷ rest) =
    let after = percent_decode rest in
    let next = percent_decode (d ∷ e ∷ rest) in
    if c == b'%' then (hex_value d * 16 + hex_value e) ∷ after else c ∷ next

abbrev is_between : ℕ → ℕ → ℕ → Bool
is_between lo hi c = not (ltb c lo) && not (ltb hi c)

-- The unreserved characters of RFC 3986, which are digits, letters, hyphen, full stop, low line and
-- tilde, and the escape.
abbrev pub is_safe_byte : ℕ → Bool
is_safe_byte c =
    is_between 48 57 c
    || is_between 65 90 c
    || is_between 97 122 c
    || (c == 45)
    || (c == 46)
    || (c == 95)
    || (c == 126)
    || (c == 37)

percent_decode_cons :
    (c : ℕ) (rest : Text)
    → (c == b'%') ≡ false
    → percent_decode (c ∷ rest) ≡ c ∷ percent_decode rest
unfolding percent_decode
percent_decode_cons c [] h = refl
percent_decode_cons c (d ∷ []) h = refl
percent_decode_cons c (d ∷ e ∷ rest) h = rw h refl

hex_value-hex_digit : (n : ℕ) → n < 16 → hex_value (hex_digit n) ≡ n
hex_value-hex_digit n h = ground arith

hex_digit_upper : (n : ℕ) → n < 16 → is_safe_byte (hex_digit n) ≡ true
hex_digit_upper n h = ground arith

unreserved_safe : (b : ℕ) → is_unreserved b ≡ true → is_safe_byte b ≡ true
unreserved_safe b h = ground (arith, h)

not_escape : (b : ℕ) → is_unreserved b ≡ true → (b == b'%') ≡ false
not_escape b h = ground arith

percent_decode-encode_byte :
    (b : ℕ) (rest : Text)
    → b < 256
    → percent_decode (encode_byte b ++ rest) ≡ b ∷ percent_decode rest
unfolding percent_decode
percent_decode-encode_byte b rest h = elim (Bool-cases (is_unreserved b)) [
  | inl e ↦ rw e (percent_decode_cons b rest (not_escape b e))
  | inr e ↦ rw e (
      ap (λ n. n ∷ percent_decode rest)
        (omega (
          arith,
          hex_value-hex_digit (b / 16) (omega arith),
          hex_value-hex_digit (b % 16) (omega arith),
        )))
]

encode_byte-All : (b : ℕ) → b < 256 → All (λ c. is_safe_byte c ≡ true) (encode_byte b)
encode_byte-All b h = elim (Bool-cases (is_unreserved b)) [
  | inl e ↦ rw e (unreserved_safe b e, tt)
  | inr e ↦
      rw e (
        refl,
        (hex_digit_upper (b / 16) (omega arith), (hex_digit_upper (b % 16) (omega arith), tt)),
      )
]

-- Any bytes that are put into a URL are read back by a server that undoes the escapes, and what stands
-- in the URL is only unreserved characters and `%`, so that it ends no parameter and no segment.
pub percent_decode-percent_encode_query_component :
    (bytes : Text)
    → All (λ b. b < 256) bytes
    → (percent_decode (percent_encode_query_component bytes) ≡ bytes)
      × All (λ c. is_safe_byte c ≡ true) (percent_encode_query_component bytes)
unfolding percent_encode_query_component percent_decode
percent_decode-percent_encode_query_component [] h = (refl, tt)
percent_decode-percent_encode_query_component (b ∷ bytes) h =
    let (same, safe) = percent_decode-percent_encode_query_component bytes h.1 in
    (
      percent_decode-encode_byte b (percent_encode_query_component bytes) h.0 ∙ ap (◌∷◌ b) same,
      All-append (λ c. is_safe_byte c ≡ true) (encode_byte b) (percent_encode_query_component bytes)
          (encode_byte-All b h.0) safe,
    )
