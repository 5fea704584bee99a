-- ===== src/Core/Text/Clean.antt =====
-- crates/fineco-core/src/text.rs: what sanitized text cannot hold.
use fineco_helper.Base.{
  [], ◌∷◌, true, false, inl, inr, suc, refl, ℕ, Text, All, List, length, ◌≡◌, map, Bool-cases,
  All-append, take, ◌≤◌, leb, ◌++◌, arith, length-take, zero,
}
use fineco_helper.Core.Text.{
  end_word, words_from, join_words, truncate_text, sanitize_text, is_control, split_whitespace,
  is_whitespace, blank_control, max_text_field_chars,
}

-- A character that may stand in sanitized text: no control character, and of the white space only
-- the space.
abbrev pub IsClean : ℕ → Type 0
IsClean c = (is_control c ≡ false) × ((is_whitespace c ≡ true) → c ≡ 32)

abbrev IsPrintable : ℕ → Type 0
IsPrintable c = is_control c ≡ false

abbrev IsWordChar : ℕ → Type 0
IsWordChar c = (is_control c ≡ false) × (is_whitespace c ≡ false)

blank_control-IsPrintable : (s : Text) → All IsPrintable (map blank_control s)
blank_control-IsPrintable [] = tt
blank_control-IsPrintable (c ∷ cs) = (blanked c, blank_control-IsPrintable cs)
  where
    blanked : (c : ℕ) → is_control (blank_control c) ≡ false
    blanked c = elim (Bool-cases (is_control c)) [ inl h ↦ rw h refl | inr h ↦ rw h h ]

end_word-All :
    (P : Text → Type 0) (w : Text) (ws : List Text) → P w → All P ws → All P (end_word w ws)
unfolding end_word
end_word-All P [] ws h k = k
end_word-All P (c ∷ cs) ws h k = (h, k)

words_from-All :
    (w s : Text) → All IsWordChar w → All IsPrintable s → All (All IsWordChar) (words_from w s)
unfolding words_from
words_from-All w [] h k = end_word-All (All IsWordChar) w [] h tt
words_from-All w (c ∷ cs) h k = elim (Bool-cases (is_whitespace c)) [
  | inl ws ↦
      rw ws (end_word-All (All IsWordChar) w (words_from [] cs) h (words_from-All [] cs tt k.1))
  | inr ns ↦
      rw ns
        (words_from-All (w ++ c ∷ []) cs (All-append IsWordChar w (c ∷ []) h ((k.0, ns), tt)) k.1)
]

word_char-IsClean : (c : ℕ) → IsWordChar c → IsClean c
word_char-IsClean c h = (h.0, λ w. cc)

word-IsClean : (w : Text) → All IsWordChar w → All IsClean w
word-IsClean [] h = tt
word-IsClean (c ∷ cs) h = (word_char-IsClean c h.0, word-IsClean cs h.1)

join_words-IsClean : (ws : List Text) → All (All IsWordChar) ws → All IsClean (join_words ws)
unfolding join_words
join_words-IsClean [] h = tt
join_words-IsClean (w ∷ []) h = word-IsClean w h.0
join_words-IsClean (w ∷ v ∷ ws) h =
    All-append IsClean w (32 ∷ join_words (v ∷ ws)) (word-IsClean w h.0)
      ((refl, λ _. refl), join_words-IsClean (v ∷ ws) h.1)

take-All : (P : ℕ → Type 0) (n : ℕ) (s : Text) → All P s → All P (take n s)
take-All P zero s h = tt
take-All P (suc n) [] h = tt
take-All P (suc n) (c ∷ cs) h = (h.0, take-All P n cs h.1)

pub truncate_text-All :
    (P : ℕ → Type 0) (s : Text) (max : ℕ) → All P s → All P (truncate_text s max)
unfolding truncate_text
truncate_text-All P s max h = elim (Bool-cases (leb (length s) max)) [
  | inl short ↦ rw short h
  | inr long ↦ rw long (take-All P max s h)
]

pub truncate_text-length : (s : Text) (max : ℕ) → length (truncate_text s max) ≤ max
unfolding truncate_text
truncate_text-length s max = elim (Bool-cases (leb (length s) max)) [
  | inl short ↦ rw short (ground arith)
  | inr long ↦ rw long (omega (arith, length-take max s))
]

-- Sanitized text has at most 2000 characters, none of them a control character and none of them
-- white space but the space itself, whatever the provider sent.
pub sanitize_text-IsClean :
    (raw : Text)
    → All IsClean (sanitize_text raw) × (length (sanitize_text raw) ≤ max_text_field_chars)
unfolding sanitize_text split_whitespace
sanitize_text-IsClean raw = (
  truncate_text-All IsClean _ max_text_field_chars (
      join_words-IsClean _
        (words_from-All [] (map blank_control raw) tt (blank_control-IsPrintable raw))),
  truncate_text-length _ max_text_field_chars,
)
