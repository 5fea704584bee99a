-- ===== src/Core/Text.antt =====
-- crates/fineco-core/src/text.rs: the sanitation of untrusted text, over code points. `is_control` is
-- the category Cc and `is_whitespace` the property White_Space, as Rust's `char` has them.
pub mod Clean
use fineco_helper.Base.{
  [], ◌∷◌, ℕ, Text, List, Bool, if◌then◌else◌, ◌++◌, map, leb, ◌||◌, ◌&&◌, length, ◌==◌, take,
}

-- `char::is_control`
abbrev pub is_control : ℕ → Bool
is_control c = leb c 31 || leb 127 c && leb c 159

-- `char::is_whitespace`
abbrev pub is_whitespace : ℕ → Bool
is_whitespace c =
    leb 9 c && leb c 13
    || c == 32
    || c == 133
    || c == 160
    || c == 5760
    || leb 8192 c && leb c 8202
    || c == 8232
    || c == 8233
    || c == 8239
    || c == 8287
    || c == 12288

abbrev pub max_text_field_chars : ℕ
max_text_field_chars = 2000

abbrev pub blank_control : ℕ → ℕ
blank_control c = if is_control c then 32 else c

-- A word that ends, if it has a character.
unfoldable pub end_word : Text → List Text → List Text
end_word [] rest = rest
end_word (c ∷ cs) rest = (c ∷ cs) ∷ rest

-- The words of a text, of which the first has begun.
unfoldable pub words_from : Text → Text → List Text
words_from word [] = end_word word []
words_from word (c ∷ cs) =
    let ended = end_word word (words_from [] cs) in
    let longer = words_from (word ++ c ∷ []) cs in if is_whitespace c then ended else longer

-- `str::split_whitespace`
unfoldable pub split_whitespace : Text → List Text
split_whitespace s = words_from [] s

-- `join(" ")`
unfoldable pub join_words : List Text → Text
join_words [] = []
join_words (w ∷ []) = w
join_words (w ∷ v ∷ ws) = w ++ 32 ∷ join_words (v ∷ ws)

unfoldable pub truncate_text : Text → ℕ → Text
truncate_text s max = if leb (length s) max then s else take max s

unfoldable pub sanitize_text : Text → Text
sanitize_text raw =
    truncate_text (join_words (split_whitespace (map blank_control raw))) max_text_field_chars
