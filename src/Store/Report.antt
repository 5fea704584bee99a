-- ===== src/Store/Report.antt =====
-- crates/fineco-store/src/report.rs: the cells of the CSV reports, over code points.
pub mod Reads
use fineco_helper.Base.{[], ◌∷◌, false, ℕ, Text, Bool, if◌then◌else◌, ◌==◌, ◌||◌, ◌++◌}

abbrev comma : ℕ
comma = 44

abbrev quote : ℕ
quote = 34

abbrev newline : ℕ
newline = 10

abbrev carriage_return : ℕ
carriage_return = 13

-- `char::is_ascii_whitespace`
abbrev pub is_ascii_whitespace : ℕ → Bool
is_ascii_whitespace c = c == 32 || c == 9 || c == 10 || c == 12 || c == 13

-- A character that makes a spreadsheet read a cell as a formula, or may hide one.
abbrev pub starts_formula : ℕ → Bool
starts_formula c = c == b'=' || c == b'+' || c == b'-' || c == b'@' || is_ascii_whitespace c

abbrev pub needs_prefix : Text → Bool
needs_prefix [] = false
needs_prefix (c ∷ cs) = starts_formula c

unfoldable pub neutralize_formula : Text → Text
neutralize_formula value = if needs_prefix value then b'\'' ∷ value else value

abbrev pub is_special : ℕ → Bool
is_special c = c == comma || c == quote || c == newline || c == carriage_return

abbrev pub has_special : Text → Bool
has_special [] = false
has_special (c ∷ cs) = is_special c || has_special cs

-- `replace('"', "\"\"")`
abbrev pub double_quotes : Text → Text
double_quotes [] = []
double_quotes (c ∷ cs) =
    let rest = double_quotes cs in if c == quote then quote ∷ quote ∷ rest else c ∷ rest

unfoldable pub csv_quote : Text → Text
csv_quote value = if has_special value then quote ∷ (double_quotes value ++ quote ∷ []) else value

unfoldable pub csv_text_cell : Text → Text
csv_text_cell value = csv_quote (neutralize_formula value)
