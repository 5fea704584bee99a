-- ===== src/Store/Report/Reads.antt =====
-- crates/fineco-store/src/report.rs: a CSV reader gets back the text that a cell was made of,
-- and no cell starts a formula.
use fineco_helper.Base.{
  [], ◌∷◌, true, false, refl, ℕ, Text, Bool, if◌then◌else◌, ◌≡◌, ◌==◌, ◌++◌, ◌||◌, arith, inl, inr,
  ap, Bool-cases, subst, sym, ◌∙◌, ◌⊎◌,
}
use fineco_helper.Store.Report.{
  has_special, double_quotes, csv_text_cell, neutralize_formula, csv_quote, needs_prefix,
}

abbrev pub ends_cell : ℕ → Bool
ends_cell c = c == 44 || c == 10

-- The reading of one cell (RFC 4180): its text, and what follows it.
abbrev pub with_char : ℕ → Text × Text → Text × Text
with_char c (cell, rest) = (c ∷ cell, rest)

abbrev pub read_plain : Text → Text × Text
read_plain [] = ([], [])
read_plain (c ∷ cs) =
    let rest = read_plain cs in if ends_cell c then ([], c ∷ cs) else with_char c rest

abbrev pub read_quoted : Text → Text × Text
read_quoted [] = ([], [])
read_quoted (c ∷ []) = if c == 34 then ([], []) else (c ∷ [], [])
read_quoted (c ∷ d ∷ cs) =
    let rest = read_quoted (d ∷ cs) in
    let later = read_quoted cs in
    if c == 34 then if d == 34 then with_char 34 later else ([], d ∷ cs) else with_char c rest

abbrev pub read_cell : Text → Text × Text
read_cell [] = ([], [])
read_cell (c ∷ cs) = if c == 34 then read_quoted cs else read_plain (c ∷ cs)

-- What may follow a cell: nothing, or a character that ends it.
abbrev pub ends_there : Text → Bool
ends_there [] = true
ends_there (c ∷ cs) = ends_cell c

read_plain_lem :
    (v rest : Text)
    → has_special v ≡ false
    → ends_there rest ≡ true
    → read_plain (v ++ rest) ≡ (v, rest)
read_plain_lem [] [] h e = refl
read_plain_lem [] (c ∷ cs) h e = ground (arith, e)
read_plain_lem (c ∷ cs) rest h e =
    let inside : ends_cell c ≡ false = ground (arith, h) in
    let clean : has_special cs ≡ false = ground (arith, h) in
    rw inside (ap (with_char c) (read_plain_lem cs rest clean e))

quoted_char :
    (c : ℕ) (ys rest : Text)
    → (c == 34) ≡ false
    → read_quoted (c ∷ (ys ++ 34 ∷ rest)) ≡ with_char c (read_quoted (ys ++ 34 ∷ rest))
quoted_char c [] rest h = rw h refl
quoted_char c (y ∷ ys) rest h = rw h refl

read_quoted_lem :
    (v rest : Text)
    → ends_there rest ≡ true
    → read_quoted (double_quotes v ++ 34 ∷ rest) ≡ (v, rest)
read_quoted_lem [] [] e = refl
read_quoted_lem [] (c ∷ cs) e = ground (arith, e)
read_quoted_lem (c ∷ cs) rest e = elim (Bool-cases (c == 34)) [
  | inl q ↦
      let is_quote : c ≡ 34 = ground (arith, q) in
      subst (λ x. read_quoted (double_quotes (x ∷ cs) ++ 34 ∷ rest) ≡ (x ∷ cs, rest)) (sym is_quote)
        (ap (with_char 34) (read_quoted_lem cs rest e))
  | inr n ↦
      rw n (quoted_char c (double_quotes cs) rest n ∙ ap (with_char c) (read_quoted_lem cs rest e))
]

append_assoc_quote : (xs rest : Text) → (xs ++ 34 ∷ []) ++ rest ≡ xs ++ 34 ∷ rest
append_assoc_quote [] rest = refl
append_assoc_quote (x ∷ xs) rest = ap (◌∷◌ x) (append_assoc_quote xs rest)

read_unquoted :
    (v rest : Text)
    → has_special v ≡ false
    → ends_there rest ≡ true
    → read_cell (v ++ rest) ≡ (v, rest)
read_unquoted [] [] h e = refl
read_unquoted [] (c ∷ cs) h e = ground (arith, e)
read_unquoted (c ∷ cs) rest h e =
    let bare : (c == 34) ≡ false = ground (arith, h) in rw bare (read_plain_lem (c ∷ cs) rest h e)

-- A text cell, followed by the end of the file, a comma or a new line, is read back as the text it was
-- made of (with the apostrophe, where one was put before it), and the reader stops right behind it.
pub read_cell-csv_text_cell :
    (value rest : Text)
    → ends_there rest ≡ true
    → read_cell (csv_text_cell value ++ rest) ≡ (neutralize_formula value, rest)
unfolding csv_text_cell csv_quote
read_cell-csv_text_cell value rest e = elim (Bool-cases (has_special (neutralize_formula value))) [
  | inl special ↦ rw special (
      ap read_quoted (append_assoc_quote (double_quotes (neutralize_formula value)) rest)
      ∙ read_quoted_lem (neutralize_formula value) rest e)
  | inr clean ↦ rw clean (read_unquoted (neutralize_formula value) rest clean e)
]

-- What a spreadsheet may read as a formula starts with = + - @, or with the tab, line feed, form feed,
-- carriage return or space before one.
abbrev pub risky_starts : Text
risky_starts = 61 ∷ 43 ∷ 45 ∷ 64 ∷ 9 ∷ 10 ∷ 12 ∷ 13 ∷ 32 ∷ []

abbrev pub is_one_of : ℕ → Text → Bool
is_one_of c [] = false
is_one_of c (d ∷ ds) = c == d || is_one_of c ds

abbrev pub is_risky : Text → Bool
is_risky [] = false
is_risky (c ∷ cs) = is_one_of c risky_starts

needs_prefix-is_risky : (value : Text) → needs_prefix value ≡ is_risky value
needs_prefix-is_risky [] = refl
needs_prefix-is_risky (c ∷ cs) = ground arith

-- The text of a cell starts with none of the nine characters that may start a formula; it is the value
-- itself, or the value behind an apostrophe where the value starts with one of them.
pub neutralize_formula_safe :
    (value : Text)
    → (is_risky (neutralize_formula value) ≡ false)
      × ((neutralize_formula value ≡ value)
          ⊎ ((is_risky value ≡ true) × (neutralize_formula value ≡ 39 ∷ value)))
unfolding neutralize_formula
neutralize_formula_safe value =
    let same = needs_prefix-is_risky value in
    elim (Bool-cases (needs_prefix value)) [
      | inl risky ↦ rw risky (refl, inr (sym same ∙ risky, refl))
      | inr safe ↦ rw safe (sym same ∙ safe, inl refl)
    ]
