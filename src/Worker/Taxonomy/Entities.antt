-- ===== src/Worker/Taxonomy/Entities.antt =====
-- crates/fineco-worker/src/parse.rs: entities are decoded once.
use fineco_helper.Worker.Taxonomy.{decode_from, decode_html_entities, entity_at, decode_one_entity}
use fineco_helper.Base.{
  [], ◌∷◌, inl, inr, refl, ℕ, Text, if◌then◌else◌, ◌++◌, ◌≡◌, ◌==◌, Bool-cases, ◌∙◌, codes, ap, sym,
  ==_iff, false,
}

abbrev escape_char : ℕ → Text
escape_char c =
    if c == b'&'
    then codes "&amp;"
    else if c == b'<'
    then codes "&lt;"
    else if c == b'>'
    then codes "&gt;"
    else if c == b'"'
    then codes "&quot;"
    else c ∷ []

-- What a page shows a text by.
abbrev pub escape_html : Text → Text
escape_html [] = []
escape_html (c ∷ cs) = escape_char c ++ escape_html cs

decode_from_cons :
    (c : ℕ) (rest : Text) → (c == b'&') ≡ false → decode_from 0 (c ∷ rest) ≡ c ∷ decode_from 0 rest
unfolding decode_from
decode_from_cons c rest h = rw (h, decode_from) refl

decode_escape_char :
    (c : ℕ) (rest : Text) → decode_from 0 (escape_char c ++ rest) ≡ c ∷ decode_from 0 rest
unfolding decode_from entity_at decode_one_entity
decode_escape_char c rest = elim (Bool-cases (c == b'&')) [
  | inl e ↦ rw e (ap (λ n. n ∷ decode_from 0 rest) (sym ((==_iff c b'&').0 e)))
  | inr e ↦ elim (Bool-cases (c == b'<')) [
    | inl f ↦ rw (e, f) (ap (λ n. n ∷ decode_from 0 rest) (sym ((==_iff c b'<').0 f)))
    | inr f ↦ elim (Bool-cases (c == b'>')) [
      | inl g ↦ rw (e, f, g) (ap (λ n. n ∷ decode_from 0 rest) (sym ((==_iff c b'>').0 g)))
      | inr g ↦ elim (Bool-cases (c == b'"')) [
        | inl i ↦ rw (e, f, g, i) (ap (λ n. n ∷ decode_from 0 rest) (sym ((==_iff c b'"').0 i)))
        | inr i ↦ rw (e, f, g, i) (decode_from_cons c rest e)
      ]
    ]
  ]
]

-- Decoding a text that was escaped for a page, each of its characters at most once, gives the text
-- back, also where it looks like an escape itself.
pub decode_html_entities-escape_html : (s : Text) → decode_html_entities (escape_html s) ≡ s
unfolding decode_html_entities decode_from
decode_html_entities-escape_html [] = refl
decode_html_entities-escape_html (c ∷ cs) =
    decode_escape_char c (escape_html cs) ∙ ap (◌∷◌ c) (decode_html_entities-escape_html cs)
