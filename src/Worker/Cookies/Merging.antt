-- ===== src/Worker/Cookies/Merging.antt =====
-- crates/fineco-worker/src/lib.rs: what two cookie headers give together.
use fineco_helper.Worker.Cookies.{
  split_pairs, merged_pairs, put_all, put_pair, put_raw, cookie_name, non_empty,
}
use fineco_helper.Base.{
  [], ◌∷◌, none, some, true, false, refl, Text, Option, Bool, List, text_eq, if◌then◌else◌, keep,
  ◌≡◌, ap, sym, ◌&&◌, text_eq_sound, inl, inr, Bool-cases, ◌++◌, ◌∙◌,
}
use fineco_helper.Core.Validate.{trim}

abbrev pub is_named : Text → Text → Bool
is_named name pair = text_eq (cookie_name pair) name

-- The last pair of a name, or the one that was there before.
abbrev pub last_named : Text → List Text → Option Text → Option Text
last_named name [] before = before
last_named name (raw ∷ raws) before =
    last_named name raws
      (if non_empty (trim raw) && is_named name (trim raw) then some (trim raw) else before)

abbrev pub list_of : Option Text → List Text
list_of none = []
list_of (some pair) = pair ∷ []

abbrev named : Text → List Text → List Text
named name pairs = keep (is_named name) pairs

text_eq_trans : (s t u : Text) → text_eq s u ≡ true → text_eq t u ≡ text_eq t s
text_eq_trans s t u h = ap (text_eq t) (sym (text_eq_sound s u h))

nothing_after : (p : Text) (xs : List Text) (o : Option Text) → p ∷ xs ≡ list_of o → xs ≡ []
nothing_after p xs none h = cc
nothing_after p xs (some q) h = cc

named-put_pair_same :
    (name pair : Text) (pairs : List Text) (before : Option Text)
    → is_named name pair ≡ true
    → named name pairs ≡ list_of before
    → named name (put_pair pair pairs) ≡ pair ∷ []
named-put_pair_same name pair [] before h k = rw h refl
named-put_pair_same name pair (p ∷ ps) before h k =
    let same = text_eq_trans (cookie_name pair) (cookie_name p) name h in
    elim (Bool-cases (is_named name p)) [
      | inl e ↦
          rw (sym same ∙ e, h)
            (ap (◌∷◌ pair) (nothing_after p (named name ps) before (sym (rw e refl) ∙ k)))
      | inr e ↦
          rw (sym same ∙ e, e) (named-put_pair_same name pair ps before h (sym (rw e refl) ∙ k))
    ]

named-put_pair_other :
    (name pair : Text) (pairs : List Text)
    → is_named name pair ≡ false
    → named name (put_pair pair pairs) ≡ named name pairs
named-put_pair_other name pair [] h = rw h refl
named-put_pair_other name pair (p ∷ ps) h =
    elim (Bool-cases (text_eq (cookie_name p) (cookie_name pair))) [
      | inl e ↦
          let other =
            ap (λ n. text_eq n name) (text_eq_sound (cookie_name p) (cookie_name pair) e) ∙ h in
          rw (e, h, other) refl
      | inr e ↦
          rw e (
            ap (λ xs. if is_named name p then p ∷ xs else xs) (named-put_pair_other name pair ps h))
    ]

named-put_raw :
    (name raw : Text) (pairs : List Text) (before : Option Text)
    → named name pairs ≡ list_of before
    → named name (put_raw raw pairs) ≡ list_of (last_named name (raw ∷ []) before)
named-put_raw name raw pairs before k = elim (Bool-cases (non_empty (trim raw))) [
  | inl e ↦ elim (Bool-cases (is_named name (trim raw))) [
    | inl f ↦ rw (e, f) (named-put_pair_same name (trim raw) pairs before f k)
    | inr f ↦ rw (e, f) (named-put_pair_other name (trim raw) pairs f ∙ k)
  ]
  | inr e ↦ rw e k
]

named-put_all :
    (name : Text) (raws pairs : List Text) (before : Option Text)
    → named name pairs ≡ list_of before
    → named name (put_all raws pairs) ≡ list_of (last_named name raws before)
unfolding put_all
named-put_all name [] pairs before k = k
named-put_all name (raw ∷ raws) pairs before k =
    named-put_all name raws (put_raw raw pairs) (last_named name (raw ∷ []) before)
      (named-put_raw name raw pairs before k)

last_named-append :
    (name : Text) (xs ys : List Text) (before : Option Text)
    → last_named name (xs ++ ys) before ≡ last_named name ys (last_named name xs before)
last_named-append name [] ys before = refl
last_named-append name (x ∷ xs) ys before =
    last_named-append name xs ys (last_named name (x ∷ []) before)

-- Of two cookie headers, the merged pairs hold each name at most once: with the last value that the
-- second header has for it, with the first header's last value where the second has none, and not at
-- all where neither has it.
pub keep-merged_pairs :
    (name first second : Text)
    → keep (is_named name) (merged_pairs first second)
      ≡ list_of (last_named name (split_pairs second) (last_named name (split_pairs first) none))
unfolding merged_pairs
keep-merged_pairs name first second =
    named-put_all name (split_pairs first ++ split_pairs second) [] none refl
    ∙ ap list_of (last_named-append name (split_pairs first) (split_pairs second) none)
