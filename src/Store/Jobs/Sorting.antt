-- ===== src/Store/Jobs/Sorting.antt =====
-- crates/fineco-store/src/jobs.rs and every other sorted answer: in which order rows are inserted.
use fineco_helper.Store.Jobs.{insert_by, sort_by}
use fineco_helper.Base.{
  [], ◌∷◌, true, false, inl, inr, refl, Bool, List, ◌≡◌, ◌++◌, Bool-cases, ap, ◌∙◌, ◌⊎◌, sym, All,
}

module _ {A : Type 0} (before : A → A → Bool) where
  abbrev pub insert_all : List A → List A → List A
  insert_all [] zs = zs
  insert_all (x ∷ xs) zs = insert_by before x (insert_all xs zs)

  pub sort_by-append :
      (xs ys : List A) → sort_by before (xs ++ ys) ≡ insert_all xs (sort_by before ys)
  unfolding sort_by
  sort_by-append [] ys = refl
  sort_by-append (x ∷ xs) ys = ap (insert_by before x) (sort_by-append xs ys)

  -- Two rows of which the first comes before the second.
  pub record IsBefore (x y : A) : Type 0 where
    pub first : before x y ≡ true
    pub not_second : before y x ≡ false
    pub passes : (z : A) → before z x ≡ true → before z y ≡ true

  insert_by_pass :
      (x z : A) (zs : List A)
      → before z x ≡ true
      → insert_by before x (z ∷ zs) ≡ z ∷ insert_by before x zs
  unfolding insert_by
  insert_by_pass x z zs h = rw h refl

  insert_by_stop :
      (x z : A) (zs : List A) → before z x ≡ false → insert_by before x (z ∷ zs) ≡ x ∷ z ∷ zs
  unfolding insert_by
  insert_by_stop x z zs h = rw h refl

  insert_by_comm :
      (x y : A) (zs : List A)
      → IsBefore x y
      → insert_by before x (insert_by before y zs) ≡ insert_by before y (insert_by before x zs)
  unfolding insert_by
  insert_by_comm x y [] h = rw (h.first, h.not_second) refl
  insert_by_comm x y (z ∷ zs) h = elim (Bool-cases (before z x)) [
    | inl e ↦
        let f = h.passes z e in
        ap (insert_by before x) (insert_by_pass y z zs f)
        ∙ (insert_by_pass x z (insert_by before y zs) e
            ∙ (ap (◌∷◌ z) (insert_by_comm x y zs h)
                ∙ sym (
                    ap (insert_by before y) (insert_by_pass x z zs e)
                    ∙ insert_by_pass y z (insert_by before x zs) f)))
    | inr e ↦ elim (Bool-cases (before z y)) [
      | inl f ↦
          ap (insert_by before x) (insert_by_pass y z zs f)
          ∙ (insert_by_stop x z (insert_by before y zs) e
              ∙ sym (
                  ap (insert_by before y) (insert_by_stop x z zs e)
                  ∙ (insert_by_pass y x (z ∷ zs) h.first ∙ ap (◌∷◌ x) (insert_by_pass y z zs f))))
      | inr f ↦
          ap (insert_by before x) (insert_by_stop y z zs f)
          ∙ (insert_by_stop x y (z ∷ zs) h.not_second
              ∙ sym (
                  ap (insert_by before y) (insert_by_stop x z zs e)
                  ∙ (insert_by_pass y x (z ∷ zs) h.first ∙ ap (◌∷◌ x) (insert_by_stop y z zs f))))
    ]
  ]

  -- One of the two comes first.
  abbrev pub IsApart : A → A → Type 0
  IsApart x y = IsBefore x y ⊎ IsBefore y x

  pub insert_by_apart :
      (x y : A) (zs : List A)
      → IsApart x y
      → insert_by before x (insert_by before y zs) ≡ insert_by before y (insert_by before x zs)
  insert_by_apart x y zs (inl h) = insert_by_comm x y zs h
  insert_by_apart x y zs (inr h) = sym (insert_by_comm y x zs h)

  insert_by-insert_all :
      (x : A) (ys zs : List A)
      → All (IsApart x) ys
      → insert_by before x (insert_all ys zs) ≡ insert_all ys (insert_by before x zs)
  insert_by-insert_all x [] zs h = refl
  insert_by-insert_all x (y ∷ ys) zs h =
      insert_by_apart x y (insert_all ys zs) h.0
      ∙ ap (insert_by before y) (insert_by-insert_all x ys zs h.1)

  pub insert_all_comm :
      (xs ys zs : List A)
      → All (λ x. All (IsApart x) ys) xs
      → insert_all xs (insert_all ys zs) ≡ insert_all ys (insert_all xs zs)
  insert_all_comm [] ys zs h = refl
  insert_all_comm (x ∷ xs) ys zs h =
      ap (insert_by before x) (insert_all_comm xs ys zs h.1)
      ∙ insert_by-insert_all x ys (insert_all xs zs) h.0
