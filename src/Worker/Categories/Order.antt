-- ===== src/Worker/Categories/Order.antt =====
-- crates/fineco-worker/src/parse.rs: the order of the taxonomy's rows is strict and total on their ids.
use fineco_helper.Base.Order.{text_lt_asym, text_lt_total, text_lt_trans}
use fineco_helper.Store.Jobs.Sorting.{IsBefore, IsApart}
use fineco_helper.Base.{
  none, some, true, false, inl, inr, refl, Option, Text, text_lt, ◌≡◌, Bool-cases, ◌⊎◌,
  text_eq_refl, subst, text_eq, sym, text_eq_sound, ◌∙◌,
}
use fineco_helper.Worker.Categories.{
  category_before, subcategory_before, subcategory_row, RawSubcategoryItem,
}
use fineco_helper.Store.Rows.{MoneyMapCategory}

sub_trans :
    (r s t : Option Text)
    → subcategory_before r s ≡ true
    → subcategory_before s t ≡ true
    → subcategory_before r t ≡ true
sub_trans none none t h k = cc
sub_trans none (some s) none h k = cc
sub_trans none (some s) (some t) h k = refl
sub_trans (some r) none t h k = cc
sub_trans (some r) (some s) none h k = cc
sub_trans (some r) (some s) (some t) h k = text_lt_trans r s t h k

text_lt_irrefl : (s : Text) → text_lt s s ≡ false
text_lt_irrefl s = elim (Bool-cases (text_lt s s)) [ inl e ↦ text_lt_asym s s e | inr e ↦ e ]

sub_irrefl : (s : Option Text) → subcategory_before s s ≡ false
sub_irrefl none = refl
sub_irrefl (some s) = text_lt_irrefl s

-- What a row comes before.
before_cases :
    (a b : MoneyMapCategory)
    → category_before a b ≡ true
    → (text_lt a.category_id b.category_id ≡ true)
      ⊎ ((a.category_id ≡ b.category_id)
          × (subcategory_before a.subcategory_id b.subcategory_id ≡ true))
unfolding category_before
before_cases a b h = elim (Bool-cases (text_lt a.category_id b.category_id)) [
  | inl e ↦ inl e
  | inr e ↦ elim (Bool-cases (text_eq a.category_id b.category_id)) [
    | inl f ↦ inr (text_eq_sound _ _ f, sym (rw (e, f) refl) ∙ h)
    | inr f ↦ let bad : false ≡ true = sym (rw (e, f) refl) ∙ h in cc
  ]
]

before_lt :
    (a b : MoneyMapCategory)
    → text_lt a.category_id b.category_id ≡ true
    → category_before a b ≡ true
unfolding category_before
before_lt a b h = rw h refl

before_sub :
    (a b : MoneyMapCategory)
    → a.category_id ≡ b.category_id
    → subcategory_before a.subcategory_id b.subcategory_id ≡ true
    → category_before a b ≡ true
unfolding category_before
before_sub a b h k = rw (h, text_lt_irrefl b.category_id, text_eq_refl b.category_id) k

before_trans :
    (a b c : MoneyMapCategory)
    → category_before a b ≡ true
    → category_before b c ≡ true
    → category_before a c ≡ true
before_trans a b c h k = elim (before_cases a b h) [
  | inl p ↦ elim (before_cases b c k) [
    | inl q ↦ before_lt a c (text_lt_trans a.category_id b.category_id c.category_id p q)
    | inr q ↦ before_lt a c (subst (λ s. text_lt a.category_id s ≡ true) (q.0) p)
  ]
  | inr p ↦ elim (before_cases b c k) [
    | inl q ↦ before_lt a c (subst (λ s. text_lt s c.category_id ≡ true) (sym (p.0)) q)
    | inr q ↦
        before_sub a c (p.0 ∙ q.0)
          (sub_trans a.subcategory_id b.subcategory_id c.subcategory_id p.1 q.1)
  ]
]

before_irrefl : (a : MoneyMapCategory) → category_before a a ≡ false
unfolding category_before
before_irrefl a =
    rw (text_lt_irrefl a.category_id, text_eq_refl a.category_id) (sub_irrefl a.subcategory_id)

IsBefore-IsBefore :
    (a b : MoneyMapCategory) → category_before a b ≡ true → IsBefore category_before a b
IsBefore-IsBefore a b h = record {
  first = h;
  not_second = elim (Bool-cases (category_before b a)) [
    | inl e ↦ let bad : true ≡ false = sym (before_trans a b a h e) ∙ before_irrefl a in cc
    | inr e ↦ e
  ];
  passes = λ z k. before_trans z a b k h;
}

-- Rows of two categories.
pub category-IsApart :
    (a b : MoneyMapCategory)
    → text_eq a.category_id b.category_id ≡ false
    → IsApart category_before a b
category-IsApart a b h = elim (Bool-cases (text_lt a.category_id b.category_id)) [
  | inl e ↦ inl (IsBefore-IsBefore a b (before_lt a b e))
  | inr e ↦
      inr (IsBefore-IsBefore b a (before_lt b a (text_lt_total a.category_id b.category_id h e)))
]

-- Rows of two subcategories of one category.
pub subcategory-IsApart :
    (id : Text) (a b : Text × RawSubcategoryItem)
    → text_eq a.0 b.0 ≡ false
    → IsApart category_before (subcategory_row id a) (subcategory_row id b)
unfolding subcategory_row
subcategory-IsApart id a b h = elim (Bool-cases (text_lt a.0 b.0)) [
  | inl e ↦ inl (
      IsBefore-IsBefore (subcategory_row id a) (subcategory_row id b)
        (before_sub (subcategory_row id a) (subcategory_row id b) refl e))
  | inr e ↦ inr (
      IsBefore-IsBefore (subcategory_row id b) (subcategory_row id a)
        (before_sub (subcategory_row id b) (subcategory_row id a) refl (text_lt_total a.0 b.0 h e)))
]
