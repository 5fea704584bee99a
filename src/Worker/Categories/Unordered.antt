-- ===== src/Worker/Categories/Unordered.antt =====
-- crates/fineco-worker/src/parse.rs: the rows do not depend on the order in which a map is walked.
use fineco_helper.Store.Jobs.Sorting.{
  IsApart, insert_all, insert_by_apart, sort_by-append, insert_all_comm,
}
use fineco_helper.Base.{
  ◌∷◌, some, false, inl, inr, refl, List, Text, text_eq, ◌≡◌, if◌then◌else◌, Bool-cases, ◌∙◌, ap,
  sym, [], All, or_else, All-map,
}
use fineco_helper.Worker.Categories.{
  MoneyMapCategoriesResponse, RawCategoryItem, RawSubcategoryItem, category_before, is_blank,
  subcategory_rows, subcategory_row, category_row, to_category_rows, rows_of_category, rows_of,
}
use fineco_helper.Store.Rows.{MoneyMapCategory}
use fineco_helper.Store.Jobs.{insert_by}
use fineco_helper.Worker.Categories.Order.{subcategory-IsApart, category-IsApart}

-- The same entries of a map in another order: neighbours with different keys change places.
pub data SameEntries {V : Type 0} : List (Text × V) → List (Text × V) → Type 0 where
  same : {xs : List (Text × V)} → SameEntries xs xs
  swap :
      {xs : List (Text × V)} (a b : Text × V)
      → text_eq a.0 b.0 ≡ false
      → SameEntries (a ∷ b ∷ xs) (b ∷ a ∷ xs)
  inside :
      {xs ys : List (Text × V)} (a : Text × V) → SameEntries xs ys → SameEntries (a ∷ xs) (a ∷ ys)
  after : {xs ys zs : List (Text × V)} → SameEntries xs ys → SameEntries ys zs → SameEntries xs zs

abbrev with_subcategories :
    Text → RawCategoryItem → List (Text × RawSubcategoryItem) → Text × RawCategoryItem
with_subcategories id cat subs = (id, record cat { sottocategorie = some subs })

-- The same taxonomy: its categories, and the subcategories of each, in another order.
pub data SameTaxonomy : MoneyMapCategoriesResponse → MoneyMapCategoriesResponse → Type 0 where
  categories : {xs ys : MoneyMapCategoriesResponse} → SameEntries xs ys → SameTaxonomy xs ys
  subcategories :
      {rest : MoneyMapCategoriesResponse} {subs subs' : List (Text × RawSubcategoryItem)}
      (id : Text) (cat : RawCategoryItem)
      → SameEntries subs subs'
      → SameTaxonomy
          (with_subcategories id cat subs ∷ rest)
          (with_subcategories id cat subs' ∷ rest)
  within :
      {xs ys : MoneyMapCategoriesResponse} (a : Text × RawCategoryItem)
      → SameTaxonomy xs ys
      → SameTaxonomy (a ∷ xs) (a ∷ ys)
  then_again :
      {xs ys zs : MoneyMapCategoriesResponse}
      → SameTaxonomy xs ys
      → SameTaxonomy ys zs
      → SameTaxonomy xs zs

module _ (id : Text) (zs : List MoneyMapCategory) where
  abbrev put : Text × RawSubcategoryItem → List MoneyMapCategory → List MoneyMapCategory
  put a acc = if is_blank a.0 then acc else insert_by category_before (subcategory_row id a) acc

  abbrev inserted : List (Text × RawSubcategoryItem) → List MoneyMapCategory
  inserted entries = insert_all category_before (subcategory_rows id entries) zs

  inserted-cons :
      (a : Text × RawSubcategoryItem) (entries : List (Text × RawSubcategoryItem))
      → inserted (a ∷ entries) ≡ put a (inserted entries)
  inserted-cons a entries = elim (Bool-cases (is_blank a.0)) [
    | inl e ↦ rw e refl
    | inr e ↦ rw e refl
  ]

  put_comm :
      (a b : Text × RawSubcategoryItem) (acc : List MoneyMapCategory)
      → text_eq a.0 b.0 ≡ false
      → put a (put b acc) ≡ put b (put a acc)
  put_comm a b acc h = elim (Bool-cases (is_blank a.0)) [
    | inl e ↦ rw e refl
    | inr e ↦ elim (Bool-cases (is_blank b.0)) [
      | inl f ↦ rw (e, f) refl
      | inr f ↦
          rw (e, f)
            (insert_by_apart category_before (subcategory_row id a) (subcategory_row id b) acc
              (subcategory-IsApart id a b h))
    ]
  ]

  inserted-SameEntries :
      {xs ys : List (Text × RawSubcategoryItem)} → SameEntries xs ys → inserted xs ≡ inserted ys
  inserted-SameEntries same = refl
  inserted-SameEntries (swap {xs} a b h) =
      inserted-cons a (b ∷ xs)
      ∙ (ap (put a) (inserted-cons b xs)
          ∙ (put_comm a b (inserted xs) h
              ∙ sym (inserted-cons b (a ∷ xs) ∙ ap (put b) (inserted-cons a xs))))
  inserted-SameEntries (inside {xs} {ys} a h) =
      inserted-cons a xs ∙ (ap (put a) (inserted-SameEntries h) ∙ sym (inserted-cons a ys))
  inserted-SameEntries (after h k) = inserted-SameEntries h ∙ inserted-SameEntries k

subcategory_rows-All :
    (id : Text) (entries : List (Text × RawSubcategoryItem))
    → All (λ r. r.category_id ≡ id) (subcategory_rows id entries)
unfolding subcategory_row
subcategory_rows-All id [] = tt
subcategory_rows-All id (entry ∷ entries) = elim (Bool-cases (is_blank entry.0)) [
  | inl e ↦ rw e (subcategory_rows-All id entries)
  | inr e ↦ rw e (refl, subcategory_rows-All id entries)
]

rows_of_category-All :
    (entry : Text × RawCategoryItem) → All (λ r. r.category_id ≡ entry.0) (rows_of_category entry)
unfolding category_row
rows_of_category-All (id, cat) = elim (Bool-cases (is_blank id)) [
  | inl e ↦ rw e tt
  | inr e ↦ rw e (refl, subcategory_rows-All id (or_else cat.sottocategorie []))
]

rows-IsApart :
    (a b : Text × RawCategoryItem)
    → text_eq a.0 b.0 ≡ false
    → All (λ x. All (IsApart category_before x) (rows_of_category b)) (rows_of_category a)
rows-IsApart a b h =
    All-map (λ r. r.category_id ≡ a.0) (λ x. All (IsApart category_before x) (rows_of_category b))
      (rows_of_category a)
      (λ x e.
        All-map (λ r. r.category_id ≡ b.0) (IsApart category_before x) (rows_of_category b)
          (λ y f.
            category-IsApart x y (ap (λ s. text_eq s y.category_id) e ∙ (ap (text_eq a.0) f ∙ h)))
          (rows_of_category-All b))
      (rows_of_category-All a)

-- The rows of a first entry are inserted into those of the others.
to_category_rows-cons :
    (a : Text × RawCategoryItem) (xs : MoneyMapCategoriesResponse)
    → to_category_rows (a ∷ xs)
      ≡ insert_all category_before (rows_of_category a) (to_category_rows xs)
unfolding to_category_rows
to_category_rows-cons a xs = sort_by-append category_before (rows_of_category a) (rows_of xs)

abbrev insert_rows : Text × RawCategoryItem → List MoneyMapCategory → List MoneyMapCategory
insert_rows a zs = insert_all category_before (rows_of_category a) zs

to_category_rows-SameEntries :
    {xs ys : MoneyMapCategoriesResponse}
    → SameEntries xs ys
    → to_category_rows xs ≡ to_category_rows ys
to_category_rows-SameEntries same = refl
to_category_rows-SameEntries (swap {xs} a b h) =
    to_category_rows-cons a (b ∷ xs)
    ∙ (ap (insert_rows a) (to_category_rows-cons b xs)
        ∙ (insert_all_comm category_before (rows_of_category a) (rows_of_category b)
              (to_category_rows xs) (rows-IsApart a b h)
            ∙ sym (
                to_category_rows-cons b (a ∷ xs)
                ∙ ap (insert_rows b) (to_category_rows-cons a xs))))
to_category_rows-SameEntries (inside {xs} {ys} a h) =
    to_category_rows-cons a xs
    ∙ (ap (insert_rows a) (to_category_rows-SameEntries h) ∙ sym (to_category_rows-cons a ys))
to_category_rows-SameEntries (after h k) =
    to_category_rows-SameEntries h ∙ to_category_rows-SameEntries k

insert_rows-SameEntries :
    (id : Text) (cat : RawCategoryItem) {subs subs' : List (Text × RawSubcategoryItem)}
    (zs : List MoneyMapCategory)
    → SameEntries subs subs'
    → insert_rows (with_subcategories id cat subs) zs
      ≡ insert_rows (with_subcategories id cat subs') zs
unfolding category_row
insert_rows-SameEntries id cat zs h = elim (Bool-cases (is_blank id)) [
  | inl e ↦ rw e refl
  | inr e ↦
      rw e (ap (insert_by category_before (category_row id cat)) (inserted-SameEntries id zs h))
]

-- In whatever order the taxonomy's maps are walked, of the categories and of each one's subcategories,
-- the rows come out the same, as rows of different ids never tie.
pub to_category_rows-SameTaxonomy :
    {xs ys : MoneyMapCategoriesResponse}
    → SameTaxonomy xs ys
    → to_category_rows xs ≡ to_category_rows ys
to_category_rows-SameTaxonomy (categories h) = to_category_rows-SameEntries h
to_category_rows-SameTaxonomy (subcategories {rest} {subs} {subs'} id cat h) =
    to_category_rows-cons (with_subcategories id cat subs) rest
    ∙ (insert_rows-SameEntries id cat (to_category_rows rest) h
        ∙ sym (to_category_rows-cons (with_subcategories id cat subs') rest))
to_category_rows-SameTaxonomy (within {xs} {ys} a h) =
    to_category_rows-cons a xs
    ∙ (ap (insert_rows a) (to_category_rows-SameTaxonomy h) ∙ sym (to_category_rows-cons a ys))
to_category_rows-SameTaxonomy (then_again h k) =
    to_category_rows-SameTaxonomy h ∙ to_category_rows-SameTaxonomy k
