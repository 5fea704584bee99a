-- ===== src/Worker/Categories.antt =====
-- crates/fineco-worker/src/parse.rs: the taxonomy of the movements' categories as rows. A map is the list
-- of its entries, in an order that is not known.
pub mod Order
pub mod Unordered
use mathlib.Core.Option
use fineco_helper.Base.{
  [], ◌∷◌, none, some, true, false, Option, List, Text, Bool, if◌then◌else◌, ◌++◌, or_else, text_lt,
  ◌&&◌, ◌||◌, text_eq,
}
use fineco_helper.Store.Rows.{MoneyMapCategory}
use fineco_helper.Core.Text.{sanitize_text, is_whitespace}
use fineco_helper.Store.Jobs.{sort_by}
use fineco_helper.Worker.Taxonomy.{decode_html_entities}

pub record RawSubcategoryItem : Type 0 where
  pub sottocategoria : Option Text

pub record RawCategoryItem : Type 0 where
  pub categoria : Option Text
  pub flag_spesa_ricavo : Option Text
  pub sottocategorie : Option (List (Text × RawSubcategoryItem))

abbrev pub MoneyMapCategoriesResponse : Type 0
MoneyMapCategoriesResponse = List (Text × RawCategoryItem)

unfoldable pub clean_name : Text → Text
clean_name s = sanitize_text (decode_html_entities s)

-- `id.trim().is_empty()`
abbrev pub is_blank : Text → Bool
is_blank [] = true
is_blank (c ∷ cs) = is_whitespace c && is_blank cs

unfoldable pub category_row : Text → RawCategoryItem → MoneyMapCategory
category_row category_id cat = record {
  category_id = category_id;
  subcategory_id = none;
  name = Option.map clean_name cat.categoria;
  flag_spesa_ricavo = Option.map sanitize_text cat.flag_spesa_ricavo;
}

unfoldable pub subcategory_row : Text → Text × RawSubcategoryItem → MoneyMapCategory
subcategory_row category_id (subcategory_id, sub) = record {
  category_id = category_id;
  subcategory_id = some subcategory_id;
  name = Option.map clean_name sub.sottocategoria;
  flag_spesa_ricavo = none;
}

-- The rows of a category's subcategories.
abbrev pub subcategory_rows : Text → List (Text × RawSubcategoryItem) → List MoneyMapCategory
subcategory_rows category_id [] = []
subcategory_rows category_id (entry ∷ entries) =
    let rest = subcategory_rows category_id entries in
    if is_blank entry.0 then rest else subcategory_row category_id entry ∷ rest

abbrev pub rows_of_category : Text × RawCategoryItem → List MoneyMapCategory
rows_of_category (category_id, cat) =
    if is_blank category_id
    then []
    else category_row category_id cat ∷ subcategory_rows category_id (or_else cat.sottocategorie [])

abbrev pub rows_of : MoneyMapCategoriesResponse → List MoneyMapCategory
rows_of [] = []
rows_of (entry ∷ entries) = rows_of_category entry ++ rows_of entries

-- `Option::cmp`: `None` comes first.
abbrev pub subcategory_before : Option Text → Option Text → Bool
subcategory_before none none = false
subcategory_before none (some t) = true
subcategory_before (some s) none = false
subcategory_before (some s) (some t) = text_lt s t

unfoldable pub category_before : MoneyMapCategory → MoneyMapCategory → Bool
category_before a b =
    text_lt a.category_id b.category_id
    || (text_eq a.category_id b.category_id && subcategory_before a.subcategory_id b.subcategory_id)

unfoldable pub to_category_rows : MoneyMapCategoriesResponse → List MoneyMapCategory
to_category_rows categories = sort_by category_before (rows_of categories)
