-- ===== src/Store/Categories.antt =====
-- crates/fineco-store/src/categories.rs: the category taxonomy. A lookup is a list of entries, where
-- a later insert stands first.
use fineco_helper.Store.Rows.{MoneyMapCategory}
use fineco_helper.Base.{
  [], ◌∷◌, ok, Text, List, Bool, or_else, not, keep, text_eq, ◌&&◌, ◌>>◌, none, some, Option, all,
  if◌then◌else◌,
}
use fineco_helper.Store.Db.{CategoryRow, Statement, StoreM, transaction, execute, query}
use fineco_helper.Store.Captures.{for_each, mark_capture, is_latest, latest_mark}
use fineco_helper.Core.Text.{is_whitespace}

abbrev other_category : Text → Text → Text → CategoryRow → Bool
other_category at category subcategory row = not (
    text_eq row.captured_at at
    && text_eq row.category_id category
    && text_eq row.subcategory_id subcategory)

-- INSERT OR REPLACE INTO moneymap_categories
unfoldable pub replace_category : Text → MoneyMapCategory → Statement (Unit {0})
replace_category at c t =
    let subcategory = or_else c.subcategory_id [] in
    ok (
      tt,
      record t {
        moneymap_categories =
            record {
              captured_at = at;
              category_id = c.category_id;
              subcategory_id = subcategory;
              name = c.name;
              flag_spesa_ricavo = c.flag_spesa_ricavo;
            }
            ∷ keep (other_category at c.category_id subcategory) t.moneymap_categories;
      },
    )

-- The statements of the transaction.
unfoldable pub write_categories : Text → List MoneyMapCategory → StoreM (Unit {0})
write_categories at categories = do
  for_each (λ c. execute (replace_category at c)) categories
  execute (mark_capture "moneymap_categories" at)

unfoldable pub capture_categories : Text → List MoneyMapCategory → StoreM (Unit {0})
capture_categories at categories = transaction (write_categories at categories)

pub record CategoryLookup : Type 0 where
  pub categories : List (Text × Text)
  pub subcategories : List ((Text × Text) × Text)

-- `HashMap::get`, the newest entry first
abbrev pub lookup : Text → List (Text × Text) → Option Text
lookup key [] = none
lookup key ((k, v) ∷ rest) = if text_eq k key then some v else lookup key rest

abbrev pub lookup_pair : Text → Text → List ((Text × Text) × Text) → Option Text
lookup_pair a b [] = none
lookup_pair a b (((k, l), v) ∷ rest) =
    if text_eq k a && text_eq l b then some v else lookup_pair a b rest

unfoldable pub category_name : CategoryLookup → Text → Option Text
category_name l category = lookup category l.categories

unfoldable pub subcategory_name : CategoryLookup → Text → Text → Option Text
subcategory_name l category [] = none
subcategory_name l category (c ∷ cs) = lookup_pair category (c ∷ cs) l.subcategories

-- `name.trim().is_empty()`
abbrev is_blank : Text → Bool
is_blank name = all is_whitespace name

insert_name : Text → Text → Text → CategoryLookup → CategoryLookup
insert_name category [] name l = record l { categories = (category, name) ∷ l.categories }
insert_name category (c ∷ cs) name l = record l {
  subcategories = ((category, c ∷ cs), name) ∷ l.subcategories;
}

unfoldable pub add_category : CategoryRow → CategoryLookup → CategoryLookup
unfolding insert_name
add_category row l = elim row.name [
  | none ↦ l
  | some name ↦ if is_blank name then l else insert_name row.category_id row.subcategory_id name l
]

-- The rows are taken in one after the other.
add_categories : List CategoryRow → CategoryLookup → CategoryLookup
add_categories [] l = l
add_categories (row ∷ rows) l = add_categories rows (add_category row l)

unfoldable pub latest_categories : StoreM CategoryLookup
unfolding add_categories
latest_categories = query (λ t.
    add_categories
      (keep (λ c. is_latest (latest_mark "moneymap_categories" t.data_captures) c.captured_at)
        t.moneymap_categories)
      (record { categories = []; subcategories = [] }))
