-- ===== src/Store/Captures.antt =====
-- crates/fineco-store/src: what the captures share: the loop over the rows of a capture, the insert
-- that a primary key may refuse, the marks of `data_captures`, and `upsert_asset` of capture.rs.
pub mod Frame
use fineco_helper.Store.Rows.{NewAsset}
use fineco_helper.Store.Db.{
  Tables, StoreError, StoreM, Statement, AssetRow, Capture, execute, constraint_violation,
}
use fineco_helper.Base.{
  [], ◌∷◌, none, some, false, ok, err, suc, List, Bool, String, Text, Option, if◌then◌else◌, ℕ,
  pure, Result, str_eq, is_some, text_lt, text_eq, ◌>>◌, ◌&&◌, map,
}
use fineco_helper.Store.Jobs.{find_first}

-- `for row in rows { ...?; }`
unfoldable pub for_each : {A : Type 0} → (A → StoreM (Unit {0})) → List A → StoreM (Unit {0})
for_each body [] = pure tt
for_each body (x ∷ xs) = body x >> for_each body xs

-- The rows with a new one, unless one of them has its key.
unfoldable pub insert_row : {A : Type 0} → (A → Bool) → A → List A → Result StoreError (List A)
insert_row same_key row rows =
    if is_some (find_first same_key rows) then err constraint_violation else ok (row ∷ rows)

abbrev is_capture : String → Text → Capture → Bool
is_capture area at c = str_eq c.data_area area && text_eq c.captured_at at

-- INSERT OR IGNORE INTO data_captures
unfoldable pub mark_capture : String → Text → Statement (Unit {0})
mark_capture area at t =
    if is_some (find_first (is_capture area at) t.data_captures)
    then ok (tt, t)
    else ok (
      tt,
      record t { data_captures = record { data_area = area; captured_at = at } ∷ t.data_captures },
    )

-- The later of a timestamp and one that may be missing.
unfoldable pub later : Text → Option Text → Text
later a none = a
later a (some b) = if text_lt a b then b else a

-- SELECT MAX(captured_at) FROM data_captures WHERE data_area = ?1
unfoldable pub latest_mark : String → List Capture → Option Text
latest_mark area [] = none
latest_mark area (c ∷ cs) =
    let rest = latest_mark area cs in
    if str_eq c.data_area area then some (later c.captured_at rest) else rest

-- Whether a row is of an area's latest capture.
unfoldable pub is_latest : Option Text → Text → Bool
is_latest none at = false
is_latest (some latest) at = text_eq at latest

-- COALESCE(excluded.x, x)
unfoldable pub coalesce : {A : Type 0} → Option A → Option A → Option A
coalesce (some a) b = some a
coalesce none b = b

abbrev pub same_asset : NewAsset → AssetRow → Bool
same_asset a row =
    text_eq row.asset.instr_id a.instr_id && text_eq row.asset.venue_system a.venue_system

unfoldable pub refresh_asset : NewAsset → AssetRow → AssetRow
refresh_asset a row =
    if same_asset a row
    then record row {
      asset = record row.asset {
        symbol = coalesce a.symbol row.asset.symbol;
        description = coalesce a.description row.asset.description;
        kind = coalesce a.kind row.asset.kind;
        currency = coalesce a.currency row.asset.currency;
      };
    }
    else row

-- INSERT INTO assets ... ON CONFLICT(instr_id, venue_system) DO UPDATE SET ... RETURNING id
unfoldable pub upsert : NewAsset → Statement ℕ
upsert a t = elim (find_first (same_asset a) t.assets) [
  | none ↦ ok (
    t.next_asset_id,
    record t {
      assets = record { id = t.next_asset_id; asset = a } ∷ t.assets;
      next_asset_id = suc t.next_asset_id;
    },
  )
  | some row ↦ ok (row.id, record t { assets = map (refresh_asset a) t.assets })
]

unfoldable pub upsert_asset : NewAsset → StoreM ℕ
upsert_asset a = execute (upsert a)
