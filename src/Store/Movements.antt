-- ===== src/Store/Movements.antt =====
-- crates/fineco-store/src/movements.rs: movement captures. A `MovementRow` is a movement beside the
-- time of its capture.
use fineco_helper.Store.Rows.{NewMovement, MovementsSummary}
use mathlib.Core.Option
use fineco_helper.Base.{
  ◌∷◌, none, some, ok, Text, Bool, text_eq, not, Option, List, text_lt, ◌&&◌, map_ok, keep, pure,
  ◌>>◌,
}
use fineco_helper.Store.Db.{Captured, StoreM, Statement, transaction, query, execute}
use fineco_helper.Store.Captures.{insert_row, is_latest, latest_mark, for_each, mark_capture}
use fineco_helper.Store.Jobs.{sort_by, find_first}

abbrev pub MovementRow : Type 0
MovementRow = Captured NewMovement

abbrev is_movement : Text → Text → MovementRow → Bool
is_movement at hash row = text_eq row.captured_at at && text_eq row.value.movement_id_hash hash

-- INSERT INTO movements, whose key is the capture and the movement's hash
unfoldable pub insert_movement : Text → NewMovement → Statement (Unit {0})
insert_movement at m t =
    map_ok (λ rows. (tt, record t { movements = rows }))
      (insert_row (is_movement at m.movement_id_hash) (record { captured_at = at; value = m })
        t.movements)

abbrev other_capture : {A : Type 0} → Text → Captured A → Bool
other_capture at row = not (text_eq row.captured_at at)

-- INSERT OR REPLACE INTO movements_summary, whose key is the capture
unfoldable pub replace_summary : Text → MovementsSummary → Statement (Unit {0})
replace_summary at s t = ok (
  tt,
  record t {
    movements_summary =
        record { captured_at = at; value = s } ∷ keep (other_capture at) t.movements_summary;
  },
)

unfoldable pub write_summary : Text → Option MovementsSummary → StoreM (Unit {0})
write_summary at none = pure tt
write_summary at (some s) = execute (replace_summary at s)

-- The statements of the transaction.
unfoldable pub write_movements :
    Text → List NewMovement → Option MovementsSummary → StoreM (Unit {0})
unfolding write_summary
write_movements at movements summary = do
  for_each (λ m. execute (insert_movement at m)) movements
  write_summary at summary
  execute (mark_capture "movements" at)

unfoldable pub capture_movements :
    Text → List NewMovement → Option MovementsSummary → StoreM (Unit {0})
capture_movements at movements summary = transaction (write_movements at movements summary)

abbrev movement_before : MovementRow → MovementRow → Bool
movement_before a b = text_lt a.value.movement_id_hash b.value.movement_id_hash

unfoldable pub latest_movements : StoreM (List MovementRow)
latest_movements = query (λ t.
    sort_by movement_before
      (keep (λ c. is_latest (latest_mark "movements" t.data_captures) c.captured_at) t.movements))

-- The summary of the latest movements capture, if it had one.
unfoldable pub latest_movements_summary : StoreM (Option MovementsSummary)
latest_movements_summary = query (λ t.
    Option.map (λ c. c.value)
      (find_first (λ c. is_latest (latest_mark "movements" t.data_captures) c.captured_at)
        t.movements_summary))
