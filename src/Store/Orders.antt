-- ===== src/Store/Orders.antt =====
-- crates/fineco-store/src/orders.rs: order captures.
use fineco_helper.Store.Rows.{NewOrder, OrderRow}
use fineco_helper.Base.{Text, Bool, text_eq, ℕ, ◌>>=◌, List, text_lt, ◌&&◌, map_ok, keep, ◌>>◌}
use fineco_helper.Store.Db.{OrderSnapshot, StoreM, AssetRow, Statement, transaction, query, execute}
use fineco_helper.Store.Captures.{
  upsert_asset, insert_row, is_latest, latest_mark, for_each, mark_capture,
}
use fineco_helper.Store.Jobs.{sort_by}
use fineco_helper.Store.Portfolio.{joined}

abbrev is_order : Text → Text → OrderSnapshot → Bool
is_order at hash o = text_eq o.captured_at at && text_eq o.order.trans_id_hash hash

-- INSERT INTO orders, whose key is the capture and the order's hash
unfoldable pub insert_order : Text → ℕ → NewOrder → Statement (Unit {0})
insert_order at asset_id order t =
    map_ok (λ rows. (tt, record t { orders = rows }))
      (insert_row (is_order at order.trans_id_hash)
        (record { captured_at = at; asset_id = asset_id; order = order }) t.orders)

unfoldable pub capture_order : Text → NewOrder → StoreM (Unit {0})
capture_order at order = do
  asset_id ← upsert_asset order.asset
  execute (insert_order at asset_id order)

-- The statements of the transaction.
unfoldable pub write_orders : Text → List NewOrder → StoreM (Unit {0})
write_orders at orders = do for_each (capture_order at) orders; execute (mark_capture "orders" at)

unfoldable pub capture_orders : Text → List NewOrder → StoreM (Unit {0})
capture_orders at orders = transaction (write_orders at orders)

abbrev order_row : OrderSnapshot → AssetRow → OrderRow
order_row o a = record {
  captured_at = o.captured_at;
  trans_id_hash = o.order.trans_id_hash;
  asset_instr_id = a.asset.instr_id;
  asset_venue_system = a.asset.venue_system;
  status = o.order.status;
  sign = o.order.sign;
  order_size = o.order.order_size;
  size_filled = o.order.size_filled;
  avg_price = o.order.avg_price;
  submit_time = o.order.submit_time;
}

abbrev hash_before : OrderRow → OrderRow → Bool
hash_before a b = text_lt a.trans_id_hash b.trans_id_hash

unfoldable pub latest_orders : StoreM (List OrderRow)
latest_orders = query (λ t. sort_by hash_before (
    joined t.assets (λ o. o.asset_id) order_row
      (keep (λ o. is_latest (latest_mark "orders" t.data_captures) o.captured_at) t.orders)))
