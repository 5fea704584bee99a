-- ===== src/Store/Portfolio.antt =====
-- crates/fineco-store/src/capture.rs, history.rs: portfolio snapshots. An `f64` here is not a NaN:
-- the values come from JSON, which has none.
use fineco_helper.Store.Rows.{
  NewPortfolioSnapshot, NewPosition, NewFxRate, PortfolioSnapshotRow, PositionRow,
}
use fineco_helper.Base.{
  [], ◌∷◌, none, some, ok, suc, ℕ, Text, Bool, List, ◌==◌, map_ok, ◌>>=◌, if◌then◌else◌, text_lt,
  Option, ◌&&◌, text_eq, is_some, ◌||◌, head?, length, str_eq, map, ltb, keep, ◌>>◌, reverse, take,
  pure,
}
use fineco_helper.Store.Db.{
  Statement, StoreM, PositionSnapshot, FxRate, transaction, AssetRow, Tables, query, execute,
}
use fineco_helper.Store.Captures.{insert_row, upsert_asset, for_each}
use fineco_helper.Store.Jobs.{find_first, sort_by}

-- INSERT INTO portfolio_snapshots
unfoldable pub insert_snapshot : NewPortfolioSnapshot → Statement ℕ
insert_snapshot n t = ok (
  t.next_snapshot_id,
  record t {
    portfolio_snapshots =
        record {
          id = t.next_snapshot_id;
          captured_at = n.captured_at;
          source = n.source;
          market_value = n.market_value;
          book_value = n.book_value;
          profit_loss = n.profit_loss;
          profit_loss_perc = n.profit_loss_perc;
        }
        ∷ t.portfolio_snapshots;
    next_snapshot_id = suc t.next_snapshot_id;
  },
)

abbrev is_position : ℕ → ℕ → PositionSnapshot → Bool
is_position snapshot_id asset_id p = (p.snapshot_id == snapshot_id) && (p.asset_id == asset_id)

-- INSERT INTO position_snapshots, whose key is the snapshot and the asset
unfoldable pub insert_position : ℕ → ℕ → NewPosition → Statement (Unit {0})
insert_position snapshot_id asset_id pos t =
    map_ok (λ rows. (tt, record t { position_snapshots = rows }))
      (insert_row (is_position snapshot_id asset_id)
        (record { snapshot_id = snapshot_id; asset_id = asset_id; position = pos })
        t.position_snapshots)

unfoldable pub capture_position : ℕ → NewPosition → StoreM (Unit {0})
capture_position snapshot_id pos = do
  asset_id ← upsert_asset pos.asset
  execute (insert_position snapshot_id asset_id pos)

abbrev is_rate : Text → NewFxRate → FxRate → Bool
is_rate at fx row = text_eq row.captured_at at && str_eq row.currency fx.currency

abbrev set_rate : Text → NewFxRate → FxRate → FxRate
set_rate at fx row = if is_rate at fx row then record row { rate_to_eur = fx.rate_to_eur } else row

-- INSERT INTO fx_rates ... ON CONFLICT(captured_at, currency) DO UPDATE
unfoldable pub upsert_rate : Text → NewFxRate → Statement (Unit {0})
upsert_rate at fx t =
    if is_some (find_first (is_rate at fx) t.fx_rates)
    then ok (tt, record t { fx_rates = map (set_rate at fx) t.fx_rates })
    else ok (
      tt,
      record t {
        fx_rates =
            record { captured_at = at; currency = fx.currency; rate_to_eur = fx.rate_to_eur }
            ∷ t.fx_rates;
      },
    )

-- The statements of the transaction.
unfoldable pub write_snapshot : NewPortfolioSnapshot → StoreM ℕ
write_snapshot snapshot = do
  snapshot_id ← execute (insert_snapshot snapshot)
  for_each (capture_position snapshot_id) snapshot.positions
  for_each (λ fx. execute (upsert_rate snapshot.captured_at fx)) snapshot.fx_rates
  pure snapshot_id

unfoldable pub capture_portfolio_snapshot : NewPortfolioSnapshot → StoreM ℕ
capture_portfolio_snapshot snapshot = transaction (write_snapshot snapshot)

-- ORDER BY captured_at DESC, id DESC
unfoldable pub captured_later : PortfolioSnapshotRow → PortfolioSnapshotRow → Bool
captured_later a b =
    text_lt b.captured_at a.captured_at || (text_eq a.captured_at b.captured_at && ltb b.id a.id)

unfoldable pub latest_snapshot : List PortfolioSnapshotRow → Option PortfolioSnapshotRow
latest_snapshot rows = head? (sort_by captured_later rows)

unfoldable pub latest_portfolio_snapshot : StoreM (Option PortfolioSnapshotRow)
latest_portfolio_snapshot = query (λ t. latest_snapshot t.portfolio_snapshots)

abbrev has_id : ℕ → AssetRow → Bool
has_id id a = a.id == id

abbrev pub joined : {A B : Type 0} → List AssetRow → (A → ℕ) → (A → AssetRow → B) → List A → List B
joined assets key f [] = []
joined assets key f (x ∷ xs) =
    let rest = joined assets key f xs in
    elim (find_first (has_id (key x)) assets) [ none ↦ rest | some a ↦ f x a ∷ rest ]

abbrev position_row : PositionSnapshot → AssetRow → PositionRow
position_row p a = record {
  asset_instr_id = a.asset.instr_id;
  asset_venue_system = a.asset.venue_system;
  symbol = a.asset.symbol;
  qty = p.position.qty;
  avg_price = p.position.avg_price;
  market_price = p.position.market_price;
  book_value = p.position.book_value;
  market_value = p.position.market_value;
  profit_loss = p.position.profit_loss;
  profit_loss_perc = p.position.profit_loss_perc;
  weight_perc = p.position.weight_perc;
  position_key_hash = p.position.position_key_hash;
}

-- ORDER BY a.instr_id, a.venue_system
abbrev asset_before : PositionRow → PositionRow → Bool
asset_before a b =
    text_lt a.asset_instr_id b.asset_instr_id
    || (text_eq a.asset_instr_id b.asset_instr_id
        && text_lt a.asset_venue_system b.asset_venue_system)

abbrev pub of_snapshot : ℕ → PositionSnapshot → Bool
of_snapshot id p = p.snapshot_id == id

unfoldable pub positions_of : ℕ → Tables → List PositionRow
positions_of id t =
    sort_by asset_before
      (joined t.assets (λ p. p.asset_id) position_row (keep (of_snapshot id) t.position_snapshots))

unfoldable pub positions_for_snapshot : ℕ → StoreM (List PositionRow)
positions_for_snapshot id = query (positions_of id)

unfoldable pub asset_count : StoreM ℕ
asset_count = query (λ t. length t.assets)

-- The newest `limit` snapshots, oldest first.
unfoldable pub portfolio_history : ℕ → StoreM (List PortfolioSnapshotRow)
portfolio_history limit =
    query (λ t. reverse (take limit (sort_by captured_later t.portfolio_snapshots)))
