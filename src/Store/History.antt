-- ===== src/Store/History.antt =====
-- crates/fineco-store/src/history.rs, report.rs: allocation and position history, and the rows of a
-- shareable report. `heavier` stands for the order of two `f64` values in SQLite; rows without a
-- weight stand last.
use fineco_helper.Store.Rows.{F64, PortfolioSnapshotRow}
use fineco_helper.Base.{
  [], ◌∷◌, none, some, true, false, ℕ, Text, String, List, Bool, Option, ◌++◌, text_lt, text_eq,
  keep, ◌||◌, ◌&&◌, or_else, ◌==◌, take, reverse, not, map,
}
use fineco_helper.Store.Db.{AssetRow, Tables, PositionSnapshot, StoreM, query}
use fineco_helper.Store.Portfolio.{joined, captured_later, of_snapshot}
use fineco_helper.Store.Jobs.{sort_by}

abbrev pub max_history_snapshots : ℕ
max_history_snapshots = 1000

pub record AllocationPoint : Type 0 where
  pub captured_at : Text
  pub instr_id : Text
  pub venue_system : Text
  pub symbol : Option String
  pub weight_perc : Option F64

pub record PositionHistoryPoint : Type 0 where
  pub captured_at : Text
  pub weight_perc : Option F64
  pub profit_loss_perc : Option F64
  pub market_value : Option F64

pub record ShareableRow : Type 0 where
  pub description : String
  pub symbol : String
  pub instr_id : Text
  pub venue_system : Text
  pub kind : String
  pub currency : String
  pub weight_perc : Option F64
  pub profit_loss_perc : Option F64

-- A row of the three tables joined.
pub record Held : Type 0 where
  pub snapshot : PortfolioSnapshotRow
  pub asset : AssetRow
  pub position : PositionSnapshot

-- `position_snapshots p JOIN assets a ON a.id = p.asset_id`, for one snapshot
abbrev held_in : PortfolioSnapshotRow → Tables → List Held
held_in s t =
    joined t.assets (λ p. p.asset_id) (λ p a. record { snapshot = s; asset = a; position = p })
      (keep (of_snapshot s.id) t.position_snapshots)

held_by : List PortfolioSnapshotRow → Tables → List Held
held_by [] t = []
held_by (s ∷ ss) t = held_in s t ++ held_by ss t

abbrev by_asset : Held → Held → Bool
by_asset a b =
    text_lt a.asset.asset.instr_id b.asset.asset.instr_id
    || (text_eq a.asset.asset.instr_id b.asset.asset.instr_id
        && text_lt a.asset.asset.venue_system b.asset.asset.venue_system)

-- ORDER BY ps.captured_at ASC, ps.id ASC, a.instr_id ASC, a.venue_system ASC
abbrev oldest_first : Held → Held → Bool
oldest_first a b =
    captured_later b.snapshot a.snapshot || (a.snapshot.id == b.snapshot.id && by_asset a b)

abbrev allocation_point : Held → AllocationPoint
allocation_point h = record {
  captured_at = h.snapshot.captured_at;
  instr_id = h.asset.asset.instr_id;
  venue_system = h.asset.asset.venue_system;
  symbol = h.asset.asset.symbol;
  weight_perc = h.position.position.weight_perc;
}

-- Only the positions of the newest `max_snapshots` snapshots, each with all its positions.
unfoldable pub allocation_history : ℕ → StoreM (List AllocationPoint)
unfolding held_by
allocation_history max_snapshots = query (λ t.
    let newest = take max_snapshots (sort_by captured_later t.portfolio_snapshots) in
    map allocation_point (sort_by oldest_first (held_by newest t)))

-- `a.instr_id = ?1 AND a.venue_system = ?2`
abbrev is_instrument : Text → Text → Held → Bool
is_instrument instr_id venue_system h =
    text_eq h.asset.asset.instr_id instr_id && text_eq h.asset.asset.venue_system venue_system

abbrev newest_first : Held → Held → Bool
newest_first a b = captured_later a.snapshot b.snapshot

abbrev history_point : Held → PositionHistoryPoint
history_point h = record {
  captured_at = h.snapshot.captured_at;
  weight_perc = h.position.position.weight_perc;
  profit_loss_perc = h.position.position.profit_loss_perc;
  market_value = h.position.position.market_value;
}

unfoldable pub position_history : Text → Text → ℕ → StoreM (List PositionHistoryPoint)
unfolding held_by
position_history instr_id venue_system max_points = query (λ t.
    let held = keep (is_instrument instr_id venue_system) (held_by t.portfolio_snapshots t) in
    reverse (map history_point (take max_points (sort_by newest_first held))))

module _ (heavier : F64 → F64 → Bool) where
  abbrev weight_before : Option F64 → Option F64 → Bool
  weight_before none b = false
  weight_before (some a) none = true
  weight_before (some a) (some b) = heavier a b

  -- ORDER BY p.weight_perc DESC, a.instr_id ASC, a.venue_system ASC
  abbrev report_before : PositionSnapshot × AssetRow → PositionSnapshot × AssetRow → Bool
  report_before (p, a) (q, b) =
      weight_before p.position.weight_perc q.position.weight_perc
      || (not (weight_before q.position.weight_perc p.position.weight_perc)
          && (text_lt a.asset.instr_id b.asset.instr_id
              || (text_eq a.asset.instr_id b.asset.instr_id
                  && text_lt a.asset.venue_system b.asset.venue_system)))

  abbrev shareable_row : PositionSnapshot × AssetRow → ShareableRow
  shareable_row (p, a) = record {
    description = or_else a.asset.description "";
    symbol = or_else a.asset.symbol "";
    instr_id = a.asset.instr_id;
    venue_system = a.asset.venue_system;
    kind = or_else a.asset.kind "";
    currency = or_else a.asset.currency "";
    weight_perc = p.position.weight_perc;
    profit_loss_perc = p.position.profit_loss_perc;
  }

  unfoldable pub shareable_report_rows : ℕ → StoreM (List ShareableRow)
  shareable_report_rows snapshot_id = query (λ t. map shareable_row (
      sort_by report_before (
        joined t.assets (λ p. p.asset_id) (λ p a. (p, a))
          (keep (of_snapshot snapshot_id) t.position_snapshots))))
