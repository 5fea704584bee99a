-- ===== src/Store/Db.antt =====
-- crates/fineco-store: the tables, and how statements reach them. The meaning of each SQL statement is
-- written out where the source has its text. Whether the database driver executes a statement is not
-- the program's to decide (the disk may be full, the file busy): `faults` lists, for the statements
-- to come, whether the driver fails; past its end every statement is executed. A statement that
-- fails changes no table.
pub mod Keeps
use fineco_helper.Store.Rows.{
  JobRunRow, NewAsset, PortfolioSnapshotRow, NewPosition, NewOrder, NewTaxCarryForward,
  NewTaxMinusByYear, NewMovement, MovementsSummary, F64,
}
use fineco_helper.Base.{
  ℕ, Text, String, List, Exec, Result, ok, ◌>>=◌, Option, Bool, ◌∷◌, err, [], true, false,
}

-- `StoreError`: a constraint of the schema, any other failure of the driver, or a schema that is
-- too new.
pub data StoreError : Type 0 where
  constraint_violation sqlite_failure schema_too_new : StoreError

-- A row of `assets`.
pub record AssetRow : Type 0 where
  pub id : ℕ
  pub asset : NewAsset

-- A row with the columns that the capturing method adds to the value it is given.
pub record PositionSnapshot : Type 0 where
  pub snapshot_id : ℕ
  pub asset_id : ℕ
  pub position : NewPosition

pub record FxRate : Type 0 where
  pub captured_at : Text
  pub currency : String
  pub rate_to_eur : F64

pub record OrderSnapshot : Type 0 where
  pub captured_at : Text
  pub asset_id : ℕ
  pub order : NewOrder

pub record Captured (A : Type 0) : Type 0 where
  pub captured_at : Text
  pub value : A

pub record CategoryRow : Type 0 where
  pub captured_at : Text
  pub category_id : Text
  pub subcategory_id : Text
  pub name : Option Text
  pub flag_spesa_ricavo : Option Text

-- A row of `data_captures`.
pub record Capture : Type 0 where
  pub data_area : String
  pub captured_at : Text

-- The tables, newest row first, and the numbers that AUTOINCREMENT gives next.
pub record Tables : Type 0 where
  pub job_runs : List JobRunRow
  pub next_job_id : ℕ
  pub assets : List AssetRow
  pub next_asset_id : ℕ
  pub portfolio_snapshots : List PortfolioSnapshotRow
  pub next_snapshot_id : ℕ
  pub position_snapshots : List PositionSnapshot
  pub fx_rates : List FxRate
  pub orders : List OrderSnapshot
  pub tax_carry_forward : List (Captured NewTaxCarryForward)
  pub tax_minus_by_year : List (Captured NewTaxMinusByYear)
  pub movements : List (Captured NewMovement)
  pub movements_summary : List (Captured MovementsSummary)
  pub moneymap_categories : List CategoryRow
  pub data_captures : List Capture

pub record Store : Type 0 where
  pub tables : Tables
  pub faults : List Bool

abbrev pub StoreM : Type 0 → Type 0
StoreM A = Exec Store StoreError A

-- What a statement does to the tables if the driver executes it.
abbrev pub Statement : Type 0 → Type 0
Statement A = Tables → Result StoreError (A × Tables)

module _ {A : Type 0} where
  unfoldable pub written : Result StoreError (A × Tables) → Store → Result StoreError A × Store
  written (ok (a, t)) s = (ok a, record s { tables = t })
  written (err e) s = (err e, s)

  unfoldable pub execute_next : List Bool → Statement A → StoreM A
  unfolding written
  execute_next [] stmt s = written (stmt s.tables) s
  execute_next (true ∷ rest) stmt s = (err sqlite_failure, record s { faults = rest })
  execute_next (false ∷ rest) stmt s = written (stmt s.tables) (record s { faults = rest })

  unfoldable pub execute : Statement A → StoreM A
  unfolding execute_next
  execute stmt s = execute_next s.faults stmt s

  -- A query reads the tables and changes none.
  unfoldable pub query : (Tables → A) → StoreM A
  unfolding execute
  query f = execute (λ t. ok (f t, t))

  unfoldable pub finish_transaction :
      Tables → Result StoreError A × Store → Result StoreError A × Store
  finish_transaction before (ok a, s) = (ok a, s)
  finish_transaction before (err e, s) = (err e, record s { tables = before })

  -- `transaction()` ... `commit()`: what fails in between, or at the commit, is rolled back.
  unfoldable pub transaction : StoreM A → StoreM A
  unfolding finish_transaction execute
  transaction body s = finish_transaction s.tables ((body >>= λ a. execute (λ t. ok (a, t))) s)
