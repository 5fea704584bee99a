-- ===== src/Samples.antt =====
-- Data for the tests and the examples: a store with one finished job, and a controller over it.
use fineco_helper.Base.{
  codes, [], ◌∷◌, none, some, true, false, ok, err, refl, Text, ◌≡◌, arith, Bool, str_eq,
  if◌then◌else◌, ◌≤◌,
}
use fineco_helper.Base.Int.{pos, ◌+ℤ◌, ◌-ℤ◌, ◌*ℤ◌, div_trunc, rem_trunc}
use fineco_helper.Core.Clock.{
  days_from_civil, era_of, year_days, month_days, march_year, march_month, is_leap, days_in_month,
  digits, parse_date, parse_time, drop_fraction, epoch_of, parse_iso8601_utc,
}
use fineco_helper.Ipc.Capability.{Capability}
use fineco_helper.Store.Db.{Tables, Store}
use fineco_helper.Store.Rows.{JobRunRow, Status, NewPortfolioSnapshot, NewMovement}
use fineco_helper.Core.SafeError
use fineco_helper.Controller.Refresh.{Config, Fetchers, Controller, defaults, for_area}
use fineco_helper.Store.Jobs.Lock.{IsLocked}
use fineco_helper.Ipc.Capability.{Policy}
use fineco_helper.Controller.Circuit.{closed_circuit}
use fineco_helper.Controller.Refresh.Daily.{IsWithinDaily}
use fineco_helper.Store.Jobs.{started_on}

abbrev pub new_year : Text
new_year = codes "2026-01-01T00:00:00Z"

pub new_year_parsed : parse_iso8601_utc new_year ≡ some (pos 1767225600)
unfolding parse_iso8601_utc parse_date parse_time drop_fraction digits epoch_of days_in_month
    is_leap days_from_civil era_of year_days month_days march_year march_month ◌+ℤ◌ ◌-ℤ◌ ◌*ℤ◌
    div_trunc rem_trunc
new_year_parsed = refl

abbrev pub finished_job : JobRunRow
finished_job = record {
  id = 1;
  auth_id = "owner";
  data_area = "orders";
  started_at = new_year;
  finished_at = some new_year;
  status = Status.completed;
  safe_error_code = none;
}

abbrev pub one_job : Tables
one_job = record {
  job_runs = finished_job ∷ [];
  next_job_id = 2;
  assets = [];
  next_asset_id = 1;
  portfolio_snapshots = [];
  next_snapshot_id = 1;
  position_snapshots = [];
  fx_rates = [];
  orders = [];
  tax_carry_forward = [];
  tax_minus_by_year = [];
  movements = [];
  movements_summary = [];
  moneymap_categories = [];
  data_captures = [];
}

abbrev pub sample_store : Store
sample_store = record { tables = one_job; faults = [] }

-- A store whose next statement the driver fails.
abbrev pub failing_store : Store
failing_store = record { tables = one_job; faults = true ∷ [] }

abbrev pub empty_store : Store
empty_store = record { tables = record one_job { job_runs = [] }; faults = false ∷ true ∷ [] }

pub one_job-IsLocked : IsLocked one_job
one_job-IsLocked = record { one_running = λ area. ground arith; fresh = (omega arith, tt) }

abbrev pub empty_snapshot : NewPortfolioSnapshot
empty_snapshot = record {
  captured_at = new_year;
  source = "live";
  market_value = none;
  book_value = none;
  profit_loss = none;
  profit_loss_perc = none;
  positions = [];
  fx_rates = [];
}

abbrev pub gross_movement : NewMovement
gross_movement = record {
  movement_id_hash = codes "a1";
  causale = none;
  descrizione = some (codes "Div.su ACME");
  descrizione_breve = none;
  importo = some 1250;
  tipo_movimento = none;
  data_operazione = some (codes "2026-01-01");
  data_registrazione = none;
  data_valuta = none;
  causale_movimento = some (codes "DII");
  categoria_id = none;
  sottocategoria_id = none;
}

abbrev pub orders_only : Policy
orders_only = record {
  version = 1;
  auth_ids =
      (
        "owner",
        record {
          capabilities = Capability.orders_live_refresh ∷ Capability.market_authenticated_read ∷ [];
        },
      )
      ∷ [];
}

abbrev pub sample_config : Config
sample_config = record { policy = orders_only; limits = defaults }

abbrev pub timing_out : Fetchers
timing_out = record {
  fetch_portfolio = λ at. ok empty_snapshot;
  fetch_orders = λ s kind days. ok [];
  fetch_tax = record {
    fetch_tax_carry_forward = λ from to. err SafeError.fineco_timeout;
    fetch_tax_minus_by_year = ok [];
  };
  fetch_movements = λ s from to. err SafeError.auth_required;
}

abbrev pub sample_controller : Controller
sample_controller = record {
  store = sample_store;
  live_login_state = record {
    in_flight = false;
    pending_epoch = none;
    last_login_epoch = none;
    login_attempts = [];
    market_session_valid_until = none;
  };
  market_circuit_state = closed_circuit;
}

at_least_one :
    (a b c : Bool) (j : Bool)
    → (if j then 1 else 0)
      ≤ (if a
          then defaults.orders
          else if b
          then defaults.tax
          else if c
          then defaults.movements
          else defaults.portfolio).daily_budget
unfolding defaults
at_least_one a b c j = ground arith

pub one_job-IsWithinDaily : IsWithinDaily defaults one_job
unfolding defaults for_area
one_job-IsWithinDaily area day =
    at_least_one (str_eq area "orders") (str_eq area "tax") (str_eq area "movements")
      (started_on area day finished_job)
