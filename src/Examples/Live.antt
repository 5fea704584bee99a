-- ===== src/Examples/Live.antt =====
-- The theorems about the controller and the retries, at a controller over a store with one job.
use fineco_helper.Base.Int.{pos}
use fineco_helper.Core.SafeError
use fineco_helper.Ipc.Refresh.{RefreshRequest, orders_refresh_live}
use fineco_helper.Ipc.Validate.{MarketControlRequest, market_get_indices}
use fineco_helper.Controller.Market.{MarketFetchers, handle_market_control}
use fineco_helper.Controller.Circuit.Runs.{Recorded, after, streak, cooling, check_closed-after}
use fineco_helper.Base.{
  [], ◌∷◌, none, some, false, ok, err, suc, refl, ℕ, Result, ◌≡◌, if◌then◌else◌, leb, ◌&&◌, max,
  inl, inr, String, ◌≤◌, str_eq, eq_iff, arith,
}
use fineco_helper.Controller.Refresh.Daily.{IsWithinDaily, handle-IsWithinDaily}
use fineco_helper.Controller.Permits.{IsIdle, handle-IsIdle, handle_market_control-IsIdle}
use fineco_helper.Samples.{
  new_year, sample_config, timing_out, sample_controller, one_job-IsWithinDaily, new_year_parsed,
}
use fineco_helper.Controller.Circuit.{check_closed}
use fineco_helper.Refresh.Retry.{with_retry, immediate}
use fineco_helper.Controller.Refresh.{defaults, handle}
use fineco_helper.Core.SafeError.{SafeError}
use fineco_helper.Refresh.Retry.Bounds.{
  with_retry_permanent, IsBetween, calls_of, counting, with_retry-calls, IsPermanent,
  with_retry_transient,
}

abbrev month_of_orders : RefreshRequest
month_of_orders = orders_refresh_live (record { instrument_kind = "equity"; days = 30 })

handle-IsWithinDaily_example :
    IsWithinDaily defaults
      (handle sample_config timing_out month_of_orders new_year sample_controller).1.store.tables
handle-IsWithinDaily_example =
    handle-IsWithinDaily sample_config timing_out month_of_orders new_year sample_controller
      one_job-IsWithinDaily

handle-IsIdle_example :
    IsIdle (handle sample_config timing_out month_of_orders new_year sample_controller).1
handle-IsIdle_example =
    handle-IsIdle sample_config timing_out month_of_orders new_year sample_controller refl

abbrev unreachable : MarketFetchers (Unit {0})
unreachable = record {
  fetch_market_search =
      λ p at. err (record { error = SafeError.live_transport_failure; session = none });
  fetch_market_asset_details =
      λ p at. err (record { error = SafeError.market_not_found; session = none });
  fetch_market_indices = λ p at. err (record { error = SafeError.fineco_timeout; session = none });
}

abbrev all_indices : MarketControlRequest
all_indices = market_get_indices (record { region = none; limit = some 5 })

handle_market_control-IsIdle_example :
    IsIdle
      (handle_market_control
        (λ r. some 10)
        sample_config
        unreachable
        all_indices
        new_year
        sample_controller).1
handle_market_control-IsIdle_example =
    handle_market_control-IsIdle (λ r. some 10) sample_config unreachable all_indices new_year
      sample_controller refl

abbrev timed_out : Recorded
timed_out = record {
  now_iso = new_year;
  epoch = pos 1767225600;
  reads = new_year_parsed;
  error = some SafeError.fineco_timeout;
}

check_closed-after_example :
    check_closed new_year (after (timed_out ∷ timed_out ∷ timed_out ∷ [])) ≡ (
      if leb 3 (streak (timed_out ∷ timed_out ∷ timed_out ∷ []))
        && cooling (pos 1767225600) timed_out
      then err SafeError.market_circuit_open
      else ok tt)
check_closed-after_example =
    check_closed-after timed_out (timed_out ∷ timed_out ∷ []) new_year (pos 1767225600)
      new_year_parsed

abbrev never : ℕ → Result SafeError ℕ × ℕ
never w = (err SafeError.fineco_timeout, suc w)

with_retry-calls_example :
    IsBetween 1
      (max (immediate 3).max_attempts 1)
      (calls_of (with_retry (counting never) (immediate 3) (0, 0)))
with_retry-calls_example = with_retry-calls never (immediate 3) 0

abbrev refused : ℕ → Result SafeError ℕ × ℕ
refused w = (err SafeError.rate_limited, suc w)

differs : (a b : String) → str_eq a b ≡ false → ¬ (a ≡ b)
differs a b h e = ground (arith, h, (eq_iff a b).1 e)

rate_limited-IsPermanent : IsPermanent SafeError.rate_limited
rate_limited-IsPermanent = inr (
  differs "rate_limited" "fineco_timeout" refl,
  (differs "rate_limited" "fineco_upstream_error" refl, tt),
)

with_retry_permanent_example :
    with_retry refused (immediate 3) 7
    ≡ record { answer = err SafeError.rate_limited; world = 8; pauses = [] }
with_retry_permanent_example =
    with_retry_permanent refused (immediate 3) 7 SafeError.rate_limited refl
      rate_limited-IsPermanent

with_retry_transient_example : 2 ≤ calls_of (with_retry (counting never) (immediate 3) (7, 0))
unfolding immediate
with_retry_transient_example =
    with_retry_transient never (immediate 3) 7 SafeError.fineco_timeout refl refl (inl refl)
      (omega arith)
