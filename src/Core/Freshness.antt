-- ===== src/Core/Freshness.antt =====
-- crates/fineco-core/src/freshness.rs: the states of a data area, and the state that an age gives.
use fineco_helper.Base.Int.{ℤ, leb_ℤ, saturating_sub}
use fineco_helper.Base.{none, some, String, Option, if◌then◌else◌}

pub data FreshnessState : Type 0 where
  fresh stale refreshing refresh_failed auth_required step_up_required missing : FreshnessState

-- `FreshnessState::as_str`
unfoldable pub state_name : FreshnessState → String
state_name FreshnessState.fresh = "fresh"
state_name FreshnessState.stale = "stale"
state_name FreshnessState.refreshing = "refreshing"
state_name FreshnessState.refresh_failed = "refresh_failed"
state_name FreshnessState.auth_required = "auth_required"
state_name FreshnessState.step_up_required = "step_up_required"
state_name FreshnessState.missing = "missing"

unfoldable pub freshness_from_age : Option ℤ → ℤ → ℤ → FreshnessState
freshness_from_age none now max_age = FreshnessState.missing
freshness_from_age (some captured) now max_age =
    if leb_ℤ (saturating_sub now captured) max_age
    then FreshnessState.fresh
    else FreshnessState.stale
