-- ===== src/Core/SafeError/Examples.antt =====
-- crates/fineco-core/src/lib.rs: a test of the statuses, and an instance of their theorem.
use fineco_helper.Base.{ℕ, true, ◌≡◌, refl, ◌↔◌, ◌⊎◌, ◌≤◌}
use fineco_helper.Core.Classes.{ErrorClass}
use fineco_helper.Core.SafeError.{from_upstream_status, auth_required}
use fineco_helper.Core.SafeError.Status.{from_upstream_status_kinds}

forbidden : from_upstream_status 403 ≡ auth_required
unfolding from_upstream_status
forbidden = refl

from_upstream_status_kinds_example :
    ((from_upstream_status 503).retryable ≡ true
      ↔ (◌≡◌ {A = ℕ} 503 429) ⊎ ((500 ≤ 503) × (503 ≤ 599)))
    × ((from_upstream_status 503).class ≡ ErrorClass.auth
        ↔ (◌≡◌ {A = ℕ} 503 401) ⊎ (◌≡◌ {A = ℕ} 503 403))
from_upstream_status_kinds_example = from_upstream_status_kinds 503
