-- ===== src/Core/SafeError/Status.antt =====
-- crates/fineco-core/src/lib.rs: what an upstream status becomes.
use fineco_helper.Base.{ℕ, true, ◌≡◌, ◌↔◌, ◌⊎◌, ◌≤◌, arith}
use fineco_helper.Core.Classes.{ErrorClass}
use fineco_helper.Core.SafeError.{from_upstream_status}

-- An error from an upstream status may be retried exactly when the status is 429 or from 500 to
-- 599, and it is an authentication error exactly when the status is 401 or 403.
pub from_upstream_status_kinds :
    (status : ℕ)
    → ((from_upstream_status status).retryable ≡ true
        ↔ (status ≡ 429) ⊎ ((500 ≤ status) × (status ≤ 599)))
      × ((from_upstream_status status).class ≡ ErrorClass.auth ↔ (status ≡ 401) ⊎ (status ≡ 403))
unfolding from_upstream_status
from_upstream_status_kinds status = ground arith
