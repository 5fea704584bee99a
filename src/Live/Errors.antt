-- ===== src/Live/Errors.antt =====
-- crates/fineco-live/src/lib.rs: an error that was sent is built again by its constructor.
pub mod Safe
use fineco_helper.Core.SafeError
use fineco_helper.Base.{[], ◌∷◌, Text, String, List, if◌then◌else◌, str_eq}
use fineco_helper.Live.Wire.{SafeErrorDto}
use fineco_helper.Core.SafeError.{
  SafeError, from_upstream_status, market_ambiguous_identifier_from_safe_message,
  market_unsupported_asset_type_from_safe_message,
}
use fineco_helper.Core.Validate.{invalid_request}

-- The arms of the match; a message is used only where the constructor takes one.
abbrev pub known_errors : Text → List (String × SafeError)
known_errors message =
    ("auth_required", SafeError.auth_required)
    ∷ ("step_up_required", SafeError.step_up_required)
    ∷ ("market_step_up_required", SafeError.market_step_up_required)
    ∷ ("fineco_timeout", SafeError.fineco_timeout)
    ∷ ("fineco_upstream_error", from_upstream_status 500)
    ∷ ("not_found", SafeError.not_found)
    ∷ ("rate_limited", SafeError.rate_limited)
    ∷ ("market_auth_required", SafeError.market_auth_required)
    ∷ ("market_not_found", SafeError.market_not_found)
    ∷ ("market_ambiguous_identifier", market_ambiguous_identifier_from_safe_message message)
    ∷ ("market_unsupported_asset_type", market_unsupported_asset_type_from_safe_message message)
    ∷ ("market_rate_limited", SafeError.market_rate_limited)
    ∷ ("market_upstream_failure", SafeError.market_upstream_failure)
    ∷ ("market_circuit_open", SafeError.market_circuit_open)
    ∷ ("market_unexpected_response", SafeError.market_unexpected_response)
    ∷ ("live_transport_failure", SafeError.live_transport_failure)
    ∷ ("already_refreshing", SafeError.already_refreshing)
    ∷ ("invalid_request", invalid_request "the live worker rejected the request")
    ∷ []

abbrev pub rebuilt_error : String → List (String × SafeError) → SafeError
rebuilt_error code [] = SafeError.internal
rebuilt_error code ((known, e) ∷ rest) = if str_eq code known then e else rebuilt_error code rest

unfoldable pub safe_error_from_dto : SafeErrorDto → SafeError
safe_error_from_dto dto = rebuilt_error dto.code (known_errors dto.safe_message)
