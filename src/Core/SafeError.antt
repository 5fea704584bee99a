-- ===== src/Core/SafeError.antt =====
-- crates/fineco-core/src/lib.rs: the safe error envelope. A message is a list of code points.
pub mod Status
mod Examples
use fineco_helper.Core.Classes.{ErrorClass, as_str}
use fineco_helper.Base.{
  ℕ, Bool, true, false, ◌||◌, ◌&&◌, ◌==◌, leb, if◌then◌else◌, String, Text, codes, [], ◌∷◌, List,
  ◌++◌, map,
}
use fineco_helper.Core.Text.{truncate_text, sanitize_text}

pub record SafeError : Type 0 where
  pub code : String
  pub class : ErrorClass
  pub retryable : Bool
  pub safe_message : Text

abbrev pub auth_required : SafeError
auth_required = record {
  code = "auth_required";
  class = ErrorClass.auth;
  retryable = false;
  safe_message =
      codes
        "Fineco authentication expired. Request a new refresh after credentials/session are available.";
}

abbrev pub step_up_required : SafeError
step_up_required = record {
  code = "step_up_required";
  class = ErrorClass.auth;
  retryable = false;
  safe_message =
      codes
        "Fineco requires step-up authentication (strong customer authentication). An owner-present approval is needed; this request cannot complete unattended.";
}

abbrev pub market_step_up_required : SafeError
market_step_up_required = record {
  code = "market_step_up_required";
  class = ErrorClass.auth;
  retryable = false;
  safe_message =
      codes
        "Fineco requires step-up authentication for this market read. An owner-present approval is needed; it cannot complete unattended.";
}

abbrev pub fineco_timeout : SafeError
fineco_timeout = record {
  code = "fineco_timeout";
  class = ErrorClass.upstream;
  retryable = true;
  safe_message = codes "Fineco request timed out.";
}

abbrev pub already_refreshing : SafeError
already_refreshing = record {
  code = "already_refreshing";
  class = ErrorClass.conflict;
  retryable = true;
  safe_message = codes "A refresh for this data area is already running.";
}

abbrev pub rate_limited : SafeError
rate_limited = record {
  code = "rate_limited";
  class = ErrorClass.rate_limit;
  retryable = true;
  safe_message = codes "Rate limit exceeded. Try again later.";
}

abbrev pub market_rate_limited : SafeError
market_rate_limited = record {
  code = "market_rate_limited";
  class = ErrorClass.rate_limit;
  retryable = true;
  safe_message = codes "Fineco live-session reads are temporarily rate limited. Try again later.";
}

abbrev pub market_auth_required : SafeError
market_auth_required = record {
  code = "market_auth_required";
  class = ErrorClass.auth;
  retryable = false;
  safe_message = codes "Fineco authentication is required for this market read.";
}

abbrev pub market_not_found : SafeError
market_not_found = record {
  code = "market_not_found";
  class = ErrorClass.not_found;
  retryable = false;
  safe_message = codes "No matching Fineco market instrument was found.";
}

abbrev pub market_ambiguous_identifier : SafeError
market_ambiguous_identifier = record {
  code = "market_ambiguous_identifier";
  class = ErrorClass.validation;
  retryable = false;
  safe_message =
      codes
        "The market identifier is ambiguous; use a more specific Fineco venue-qualified identifier.";
}

abbrev pub market_unsupported_asset_type : SafeError
market_unsupported_asset_type = record {
  code = "market_unsupported_asset_type";
  class = ErrorClass.validation;
  retryable = false;
  safe_message = codes "This asset type is not supported by market details yet.";
}

abbrev pub market_upstream_failure : SafeError
market_upstream_failure = record {
  code = "market_upstream_failure";
  class = ErrorClass.upstream;
  retryable = true;
  safe_message = codes "Authenticated market read failed upstream.";
}

abbrev pub market_circuit_open : SafeError
market_circuit_open = record {
  code = "market_circuit_open";
  class = ErrorClass.upstream;
  retryable = true;
  safe_message =
      codes
        "Authenticated market reads are temporarily unavailable after repeated upstream failures. Try again later.";
}

abbrev pub market_unexpected_response : SafeError
market_unexpected_response = record {
  code = "market_unexpected_response";
  class = ErrorClass.upstream;
  retryable = false;
  safe_message = codes "Authenticated market read returned an unexpected response.";
}

abbrev pub refresh_cooldown : SafeError
refresh_cooldown = record {
  code = "refresh_cooldown";
  class = ErrorClass.rate_limit;
  retryable = true;
  safe_message = codes "Refresh is cooling down for this data area. Try again later.";
}

abbrev pub refresh_budget_exhausted : SafeError
refresh_budget_exhausted = record {
  code = "refresh_budget_exhausted";
  class = ErrorClass.rate_limit;
  retryable = false;
  safe_message = codes "The daily refresh budget for this data area is exhausted.";
}

abbrev pub refresh_circuit_open : SafeError
refresh_circuit_open = record {
  code = "refresh_circuit_open";
  class = ErrorClass.upstream;
  retryable = true;
  safe_message =
      codes
        "Live refresh is temporarily unavailable after repeated upstream failures. Try again later.";
}

abbrev pub not_found : SafeError
not_found = record {
  code = "not_found";
  class = ErrorClass.not_found;
  retryable = false;
  safe_message = codes "The requested resource was not found.";
}

abbrev pub internal : SafeError
internal = record {
  code = "internal";
  class = ErrorClass.internal;
  retryable = false;
  safe_message = codes "An internal error occurred.";
}

abbrev pub live_transport_failure : SafeError
live_transport_failure = record {
  code = "live_transport_failure";
  class = ErrorClass.internal;
  retryable = false;
  safe_message = codes "The live worker transport failed.";
}

abbrev fineco_upstream_error : Bool → String → SafeError
fineco_upstream_error retryable message = record {
  code = "fineco_upstream_error";
  class = ErrorClass.upstream;
  retryable = retryable;
  safe_message = codes message;
}

abbrev pub market_error_of : String → Text → SafeError
market_error_of code message = record {
  code = code;
  class = ErrorClass.validation;
  retryable = false;
  safe_message = message;
}

-- A text that crossed a boundary, or the fixed error where nothing of it is left.
abbrev pub from_safe_message : SafeError → Text → SafeError
from_safe_message fixed [] = fixed
from_safe_message fixed (c ∷ cs) = market_error_of fixed.code (c ∷ cs)

unfoldable pub market_ambiguous_identifier_from_safe_message : Text → SafeError
market_ambiguous_identifier_from_safe_message message =
    from_safe_message market_ambiguous_identifier (truncate_text (sanitize_text message) 2000)

unfoldable pub market_unsupported_asset_type_from_safe_message : Text → SafeError
market_unsupported_asset_type_from_safe_message message =
    from_safe_message market_unsupported_asset_type (truncate_text (sanitize_text message) 2000)

-- `join(", ")`
abbrev join_commas : List Text → Text
join_commas [] = []
join_commas (t ∷ []) = t
join_commas (t ∷ u ∷ ts) = t ++ (codes ", " ++ join_commas (u ∷ ts))

unfoldable pub market_ambiguous_identifier_with_suggestions : List Text → SafeError
market_ambiguous_identifier_with_suggestions [] = market_ambiguous_identifier
market_ambiguous_identifier_with_suggestions (t ∷ ts) =
    market_ambiguous_identifier_from_safe_message (
      codes
        "The market identifier is ambiguous; use a more specific Fineco venue-qualified identifier. Candidates: "
      ++ (join_commas (map (λ s. truncate_text (sanitize_text s) 120) (t ∷ ts)) ++ codes "."))

unfoldable pub market_unsupported_asset_type_for : Text → Text → SafeError
market_unsupported_asset_type_for asset_type identifier =
    market_unsupported_asset_type_from_safe_message (
      codes "Market details v0 does not support asset type "
      ++ (truncate_text (sanitize_text asset_type) 80
          ++ (codes " for " ++ (truncate_text (sanitize_text identifier) 120 ++ codes "."))))

-- `Display`
unfoldable pub display : SafeError → Text
display e =
    b'[' ∷ (codes (as_str e.class) ++ (b'/' ∷ (codes e.code ++ (codes "] " ++ e.safe_message))))

-- `SafeError::from_upstream_status`
unfoldable pub from_upstream_status : ℕ → SafeError
from_upstream_status status =
    if status == 401 || status == 403
    then auth_required
    else if status == 404
    then not_found
    else if status == 429
    then rate_limited
    else if leb 500 status && leb status 599
    then fineco_upstream_error true "Fineco returned a server error."
    else fineco_upstream_error false "Fineco returned an unexpected response."
