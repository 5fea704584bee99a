-- ===== src/Live/Errors/Safe.antt =====
-- crates/fineco-live/src/lib.rs: what a worker's error can bring into the envelope.
use fineco_helper.Core.SafeError
use fineco_helper.Base.{
  [], ◌∷◌, true, inl, inr, refl, Text, ℕ, String, All, Bool, ◌≡◌, all, not, ◌&&◌, length,
  Bool-cases, leb, ◌≤◌, ==_iff, sym, leb→le, ◌||◌, ◌∙◌, ◌==◌, false, List, str_eq, if◌then◌else◌,
  eq_iff,
}
use fineco_helper.Core.SafeError.{
  SafeError, from_safe_message, from_upstream_status, market_ambiguous_identifier_from_safe_message,
  market_unsupported_asset_type_from_safe_message,
}
use fineco_helper.Core.Text.{truncate_text, sanitize_text, is_control, is_whitespace}
use fineco_helper.Core.Text.Clean.{
  IsClean, truncate_text-All, sanitize_text-IsClean, truncate_text-length,
}
use fineco_helper.Live.Errors.{safe_error_from_dto, known_errors, rebuilt_error}
use fineco_helper.Core.Validate.{invalid_request}
use fineco_helper.Live.Wire.{SafeErrorDto}

-- Sanitized text within its bound.
abbrev pub IsSafe : Text → Type 0
IsSafe s = All IsClean s × (length s ≤ 2000)

abbrev is_clean : ℕ → Bool
is_clean c = not (is_control c) && (not (is_whitespace c) || (c == 32))

is_clean_sound : (c : ℕ) → is_clean c ≡ true → IsClean c
is_clean_sound c h = elim (Bool-cases (is_control c)) [
  | inl e ↦ cc
  | inr e ↦ (e, λ w. (==_iff c 32).0 (sym (rw (e, w) refl) ∙ h))
]

all-IsClean : (s : Text) → all is_clean s ≡ true → All IsClean s
all-IsClean [] h = tt
all-IsClean (c ∷ cs) h = elim (Bool-cases (is_clean c)) [
  | inl e ↦ (is_clean_sound c e, all-IsClean cs (sym (rw e refl) ∙ h))
  | inr e ↦ cc
]

fixed-IsSafe : (s : Text) → (all is_clean s && leb (length s) 2000) ≡ true → IsSafe s
fixed-IsSafe s h = elim (Bool-cases (all is_clean s)) [
  | inl e ↦ (all-IsClean s e, leb→le (length s) 2000 (sym (rw e refl) ∙ h))
  | inr e ↦ cc
]

-- What is said of each arm: the code it is for, and its message.
abbrev IsArm : String × SafeError → Type 0
IsArm (code, e) = (e.code ≡ code) × IsSafe e.safe_message

message-IsSafe : (s : Text) → IsSafe (truncate_text (sanitize_text s) 2000)
message-IsSafe s = (
  truncate_text-All IsClean (sanitize_text s) 2000 (sanitize_text-IsClean s).0,
  truncate_text-length (sanitize_text s) 2000,
)

from_safe_message-IsArm :
    (fixed : SafeError) (s : Text)
    → IsSafe fixed.safe_message
    → IsSafe s
    → IsArm (fixed.code, from_safe_message fixed s)
from_safe_message-IsArm fixed [] h k = (refl, h)
from_safe_message-IsArm fixed (c ∷ cs) h k = (refl, k)

-- An arm whose message is a literal.
fixed-IsArm :
    (e : SafeError)
    → (all is_clean e.safe_message && leb (length e.safe_message) 2000) ≡ true
    → IsArm (e.code, e)
fixed-IsArm e h = (refl, fixed-IsSafe e.safe_message h)

known_errors-IsArm : (message : Text) → All IsArm (known_errors message)
unfolding from_upstream_status invalid_request market_ambiguous_identifier_from_safe_message
    market_unsupported_asset_type_from_safe_message
known_errors-IsArm message = (
  fixed-IsArm SafeError.auth_required refl,
  (
    fixed-IsArm SafeError.step_up_required refl,
    (
      fixed-IsArm SafeError.market_step_up_required refl,
      (
        fixed-IsArm SafeError.fineco_timeout refl,
        (
          fixed-IsArm (from_upstream_status 500) refl,
          (
            fixed-IsArm SafeError.not_found refl,
            (
              fixed-IsArm SafeError.rate_limited refl,
              (
                fixed-IsArm SafeError.market_auth_required refl,
                (
                  fixed-IsArm SafeError.market_not_found refl,
                  (
                    from_safe_message-IsArm SafeError.market_ambiguous_identifier _
                        (fixed-IsArm SafeError.market_ambiguous_identifier refl).1
                        (message-IsSafe message),
                    (
                      from_safe_message-IsArm SafeError.market_unsupported_asset_type _
                          (fixed-IsArm SafeError.market_unsupported_asset_type refl).1
                          (message-IsSafe message),
                      (
                        fixed-IsArm SafeError.market_rate_limited refl,
                        (
                          fixed-IsArm SafeError.market_upstream_failure refl,
                          (
                            fixed-IsArm SafeError.market_circuit_open refl,
                            (
                              fixed-IsArm SafeError.market_unexpected_response refl,
                              (
                                fixed-IsArm SafeError.live_transport_failure refl,
                                (
                                  fixed-IsArm SafeError.already_refreshing refl,
                                  (
                                    fixed-IsArm
                                        (invalid_request "the live worker rejected the request")
                                        refl,
                                    tt,
                                  ),
                                ),
                              ),
                            ),
                          ),
                        ),
                      ),
                    ),
                  ),
                ),
              ),
            ),
          ),
        ),
      ),
    ),
  ),
)

-- The codes that have an arm.
abbrev pub is_known : String → List (String × SafeError) → Bool
is_known code [] = false
is_known code ((known, e) ∷ rest) = str_eq code known || is_known code rest

rebuilt_error-IsArm :
    (code : String) (arms : List (String × SafeError))
    → All IsArm arms
    → ((rebuilt_error code arms).code ≡ (if is_known code arms then code else "internal"))
      × IsSafe (rebuilt_error code arms).safe_message
rebuilt_error-IsArm code [] h = (refl, (fixed-IsArm SafeError.internal refl).1)
rebuilt_error-IsArm code ((known, e) ∷ rest) h = elim (Bool-cases (str_eq code known)) [
  | inl p ↦ rw p (h.0.0 ∙ sym ((eq_iff code known).0 p), h.0.1)
  | inr p ↦ rw p (rebuilt_error-IsArm code rest h.1)
]

-- Whatever a worker sends as an error, what the store-server makes of it has the code that was sent, if
-- a constructor is known for it, or else `internal`; and its message is at most 2000 characters, none
-- of them a control character, and of the white space only the space.
pub safe_error_from_dto-IsSafe :
    (dto : SafeErrorDto)
    → ((safe_error_from_dto dto).code
        ≡ (if is_known dto.code (known_errors dto.safe_message) then dto.code else "internal"))
      × IsSafe (safe_error_from_dto dto).safe_message
unfolding safe_error_from_dto
safe_error_from_dto-IsSafe dto =
    rebuilt_error-IsArm dto.code (known_errors dto.safe_message)
      (known_errors-IsArm dto.safe_message)
