-- ===== src/Worker/Errors.antt =====
-- crates/fineco-worker/src/lib.rs: how failures of Fineco become safe errors, and the retries of a
-- market call. Text is a list of bytes. An operation is given which call of it this is.
use fineco_helper.Core.SafeError
use fineco_helper.Core.SafeError.{SafeError}
use fineco_helper.Base.{
  [], ◌∷◌, none, some, true, false, ok, err, zero, suc, ℕ, if◌then◌else◌, Bool, Text, List, Option,
  str_eq, ◌==◌, Result, ◌||◌, map, String, codes, ◌&&◌, leb, ◌-◌, to_lower,
}

-- `MARKET_RETRY_ATTEMPTS`
abbrev pub market_retry_attempts : ℕ
market_retry_attempts = 3

unfoldable pub market_login_error : SafeError → SafeError
market_login_error e =
    if str_eq e.code "auth_required"
    then SafeError.market_auth_required
    else if str_eq e.code "step_up_required"
    then SafeError.market_step_up_required
    else if str_eq e.code "rate_limited"
    then SafeError.market_rate_limited
    else if str_eq e.code "fineco_timeout"
    then SafeError.market_upstream_failure
    else if str_eq e.code "fineco_upstream_error" && e.retryable
    then SafeError.market_upstream_failure
    else if str_eq e.code "fineco_upstream_error"
    then SafeError.market_unexpected_response
    else if str_eq e.code "not_found"
    then SafeError.market_unexpected_response
    else e

unfoldable pub market_status_error : ℕ → SafeError
market_status_error status =
    if status == 401 || status == 403
    then SafeError.market_auth_required
    else if status == 429
    then SafeError.market_rate_limited
    else if leb 500 status && leb status 599
    then SafeError.market_upstream_failure
    else SafeError.market_unexpected_response

unfoldable pub is_market_retryable : SafeError → Bool
is_market_retryable e =
    (str_eq e.code "market_upstream_failure"
      || str_eq e.code "fineco_timeout"
      || str_eq e.code "fineco_upstream_error")
    && e.retryable

module _ {A : Type 0} (op : ℕ → Result SafeError A) where
  -- What comes back, and the calls made: `left` are the attempts after this one.
  unfoldable pub attempt_market : ℕ → ℕ → Result SafeError A → Result SafeError A × ℕ
  attempt_market left n (ok a) = (ok a, n)
  attempt_market zero n (err e) = (err (market_login_error e), n)
  attempt_market (suc left) n (err e) =
      let again = attempt_market left (suc n) (op n) in
      if is_market_retryable e then again else (err (market_login_error e), n)

  unfoldable pub with_market_retry : Result SafeError A × ℕ
  unfolding attempt_market
  with_market_retry = attempt_market (market_retry_attempts - 1) 1 (op 0)

-- `str::contains`
abbrev pub starts_with : Text → Text → Bool
starts_with s [] = true
starts_with [] (p ∷ ps) = false
starts_with (c ∷ cs) (p ∷ ps) = (c == p) && starts_with cs ps

abbrev pub contains_text : Text → Text → Bool
contains_text [] p = starts_with [] p
contains_text (c ∷ cs) p = starts_with (c ∷ cs) p || contains_text cs p

abbrev pub to_ascii_lowercase : Text → Text
to_ascii_lowercase s = map to_lower s

abbrev login_step_up_markers : List String
login_step_up_markers =
    "authorisationid" ∷ "availablemethods" ∷ "strong_auth" ∷ "strongauth" ∷ "step_up" ∷ "stepup"
    ∷ "sca_required" ∷ "scarequired" ∷ []

abbrev any_marker : List String → Text → Bool
any_marker [] lower = false
any_marker (m ∷ ms) lower = contains_text lower (codes m) || any_marker ms lower

unfoldable pub login_body_signals_step_up : Text → Bool
login_body_signals_step_up body = any_marker login_step_up_markers (to_ascii_lowercase body)

unfoldable pub read_body_signals_step_up : Text → Bool
read_body_signals_step_up body =
    contains_text (to_ascii_lowercase body) (codes "sca di sessione non valida")

-- The body is that of the response, if it can be read.
unfoldable pub read_status_error : Option Text → ℕ → (ℕ → SafeError) → SafeError
read_status_error none status map_status = map_status status
read_status_error (some body) status map_status =
    if status == 451 && read_body_signals_step_up body
    then SafeError.step_up_required
    else map_status status
