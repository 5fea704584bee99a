-- ===== src/Worker/Login/Codes.antt =====
-- crates/fineco-worker/src/lib.rs: the errors of a login are such that the controller counts it.
use fineco_helper.Core.SafeError
use fineco_helper.Core.SafeError.{SafeError, from_upstream_status}
use fineco_helper.Base.{
  true, false, ok, err, Bool, Result, subst, not, ◌≡◌, ap, and_then, if◌then◌else◌, ◌&&◌, ℕ, none,
  some, refl, ◌==◌, ◌||◌, Option, Text, leb,
}
use fineco_helper.Worker.Errors.{market_login_error, login_body_signals_step_up}
use fineco_helper.Controller.Market.{
  should_preserve_market_session_after_error, should_record_assumed_fresh_login,
}
use fineco_helper.Worker.Login.{
  map_transport_error, TransportError, ensure_secure_transport, credential_from_parts, no_session,
  session_of, preflight, login, transported, LoginNet, Response, login_cookie_of, is_success,
}
use fineco_helper.Core.Validate.{invalid_request}
use fineco_helper.Core.Transport.{is_secure_or_loopback}

-- What the controller asks of an error that comes without a session.
abbrev pub assumes_login : SafeError → Bool
assumes_login e =
    not (should_preserve_market_session_after_error e) && should_record_assumed_fresh_login e

unfoldable pub IsCounted : SafeError → Type 0
IsCounted e = assumes_login (market_login_error e) ≡ true

error_or : {A : Type 0} → SafeError → Result SafeError A → SafeError
error_or d (ok a) = d
error_or d (err e) = e

Errs : {A : Type 0} → Result SafeError A → Type 0
Errs r = (e : SafeError) → r ≡ err e → IsCounted e

ok-Errs : {A : Type 0} (a : A) → Errs (ok a)
unfolding Errs
ok-Errs a e h = absurd cc

err-Errs : (A : Type 0) (e : SafeError) → IsCounted e → Errs {A = A} (err e)
unfolding Errs error_or
err-Errs A e h d p = subst IsCounted (ap (error_or e) p) h

and_then-Errs :
    {A B : Type 0} (r : Result SafeError A) (f : A → Result SafeError B)
    → Errs r
    → ((a : A) → Errs (f a))
    → Errs (and_then r f)
unfolding Errs error_or
and_then-Errs (ok a) f h k = k a
and_then-Errs (err e) f h k = λ d p. h d (ap err (ap (error_or e) p))

if-Errs :
    {A : Type 0} (b : Bool) (r s : Result SafeError A) → Errs r → Errs s → Errs (if b then r else s)
if-Errs true r s h k = h
if-Errs false r s h k = k

if-IsCounted :
    (b : Bool) (d e : SafeError) → IsCounted d → IsCounted e → IsCounted (if b then d else e)
if-IsCounted true d e h k = h
if-IsCounted false d e h k = k

from_upstream_status-IsCounted : (status : ℕ) → IsCounted (from_upstream_status status)
unfolding IsCounted from_upstream_status market_login_error
    should_preserve_market_session_after_error should_record_assumed_fresh_login
from_upstream_status-IsCounted status = if-IsCounted (status == 401 || status == 403) _ _ refl (
    if-IsCounted (status == 404) _ _ refl (
      if-IsCounted (status == 429) _ _ refl
        (if-IsCounted (leb 500 status && leb status 599) _ _ refl refl)))

map_transport_error-IsCounted : (e : TransportError) → IsCounted (map_transport_error e)
unfolding IsCounted map_transport_error market_login_error
    should_preserve_market_session_after_error should_record_assumed_fresh_login
map_transport_error-IsCounted TransportError.timeout = refl
map_transport_error-IsCounted (TransportError.status_code n) = from_upstream_status-IsCounted n
map_transport_error-IsCounted TransportError.failed = refl

transported-Errs : {A : Type 0} (r : Result TransportError A) → Errs (transported r)
transported-Errs (ok a) = ok-Errs a
transported-Errs {A} (err e) = err-Errs A (map_transport_error e) (map_transport_error-IsCounted e)

ensure_secure_transport-Errs :
    (ip : Text → Bool) (url : Text) → Errs (ensure_secure_transport ip url)
unfolding ensure_secure_transport IsCounted invalid_request market_login_error
    should_preserve_market_session_after_error should_record_assumed_fresh_login
ensure_secure_transport-Errs ip url =
    if-Errs (is_secure_or_loopback ip url) _ _ (ok-Errs tt) (err-Errs _ _ refl)

auth_required-IsCounted : IsCounted SafeError.auth_required
unfolding IsCounted market_login_error should_preserve_market_session_after_error
    should_record_assumed_fresh_login
auth_required-IsCounted = refl

credential_from_parts-Errs : (u p : Option Text) → Errs (credential_from_parts u p)
unfolding credential_from_parts
credential_from_parts-Errs none p = err-Errs _ _ auth_required-IsCounted
credential_from_parts-Errs (some u) none = err-Errs _ _ auth_required-IsCounted
credential_from_parts-Errs (some u) (some p) =
    if-Errs _ _ _ (ok-Errs _) (err-Errs _ _ auth_required-IsCounted)

no_session-IsCounted : (r : Result TransportError Text) → IsCounted (no_session r)
unfolding no_session IsCounted market_login_error should_preserve_market_session_after_error
    should_record_assumed_fresh_login
no_session-IsCounted (err e) = refl
no_session-IsCounted (ok body) = if-IsCounted (login_body_signals_step_up body) _ _ refl refl

session_of-Errs : (now : ℕ) (cookie : Text) (r : Response) → Errs (session_of now cookie r)
unfolding session_of
session_of-Errs now cookie r =
    if-Errs (not (is_success r.status)) _ _ (err-Errs _ _ (from_upstream_status-IsCounted r.status))
      (if-Errs _ _ _ (err-Errs _ _ (no_session-IsCounted r.body)) (ok-Errs _))

preflight-Errs : (net : LoginNet) → Errs (preflight net)
unfolding preflight
preflight-Errs net =
    and_then-Errs _ _ (ensure_secure_transport-Errs net.loopback_ip net.home_url)
      (λ _. and_then-Errs _ _ (transported-Errs net.home) (λ r. ok-Errs _))

pub login-IsCounted : (net : LoginNet) (e : SafeError) → login net ≡ err e → IsCounted e
unfolding login Errs
login-IsCounted net =
    and_then-Errs _ _ (ensure_secure_transport-Errs net.loopback_ip net.login_url) (λ _.
      and_then-Errs _ _ (preflight-Errs net) (λ p.
        and_then-Errs _ _ (credential_from_parts-Errs net.user_id net.password) (λ c.
          and_then-Errs _ _ (transported-Errs (net.posted (login_cookie_of net p) c))
            (session_of-Errs net.now_unix_secs (login_cookie_of net p)))))
