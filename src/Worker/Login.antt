-- ===== src/Worker/Login.antt =====
-- crates/fineco-worker/src/lib.rs and src/credentials.rs: logging in. What the network and the host
-- give to one login is a record; the JSON of the credential is left out, as it cannot fail.
pub mod Codes
use fineco_helper.Core.SafeError
use fineco_helper.Core.SafeError.{SafeError, from_upstream_status}
use fineco_helper.Core.Transport.{is_secure_or_loopback}
use fineco_helper.Base.{
  [], ◌∷◌, none, some, true, false, ok, err, Text, Option, ℕ, Result, Bool, if◌then◌else◌, List,
  and_then, ◌&&◌, leb, not, ltb,
}
use fineco_helper.Core.Validate.{invalid_request}
use fineco_helper.Worker.Cookies.{cookie_header_from, merge_cookies}
use fineco_helper.Worker.Errors.{login_body_signals_step_up}
use fineco_helper.Worker.Expiry.{session_expires_in_secs_from}

pub record FinecoCredential : Type 0 where
  pub user_id : Text
  pub password : Text

abbrev non_empty : Text → Bool
non_empty [] = false
non_empty (c ∷ cs) = true

unfoldable pub credential_from_parts : Option Text → Option Text → Result SafeError FinecoCredential
credential_from_parts none password = err SafeError.auth_required
credential_from_parts (some user_id) none = err SafeError.auth_required
credential_from_parts (some user_id) (some password) =
    if non_empty user_id && non_empty password
    then ok (record { user_id = user_id; password = password })
    else err SafeError.auth_required

-- `ureq::Error`
pub data TransportError : Type 0 where
  timeout : TransportError
  status_code : ℕ → TransportError
  failed : TransportError

unfoldable pub map_transport_error : TransportError → SafeError
map_transport_error timeout = SafeError.fineco_timeout
map_transport_error (status_code code) = from_upstream_status code
map_transport_error failed = SafeError.internal

-- The `Set-Cookie` values that are text, and the body, if it can be read within its limit.
pub record Response : Type 0 where
  pub status : ℕ
  pub set_cookies : List Text
  pub body : Result TransportError Text

pub record FinecoSession : Type 0 where
  pub cookie : Text
  pub expires_in_secs : Option ℕ

-- What a login meets: the two answers (the second to the cookie and the credential that are sent),
-- the environment's credential, the minted cookies and the clock.
pub record LoginNet : Type 0 where
  pub loopback_ip : Text → Bool
  pub home_url : Text
  pub login_url : Text
  pub home : Result TransportError Response
  pub posted : Text → FinecoCredential → Result TransportError Response
  pub user_id : Option Text
  pub password : Option Text
  pub synthetic_public_cookies : Text
  pub now_unix_secs : ℕ

unfoldable pub ensure_secure_transport : (Text → Bool) → Text → Result SafeError (Unit {0})
ensure_secure_transport loopback_ip url =
    if is_secure_or_loopback loopback_ip url
    then ok tt
    else err (invalid_request "Fineco endpoint must use https.")

abbrev pub transported : {A : Type 0} → Result TransportError A → Result SafeError A
transported (ok a) = ok a
transported (err e) = err (map_transport_error e)

unfoldable pub preflight : LoginNet → Result SafeError Text
preflight net = and_then (ensure_secure_transport net.loopback_ip net.home_url) (λ _.
    and_then (transported net.home) (λ response. ok (cookie_header_from response.set_cookies)))

abbrev pub login_cookie_of : LoginNet → Text → Text
login_cookie_of net preflight_cookie =
    if non_empty preflight_cookie then preflight_cookie else net.synthetic_public_cookies

-- An answer without a session cookie.
unfoldable pub no_session : Result TransportError Text → SafeError
no_session (err e) = SafeError.auth_required
no_session (ok body) =
    if login_body_signals_step_up body then SafeError.step_up_required else SafeError.auth_required

abbrev pub is_success : ℕ → Bool
is_success status = leb 200 status && ltb status 300

unfoldable pub session_of : ℕ → Text → Response → Result SafeError FinecoSession
session_of now login_cookie response =
    if not (is_success response.status)
    then err (from_upstream_status response.status)
    else if not (non_empty (cookie_header_from response.set_cookies))
    then err (no_session response.body)
    else ok (record {
      cookie = merge_cookies login_cookie (cookie_header_from response.set_cookies);
      expires_in_secs = session_expires_in_secs_from now response.set_cookies;
    })

unfoldable pub login : LoginNet → Result SafeError FinecoSession
login net = and_then (ensure_secure_transport net.loopback_ip net.login_url) (λ _.
    and_then (preflight net) (λ preflight_cookie.
      and_then (credential_from_parts net.user_id net.password) (λ credential.
        and_then (transported (net.posted (login_cookie_of net preflight_cookie) credential))
          (session_of net.now_unix_secs (login_cookie_of net preflight_cookie)))))
