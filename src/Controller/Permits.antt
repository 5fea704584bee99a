-- ===== src/Controller/Permits.antt =====
-- crates/fineco-helper/src/controller.rs: no request keeps the permit of live operations: whatever it
-- answers, the next one can be admitted.
use fineco_helper.Core.SafeError
use fineco_helper.Core.SafeError.{SafeError}
use fineco_helper.Controller.Refresh.{
  Config, Controller, ControllerM, Fetchers, gate, under_permit, admitted, handle, on_store,
  begin_refresh_live_operation, check_policy, run_request,
}
use fineco_helper.Ipc.Refresh.{RefreshRequest, validate_refresh}
use fineco_helper.Ipc.Validate.{market_search_asset, market_get_asset_details, market_get_indices}
use fineco_helper.Base.{
  false, ok, err, none, some, true, inl, inr, refl, ◌≡◌, Result, continue, Bool, lift, Text, ◌>>=◌,
  ap, is_ok, Option, ◌∙◌, arith, Bool-cases, Option-cases, not, ◌&&◌, ◌>>◌, pure, fail,
  if◌then◌else◌, map_ok, ℕ, ok_or,
}
use fineco_helper.Controller.Login.{
  finish, admit_refresh_operation, admit_budget, admit_at, admit_market_operation, finish_market,
  LiveLoginState, reuse_eligible, in_cooldown,
}
use fineco_helper.Controller.Market.{
  finish_with_error, settle, finish_with_session_status, finish_login, record_market_outcome,
  finish_after_error, should_preserve_market_session_after_error, MarketLiveError, logged_in,
  error_of, read_market, market_gate, handle_market_control, begin_market_live_operation,
  MarketFetchers,
}
use fineco_helper.Base.Int.{ℤ}
use fineco_helper.Ipc.Market.{MarketSessionStatus}
use fineco_helper.Core.Clock.{parse_iso8601_utc}
use fineco_helper.Controller.Circuit.{record_outcome, check_closed}
use fineco_helper.Ipc.Details.{MarketAssetDetailsResult}
use fineco_helper.Ipc.Validate.{MarketControlRequest, market_capability, validate_market}
use fineco_helper.Ipc.Capability.{allows, owner_auth_id}

abbrev pub IsIdle : Controller → Type 0
IsIdle c = c.live_login_state.in_flight ≡ false

module _ {A : Type 0} where
  -- What a chain of checks keeps, and what the rest leaves.
  checked-IsIdle :
      {B : Type 0} (r : Result SafeError A) (f : A → ControllerM B) (c : Controller)
      → IsIdle c
      → ((a : A) → IsIdle (f a c).1)
      → IsIdle (continue r f c).1
  checked-IsIdle (ok a) f c h k = k a
  checked-IsIdle (err e) f c h k = h

  lift-login :
      {B : Type 0} (r : Result SafeError B) (m : B → ControllerM A) (c : Controller)
      → ((b : B) → (m b c).1.live_login_state ≡ c.live_login_state)
      → ((lift r >>= m) c).1.live_login_state ≡ c.live_login_state
  lift-login (ok b) m c h = h b
  lift-login (err e) m c h = refl

gate-login :
    (config : Config) (request : RefreshRequest) (now_iso : Text) (c : Controller)
    → (gate config request now_iso c).1.live_login_state ≡ c.live_login_state
unfolding gate on_store
gate-login config request now_iso c =
    lift-login (check_policy config.policy request) _ c
      (λ _. lift-login (validate_refresh request) _ c (λ _. refl))

admit_refresh-IsIdle :
    (s : LiveLoginState) → s.in_flight ≡ false → (admit_refresh_operation s).0 ≡ ok tt
unfolding admit_refresh_operation
admit_refresh-IsIdle s h = rw h refl

under_permit-IsIdle :
    {A : Type 0} (r : Result SafeError (Unit {0})) (m : ControllerM A) (c : Controller)
    → r ≡ ok tt
    → IsIdle (continue r (λ _. under_permit m) c).1
unfolding under_permit finish
under_permit-IsIdle (ok u) m c h = refl
under_permit-IsIdle (err e) m c h = absurd cc

admitted-IsIdle :
    (f : Fetchers) (request : RefreshRequest) (now_iso : Text) (c : Controller)
    → IsIdle c
    → IsIdle (admitted f request now_iso c).1
unfolding admitted begin_refresh_live_operation
admitted-IsIdle f request now_iso c h =
    let (r, l) = admit_refresh_operation c.live_login_state in
    under_permit-IsIdle r (on_store (run_request f request now_iso))
      (record c { live_login_state = l }) (admit_refresh-IsIdle c.live_login_state h)

-- A refresh request that arrives while no live operation is in flight leaves none in flight, on every
-- branch: denied, refused by the gate, failed or done.
pub handle-IsIdle :
    (config : Config) (f : Fetchers) (request : RefreshRequest) (now_iso : Text) (c : Controller)
    → IsIdle c
    → IsIdle (handle config f request now_iso c).1
unfolding handle
handle-IsIdle config f request now_iso c h =
    let (r, c1) = gate config request now_iso c in
    let idle : IsIdle c1 = ap (λ l. l.in_flight) (gate-login config request now_iso c) ∙ h in
    checked-IsIdle r (λ _. admitted f request now_iso) c1 idle
      (λ _. admitted-IsIdle f request now_iso c1 idle)

admit_budget-IsIdle :
    (now : ℤ) (reuse : Bool) (s : LiveLoginState)
    → s.in_flight ≡ false
    → (admit_budget now reuse s).1.in_flight ≡ is_ok (admit_budget now reuse s).0
unfolding admit_budget
admit_budget-IsIdle now reuse s h = ground (arith, h)

-- An answer with a state that is in flight exactly when the answer is an admission.
abbrev IsTrue : Result SafeError Bool × LiveLoginState → Type 0
IsTrue p = p.1.in_flight ≡ is_ok p.0

if-IsTrue :
    (b : Bool) (p q : Result SafeError Bool × LiveLoginState)
    → (b ≡ false → IsTrue p)
    → IsTrue q
    → IsTrue (if b then q else p)
if-IsTrue true p q h k = k
if-IsTrue false p q h k = h refl

admit_at-IsIdle : (now : ℤ) (s : LiveLoginState) → s.in_flight ≡ false → IsTrue (admit_at now s)
unfolding admit_at
admit_at-IsIdle now s h =
    if-IsTrue s.in_flight _ (err SafeError.market_rate_limited, s)
      (λ _.
        if-IsTrue
          (not (reuse_eligible now s.market_session_valid_until)
            && in_cooldown now s.last_login_epoch)
          _ (err SafeError.market_rate_limited, s) (λ _. admit_budget-IsIdle now _ s h) h)
      h

admit_market-IsIdle :
    (now_iso : Text) (s : LiveLoginState)
    → s.in_flight ≡ false
    → IsTrue (admit_market_operation now_iso s)
unfolding admit_market_operation
admit_market-IsIdle now_iso s h = elim (Option-cases (parse_iso8601_utc now_iso)) [
  | inl unread ↦ rw (admit_market_operation, unread) h
  | inr (now, e) ↦ rw (admit_market_operation, e) (admit_at-IsIdle now s h)
]

finish_market-IsIdle :
    (a b : Bool) (now : ℤ) (s : LiveLoginState) → (finish_market a b now s).in_flight ≡ false
unfolding finish_market
finish_market-IsIdle a b now s = refl

finish_with_error-IsIdle :
    (e : SafeError) (o : Option MarketSessionStatus) (now : ℤ) (s : LiveLoginState)
    → (finish_with_error e o now s).in_flight ≡ false
unfolding finish_with_error finish_with_session_status finish_market
finish_with_error-IsIdle e none now s = refl
finish_with_error-IsIdle e (some session) now s =
    elim (Bool-cases (should_preserve_market_session_after_error e)) [
      | inl p ↦ rw p refl
      | inr d ↦ rw d refl
    ]

-- What comes after the permit is finished does not take it again.
settled-IsIdle :
    {A : Type 0} (r : Result SafeError (Unit {0})) (m : ControllerM A) (c : Controller)
    → IsIdle c
    → ((d : Controller) → IsIdle d → IsIdle (m d).1)
    → IsIdle (continue r (λ _. m) c).1
settled-IsIdle (ok u) m c h k = k c h
settled-IsIdle (err e) m c h k = h

settle-IsIdle :
    {L A : Type 0} (now_iso : Text) (now : ℤ) (session : L → MarketSessionStatus)
    (check : L → Result SafeError (Unit {0})) (outcome : L → A) (answer : Result MarketLiveError L)
    (c : Controller)
    → IsIdle (settle now_iso now session check outcome answer c).1
unfolding settle finish_login record_market_outcome finish_with_session_status finish_after_error
settle-IsIdle now_iso now session check outcome (ok live) c =
    let idle = finish_market-IsIdle (logged_in (session live)) true now c.live_login_state in
    let (r, m) = record_outcome now_iso (error_of (check live)) c.market_circuit_state in
    settled-IsIdle r (lift (check live) >> pure (outcome live)) _ idle
      (λ d h. settled-IsIdle (check live) (pure (outcome live)) d h (λ e k. k))
settle-IsIdle now_iso now session check outcome (err e) c =
    let (r, m) = record_outcome now_iso (some e.error) c.market_circuit_state in
    settled-IsIdle r (fail e.error) _
      (finish_with_error-IsIdle e.error e.session now c.live_login_state) (λ d h. h)

read_market-IsIdle :
    {Json : Type 0} (encoded : MarketAssetDetailsResult Json → Option ℕ) (f : MarketFetchers Json)
    (request : MarketControlRequest) (now_iso : Text) (now : ℤ) (c : Controller)
    → IsIdle (read_market encoded f request now_iso now c).1
unfolding read_market
read_market-IsIdle encoded f (market_search_asset p) now_iso now c =
    settle-IsIdle now_iso now _ _ _ (f.fetch_market_search p now_iso) c
read_market-IsIdle encoded f (market_get_asset_details p) now_iso now c =
    settle-IsIdle now_iso now _ _ _ (f.fetch_market_asset_details p now_iso) c
read_market-IsIdle encoded f (market_get_indices p) now_iso now c =
    settle-IsIdle now_iso now _ _ _ (f.fetch_market_indices p now_iso) c

market_gate-state :
    (config : Config) (request : MarketControlRequest) (now_iso : Text) (c : Controller)
    → (market_gate config request now_iso c).1.live_login_state ≡ c.live_login_state
unfolding market_gate
market_gate-state config request now_iso c =
    elim (Bool-cases (not (allows config.policy owner_auth_id (market_capability request)))) [
      | inl denied ↦ rw denied refl
      | inr granted ↦ rw granted (
          lift-login (validate_market request) _ c (λ _.
            lift-login (ok_or (parse_iso8601_utc now_iso) SafeError.internal) _ c
              (λ now. lift-login (check_closed now_iso c.market_circuit_state) _ c (λ _. refl))))
    ]

begun-IsIdle :
    {A : Type 0} (p : Result SafeError Bool × LiveLoginState) (rest : ControllerM A)
    (c : Controller)
    → IsTrue p
    → ((d : Controller) → IsIdle (rest d).1)
    → IsIdle (continue (map_ok (λ _. tt) p.0) (λ _. rest) (record c { live_login_state = p.1 })).1
begun-IsIdle (ok b, l) rest c h k = k (record c { live_login_state = l })
begun-IsIdle (err e, l) rest c h k = h

-- A market read that arrives while no live operation is in flight leaves none in flight, on every
-- branch.
pub handle_market_control-IsIdle :
    {Json : Type 0} (encoded : MarketAssetDetailsResult Json → Option ℕ) (config : Config)
    (f : MarketFetchers Json) (request : MarketControlRequest) (now_iso : Text) (c : Controller)
    → IsIdle c
    → IsIdle (handle_market_control encoded config f request now_iso c).1
unfolding handle_market_control begin_market_live_operation
handle_market_control-IsIdle encoded config f request now_iso c h =
    let (r, c1) = market_gate config request now_iso c in
    let idle : IsIdle c1 = ap (λ l. l.in_flight) (market_gate-state config request now_iso c) ∙ h in
    checked-IsIdle r _ c1 idle (λ now.
      begun-IsIdle (admit_market_operation now_iso c1.live_login_state)
        (read_market encoded f request now_iso now) c1
        (admit_market-IsIdle now_iso c1.live_login_state idle)
        (λ d. read_market-IsIdle encoded f request now_iso now d))
