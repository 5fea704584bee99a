-- ===== src/Worker/Fetch/Fresh.antt =====
-- crates/fineco-worker/src/lib.rs: what a private read does to the worker's session.
use fineco_helper.Base.{
  none, true, Text, Bool, String, map_ok, Option, is_ok, ◌+◌, ℕ, Result, ◌>>=◌, lift, ◌≡◌, ok, err,
  refl, continue, pure, if◌then◌else◌,
}
use fineco_helper.Worker.Session.{WorkerM, WorkerState, World, refresh_login}
use fineco_helper.Worker.Fetch.{
  Network, fetch_portfolio, fetch_raw_orders, fetch_tax_carry_forward, fetch_tax_minus_by_year,
  fetch_raw_movements,
}
use fineco_helper.Core.Validate.{
  validate_order_request, validate_tax_range, validate_movements_range,
}
use fineco_helper.Worker.Login.{FinecoSession, login}
use fineco_helper.Core.SafeError.{SafeError}

-- A read that starts with a login of its own.
pub data PrivateRead : Type 0 where
  portfolio : Text → PrivateRead
  orders : String → ℕ → PrivateRead
  tax_carry_forward : Text → Text → PrivateRead
  tax_minus_by_year : PrivateRead
  movements : Text → Text → PrivateRead

abbrev pub answered : {A : Type 0} → WorkerM A → WorkerM (Unit {0})
answered m w = let (r, w') = m w in (map_ok (λ _. tt) r, w')

module _ (net : Network) {T : Type 0} (world : World T) (ttl : Option ℕ) where
  abbrev pub run_private_read : PrivateRead → WorkerM (Unit {0})
  run_private_read (portfolio now_iso) = answered (fetch_portfolio net world ttl now_iso)
  run_private_read (orders kind days) = answered (fetch_raw_orders net world ttl kind days)
  run_private_read (tax_carry_forward date_from date_to) =
      answered (fetch_tax_carry_forward net world ttl date_from date_to)
  run_private_read tax_minus_by_year = answered (fetch_tax_minus_by_year net world ttl)
  run_private_read (movements date_from date_to) =
      answered (fetch_raw_movements net world ttl date_from date_to)

abbrev pub valid_read : PrivateRead → Bool
valid_read (portfolio now_iso) = true
valid_read (orders kind days) = is_ok (validate_order_request kind days)
valid_read (tax_carry_forward date_from date_to) = is_ok (validate_tax_range date_from date_to)
valid_read tax_minus_by_year = true
valid_read (movements date_from date_to) = is_ok (validate_movements_range date_from date_to)

-- One login more, and no market session.
abbrev pub logged_in_once : WorkerState → WorkerState
logged_in_once w = record w { logins = w.logins + 1; market_session = none }

module _ {E A : Type 0} where
  keeps :
      (r : Result SafeError A) (f : A → WorkerM E) (w : WorkerState)
      → ((a : A) → (f a w).1 ≡ w)
      → (continue r f w).1 ≡ w
  keeps (ok a) f w h = h a
  keeps (err e) f w h = refl

-- A read and its parsing change nothing.
lifted :
    {A B : Type 0} (r : Result SafeError A) (g : A → B) (w : WorkerState)
    → ((lift r >>= λ a. pure (g a)) w).1 ≡ w
lifted (ok a) g w = refl
lifted (err e) g w = refl

module _ {T : Type 0} (world : World T) (ttl : Option ℕ) where
  login_first :
      {A B : Type 0} (read : FinecoSession → Result SafeError A) (g : FinecoSession → A → B)
      (w : WorkerState)
      → ((refresh_login world ttl >>= λ session. lift (read session) >>= λ a. pure (g session a))
          w).1
        ≡ logged_in_once w
  unfolding refresh_login
  login_first read g w =
      keeps (login (world.login_net w.logins))
        (λ session. lift (read session) >>= λ a. pure (g session a)) (logged_in_once w)
        (λ session. lifted (read session) (g session) (logged_in_once w))

  -- The same behind a check.
  checked :
      {A : Type 0} (check : Result SafeError (Unit {0})) (m : WorkerM A) (w : WorkerState)
      → (m w).1 ≡ logged_in_once w
      → ((lift check >>= λ _. m) w).1 ≡ (if is_ok check then logged_in_once w else w)
  checked (ok _) m w h = h
  checked (err e) m w h = refl

module _ (net : Network) {T : Type 0} (world : World T) (ttl : Option ℕ) where
  -- A private read of a refresh logs in exactly once, and no market session is held after it, whatever
  -- the network answers; one whose request is invalid logs in not at all and changes nothing.
  pub run_private_read_fresh :
      (read : PrivateRead) (w : WorkerState)
      → (run_private_read net world ttl read w).1
        ≡ (if valid_read read then logged_in_once w else w)
  unfolding fetch_portfolio fetch_raw_orders fetch_tax_carry_forward fetch_tax_minus_by_year
      fetch_raw_movements
  run_private_read_fresh (portfolio now_iso) w = login_first world ttl _ _ w
  run_private_read_fresh (orders kind days) w =
      checked world ttl (validate_order_request kind days) _ w (login_first world ttl _ _ w)
  run_private_read_fresh (tax_carry_forward date_from date_to) w =
      checked world ttl (validate_tax_range date_from date_to) _ w (login_first world ttl _ _ w)
  run_private_read_fresh tax_minus_by_year w = login_first world ttl _ _ w
  run_private_read_fresh (movements date_from date_to) w =
      checked world ttl (validate_movements_range date_from date_to) _ w
        (login_first world ttl _ _ w)
