-- ===== src/Worker/Session.antt =====
-- crates/fineco-worker/src/lib.rs: the market session that the worker holds between reads. Logins and
-- reads are numbered: the n-th meets what `world` says, and the reaper may run during a read.
pub mod Tally
pub mod Count
pub mod Held
use fineco_helper.Core.SafeError
use fineco_helper.Core.SafeError.{SafeError}
use fineco_helper.Base.Int.{i64_max, ℤ, saturating_add, leb_ℤ, clamp_i64, ltb_ℤ, pos}
use fineco_helper.Base.{
  none, some, true, false, ok, err, Text, Option, Exec, Result, ℕ, Bool, if◌then◌else◌, str_eq,
  ◌>>=◌, pure, ◌+◌, ◌>>◌, is_some, fail, not, lift, ok_or,
}
use fineco_helper.Controller.Market.{MarketLiveError, should_preserve_market_session_after_error}
use fineco_helper.Ipc.Market.{MarketSessionStatus}
use fineco_helper.Worker.Errors.{market_login_error}
use fineco_helper.Worker.Login.{LoginNet, FinecoSession, login}
use fineco_helper.Core.Clock.{parse_iso8601_utc}

pub record HeldMarketSession : Type 0 where
  pub cookie : Text
  pub expires_in_secs : Option ℕ
  pub valid_until_epoch : ℤ

-- The worker's session, and how often it has logged in and read.
pub record WorkerState : Type 0 where
  pub market_session : Option HeldMarketSession
  pub logins : ℕ
  pub reads : ℕ

pub record AcquiredMarketSession : Type 0 where
  pub cookie : Text
  pub expires_in_secs : Option ℕ
  pub reused : Bool

abbrev pub WorkerM : Type 0 → Type 0
WorkerM A = Exec WorkerState SafeError A

abbrev pub LiveM : Type 0 → Type 0
LiveM A = Exec WorkerState MarketLiveError A

-- `MarketLiveError::from`
abbrev pub no_status : SafeError → MarketLiveError
no_status e = record { error = e; session = none }

abbrev pub live_result : {A : Type 0} → Result SafeError A → Result MarketLiveError A
live_result (ok a) = ok a
live_result (err e) = err (no_status e)

-- `.map_err(MarketLiveError::from)`
abbrev pub live : {A : Type 0} → WorkerM A → LiveM A
live m w = let (r, w') = m w in (live_result r, w')

abbrev pub market_error : {A : Type 0} → Result SafeError A → Result SafeError A
market_error (ok a) = ok a
market_error (err e) = err (market_login_error e)

unfoldable pub reap_expired_market_session : ℤ → Option HeldMarketSession → Option HeldMarketSession
reap_expired_market_session now none = none
reap_expired_market_session now (some held) =
    if leb_ℤ held.valid_until_epoch now then none else some held

-- What an n-th read answers on a cookie, and the time at which the reaper runs in it, if it does.
pub record World (T : Type 0) : Type 0 where
  pub login_net : ℕ → LoginNet
  pub answer : ℕ → Text → Result SafeError T
  pub reaped_at : ℕ → Option ℤ

abbrev pub fresh_status : Option ℕ → MarketSessionStatus
fresh_status expires = record {
  login_performed = true;
  session_reused = false;
  session_evicted = false;
  reused_session_401_recovered = false;
  session_expires_in_secs = expires;
}

abbrev pub reused_status : Option ℕ → MarketSessionStatus
reused_status expires = record {
  login_performed = false;
  session_reused = true;
  session_evicted = false;
  reused_session_401_recovered = false;
  session_expires_in_secs = expires;
}

abbrev pub recovered_status : Option ℕ → MarketSessionStatus
recovered_status expires = record {
  login_performed = true;
  session_reused = false;
  session_evicted = true;
  reused_session_401_recovered = true;
  session_expires_in_secs = expires;
}

abbrev pub status_of : AcquiredMarketSession → MarketSessionStatus
status_of a = if a.reused then reused_status a.expires_in_secs else fresh_status a.expires_in_secs

-- A change of the state that cannot fail.
abbrev pub change : {E : Type 0} → (WorkerState → WorkerState) → Exec WorkerState E (Unit {0})
change f w = (ok tt, f w)

unfoldable pub evict_market_session : WorkerState → WorkerState
evict_market_session w = record w { market_session = none }

abbrev pub hold_until : Option ℕ → Text → Option ℕ → ℤ → WorkerState → WorkerState
hold_until none cookie expires now w = w
hold_until (some ttl) cookie expires now w = record w {
  market_session = some (record {
    cookie = cookie;
    expires_in_secs = expires;
    valid_until_epoch = saturating_add now (clamp_i64 (pos ttl));
  });
}

-- The held session, while its window lasts.
abbrev pub reusable : ℤ → Option HeldMarketSession → Option HeldMarketSession
reusable now none = none
reusable now (some held) = if ltb_ℤ now held.valid_until_epoch then some held else none

abbrev reap_at : Option ℤ → Option HeldMarketSession → Option HeldMarketSession
reap_at none held = held
reap_at (some now) held = reap_expired_market_session now held

abbrev pub acquired_of : FinecoSession → AcquiredMarketSession
acquired_of fresh = record {
  cookie = fresh.cookie;
  expires_in_secs = fresh.expires_in_secs;
  reused = false;
}

abbrev pub is_auth_error : SafeError → Bool
is_auth_error e = str_eq e.code "market_auth_required"

module _ {T : Type 0} (world : World T) (reuse_ttl_secs : Option ℕ) where
  unfoldable pub store_market_session_parts : AcquiredMarketSession → ℤ → WorkerState → WorkerState
  store_market_session_parts a now w = hold_until reuse_ttl_secs a.cookie a.expires_in_secs now w

  -- `self.login().map_err(market_login_error)`
  unfoldable pub login_now : WorkerM FinecoSession
  login_now w =
      (market_error (login (world.login_net w.logins)), record w { logins = w.logins + 1 })

  -- A fresh session, held when reuse is enabled.
  unfoldable pub login_and_hold : ℤ → WorkerM AcquiredMarketSession
  login_and_hold now = do
    fresh ← login_now
    change (store_market_session_parts (acquired_of fresh) now)
    pure (acquired_of fresh)

  unfoldable pub acquire_from : ℤ → Option HeldMarketSession → WorkerM AcquiredMarketSession
  acquire_from now (some held) =
      pure (record { cookie = held.cookie; expires_in_secs = held.expires_in_secs; reused = true })
  acquire_from now none = do change evict_market_session; login_and_hold now

  unfoldable pub acquire_market_session : ℤ → WorkerM AcquiredMarketSession
  acquire_market_session now w =
      (if is_some reuse_ttl_secs
          then acquire_from now (reusable now w.market_session)
          else login_and_hold now)
        w

  -- `read`, in which the reaper may run.
  unfoldable pub read_market : Text → LiveM (Result SafeError T)
  read_market cookie w = (
    ok (world.answer w.reads cookie),
    record w {
      reads = w.reads + 1;
      market_session = reap_at (world.reaped_at w.reads) w.market_session;
    },
  )

  unfoldable pub after_retry :
      ℤ → AcquiredMarketSession → Result SafeError T → LiveM (T × MarketSessionStatus)
  after_retry now fresh (ok value) = do
    change (store_market_session_parts fresh now)
    pure (value, recovered_status fresh.expires_in_secs)
  after_retry now fresh (err e) = do
    change (λ w. if is_auth_error e then evict_market_session w else w)
    fail (record { error = e; session = some (recovered_status fresh.expires_in_secs) })

  -- The one fresh login after a reused session was refused.
  unfoldable pub relogin : ℤ → LiveM (T × MarketSessionStatus)
  relogin now = do
    fresh ← live (login_and_hold now)
    again ← read_market fresh.cookie
    after_retry now fresh again

  unfoldable pub recover : ℤ → AcquiredMarketSession → SafeError → LiveM (T × MarketSessionStatus)
  recover now a e =
      change evict_market_session >> (if not a.reused then fail (no_status e) else relogin now)

  unfoldable pub keep_after :
      ℤ → AcquiredMarketSession → SafeError → LiveM (T × MarketSessionStatus)
  keep_after now a e = do
    change (λ w.
        if should_preserve_market_session_after_error e
        then store_market_session_parts a now w
        else w)
    fail (record { error = e; session = some (status_of a) })

  unfoldable pub after_read :
      ℤ → AcquiredMarketSession → Result SafeError T → LiveM (T × MarketSessionStatus)
  after_read now a (ok value) = do
    change (store_market_session_parts a now)
    pure (value, status_of a)
  after_read now a (err e) = if is_auth_error e then recover now a e else keep_after now a e

  unfoldable pub run_market_read : Text → LiveM (T × MarketSessionStatus)
  run_market_read now_iso = do
    now ← live (lift (ok_or (parse_iso8601_utc now_iso) SafeError.internal))
    a ← live (acquire_market_session now)
    answered ← read_market a.cookie
    after_read now a answered

  -- A login for a refresh, after which no market session is held.
  unfoldable pub refresh_login : WorkerM FinecoSession
  refresh_login w =
      (login (world.login_net w.logins), record w { logins = w.logins + 1; market_session = none })
