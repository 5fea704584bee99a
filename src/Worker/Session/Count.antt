-- ===== src/Worker/Session/Count.antt =====
-- crates/fineco-worker/src/lib.rs and crates/fineco-helper/src/controller.rs: the controller records every
-- login that a market read of the worker performs.

use fineco_helper.Core.SafeError.{SafeError}
use fineco_helper.Worker.Session.Tally.{settled, bit, tally, tally_err, tally-le, settled-attempts}
use fineco_helper.Worker.Session.{
  WorkerState, World, AcquiredMarketSession, hold_until, after_retry, LiveM,
  store_market_session_parts, evict_market_session, is_auth_error, relogin, login_and_hold,
  login_now, change, read_market, acquired_of, live, status_of, keep_after, recover, after_read,
  recovered_status, no_status, acquire_from, acquire_market_session, run_market_read,
  HeldMarketSession, reusable,
}
use fineco_helper.Base.{
  none, some, true, false, ok, err, refl, Result, Bool, Option, ℕ, ◌≤◌, arith, Text, ◌≡◌, length,
  ◌+◌, inl, inr, Bool-cases, if◌then◌else◌, ◌>>◌, ◌>>=◌, ap, pure, fail, not, str_eq, is_some, ◌||◌,
  ◌&&◌, eq_iff,
}
use fineco_helper.Controller.Login.{LiveLoginState}
use fineco_helper.Controller.Market.{
  logged_in, should_preserve_market_session_after_error, should_record_assumed_fresh_login,
}
use fineco_helper.Ipc.Market.{MarketSessionStatus}
use fineco_helper.Base.Int.{ℤ}
use fineco_helper.Worker.Login.Codes.{IsCounted, login-IsCounted}
use fineco_helper.Worker.Login.{FinecoSession, login}
use fineco_helper.Worker.Errors.{market_login_error}
use fineco_helper.Core.Clock.{parse_iso8601_utc}

hold_until-logins :
    (ttl : Option ℕ) (c : Text) (e : Option ℕ) (now : ℤ) (w : WorkerState)
    → (hold_until ttl c e now w).logins ≡ w.logins
hold_until-logins none c e now w = refl
hold_until-logins (some ttl) c e now w = refl

-- After `n` logins of a read, the rest performs those that its answer makes the controller record.
record Counts {T : Type 0} (n : ℕ) (m : LiveM (T × MarketSessionStatus)) : Type 0 where
  total : (w : WorkerState) → (m w).1.logins + n ≤ w.logins + tally (m w).0

evict_if-logins :
    (b : Bool) (w : WorkerState) → (if b then evict_market_session w else w).logins ≡ w.logins
unfolding evict_market_session
evict_if-logins true w = refl
evict_if-logins false w = refl

module _ {T : Type 0} (world : World T) (ttl : Option ℕ) where
  store-logins :
      (a : AcquiredMarketSession) (now : ℤ) (w : WorkerState)
      → (store_market_session_parts world ttl a now w).logins ≡ w.logins
  unfolding store_market_session_parts
  store-logins a now w = hold_until-logins ttl a.cookie a.expires_in_secs now w

  change-Counts :
      (n : ℕ) (g : WorkerState → WorkerState) (m : LiveM (T × MarketSessionStatus))
      → ((w : WorkerState) → (g w).logins ≡ w.logins)
      → Counts n m
      → Counts n (change g >> m)
  change-Counts n g m same k = record { total = λ w. omega (arith, k.total (g w), same w) }

  read-Counts :
      (n : ℕ) (cookie : Text) (f : Result SafeError T → LiveM (T × MarketSessionStatus))
      → ((r : Result SafeError T) → Counts n (f r))
      → Counts n (read_market world ttl cookie >>= f)
  unfolding read_market
  read-Counts n cookie f k = record {
    total = λ w. (k (world.answer w.reads cookie)).total (read_market world ttl cookie w).1;
  }

  after_retry-Counts :
      (now : ℤ) (fresh : AcquiredMarketSession) (r : Result SafeError T)
      → Counts 1 (after_retry world ttl now fresh r)
  unfolding after_retry evict_market_session
  after_retry-Counts now fresh (ok v) =
      change-Counts 1 (store_market_session_parts world ttl fresh now)
        (pure (v, recovered_status fresh.expires_in_secs)) (store-logins fresh now)
        (record { total = λ w. omega arith })
  after_retry-Counts now fresh (err e) =
      change-Counts 1 (λ w. if is_auth_error e then evict_market_session w else w)
        (fail (record { error = e; session = some (recovered_status fresh.expires_in_secs) }))
        (evict_if-logins (is_auth_error e)) (record { total = λ w. omega arith })

  login_error-tally :
      (n : ℕ) (e : SafeError)
      → login (world.login_net n) ≡ err e
      → tally_err (market_login_error e) none ≡ 1
  unfolding IsCounted
  login_error-tally n e h = ap bit (login-IsCounted (world.login_net n) e h)

  -- A login and what follows it.
  login-Counts :
      (now : ℤ) (f : AcquiredMarketSession → LiveM (T × MarketSessionStatus))
      → ((fresh : FinecoSession) → Counts 1 (f (acquired_of fresh)))
      → (w : WorkerState) (r : Result SafeError FinecoSession)
      → login (world.login_net w.logins) ≡ r
      → ((live (login_and_hold world ttl now) >>= f) w).1.logins
        ≤ w.logins + tally ((live (login_and_hold world ttl now) >>= f) w).0
  unfolding login_and_hold login_now
  login-Counts now f k w (err e) h = rw h (omega (arith, login_error-tally w.logins e h))
  login-Counts now f k w (ok s) h =
      let w1 : WorkerState = record w { logins = w.logins + 1 } in
      rw h (
        omega (
          arith,
          (k s).total (store_market_session_parts world ttl (acquired_of s) now w1),
          store-logins (acquired_of s) now w1,
        ))

  relogin-Counts : (now : ℤ) → Counts 0 (relogin world ttl now)
  unfolding relogin
  relogin-Counts now = record {
    total = λ w. omega (
      arith,
      login-Counts now
          (λ fresh. read_market world ttl fresh.cookie >>= after_retry world ttl now fresh)
          (λ s. read-Counts 1 s.cookie _ (after_retry-Counts now (acquired_of s))) w _ refl,
    );
  }

  -- The logins of a session that is acquired.
  abbrev before : AcquiredMarketSession → ℕ
  before a = if a.reused then 0 else 1

  status_of-tally : (a : AcquiredMarketSession) → bit (logged_in (status_of a)) ≡ before a
  status_of-tally a = ground arith

  keep_after-Counts :
      (now : ℤ) (a : AcquiredMarketSession) (e : SafeError)
      → Counts (before a) (keep_after world ttl now a e)
  unfolding keep_after
  keep_after-Counts now a e =
      change-Counts (before a) _ (fail (record { error = e; session = some (status_of a) }))
        (λ w. elim (Bool-cases (should_preserve_market_session_after_error e)) [
          | inl p ↦ rw p (store-logins a now w)
          | inr p ↦ rw p refl
        ])
        (record { total = λ w. omega (arith, status_of-tally a) })

  auth_error-tally : (e : SafeError) → is_auth_error e ≡ true → tally_err e none ≡ 1
  unfolding should_preserve_market_session_after_error should_record_assumed_fresh_login
  auth_error-tally e h =
      ap
        (λ c. bit (
          not (
            str_eq c "market_not_found"
            || str_eq c "market_ambiguous_identifier"
            || str_eq c "market_unsupported_asset_type")
          && not (str_eq c "live_transport_failure")))
        ((eq_iff e.code "market_auth_required").0 h)

  recover-Counts :
      (now : ℤ) (a : AcquiredMarketSession) (e : SafeError)
      → is_auth_error e ≡ true
      → Counts (before a) (recover world ttl now a e)
  unfolding recover evict_market_session
  recover-Counts now a e h = elim (Bool-cases a.reused) [
    | inl p ↦ rw p (
        change-Counts 0 evict_market_session (relogin world ttl now) (λ w. refl)
          (relogin-Counts now))
    | inr p ↦ rw p (
        change-Counts 1 evict_market_session (fail (no_status e)) (λ w. refl)
          (record { total = λ w. omega (arith, auth_error-tally e h) }))
  ]

  after_read-Counts :
      (now : ℤ) (a : AcquiredMarketSession) (r : Result SafeError T)
      → Counts (before a) (after_read world ttl now a r)
  unfolding after_read
  after_read-Counts now a (ok v) =
      change-Counts (before a) (store_market_session_parts world ttl a now) (pure (v, status_of a))
        (store-logins a now) (record { total = λ w. omega (arith, status_of-tally a) })
  after_read-Counts now a (err e) = elim (Bool-cases (is_auth_error e)) [
    | inl p ↦ rw p (recover-Counts now a e p)
    | inr p ↦ rw p (keep_after-Counts now a e)
  ]

  -- What follows a session.
  abbrev reading : ℤ → AcquiredMarketSession → LiveM (T × MarketSessionStatus)
  reading now a = read_market world ttl a.cookie >>= after_read world ttl now a

  reading-Counts : (now : ℤ) (a : AcquiredMarketSession) → Counts (before a) (reading now a)
  reading-Counts now a = read-Counts (before a) a.cookie _ (after_read-Counts now a)

  login_reading-Counts : (now : ℤ) → Counts 0 (live (login_and_hold world ttl now) >>= reading now)
  login_reading-Counts now = record {
    total = λ w.
        omega (
          arith,
          login-Counts now (reading now) (λ s. reading-Counts now (acquired_of s)) w _ refl,
        );
  }

  acquired_total :
      (now : ℤ) (held : Option HeldMarketSession) (w : WorkerState)
      → ((live (acquire_from world ttl now held) >>= reading now) w).1.logins
        ≤ w.logins + tally ((live (acquire_from world ttl now held) >>= reading now) w).0
  unfolding acquire_from evict_market_session
  acquired_total now (some held) w = omega (
    arith,
    (reading-Counts now (record {
      cookie = held.cookie;
      expires_in_secs = held.expires_in_secs;
      reused = true;
    })).total
        w,
  )
  acquired_total now none w =
      omega (arith, (login_reading-Counts now).total (record w { market_session = none }))

  session_total :
      (now : ℤ) (w : WorkerState)
      → ((live (acquire_market_session world ttl now) >>= reading now) w).1.logins
        ≤ w.logins + tally ((live (acquire_market_session world ttl now) >>= reading now) w).0
  unfolding acquire_market_session
  session_total now w = elim (Bool-cases (is_some ttl)) [
    | inl p ↦ rw p (acquired_total now (reusable now w.market_session) w)
    | inr p ↦ rw p (omega (arith, (login_reading-Counts now).total w))
  ]

  run_total :
      (now_iso : Text) (w : WorkerState) (parsed : Option ℤ)
      → parse_iso8601_utc now_iso ≡ parsed
      → (run_market_read world ttl now_iso w).1.logins
        ≤ w.logins + tally (run_market_read world ttl now_iso w).0
  unfolding run_market_read
  run_total now_iso w none h = rw h (omega arith)
  run_total now_iso w (some now) h = rw h (session_total now w)

  -- A market read logs in at most once, and the controller's state after it has recorded every login
  -- that the read performed: whatever Fineco answers, whenever the reaper runs, with or without reuse,
  -- and whether the read fails or not.
  pub run_market_read-settled :
      (now_iso : Text) (w : WorkerState) (now : ℤ) (s : LiveLoginState)
      → let (r, w') = run_market_read world ttl now_iso w in
        (w'.logins + length s.login_attempts ≤ w.logins + length (settled r now s).login_attempts)
        × (w'.logins ≤ w.logins + 1)
  run_market_read-settled now_iso w now s =
      let r = (run_market_read world ttl now_iso w).0 in
      let total = run_total now_iso w _ refl in
      (omega (arith, total, settled-attempts r now s), omega (arith, total, tally-le r))
