-- ===== src/Worker/Session/Held.antt =====
-- crates/fineco-worker/src/lib.rs: the session that is held after a market read.

use fineco_helper.Core.SafeError.{SafeError}
use fineco_helper.Worker.Session.{
  WorkerState, World, AcquiredMarketSession, HeldMarketSession, after_read, recover, relogin,
  keep_after, after_retry, login_and_hold, LiveM, read_market, acquired_of, status_of,
  store_market_session_parts, is_auth_error, login_now, evict_market_session, live, acquire_from,
  run_market_read, acquire_market_session, reusable,
}
use fineco_helper.Base.{
  none, some, true, false, inl, inr, ok, err, refl, ℕ, Result, ◌≡◌, Bool-cases, Option, arith, Text,
  ◌+◌, ◌>>=◌, ◌&&◌, is_some,
}
use fineco_helper.Base.Int.{ℤ, saturating_add, clamp_i64, pos}
use fineco_helper.Ipc.Market.{MarketSessionStatus}
use fineco_helper.Controller.Market.{MarketLiveError}
use fineco_helper.Worker.Login.{FinecoSession, login}
use fineco_helper.Core.Clock.{parse_iso8601_utc}

-- After an answer the cookie of the read that gave it is held until the window's end; after an answer
-- that the authentication expired, none is.
abbrev pub IsHeldAfter :
    {T : Type 0}
    → World T
    → ℕ
    → ℤ
    → Result MarketLiveError (T × MarketSessionStatus)
    → Option HeldMarketSession
    → Type 0
IsHeldAfter world ttl now (ok (value, session)) held =
    (cookie : Text) × (n : ℕ) × (world.answer n cookie ≡ ok value)
    × (held
        ≡ some (record {
          cookie = cookie;
          expires_in_secs = session.session_expires_in_secs;
          valid_until_epoch = saturating_add now (clamp_i64 (pos ttl));
        }))
IsHeldAfter world ttl now (err e) held = (is_auth_error e.error && is_some held) ≡ false

-- The same for a proof: what an expired authentication leads to.
abbrev HeldAfter :
    {T : Type 0}
    → World T
    → ℕ
    → ℤ
    → Result MarketLiveError (T × MarketSessionStatus)
    → Option HeldMarketSession
    → Type 0
HeldAfter world ttl now (ok (value, session)) held =
    (cookie : Text) × (n : ℕ) × (world.answer n cookie ≡ ok value)
    × (held
        ≡ some (record {
          cookie = cookie;
          expires_in_secs = session.session_expires_in_secs;
          valid_until_epoch = saturating_add now (clamp_i64 (pos ttl));
        }))
HeldAfter world ttl now (err e) held = is_auth_error e.error ≡ true → held ≡ none

module _ {T : Type 0} (world : World T) (ttl : ℕ) (now : ℤ) where
  record Ends (m : LiveM (T × MarketSessionStatus)) : Type 0 where
    at : (w : WorkerState) → HeldAfter world ttl now (m w).0 (m w).1.market_session

  -- Only from a state that holds no session.
  record EndsEmpty (m : LiveM (T × MarketSessionStatus)) : Type 0 where
    at :
        (w : WorkerState)
        → w.market_session ≡ none
        → HeldAfter world ttl now (m w).0 (m w).1.market_session

  status_of-expires :
      (a : AcquiredMarketSession) → (status_of a).session_expires_in_secs ≡ a.expires_in_secs
  status_of-expires a = ground arith

  after_retry-Ends :
      (fresh : AcquiredMarketSession) (n : ℕ) (r : Result SafeError T)
      → world.answer n fresh.cookie ≡ r
      → Ends (after_retry world (some ttl) now fresh r)
  unfolding after_retry store_market_session_parts evict_market_session
  after_retry-Ends fresh n (ok v) h = record { at = λ w. (fresh.cookie, n, h, refl) }
  after_retry-Ends fresh n (err e) h = record { at = λ w p. rw p refl }

  keep_after-Ends :
      (a : AcquiredMarketSession) (e : SafeError)
      → is_auth_error e ≡ false
      → Ends (keep_after world (some ttl) now a e)
  unfolding keep_after
  keep_after-Ends a e h = record { at = λ w p. absurd (cc) }

  relogin_at :
      (w : WorkerState) (r : Result SafeError FinecoSession)
      → w.market_session ≡ none
      → login (world.login_net w.logins) ≡ r
      → HeldAfter world ttl now
          (relogin world (some ttl) now w).0
          (relogin world (some ttl) now w).1.market_session
  unfolding relogin login_and_hold login_now read_market
  relogin_at w (err e) n h = rw h (λ p. n)
  relogin_at w (ok f) n h =
      let w1 : WorkerState =
        (store_market_session_parts world (some ttl) (acquired_of f) now
          (record w { logins = w.logins + 1 })) in
      rw h (
        (after_retry-Ends (acquired_of f) w1.reads (world.answer w1.reads f.cookie) refl).at
          (read_market world (some ttl) f.cookie w1).1)

  relogin-Ends : EndsEmpty (relogin world (some ttl) now)
  relogin-Ends = record { at = λ w n. relogin_at w _ n refl }

  recover-Ends :
      (a : AcquiredMarketSession) (e : SafeError) → Ends (recover world (some ttl) now a e)
  unfolding recover evict_market_session
  recover-Ends a e = elim (Bool-cases a.reused) [
    | inl p ↦ rw p (record { at = λ w. relogin-Ends.at (record w { market_session = none }) refl })
    | inr p ↦ rw p (record { at = λ w q. refl })
  ]

  after_read-Ends :
      (a : AcquiredMarketSession) (n : ℕ) (r : Result SafeError T)
      → world.answer n a.cookie ≡ r
      → Ends (after_read world (some ttl) now a r)
  unfolding after_read store_market_session_parts
  after_read-Ends a n (ok v) h = record {
    at = λ w. (a.cookie, n, h, rw (status_of-expires a) refl);
  }
  after_read-Ends a n (err e) h = elim (Bool-cases (is_auth_error e)) [
    | inl p ↦ rw p (recover-Ends a e)
    | inr p ↦ rw p (keep_after-Ends a e p)
  ]

  -- What follows a session.
  abbrev reading : AcquiredMarketSession → LiveM (T × MarketSessionStatus)
  reading a = read_market world (some ttl) a.cookie >>= after_read world (some ttl) now a

  reading_at :
      (a : AcquiredMarketSession) (w : WorkerState)
      → HeldAfter world ttl now (reading a w).0 (reading a w).1.market_session
  unfolding read_market
  reading_at a w =
      (after_read-Ends a w.reads (world.answer w.reads a.cookie) refl).at
        (read_market world (some ttl) a.cookie w).1

  login_at :
      (w : WorkerState) (r : Result SafeError FinecoSession)
      → w.market_session ≡ none
      → login (world.login_net w.logins) ≡ r
      → HeldAfter world ttl now
          ((live (login_and_hold world (some ttl) now) >>= reading) w).0
          ((live (login_and_hold world (some ttl) now) >>= reading) w).1.market_session
  unfolding login_and_hold login_now
  login_at w (err e) n h = rw h (λ p. n)
  login_at w (ok f) n h = rw h (
      reading_at (acquired_of f) (
        store_market_session_parts world (some ttl) (acquired_of f) now
          (record w { logins = w.logins + 1 })))

  acquired_at :
      (held : Option HeldMarketSession) (w : WorkerState)
      → HeldAfter world ttl now
          ((live (acquire_from world (some ttl) now held) >>= reading) w).0
          ((live (acquire_from world (some ttl) now held) >>= reading) w).1.market_session
  unfolding acquire_from evict_market_session
  acquired_at (some held) w =
      reading_at
        (record { cookie = held.cookie; expires_in_secs = held.expires_in_secs; reused = true }) w
  acquired_at none w = login_at (record w { market_session = none }) _ refl refl

IsHeldAfter_lem :
    {T : Type 0} (world : World T) (ttl : ℕ) (now : ℤ)
    (r : Result MarketLiveError (T × MarketSessionStatus)) (held : Option HeldMarketSession)
    → HeldAfter world ttl now r held
    → IsHeldAfter world ttl now r held
IsHeldAfter_lem world ttl now (ok v) held h = h
IsHeldAfter_lem world ttl now (err e) held h = elim (Bool-cases (is_auth_error e.error)) [
  | inl p ↦ rw (p, h p) refl
  | inr p ↦ rw p refl
]

module _ {T : Type 0} (world : World T) (ttl : ℕ) where
  -- With reuse enabled and a clock that parses: after a read that succeeds, the cookie that served it is
  -- held, with the lifetime that is reported, until the reuse window from now ends; after one that
  -- fails because the authentication expired, no session is held. This holds whenever the reaper runs.
  pub run_market_read-IsHeldAfter :
      (now_iso : Text) (now : ℤ) (w : WorkerState)
      → parse_iso8601_utc now_iso ≡ some now
      → let (r, w') = run_market_read world (some ttl) now_iso w in
        IsHeldAfter world ttl now r w'.market_session
  unfolding run_market_read acquire_market_session
  run_market_read-IsHeldAfter now_iso now w h =
      IsHeldAfter_lem world ttl now _ _
        (rw h (acquired_at world ttl now (reusable now w.market_session) w))
