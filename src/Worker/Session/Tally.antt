-- ===== src/Worker/Session/Tally.antt =====
-- crates/fineco-helper/src/controller.rs: how many logins the controller records for an answer.
use fineco_helper.Base.{
  [], ◌∷◌, none, some, true, false, ok, err, Result, Bool, Option, ℕ, ◌≤◌, arith, ◌≡◌, length, ◌+◌,
  length-append, inl, inr, Bool-cases,
}
use fineco_helper.Controller.Login.{finish_market, LiveLoginState}
use fineco_helper.Controller.Market.{
  MarketLiveError, logged_in, finish_with_session_status, finish_after_error, finish_with_error,
  should_preserve_market_session_after_error,
}
use fineco_helper.Ipc.Market.{MarketSessionStatus}
use fineco_helper.Base.Int.{ℤ}
use fineco_helper.Worker.Login.Codes.{assumes_login}
use fineco_helper.Core.SafeError.{SafeError}

-- The controller's state after the answer of a read: `finish_market_state` as the handler calls it.
abbrev pub settled :
    {A : Type 0}
    → Result MarketLiveError (A × MarketSessionStatus)
    → ℤ
    → LiveLoginState
    → LiveLoginState
settled (ok (value, session)) now s = finish_with_session_status session now s
settled (err e) now s = finish_after_error e now s

abbrev pub bit : Bool → ℕ
bit true = 1
bit false = 0

abbrev pub tally_err : SafeError → Option MarketSessionStatus → ℕ
tally_err e (some session) = bit (logged_in session)
tally_err e none = bit (assumes_login e)

-- The logins that the controller records for an answer.
abbrev pub tally : {A : Type 0} → Result MarketLiveError (A × MarketSessionStatus) → ℕ
tally (ok (value, session)) = bit (logged_in session)
tally (err e) = tally_err e.error e.session

pub bit-le : (b : Bool) → bit b ≤ 1
bit-le true = omega arith
bit-le false = omega arith

tally_err-le : (e : SafeError) (s : Option MarketSessionStatus) → tally_err e s ≤ 1
tally_err-le e (some session) = bit-le (logged_in session)
tally_err-le e none = bit-le (assumes_login e)

pub tally-le : {A : Type 0} (r : Result MarketLiveError (A × MarketSessionStatus)) → tally r ≤ 1
tally-le (ok (value, session)) = bit-le (logged_in session)
tally-le (err e) = tally_err-le e.error e.session

finish_market-attempts :
    (performed holds : Bool) (now : ℤ) (s : LiveLoginState)
    → length (finish_market performed holds now s).login_attempts
      ≡ length s.login_attempts + bit performed
unfolding finish_market
finish_market-attempts true holds now s = length-append s.login_attempts (now ∷ [])
finish_market-attempts false holds now s = omega arith

finish_with_error-attempts :
    (e : SafeError) (session : Option MarketSessionStatus) (now : ℤ) (s : LiveLoginState)
    → length (finish_with_error e session now s).login_attempts
      ≡ length s.login_attempts + tally_err e session
unfolding finish_with_error finish_with_session_status
finish_with_error-attempts e none now s = finish_market-attempts _ _ now s
finish_with_error-attempts e (some session) now s =
    elim (Bool-cases (should_preserve_market_session_after_error e)) [
      | inl p ↦ rw p (finish_market-attempts (logged_in session) true now s)
      | inr p ↦ rw p (finish_market-attempts (logged_in session) false now s)
    ]

pub settled-attempts :
    {A : Type 0} (r : Result MarketLiveError (A × MarketSessionStatus)) (now : ℤ)
    (s : LiveLoginState)
    → length (settled r now s).login_attempts ≡ length s.login_attempts + tally r
unfolding finish_after_error finish_with_session_status
settled-attempts (ok (value, session)) now s = finish_market-attempts (logged_in session) true now s
settled-attempts (err e) now s = finish_with_error-attempts e.error e.session now s
