-- ===== src/Core/Validate/Bounds.antt =====
-- crates/fineco-core/src/lib.rs: which requests the validators let through.
use fineco_helper.Core.Validate.{
  validate_order_request, order_transaction_kinds, max_order_days, normalize_expected_isin, is_isin,
  contains, invalid_request, before_dot, trim,
}
use fineco_helper.Core.SafeError.{SafeError}
use fineco_helper.Base.{
  true, false, inl, inr, ok, refl, Bool, String, Text, ℕ, ◌≡◌, ◌⊎◌, ◌↔◌, ◌≤◌, err, Result, ltb,
  Bool-cases, if◌then◌else◌, str_eq, arith, map, eq_iff, to_upper, not,
}

abbrev checked : Bool → Bool → Result SafeError (Unit {0})
checked late known =
    if late
    then err (invalid_request "days must be <= 30.")
    else if not known
    then err (invalid_request "instrument type must be one of: equity, fundpac.")
    else ok tt

checked_ok : (late known : Bool) → checked late known ≡ ok tt → (late ≡ false) × (known ≡ true)
checked_ok true known h = absurd cc
checked_ok false true h = (refl, refl)
checked_ok false false h = absurd cc

known_kind :
    (kind : String)
    → contains kind order_transaction_kinds ≡ true
    → (kind ≡ "equity") ⊎ (kind ≡ "fundpac")
known_kind kind h = elim (Bool-cases (str_eq kind "equity")) [
  | inl e ↦ inl ((eq_iff kind "equity").0 e)
  | inr n ↦ inr ((eq_iff kind "fundpac").0 (ground (arith, h, n)))
]

kind_known :
    (kind : String)
    → (kind ≡ "equity") ⊎ (kind ≡ "fundpac")
    → contains kind order_transaction_kinds ≡ true
kind_known kind (inl e) = rw e refl
kind_known kind (inr e) = rw e refl

-- An order request passes exactly when it asks for at most 30 days of one of the two kinds that the
-- endpoint serves.
pub validate_order_request_ok :
    (kind : String) (days : ℕ)
    → (validate_order_request kind days ≡ ok tt)
      ↔ ((days ≤ max_order_days) × ((kind ≡ "equity") ⊎ (kind ≡ "fundpac")))
unfolding validate_order_request
validate_order_request_ok kind days = (accepted, admitted)
  where
    accepted :
        validate_order_request kind days ≡ ok tt
        → (days ≤ 30) × ((kind ≡ "equity") ⊎ (kind ≡ "fundpac"))
    accepted h =
        let (in_time, known) = checked_ok (ltb 30 days) (contains kind order_transaction_kinds) h in
        (ground (arith, in_time), known_kind kind known)

    admitted :
        (days ≤ 30) × ((kind ≡ "equity") ⊎ (kind ≡ "fundpac"))
        → validate_order_request kind days ≡ ok tt
    admitted h =
        let in_time : ltb 30 days ≡ false = ground (arith, h.0) in
        rw in_time (rw (kind_known kind h.1) refl)

-- An ISIN that is let through has twelve characters, the first two of them letters and the last a
-- digit.
pub normalize_expected_isin-IsIsin :
    (expected isin : Text) → normalize_expected_isin expected ≡ ok isin → is_isin isin ≡ true
unfolding normalize_expected_isin
normalize_expected_isin-IsIsin expected isin h =
    elim (Bool-cases (is_isin (map to_upper (before_dot (trim expected))))) [
      | inl good ↦ ground (arith, h, good)
      | inr bad ↦ ground (arith, h, bad)
    ]
