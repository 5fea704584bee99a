-- ===== src/Core/Transport/Userinfo.antt =====
-- crates/fineco-core/src/transport.rs: what stands before the `@` of an authority changes nothing.
use mathlib.Core.List.{append-nil, append_assoc}
use fineco_helper.Core.Transport.{
  before_any, after_last, ends_authority, host_of, is_secure_or_loopback, split_scheme,
  trim_end_dots, is_secure_scheme, host_in, is_scheme, is_loopback_host,
}
use mathlib.Core.Option
use fineco_helper.Base.{
  [], ◌∷◌, true, inl, inr, refl, ℕ, Bool, Text, ◌≡◌, ◌++◌, Bool-cases, some, false, All, ap,
  reverse, sym, ◌==◌, map, ◌∙◌, to_lower, codes, ==_iff, ◌||◌, ◌&&◌,
}

module _ (p : ℕ → Bool) where
  before_any-append_cons :
      (c : ℕ) (s t : Text)
      → p c ≡ false
      → before_any p (s ++ t) ≡ s ++ before_any p t
      → before_any p ((c ∷ s) ++ t) ≡ c ∷ (s ++ before_any p t)
  before_any-append_cons c s t e ih = rw (e, ih) refl

  before_any-append :
      (s t : Text) → All (λ c. p c ≡ false) s → before_any p (s ++ t) ≡ s ++ before_any p t
  before_any-append [] t h = refl
  before_any-append (c ∷ cs) t h = before_any-append_cons c cs t h.0 (before_any-append cs t h.1)

  before_any_stop : (s t : Text) (c : ℕ) → p c ≡ true → before_any p (s ++ c ∷ t) ≡ before_any p s
  before_any_stop [] t c e = rw e refl
  before_any_stop (d ∷ ds) t c e = elim (Bool-cases (p d)) [
    | inl f ↦ rw f refl
    | inr f ↦ rw f (ap (◌∷◌ d) (before_any_stop ds t c e))
  ]

reverse-append : (s t : Text) → reverse (s ++ t) ≡ reverse t ++ reverse s
reverse-append [] t = sym (append-nil (reverse t))
reverse-append (c ∷ cs) t =
    ap (λ r. r ++ c ∷ []) (reverse-append cs t) ∙ append_assoc (reverse t) (reverse cs) (c ∷ [])

-- The last `c` is found behind any text that a `c` closes.
after_last-append : (c : ℕ) (s t : Text) → after_last c (s ++ c ∷ t) ≡ after_last c t
after_last-append c s t = ap reverse (
    ap (before_any (λ d. d == c))
      (reverse-append s (c ∷ t) ∙ append_assoc (reverse t) (c ∷ []) (reverse s))
    ∙ before_any_stop (λ d. d == c) (reverse t) (reverse s) c ((==_iff c c).1 refl))

host_of-append :
    (user rest : Text)
    → All (λ c. ends_authority c ≡ false) user
    → host_of (user ++ b'@' ∷ rest) ≡ host_of rest
unfolding host_of
host_of-append user rest h =
    ap (λ s. map to_lower (trim_end_dots (host_in s)))
      (ap (after_last b'@') (before_any-append ends_authority user (b'@' ∷ rest) h)
        ∙ after_last-append b'@' user (before_any ends_authority rest))

split_scheme-append :
    (scheme rest : Text)
    → All (λ c. (c == b':') ≡ false) scheme
    → split_scheme (scheme ++ (codes "://" ++ rest)) ≡ some (scheme, rest)
split_scheme-append [] rest h = refl
split_scheme-append (c ∷ cs) rest h =
    rw (h.0) (ap (Option.map (λ p. (c ∷ p.0, p.1))) (split_scheme-append cs rest h.1))

-- A URL with user information is taken for secure exactly when it is without: for any scheme with no
-- colon, any user information with no `/`, `?` or `#`, any rest, and any test of addresses.
pub is_secure_or_loopback_userinfo :
    (loopback_ip : Text → Bool) (scheme user rest : Text)
    → All (λ c. (c == b':') ≡ false) scheme
    → All (λ c. ends_authority c ≡ false) user
    → is_secure_or_loopback loopback_ip (scheme ++ (codes "://" ++ (user ++ b'@' ∷ rest)))
      ≡ is_secure_or_loopback loopback_ip (scheme ++ (codes "://" ++ rest))
unfolding is_secure_or_loopback
is_secure_or_loopback_userinfo ip scheme user rest h k =
    ap (is_secure_scheme ip) (split_scheme-append scheme (user ++ b'@' ∷ rest) h)
    ∙ (ap
          (λ host.
            is_scheme scheme "https" || (is_scheme scheme "http" && is_loopback_host ip host))
          (host_of-append user rest k)
        ∙ ap (is_secure_scheme ip) (sym (split_scheme-append scheme rest h)))
