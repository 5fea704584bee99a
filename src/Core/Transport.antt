-- ===== src/Core/Transport.antt =====
-- crates/fineco-core/src/transport.rs: which URLs may carry credentials. `loopback_ip` says of a text
-- whether it parses as a loopback address (`std::net::IpAddr`). Text is a list of bytes.
pub mod Userinfo
use mathlib.Core.Option
use fineco_helper.Base.{
  [], ◌∷◌, none, some, false, ℕ, Text, Bool, reverse, Option, String, if◌then◌else◌, map, ◌==◌,
  text_eq, to_lower, ◌||◌, ◌&&◌, codes, take, drop,
}

-- `split(p).next()`: what stands before the first byte that passes.
abbrev pub before_any : (ℕ → Bool) → Text → Text
before_any p [] = []
before_any p (c ∷ cs) = if p c then [] else c ∷ before_any p cs

-- `rsplit(c).next()`: what stands after the last `c`.
abbrev pub after_last : ℕ → Text → Text
after_last c s = reverse (before_any (λ d. d == c) (reverse s))

-- `split_once("://")`
abbrev pub split_scheme : Text → Option (Text × Text)
split_scheme [] = none
split_scheme (c ∷ cs) =
    let rest = split_scheme cs in
    if (c == b':') && text_eq (take 2 cs) (codes "//")
    then some ([], drop 2 cs)
    else Option.map (λ p. (c ∷ p.0, p.1)) rest

abbrev pub is_scheme : Text → String → Bool
is_scheme s name = text_eq (map to_lower s) (codes name)

abbrev pub ends_authority : ℕ → Bool
ends_authority c = (c == b'/') || (c == b'?') || (c == b'#')

-- The host in a host and a port; an IPv6 address stands in brackets.
abbrev pub host_in : Text → Text
host_in [] = []
host_in (c ∷ cs) =
    if c == b'[' then before_any (λ d. d == b']') cs else before_any (λ d. d == b':') (c ∷ cs)

abbrev drop_dots : Text → Text
drop_dots [] = []
drop_dots (c ∷ cs) = let rest = drop_dots cs in if c == b'.' then rest else c ∷ cs

-- `trim_end_matches('.')`
abbrev pub trim_end_dots : Text → Text
trim_end_dots s = reverse (drop_dots (reverse s))

unfoldable pub host_of : Text → Text
host_of rest =
    map to_lower (trim_end_dots (host_in (after_last b'@' (before_any ends_authority rest))))

module _ (loopback_ip : Text → Bool) where
  unfoldable pub is_loopback_host : Text → Bool
  is_loopback_host host = text_eq host (codes "localhost") || loopback_ip host

  abbrev pub is_secure_scheme : Option (Text × Text) → Bool
  is_secure_scheme none = false
  is_secure_scheme (some (scheme, rest)) =
      is_scheme scheme "https" || (is_scheme scheme "http" && is_loopback_host (host_of rest))

  unfoldable pub is_secure_or_loopback : Text → Bool
  is_secure_or_loopback url = is_secure_scheme (split_scheme url)
