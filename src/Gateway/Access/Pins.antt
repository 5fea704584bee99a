-- ===== src/Gateway/Access/Pins.antt =====
-- crates/fineco-gateway/src/access.rs: an accepted token matches a pin.
use fineco_helper.Gateway.Access.{
  AccessConfig, AccessClaims, AccessIdentity, AccessError, AuthChannel, has_pin, email_matches,
  common_name_matches, owner_of, Jwt, AccessVerifier, verify, claims_of, channel_of,
}
use fineco_helper.Base.{
  true, false, ok, refl, ◌≡◌, Bool, ◌||◌, err, Result, ◌&&◌, subst, Text, and_then, if◌then◌else◌,
  not, arith,
}
use fineco_helper.Ipc.Capability.{owner_auth_id}

-- What the channel says of the claims.
pub Agrees : AccessConfig → AuthChannel → AccessClaims → Type 0
Agrees config AuthChannel.cli claims = common_name_matches config claims ≡ true
Agrees config AuthChannel.connector claims =
    (email_matches config claims ≡ true) × (common_name_matches config claims ≡ false)

module _ (config : AccessConfig) (claims : AccessClaims) where
  channel_of-Agrees :
      (mail name : Bool)
      → email_matches config claims ≡ mail
      → common_name_matches config claims ≡ name
      → mail || name ≡ true
      → Agrees config (channel_of config claims) claims
  unfolding Agrees
  channel_of-Agrees mail true e f h = rw f f
  channel_of-Agrees true false e f h = rw (f, e) (e, f)
  channel_of-Agrees false false e f h = absurd cc

and_then_ok :
    {E A B : Type 0} (r : Result E A) (f : A → Result E B) (b : B)
    → and_then r f ≡ ok b
    → (a : A) × (r ≡ ok a) × (f a ≡ ok b)
and_then_ok (ok a) f b e = (a, refl, e)
and_then_ok (err x) f b e = absurd cc

accepted :
    (refused : Bool) (found identity : AccessIdentity)
    → Path
        (Result AccessError AccessIdentity)
        (if refused then err AccessError.not_owner else ok found)
        (ok identity)
    → (refused ≡ false) × (found ≡ identity)
accepted true found identity e = absurd cc
accepted false found identity e = (refl, cc)

matched :
    (pinned mail name : Bool)
    → pinned ≡ true
    → pinned && not (mail || name) ≡ false
    → mail || name ≡ true
matched pinned mail name p h = ground arith

owner_of-Agrees :
    (config : AccessConfig) (claims : AccessClaims) (identity : AccessIdentity)
    → has_pin config ≡ true
    → owner_of config claims ≡ ok identity
    → (identity.auth_id ≡ owner_auth_id) × Agrees config identity.channel claims
unfolding owner_of
owner_of-Agrees config claims identity p e =
    let (passed, same) =
      accepted _ (record { auth_id = owner_auth_id; channel = channel_of config claims }) identity
        e in
    subst (λ i. (i.auth_id ≡ owner_auth_id) × Agrees config i.channel claims) same
      (
        refl,
        channel_of-Agrees config claims _ _ refl refl
            (matched _ (email_matches config claims) (common_name_matches config claims) p passed),
      )

module _ {JwkSet Jwk DecodingKey : Type 0} (jwt : Jwt JwkSet Jwk DecodingKey) where
  -- With a pin configured, an accepted token has claims that the JWT library accepted for the
  -- configured issuer and audience; it is the owner's, on the CLI channel only if its common name
  -- matches the pin, and on the connector channel only if its email does and its common name does not.
  pub verify_ok :
      (verifier : AccessVerifier JwkSet) (token : Text) (identity : AccessIdentity)
      → has_pin verifier.config ≡ true
      → verify jwt verifier token ≡ ok identity
      → (claims : AccessClaims) × (claims_of jwt verifier token ≡ ok claims)
        × ((identity.auth_id ≡ owner_auth_id) × Agrees verifier.config identity.channel claims)
  unfolding verify
  verify_ok verifier token identity p e =
      let (claims, c, o) =
        and_then_ok (claims_of jwt verifier token) (owner_of verifier.config) identity e in
      (claims, c, owner_of-Agrees verifier.config claims identity p o)
