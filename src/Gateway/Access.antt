-- ===== src/Gateway/Access.antt =====
-- crates/fineco-gateway/src/access.rs: the owner behind a token. Reading a token, finding its key and
-- checking its signature are the JWT library's.
pub mod Pins
use mathlib.Core.Option
use fineco_helper.Base.{
  [], ◌∷◌, none, some, false, ok, err, Text, Option, String, List, Bool, if◌then◌else◌, Result,
  text_eq, is_some, ◌&&◌, and_then, map, ◌||◌, not, ok_or, to_lower,
}
use fineco_helper.Ipc.Capability.{owner_auth_id}

pub record AccessConfig : Type 0 where
  pub issuer : Text
  pub audience : Text
  pub owner_email : Option Text
  pub owner_common_name : Option Text

pub record AccessClaims : Type 0 where
  pub email : Option Text
  pub common_name : Option Text

pub data AuthChannel : Type 0 where
  cli : AuthChannel
  connector : AuthChannel

pub record AccessIdentity : Type 0 where
  pub auth_id : String
  pub channel : AuthChannel

pub data AccessError : Type 0 where
  malformed : AccessError
  unknown_key : AccessError
  invalid : AccessError
  not_owner : AccessError

-- What the verifier asks of the token: the claims that it must have, the issuer and the audience.
-- Its algorithm is RS256.
pub record Validation : Type 0 where
  pub required_spec_claims : List String
  pub issuer : Text
  pub audience : Text

-- The JWT library: `decode_header` with the `kid`, `JwkSet::find`, `DecodingKey::from_jwk`, `decode`.
pub record Jwt (JwkSet Jwk DecodingKey : Type 0) : Type 0 where
  pub decode_header : Text → Option (Option Text)
  pub find : JwkSet → Text → Option Jwk
  pub from_jwk : Jwk → Option DecodingKey
  pub decode : Text → DecodingKey → Validation → Option AccessClaims

abbrev eq_ignore_ascii_case : Text → Text → Bool
eq_ignore_ascii_case a b = text_eq (map to_lower a) (map to_lower b)

abbrev pub matches_pin : Option Text → Option Text → Bool
matches_pin none claim = false
matches_pin (some pin) none = false
matches_pin (some pin) (some claim) = eq_ignore_ascii_case claim pin

abbrev pub email_matches : AccessConfig → AccessClaims → Bool
email_matches config claims = matches_pin config.owner_email claims.email

abbrev pub common_name_matches : AccessConfig → AccessClaims → Bool
common_name_matches config claims = matches_pin config.owner_common_name claims.common_name

abbrev pub has_pin : AccessConfig → Bool
has_pin config = is_some config.owner_email || is_some config.owner_common_name

abbrev pub channel_of : AccessConfig → AccessClaims → AuthChannel
channel_of config claims =
    if common_name_matches config claims
    then AuthChannel.cli
    else if email_matches config claims
    then AuthChannel.connector
    else AuthChannel.cli

abbrev pub validation_of : AccessConfig → Validation
validation_of config = record {
  required_spec_claims = "exp" ∷ "iss" ∷ "aud" ∷ [];
  issuer = config.issuer;
  audience = config.audience;
}

-- The pins, after the signature is checked.
unfoldable pub owner_of : AccessConfig → AccessClaims → Result AccessError AccessIdentity
owner_of config claims =
    if has_pin config && not (email_matches config claims || common_name_matches config claims)
    then err AccessError.not_owner
    else ok (record { auth_id = owner_auth_id; channel = channel_of config claims })

pub record AccessVerifier (JwkSet : Type 0) : Type 0 where
  pub config : AccessConfig
  pub keys : JwkSet

module _ {JwkSet Jwk DecodingKey : Type 0} (jwt : Jwt JwkSet Jwk DecodingKey) where
  -- The claims of a token that the library accepts.
  unfoldable pub claims_of : AccessVerifier JwkSet → Text → Result AccessError AccessClaims
  claims_of verifier token =
      and_then (ok_or (jwt.decode_header token) AccessError.malformed) (λ header.
        and_then (ok_or header AccessError.malformed) (λ kid.
          and_then (ok_or (jwt.find verifier.keys kid) AccessError.unknown_key) (λ jwk.
            and_then (ok_or (jwt.from_jwk jwk) AccessError.invalid) (λ key.
              ok_or (jwt.decode token key (validation_of verifier.config)) AccessError.invalid))))

  unfoldable pub verify : AccessVerifier JwkSet → Text → Result AccessError AccessIdentity
  verify verifier token = and_then (claims_of verifier token) (owner_of verifier.config)

abbrev pub replace_keys : {JwkSet : Type 0} → JwkSet → AccessVerifier JwkSet → AccessVerifier JwkSet
replace_keys keys verifier = record verifier { keys = keys }
