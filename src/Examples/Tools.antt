-- ===== src/Examples/Tools.antt =====
-- The theorems about the gateway, for a pinned email and the default tools of a connector.

use fineco_helper.Base.{[], ◌∷◌, none, some, true, false, ok, err, refl, List, codes, ℕ, ◌≡◌}
use fineco_helper.Gateway.Access.{
  AccessClaims, Jwt, AccessVerifier, AccessIdentity, verify, AuthChannel, claims_of, owner_of,
}
use fineco_helper.Gateway.Scope.{
  Gateway, list_tools, Tool, default_connector_tools, call_tool, ErrorData,
}
use fineco_helper.Gateway.Scope.Hidden.{named, call_tool-list_tools}
use fineco_helper.Gateway.Access.Pins.{Agrees, verify_ok}

abbrev owner_claims : AccessClaims
owner_claims = record { email = some (codes "Owner@example.com"); common_name = none }

abbrev trusting : Jwt Unit Unit Unit
trusting = record {
  decode_header = λ token. some (some token);
  find = λ keys kid. some tt;
  from_jwk = λ jwk. some tt;
  decode = λ token key validation. some owner_claims;
}

abbrev pinned : AccessVerifier Unit
pinned = record {
  config = record {
    issuer = codes "https://team.example.com";
    audience = codes "aud";
    owner_email = some (codes "owner@example.com");
    owner_common_name = some (codes "cli");
  };
  keys = tt;
}

abbrev connected : AccessIdentity
connected = record { auth_id = "owner"; channel = AuthChannel.connector }

token_accepted : verify trusting pinned (codes "t") ≡ ok connected
unfolding verify claims_of owner_of
token_accepted = refl

verify_ok_example :
    (claims : AccessClaims) × (claims_of trusting pinned (codes "t") ≡ ok claims)
    × ((connected.auth_id ≡ "owner") × Agrees pinned.config connected.channel claims)
verify_ok_example = verify_ok trusting pinned (codes "t") connected refl token_accepted

abbrev two_tools : List Tool
two_tools =
    record { name = "portfolio_get_freshness"; description = "" }
    ∷ record { name = "portfolio_get_history"; description = "" }
    ∷ []

abbrev echoing : Gateway ℕ ℕ
echoing = record {
  connector_allowlist = some default_connector_tools;
  list_all = ok two_tools;
  call = λ name n. ok n;
}

abbrev shown_tools : List Tool
shown_tools = record { name = "portfolio_get_freshness"; description = "" } ∷ []

tools_shown : list_tools echoing none ≡ ok shown_tools
unfolding list_tools
tools_shown = refl

call_tool-list_tools_example :
    (named "portfolio_get_history" shown_tools ≡ false
      → call_tool echoing none "portfolio_get_history" 3
        ≡ err (ErrorData.invalid_params "tool not found"))
    × (named "portfolio_get_history" shown_tools ≡ true
        → call_tool echoing none "portfolio_get_history" 3 ≡ echoing.call "portfolio_get_history" 3)
call_tool-list_tools_example =
    call_tool-list_tools echoing none two_tools shown_tools "portfolio_get_history" 3 refl
      tools_shown refl
