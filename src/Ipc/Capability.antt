-- ===== src/Ipc/Capability.antt =====
-- crates/fineco-ipc/src/capability.rs: the capabilities, and the policy that grants them. A map is a list
-- of entries with different keys, and a set a list.
use fineco_helper.Core.SafeError.{SafeError}
use fineco_helper.Base.{
  [], ◌∷◌, none, some, true, false, ok, err, String, Bool, List, ℕ, Text, Option, Result, ◌||◌,
  if◌then◌else◌, and_then, str_eq, ok_or, ◌==◌,
}
use fineco_helper.Core.Validate.{invalid_request}

pub data Capability : Type 0 where
  market_read market_authenticated_read portfolio_cached_full_read : Capability
  portfolio_shareable_read orders_cached_read tax_cached_read : Capability
  portfolio_live_refresh orders_live_refresh tax_live_refresh : Capability
  movements_cached_read movements_live_refresh : Capability

-- `Capability::as_str`
unfoldable pub capability_name : Capability → String
capability_name Capability.market_read = "market.read"
capability_name Capability.market_authenticated_read = "market.authenticated.read"
capability_name Capability.portfolio_cached_full_read = "portfolio.cached.full_read"
capability_name Capability.portfolio_shareable_read = "portfolio.shareable.read"
capability_name Capability.orders_cached_read = "orders.cached.read"
capability_name Capability.tax_cached_read = "tax.cached.read"
capability_name Capability.portfolio_live_refresh = "portfolio.live.refresh"
capability_name Capability.orders_live_refresh = "orders.live.refresh"
capability_name Capability.tax_live_refresh = "tax.live.refresh"
capability_name Capability.movements_cached_read = "movements.cached.read"
capability_name Capability.movements_live_refresh = "movements.live.refresh"

unfoldable pub audit_data_class : Capability → String
audit_data_class Capability.market_read = "public_market"
audit_data_class Capability.market_authenticated_read = "authenticated_market"
audit_data_class Capability.portfolio_cached_full_read = "sensitive_private_cached"
audit_data_class Capability.portfolio_shareable_read = "shareable_private"
audit_data_class Capability.orders_cached_read = "sensitive_private_cached"
audit_data_class Capability.tax_cached_read = "sensitive_private_cached"
audit_data_class Capability.portfolio_live_refresh = "credentialed_live"
audit_data_class Capability.orders_live_refresh = "credentialed_live"
audit_data_class Capability.tax_live_refresh = "credentialed_live"
audit_data_class Capability.movements_cached_read = "sensitive_private_cached"
audit_data_class Capability.movements_live_refresh = "credentialed_live"

-- The derived `PartialEq`
abbrev pub same_capability : Capability → Capability → Bool
same_capability Capability.market_read Capability.market_read = true
same_capability Capability.market_authenticated_read Capability.market_authenticated_read = true
same_capability Capability.portfolio_cached_full_read Capability.portfolio_cached_full_read = true
same_capability Capability.portfolio_shareable_read Capability.portfolio_shareable_read = true
same_capability Capability.orders_cached_read Capability.orders_cached_read = true
same_capability Capability.tax_cached_read Capability.tax_cached_read = true
same_capability Capability.portfolio_live_refresh Capability.portfolio_live_refresh = true
same_capability Capability.orders_live_refresh Capability.orders_live_refresh = true
same_capability Capability.tax_live_refresh Capability.tax_live_refresh = true
same_capability Capability.movements_cached_read Capability.movements_cached_read = true
same_capability Capability.movements_live_refresh Capability.movements_live_refresh = true
same_capability _ _ = false

abbrev pub owner_auth_id : String
owner_auth_id = "owner"

pub record AuthIdPolicy : Type 0 where
  pub capabilities : List Capability

pub record Policy : Type 0 where
  pub version : ℕ
  pub auth_ids : List (String × AuthIdPolicy)

-- `Policy::from_json`, over what the JSON library parses
unfoldable pub policy_from_json : (Text → Option Policy) → Text → Result SafeError Policy
policy_from_json parse json =
    and_then
      (ok_or (parse json)
        (invalid_request "policy is invalid (malformed, unknown field, or unknown capability)."))
      (λ policy.
        if policy.version == 0
        then err (invalid_request "policy version must be non-zero.")
        else ok policy)

-- `BTreeSet::contains`
abbrev pub has_capability : Capability → List Capability → Bool
has_capability c [] = false
has_capability c (d ∷ ds) = same_capability d c || has_capability c ds

-- `BTreeMap::get`
abbrev pub grant_of : String → List (String × AuthIdPolicy) → Option AuthIdPolicy
grant_of auth_id [] = none
grant_of auth_id ((k, grant) ∷ rest) =
    if str_eq k auth_id then some grant else grant_of auth_id rest

granted : Option AuthIdPolicy → Capability → Bool
granted none c = false
granted (some grant) c = has_capability c grant.capabilities

unfoldable pub allows : Policy → String → Capability → Bool
unfolding granted
allows policy auth_id c = granted (grant_of auth_id policy.auth_ids) c
