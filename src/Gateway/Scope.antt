-- ===== src/Gateway/Scope.antt =====
-- crates/fineco-gateway/src/lib.rs: the tools of a channel. The gateway that is wrapped is what it
-- lists and how it answers a call.
pub mod Hidden
use fineco_helper.Gateway.Access.{AuthChannel}
use fineco_helper.Base.{
  [], ◌∷◌, none, some, false, err, String, Option, List, Result, Bool, keep, str_eq, not, map_ok,
  if◌then◌else◌, ◌||◌,
}

pub record Tool : Type 0 where
  pub name : String
  pub description : String

-- `ErrorData::invalid_params`, or an error of the wrapped gateway
pub data ErrorData : Type 0 where
  invalid_params : String → ErrorData
  other : String → ErrorData

pub record Gateway (Request Answer : Type 0) : Type 0 where
  pub connector_allowlist : Option (List String)
  pub list_all : Result ErrorData (List Tool)
  pub call : String → Request → Result ErrorData Answer

abbrev pub default_connector_tools : List String
default_connector_tools =
    "portfolio_get_freshness" ∷ "portfolio_get_latest_shareable_report"
    ∷ "portfolio_get_allocation_history" ∷ "orders_get_latest_monitor"
    ∷ "tax_get_latest_carry_forward" ∷ "tax_get_latest_minus_by_year"
    ∷ "market_get_zero_commission_etfs" ∷ "private_portfolio_refresh_live_sensitive"
    ∷ "private_orders_refresh_live_sensitive" ∷ "private_tax_refresh_live_sensitive" ∷ []

-- `unwrap_or(AuthChannel::Connector)`
abbrev pub request_channel : Option AuthChannel → AuthChannel
request_channel none = AuthChannel.connector
request_channel (some channel) = channel

-- `HashSet::contains`
abbrev pub contains : List String → String → Bool
contains [] name = false
contains (n ∷ ns) name = str_eq n name || contains ns name

abbrev pub shown_by : Option (List String) → List Tool → List Tool
shown_by none tools = tools
shown_by (some allow) tools = keep (λ tool. contains allow tool.name) tools

-- `is_some_and(|allow| !allow.contains(name))`
abbrev pub refused_by : Option (List String) → String → Bool
refused_by none name = false
refused_by (some allow) name = not (contains allow name)

module _ {Request Answer : Type 0} where
  abbrev pub with_connector_allowlist :
      List String → Gateway Request Answer → Gateway Request Answer
  with_connector_allowlist names gateway = record gateway { connector_allowlist = some names }

  abbrev pub allowlist_for : Gateway Request Answer → AuthChannel → Option (List String)
  allowlist_for gateway AuthChannel.connector = gateway.connector_allowlist
  allowlist_for gateway AuthChannel.cli = none

  -- The marker is the channel that the access check stamped on the request.
  unfoldable pub list_tools :
      Gateway Request Answer → Option AuthChannel → Result ErrorData (List Tool)
  list_tools gateway marker =
      map_ok (shown_by (allowlist_for gateway (request_channel marker))) gateway.list_all

  unfoldable pub call_tool :
      Gateway Request Answer → Option AuthChannel → String → Request → Result ErrorData Answer
  call_tool gateway marker name request =
      if refused_by (allowlist_for gateway (request_channel marker)) name
      then err (ErrorData.invalid_params "tool not found")
      else gateway.call name request
