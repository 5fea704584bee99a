-- ===== src/Ipc/Validate.antt =====
-- crates/fineco-ipc/src/lib.rs: the bounds of market reads, and the requests that carry them.
use fineco_helper.Core.SafeError.{SafeError}
use fineco_helper.Ipc.Capability.{Capability}
use fineco_helper.Ipc.Market.{
  MarketSearchParams, MarketIndicesParams, MarketDetailsParams, MarketDetailsSection,
}
use fineco_helper.Base.{
  [], ◌∷◌, none, some, true, false, ok, err, ℕ, String, Result, Text, Bool, Option, not,
  if◌then◌else◌, ◌==◌, map_ok, List, ◌||◌, all, ◌&&◌, count, ltb, length, and_then,
}
use fineco_helper.Core.Validate.{invalid_request, normalize_expected_isin}
use fineco_helper.Core.Text.{is_whitespace}

abbrev max_search_query_chars : ℕ
max_search_query_chars = 64

abbrev max_total_candidates : ℕ
max_total_candidates = 30

abbrev max_index_cards : ℕ
max_index_cards = 50

abbrev max_identifier_chars : ℕ
max_identifier_chars = 64

abbrev max_sections : ℕ
max_sections = 13

abbrev pub max_details_response_bytes : ℕ
max_details_response_bytes = 98304

abbrev refuse : String → Result SafeError (Unit {0})
refuse message = err (invalid_request message)

-- A limit that is given is from 1 to `max`.
abbrev limit_in : ℕ → Option ℕ → Bool
limit_in max none = true
limit_in max (some limit) = not (limit == 0 || ltb max limit)

unfoldable pub validate_search : MarketSearchParams → Result SafeError (Unit {0})
validate_search p =
    if all is_whitespace p.query
    then refuse "query must not be empty."
    else if ltb max_search_query_chars (length p.query)
    then refuse "query must be at most 64 characters."
    else if not (limit_in max_total_candidates p.limit)
    then refuse "limit must be 1..=30."
    else ok tt

unfoldable pub validate_indices : MarketIndicesParams → Result SafeError (Unit {0})
validate_indices p =
    if not (limit_in max_index_cards p.limit) then refuse "limit must be 1..=50." else ok tt

abbrev is_separator : ℕ → Bool
is_separator c = c == b'/' || c == b':'

-- `contains("://")`
abbrev pub has_scheme : Text → Bool
has_scheme [] = false
has_scheme (a ∷ []) = false
has_scheme (a ∷ b ∷ []) = false
has_scheme (a ∷ b ∷ c ∷ cs) = a == b':' && b == b'/' && c == b'/' || has_scheme (b ∷ c ∷ cs)

-- The parts of a text with one separator.
abbrev pub before_separator : Text → Text
before_separator [] = []
before_separator (c ∷ cs) =
    let rest = before_separator cs in if is_separator c then [] else c ∷ rest

abbrev pub after_separator : Text → Text
after_separator [] = []
after_separator (c ∷ cs) = let rest = after_separator cs in if is_separator c then cs else rest

abbrev no_text : Text → Bool
no_text [] = true
no_text (c ∷ cs) = false

unfoldable pub validate_market_identifier : Text → Result SafeError (Unit {0})
validate_market_identifier identifier =
    if has_scheme identifier
    then refuse "identifier must be venue-qualified."
    else if not (count is_separator identifier == 1)
    then refuse "identifier must be venue-qualified."
    else if no_text (before_separator identifier) || no_text (after_separator identifier)
    then refuse "identifier must be venue-qualified."
    else ok tt

unfoldable pub section_supported : MarketDetailsSection → Bool
section_supported MarketDetailsSection.chart = false
section_supported MarketDetailsSection.events = false
section_supported MarketDetailsSection.news = false
section_supported MarketDetailsSection.similar = false
section_supported _ = true

check_isin : Option Text → Result SafeError (Unit {0})
check_isin none = ok tt
check_isin (some isin) = map_ok (λ _. tt) (normalize_expected_isin isin)

check_sections : Option (List MarketDetailsSection) → Result SafeError (Unit {0})
check_sections none = ok tt
check_sections (some sections) =
    if ltb max_sections (length sections)
    then refuse "sections must contain at most 13 entries."
    else if not (all section_supported sections)
    then refuse "section is not supported by market details v0."
    else ok tt

unfoldable pub validate_details : MarketDetailsParams → Result SafeError (Unit {0})
unfolding check_isin check_sections
validate_details p =
    if ltb max_identifier_chars (length p.identifier)
    then refuse "identifier must be at most 64 characters."
    else and_then (validate_market_identifier p.identifier)
        (λ _. and_then (check_isin p.expected_isin) (λ _. check_sections p.sections))

pub data MarketControlRequest : Type 0 where
  market_search_asset : MarketSearchParams → MarketControlRequest
  market_get_asset_details : MarketDetailsParams → MarketControlRequest
  market_get_indices : MarketIndicesParams → MarketControlRequest

unfoldable pub market_capability : MarketControlRequest → Capability
market_capability (market_search_asset p) = Capability.market_authenticated_read
market_capability (market_get_asset_details p) = Capability.market_authenticated_read
market_capability (market_get_indices p) = Capability.market_authenticated_read

unfoldable pub market_audit_tool : MarketControlRequest → String
market_audit_tool (market_search_asset p) = "market_search_asset"
market_audit_tool (market_get_asset_details p) = "market_get_asset_details"
market_audit_tool (market_get_indices p) = "market_get_indices"

unfoldable pub validate_market : MarketControlRequest → Result SafeError (Unit {0})
validate_market (market_search_asset p) = validate_search p
validate_market (market_get_asset_details p) = validate_details p
validate_market (market_get_indices p) = validate_indices p
