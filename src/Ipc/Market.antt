-- ===== src/Ipc/Market.antt =====
-- crates/fineco-ipc/src/lib.rs: the values of market reads. Text is code points; an `f64` is its bits.
use fineco_helper.Store.Rows.{F64}
use mathlib.Core.Option
use fineco_helper.Base.{[], ◌∷◌, none, some, String, Option, Text, ℕ, Bool, List}
use fineco_helper.Core.Text.{sanitize_text}

pub data MarketAssetType : Type 0 where
  stock etf bond cfd fixed_leverage : MarketAssetType
  turbo knockout fx_cfd unknown : MarketAssetType

-- `MarketAssetType::as_str`
unfoldable pub asset_type_name : MarketAssetType → String
asset_type_name MarketAssetType.stock = "stock"
asset_type_name MarketAssetType.etf = "etf"
asset_type_name MarketAssetType.bond = "bond"
asset_type_name MarketAssetType.cfd = "cfd"
asset_type_name MarketAssetType.fixed_leverage = "fixed_leverage"
asset_type_name MarketAssetType.turbo = "turbo"
asset_type_name MarketAssetType.knockout = "knockout"
asset_type_name MarketAssetType.fx_cfd = "fx_cfd"
asset_type_name MarketAssetType.unknown = "unknown"

pub data MarketConfidence : Type 0 where
  high medium low : MarketConfidence

pub record MarketField (A : Type 0) : Type 0 where
  pub value : A
  pub unit : Option Text
  pub source : Text
  pub data_class : Text
  pub source_ref : Text
  pub as_of : Option Text
  pub captured_at : Text
  pub confidence : MarketConfidence

sanitized : Option Text → Option Text
sanitized none = none
sanitized (some []) = none
sanitized (some (c ∷ cs)) = some (c ∷ cs)

unfoldable pub sanitize_optional_metadata : Option Text → Option Text
unfolding sanitized
sanitize_optional_metadata value = sanitized (Option.map sanitize_text value)

-- `MarketField::high`, `medium` and `low`, of the confidence given
unfoldable pub market_field :
    {A : Type 0}
    → MarketConfidence
    → A
    → Option Text
    → Text
    → Text
    → Text
    → Option Text
    → Text
    → MarketField A
market_field confidence value unit source data_class source_ref as_of captured_at = record {
  value = value;
  unit = sanitize_optional_metadata unit;
  source = source;
  data_class = data_class;
  source_ref = source_ref;
  as_of = sanitize_optional_metadata as_of;
  captured_at = captured_at;
  confidence = confidence;
}

-- `MarketField::high_string` and `medium_string`
unfoldable pub text_field : MarketConfidence → Text → Text → Text → Text → Text → MarketField Text
text_field confidence value source data_class source_ref captured_at =
    market_field confidence value none source data_class source_ref none captured_at

pub record MarketWarning : Type 0 where
  pub code : Text
  pub message : Text

pub record MarketSearchParams : Type 0 where
  pub query : Text
  pub asset_type : Option MarketAssetType
  pub limit : Option ℕ

pub record MarketSearchCandidate : Type 0 where
  pub fineco_key : Text
  pub identifier : Text
  pub name : Text
  pub venue : Text
  pub symbol : Text
  pub display_symbol : Text
  pub isin : Option Text
  pub currency : Option Text
  pub asset_type : MarketAssetType
  pub preferred : Bool

pub record MarketSearchGroup : Type 0 where
  pub asset_type : MarketAssetType
  pub result_count : ℕ
  pub candidates : List MarketSearchCandidate

pub record MarketSearchResult : Type 0 where
  pub query : Text
  pub data_class : Text
  pub source : Text
  pub captured_at : Text
  pub groups : List MarketSearchGroup

pub data MarketIndexRegion : Type 0 where
  europe americas asia_pacific other : MarketIndexRegion

pub record MarketIndicesParams : Type 0 where
  pub region : Option MarketIndexRegion
  pub limit : Option ℕ

pub record MarketIndexCard : Type 0 where
  pub symbol : MarketField Text
  pub label : MarketField Text
  pub region : MarketIndexRegion
  pub value : Option (MarketField F64)
  pub change_percent : Option (MarketField F64)

pub record MarketIndicesResult : Type 0 where
  pub schema_version : ℕ
  pub data_class : Text
  pub source : Text
  pub captured_at : Text
  pub indices : List MarketIndexCard
  pub warnings : List MarketWarning

pub data MarketDetailsSection : Type 0 where
  identity listing quote profile etf : MarketDetailsSection
  stock bond holdings exposures returns : MarketDetailsSection
  risk ratios chart events news : MarketDetailsSection
  similar external_enrichment : MarketDetailsSection

pub record MarketDetailsParams : Type 0 where
  pub identifier : Text
  pub expected_isin : Option Text
  pub sections : Option (List MarketDetailsSection)

pub record MarketSessionStatus : Type 0 where
  pub login_performed : Bool
  pub session_reused : Bool
  pub session_evicted : Bool
  pub reused_session_401_recovered : Bool
  pub session_expires_in_secs : Option ℕ

pub record MarketSearchLiveResult : Type 0 where
  pub result : MarketSearchResult
  pub session : MarketSessionStatus

pub record MarketIndicesLiveResult : Type 0 where
  pub result : MarketIndicesResult
  pub session : MarketSessionStatus
