-- ===== src/Ipc/Details.antt =====
-- crates/fineco-ipc/src/lib.rs: the details of an asset. `Json` stands for the values of the JSON library.
use fineco_helper.Store.Rows.{F64}
use fineco_helper.Ipc.Market.{MarketField, MarketAssetType, MarketSessionStatus, MarketWarning}
use fineco_helper.Base.{Text, Option, List, ℕ, Bool}

pub record MarketAssetIdentity : Type 0 where
  pub identifier : Text
  pub fineco_key : MarketField Text
  pub asset_type : MarketField MarketAssetType
  pub name : Option (MarketField Text)
  pub isin : Option (MarketField Text)
  pub venue : MarketField Text
  pub symbol : MarketField Text
  pub display_symbol : Option (MarketField Text)
  pub currency : Option (MarketField Text)

pub record MarketListingSection : Type 0 where
  pub issue_date : Option (MarketField Text)
  pub preferred_venue : Option (MarketField Text)
  pub kid_url : Option (MarketField Text)
  pub esg_taxonomy : Option (MarketField Text)

pub record MarketQuoteSection : Type 0 where
  pub last : Option (MarketField F64)
  pub bid : Option (MarketField F64)
  pub ask : Option (MarketField F64)
  pub previous_close : Option (MarketField F64)
  pub change_percent : Option (MarketField F64)
  pub volume : Option (MarketField F64)

pub record MarketProfileSection : Type 0 where
  pub description : Option (MarketField Text)
  pub sector : Option (MarketField Text)
  pub industry : Option (MarketField Text)
  pub investment_strategy : Option (MarketField Text)
  pub issuer : Option (MarketField Text)
  pub category : Option (MarketField Text)
  pub benchmark : Option (MarketField Text)
  pub inception_date : Option (MarketField Text)

pub record MarketEtfSection : Type 0 where
  pub ongoing_charge : Option (MarketField F64)
  pub management_fee : Option (MarketField F64)
  pub aum : Option (MarketField F64)
  pub nav : Option (MarketField F64)
  pub ucits : Option (MarketField Bool)
  pub morningstar_rating : Option (MarketField F64)

pub record MarketStockSection : Type 0 where
  pub market_cap : Option (MarketField F64)
  pub pe : Option (MarketField F64)
  pub eps : Option (MarketField F64)
  pub roe : Option (MarketField F64)
  pub dividend : Option (MarketField F64)
  pub dividend_yield : Option (MarketField F64)
  pub range_52w_high : Option (MarketField F64)
  pub range_52w_low : Option (MarketField F64)
  pub performance_1w : Option (MarketField F64)
  pub performance_3m : Option (MarketField F64)
  pub performance_6m : Option (MarketField F64)
  pub performance_1y : Option (MarketField F64)
  pub target_price : Option (MarketField F64)
  pub recommendation_count : Option (MarketField F64)

pub record MarketBondSection : Type 0 where
  pub coupon_rate : Option (MarketField F64)
  pub coupon_rate_per_period : Option (MarketField F64)
  pub coupon_payments_per_year : Option (MarketField F64)
  pub coupon_type : Option (MarketField Text)
  pub coupon_frequency : Option (MarketField Text)
  pub maturity_date : Option (MarketField Text)
  pub next_coupon_date : Option (MarketField Text)
  pub issue_date : Option (MarketField Text)
  pub issue_price : Option (MarketField F64)
  pub accrued_interest : Option (MarketField F64)
  pub clean_price : Option (MarketField F64)
  pub dirty_price : Option (MarketField F64)
  pub yield_to_maturity_gross : Option (MarketField F64)
  pub yield_to_maturity_net : Option (MarketField F64)
  pub rating : Option (MarketField Text)
  pub issuer_rating : Option (MarketField Text)
  pub subordinated : Option (MarketField Bool)
  pub min_lot : Option (MarketField F64)
  pub par_value : Option (MarketField F64)
  pub bail_in : Option (MarketField Bool)
  pub priips : Option (MarketField Bool)
  pub value_at_risk : Option (MarketField F64)
  pub years_to_maturity : Option (MarketField F64)
  pub macaulay_duration : Option (MarketField F64)
  pub modified_duration : Option (MarketField F64)
  pub convexity : Option (MarketField F64)
  pub dv01 : Option (MarketField F64)

pub record MarketRatio : Type 0 where
  pub group : MarketField Text
  pub name : MarketField Text
  pub value : MarketField Text

pub record MarketRatiosSection : Type 0 where
  pub latest_available_date : Option (MarketField Text)
  pub ratios : List MarketRatio

pub record MarketHolding : Type 0 where
  pub isin : Option (MarketField Text)
  pub name : MarketField Text
  pub weight : MarketField F64

pub record MarketExposure : Type 0 where
  pub label : MarketField Text
  pub value : MarketField F64

pub record MarketExposuresSection : Type 0 where
  pub asset_allocation : List MarketExposure
  pub regions : List MarketExposure
  pub sectors : List MarketExposure

pub record MarketReturn : Type 0 where
  pub period : Text
  pub value : MarketField F64

pub record MarketReturnsSection : Type 0 where
  pub cumulative : List MarketReturn
  pub annual : List MarketReturn
  pub quarterly : List MarketReturn

pub record MarketRiskSection : Type 0 where
  pub standard_deviation_m36 : Option (MarketField F64)
  pub sharpe_ratio_m36 : Option (MarketField F64)
  pub beta_m36 : Option (MarketField F64)

pub record MarketExternalCompanyOverview : Type 0 where
  pub name : Text
  pub ticker : Text
  pub exchange : Text
  pub isin : Text
  pub country : Text
  pub website : Text
  pub description : Text

pub record MarketExternalEnrichmentSection (Json : Type 0) : Type 0 where
  pub data_class : Text
  pub captured_at : Text
  pub source_url : Text
  pub company : MarketExternalCompanyOverview
  pub scores : Json
  pub metrics : Json
  pub warnings : List Text

pub record MarketEtfExternalEnrichment : Type 0 where
  pub data_class : Text
  pub captured_at : Text
  pub source_url : Text
  pub ter : Option (MarketField F64)
  pub fund_size : Option (MarketField F64)
  pub volatility_1y : Option (MarketField F64)
  pub replication : Option (MarketField Text)
  pub legal_structure : Option (MarketField Text)
  pub domicile : Option (MarketField Text)
  pub fund_provider : Option (MarketField Text)
  pub distribution_policy : Option (MarketField Text)
  pub distribution_frequency : Option (MarketField Text)
  pub fund_currency : Option (MarketField Text)
  pub currency_hedge : Option (MarketField Text)
  pub index_name : Option (MarketField Text)
  pub investment_focus : Option (MarketField Text)
  pub launch_date : Option (MarketField Text)
  pub strategy_risk : Option (MarketField Text)
  pub sustainable : Option (MarketField Text)
  pub securities_lending : Option (MarketField Text)
  pub warnings : List Text

pub record MarketAssetSections (Json : Type 0) : Type 0 where
  pub listing : Option MarketListingSection
  pub quote : Option MarketQuoteSection
  pub profile : Option MarketProfileSection
  pub etf : Option MarketEtfSection
  pub stock : Option MarketStockSection
  pub bond : Option MarketBondSection
  pub ratios : Option MarketRatiosSection
  pub holdings : Option (List MarketHolding)
  pub exposures : Option MarketExposuresSection
  pub returns : Option MarketReturnsSection
  pub risk : Option MarketRiskSection
  pub external_enrichment : Option (MarketExternalEnrichmentSection Json)
  pub etf_external_enrichment : Option MarketEtfExternalEnrichment

pub record MarketSource : Type 0 where
  pub source : Text
  pub data_class : Text
  pub source_ref : Text
  pub captured_at : Text

pub record MarketAssetDetailsResult (Json : Type 0) : Type 0 where
  pub schema_version : ℕ
  pub data_class : Text
  pub captured_at : Text
  pub asset : MarketAssetIdentity
  pub sections : MarketAssetSections Json
  pub sources : List MarketSource
  pub warnings : List MarketWarning

pub record MarketAssetDetailsLiveResult (Json : Type 0) : Type 0 where
  pub result : MarketAssetDetailsResult Json
  pub session : MarketSessionStatus
