-- ===== src/Examples/Calls.antt =====
-- The theorem about the gateway's calls, with a policy for market reads only, and a controller that
-- cannot find the asset.
use fineco_helper.Core.SafeError
use fineco_helper.Ipc.Request.{Request}
use fineco_helper.Gateway.Calls.{ErrorData, Served, Timing}
use fineco_helper.Base.{[], none, err, codes, Result, ℕ, ◌∷◌, some}
use fineco_helper.Query.Dto.{ResponseBody}
use fineco_helper.Ipc.Validate.{MarketControlRequest}
use fineco_helper.Core.SafeError
use fineco_helper.Core.SafeError.{SafeError}
use fineco_helper.Live.Wire.{error_dto}
use fineco_helper.Ipc.Market.{
  MarketSearchParams, MarketIndicesParams, MarketDetailsParams, MarketDetailsSection,
}
use fineco_helper.Ipc.Capability.{Policy, Capability}
use fineco_helper.Controller.Market.{MarketControlOutcome}
use fineco_helper.Gateway.Calls.{Client}
use fineco_helper.Gateway.Calls.Enriched.{MarketClient}
use fineco_helper.Base.{some, ◌∷◌, Option}

abbrev at_noon : Timing
at_noon = record { ts = codes "2024-01-01T12:00:00Z"; duration_ms = 3 }

abbrev empty_journal : Served
empty_journal = record { journal = []; asked = 0 }

abbrev no_body : ResponseBody → Result ErrorData ℕ
no_body body = err (ErrorData.internal_error [])

abbrev market_reader : Option Policy
market_reader = some (record {
  version = 1;
  auth_ids =
      (
        "owner",
        record {
          capabilities = Capability.market_authenticated_read ∷ Capability.market_read ∷ [];
        },
      )
      ∷ [];
})

abbrev not_found : Option (Client MarketControlRequest (MarketControlOutcome ℕ))
not_found = some (λ request. some (err (error_dto SafeError.market_not_found)))

abbrev some_search : MarketSearchParams
some_search = record { query = codes "eni"; asset_type = none; limit = none }

abbrev all_indices : MarketIndicesParams
all_indices = record { region = none; limit = none }

abbrev with_enrichment : MarketDetailsParams
with_enrichment = record {
  identifier = codes "MOT:ENI";
  expected_isin = none;
  sections = some (MarketDetailsSection.external_enrichment ∷ []);
}

abbrev unconfigured : Option (MarketClient ℕ ℕ)
unconfigured = none
