-- ===== src/Examples/Socket.antt =====
-- The theorems about the live socket, for a worker that answers with one year of losses, and with an
-- error whose message is hostile.
use fineco_helper.Core.SafeError
use fineco_helper.Base.Int.{pos}
use fineco_helper.Base.{
  [], ◌∷◌, none, some, true, ok, err, refl, List, codes, ◌≡◌, arith, if◌then◌else◌,
}
use fineco_helper.Live.Wire.{
  LiveFetcher, handle_live_request, SafeErrorDto, LiveRequest, LiveReply, LiveResponse,
}
use fineco_helper.Live.Call.{Codec, worker}
use fineco_helper.Live.Call.Carried.{IsSent, IsReplied}
use fineco_helper.Live.Errors.{safe_error_from_dto, known_errors}
use fineco_helper.Store.Rows.{NewTaxMinusByYear}
use fineco_helper.Worker.Session.{no_status}
use fineco_helper.Live.Client.Crossed.{AnswersAs, client-AnswersAs}
use fineco_helper.Live.Client.{client}
use fineco_helper.Live.Errors.Safe.{is_known, IsSafe, safe_error_from_dto-IsSafe}

abbrev one_year : List NewTaxMinusByYear
one_year = record { year = pos 2023; minus_residue = none; expiration_date = none } ∷ []

abbrev worker_fetcher : LiveFetcher Unit
worker_fetcher = record {
  fetch_portfolio = λ now_iso. err SafeError.auth_required;
  fetch_raw_orders = λ kind days. err SafeError.auth_required;
  fetch_raw_movements = λ date_from date_to. err SafeError.step_up_required;
  tax = record {
    fetch_tax_carry_forward = λ date_from date_to. err SafeError.fineco_timeout;
    fetch_tax_minus_by_year = ok one_year;
  };
  market = record {
    fetch_market_search = λ search now_iso. err (no_status SafeError.market_not_found);
    fetch_market_asset_details = λ details now_iso. err (no_status SafeError.market_not_found);
    fetch_market_indices = λ indices now_iso. err (no_status SafeError.market_not_found);
  };
}

-- One request and one reply, each a byte.
abbrev one_byte : Codec Unit
one_byte = record {
  request_to_vec = λ request. some (1 ∷ []);
  value_from_slice = λ bytes. some tt;
  object_keys = λ value. some ("command" ∷ []);
  request_from_value = λ value. some LiveRequest.tax_minus_by_year;
  reply_to_vec = λ reply. some (2 ∷ []);
  reply_from_slice =
      λ bytes. some (LiveReply.ok_reply (LiveResponse.tax_minus_by_year_answer one_year));
}

asked : IsSent one_byte LiveRequest.tax_minus_by_year
asked = record {
  bytes = 1 ∷ [];
  value = tt;
  keys = "command" ∷ [];
  encoded = refl;
  size = omega arith;
  parsed = refl;
  object = refl;
  allowed = refl;
  typed = refl;
}

answered : IsReplied one_byte (LiveReply.ok_reply (LiveResponse.tax_minus_by_year_answer one_year))
answered = record { bytes = 2 ∷ []; encoded = refl; size = omega arith; parsed = refl }

client-AnswersAs_example :
    AnswersAs
      (client one_byte (some (worker one_byte worker_fetcher 9000000)))
      worker_fetcher
      LiveRequest.tax_minus_by_year
unfolding handle_live_request
client-AnswersAs_example =
    client-AnswersAs one_byte worker_fetcher 9000000 LiveRequest.tax_minus_by_year (omega arith)
      asked answered

abbrev hostile : SafeErrorDto
hostile = record {
  code = "market_ambiguous_identifier";
  class = "validation";
  retryable = true;
  safe_message = 27 ∷ codes "[31m";
}

safe_error_from_dto-IsSafe_example :
    ((safe_error_from_dto hostile).code ≡ (
      if is_known "market_ambiguous_identifier" (known_errors hostile.safe_message)
      then "market_ambiguous_identifier"
      else "internal"))
    × IsSafe (safe_error_from_dto hostile).safe_message
safe_error_from_dto-IsSafe_example = safe_error_from_dto-IsSafe hostile
