-- ===== src/Examples/Sessions.antt =====
-- The theorems about the credential worker, for a session that Fineco no longer accepts, and about the
-- texts that the worker builds and reads.
use fineco_helper.Core.SafeError
use fineco_helper.Base.Int.{pos}
use fineco_helper.Base.Maybe
use fineco_helper.Worker.Session.{WorkerState, World, run_market_read}
use fineco_helper.Worker.Session.Count.{run_market_read-settled}
use fineco_helper.Worker.Session.Tally.{settled}
use fineco_helper.Worker.Session.Held.{run_market_read-IsHeldAfter, IsHeldAfter}
use fineco_helper.Worker.Login.{
  LoginNet, Response, login, ensure_secure_transport, preflight, credential_from_parts, session_of,
}
use fineco_helper.Worker.Movements.Complete.{
  Statement, page_of, IsHonest, fetch_movement_pages_complete,
}
use fineco_helper.Base.{
  [], ◌∷◌, none, some, true, false, ok, err, refl, codes, ℕ, Text, ◌+◌, if◌then◌else◌, length, ◌==◌,
  ◌≤◌, arith, keep, ◌≡◌, All,
}
use fineco_helper.Controller.Login.{LiveLoginState}
use fineco_helper.Worker.Movements.{
  RawMovementItem, no_summary, fetch_movement_pages, to_raw_movements,
}
use fineco_helper.Worker.Dates.{unix_secs_from_ymdhms, u64_of}
use fineco_helper.Worker.Urls.Encoding.{
  percent_decode, is_safe_byte, percent_decode-percent_encode_query_component,
}
use fineco_helper.Worker.Taxonomy.{decode_html_entities}
use fineco_helper.Core.Transport.{is_secure_or_loopback}
use fineco_helper.Worker.Urls.{percent_encode_query_component}
use fineco_helper.Worker.Taxonomy.Entities.{escape_html, decode_html_entities-escape_html}
use fineco_helper.Worker.Cookies.Merging.{is_named, list_of, last_named, keep-merged_pairs}
use fineco_helper.Core.Clock.{epoch_of, epoch_to_iso8601_utc}
use fineco_helper.Worker.Cookies.{
  merged_pairs, split_pairs, cookie_header_from, merge_cookies, put_all,
}
use fineco_helper.Core.Transport.Userinfo.{is_secure_or_loopback_userinfo}
use fineco_helper.Worker.Dates.Calendar.{unix_secs_from_ymdhms-epoch_of}
use fineco_helper.Core.Validate.{trim}
use fineco_helper.Worker.Expiry.{
  session_expires_in_secs_from, is_session_cookie, ttl_secs_from_set_cookie_at,
  max_age_secs_from_set_cookie, parse_signed,
}
use fineco_helper.Core.Clock.RoundTrip.{parse-epoch_to_iso8601_utc}

abbrev home_response : Response
home_response = record { status = 200; set_cookies = codes "pre=1; Path=/" ∷ []; body = ok [] }

abbrev session_response : Response
session_response = record {
  status = 200;
  set_cookies = codes "jsession=2; Max-Age=600" ∷ [];
  body = ok [];
}

abbrev working_login : LoginNet
working_login = record {
  loopback_ip = λ host. false;
  home_url = codes "https://fineco.test/";
  login_url = codes "https://fineco.test/login";
  home = ok home_response;
  posted = λ cookie credential. ok session_response;
  user_id = some (codes "u");
  password = some (codes "p");
  synthetic_public_cookies = codes "pub=0";
  now_unix_secs = 1700000000;
}

-- The first read is refused, and the reaper runs in the second.
abbrev expired_once : World ℕ
expired_once = record {
  login_net = λ n. working_login;
  answer = λ n cookie. if n == 0 then err SafeError.market_auth_required else ok 42;
  reaped_at = λ n. if n == 1 then some (pos 1700000000) else none;
}

abbrev read_at : Text
read_at = epoch_to_iso8601_utc (pos 1700000000)

abbrev holding : WorkerState
holding = record {
  market_session = some (record {
    cookie = codes "sid=1";
    expires_in_secs = none;
    valid_until_epoch = pos 1700000100;
  });
  logins = 0;
  reads = 0;
}

abbrev no_attempts : LiveLoginState
no_attempts = record {
  in_flight = true;
  pending_epoch = none;
  last_login_epoch = none;
  login_attempts = [];
  market_session_valid_until = none;
}

run_market_read-settled_example :
    let (r, w') = run_market_read expired_once (some 300) read_at holding in
    (w'.logins + length no_attempts.login_attempts
      ≤ 0 + length (settled r (pos 1700000000) no_attempts).login_attempts)
    × (w'.logins ≤ 0 + 1)
run_market_read-settled_example =
    run_market_read-settled expired_once (some 300) read_at holding (pos 1700000000) no_attempts

run_market_read-IsHeldAfter_example :
    let (r, w') = run_market_read expired_once (some 300) read_at holding in
    IsHeldAfter expired_once 300 (pos 1700000000) r w'.market_session
run_market_read-IsHeldAfter_example =
    run_market_read-IsHeldAfter expired_once 300 read_at (pos 1700000000) holding
      (parse-epoch_to_iso8601_utc 1700000000 (omega arith))

abbrev row : Text → RawMovementItem
row id = record {
  progressivo_movimento = some id;
  causale = none;
  descrizione = none;
  descrizione_breve = none;
  importo = none;
  tipo_movimento = none;
  data_operazione = none;
  data_registrazione = none;
  data_valuta = none;
  causale_movimento = none;
  categoria_id = none;
  sottocategoria_id = none;
}

-- Three rows on two pages.
abbrev three_rows : Statement
three_rows = record {
  rows = row (codes "a") ∷ row (codes "b") ∷ row (codes "c") ∷ [];
  extra = λ n. 1;
  last = λ n offset. offset == 2;
  balances = λ n. no_summary;
}

three_rows-IsHonest : IsHonest three_rows
three_rows-IsHonest = record { ends = λ n offset h. ground arith }

fetch_movement_pages_complete_example :
    fetch_movement_pages (page_of three_rows) (codes "2024-01-01") (codes "2024-02-01")
    ≡ ok (to_raw_movements three_rows.rows, no_summary)
fetch_movement_pages_complete_example =
    fetch_movement_pages_complete three_rows (codes "2024-01-01") (codes "2024-02-01")
      three_rows-IsHonest (omega arith)

unix_secs_from_ymdhms-epoch_of_example :
    unix_secs_from_ymdhms (pos 2024) 2 29 12 0 0
    ≡ Maybe.◌>>=◌ (epoch_of (pos 2024, pos 2, pos 29) (pos 12, pos 0, pos 0)) u64_of
unix_secs_from_ymdhms-epoch_of_example =
    unix_secs_from_ymdhms-epoch_of (pos 2024) 2 29 12 0 0 (omega arith) (omega arith) (omega arith)
      (omega arith) (omega arith)

percent_decode-percent_encode_query_component_example :
    (percent_decode (percent_encode_query_component (codes "a&b=1")) ≡ codes "a&b=1")
    × All (λ c. is_safe_byte c ≡ true) (percent_encode_query_component (codes "a&b=1"))
percent_decode-percent_encode_query_component_example =
    percent_decode-percent_encode_query_component (codes "a&b=1")
      (omega arith, (omega arith, (omega arith, (omega arith, (omega arith, tt)))))

decode_html_entities-escape_html_example :
    decode_html_entities (escape_html (codes "&amp;<b>")) ≡ codes "&amp;<b>"
decode_html_entities-escape_html_example = decode_html_entities-escape_html (codes "&amp;<b>")

keep-merged_pairs_example :
    keep (is_named (codes "sid")) (merged_pairs (codes "sid=1; pre=1") (codes "sid=2"))
    ≡ list_of (
        last_named
          (codes "sid")
          (split_pairs (codes "sid=2"))
          (last_named (codes "sid") (split_pairs (codes "sid=1; pre=1")) none))
keep-merged_pairs_example = keep-merged_pairs (codes "sid") (codes "sid=1; pre=1") (codes "sid=2")

-- A host in front of an `@` does not count.
is_secure_or_loopback_userinfo_example :
    is_secure_or_loopback (λ host. false) (codes "http://localhost@evil.test/")
    ≡ is_secure_or_loopback (λ host. false) (codes "http://evil.test/")
is_secure_or_loopback_userinfo_example =
    is_secure_or_loopback_userinfo (λ host. false) (codes "http") (codes "localhost")
      (codes "evil.test/") (refl, (refl, (refl, (refl, tt))))
      (refl, (refl, (refl, (refl, (refl, (refl, (refl, (refl, (refl, tt)))))))))

-- The cookies of both answers, and the lifetime of the session cookie.
login_example :
    login working_login
    ≡ ok (record { cookie = codes "pre=1; jsession=2"; expires_in_secs = some 600 })
unfolding login ensure_secure_transport is_secure_or_loopback preflight credential_from_parts
    session_of cookie_header_from trim merge_cookies session_expires_in_secs_from merged_pairs
    is_session_cookie put_all ttl_secs_from_set_cookie_at max_age_secs_from_set_cookie parse_signed
login_example = refl
