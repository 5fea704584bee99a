-- ===== src/Examples/Reads.antt =====
-- The theorems about the worker's private reads and the taxonomy of categories.
use fineco_helper.Base.Int.{pos}
use fineco_helper.Worker.Fetch.{Network}
use fineco_helper.Worker.Fetch.Fresh.{
  run_private_read_fresh, run_private_read, PrivateRead, logged_in_once, valid_read,
}
use fineco_helper.Worker.Categories.Unordered.{
  to_category_rows-SameTaxonomy, SameTaxonomy, SameEntries,
}
use fineco_helper.Base.{
  [], ◌∷◌, none, some, false, ok, err, refl, codes, Text, ℕ, ◌≡◌, if◌then◌else◌,
}
use fineco_helper.Worker.Login.{LoginNet, TransportError}
use fineco_helper.Worker.Session.{World, WorkerState}
use fineco_helper.Worker.Categories.{to_category_rows, RawCategoryItem}

abbrev login_fails : LoginNet
login_fails = record {
  loopback_ip = λ host. false;
  home_url = codes "https://fineco.test/";
  login_url = codes "https://fineco.test/login";
  home = err TransportError.timeout;
  posted = λ cookie credential. err TransportError.timeout;
  user_id = none;
  password = none;
  synthetic_public_cookies = [];
  now_unix_secs = 0;
}

abbrev quiet : World ℕ
quiet = record { login_net = λ n. login_fails; answer = λ n cookie. ok 1; reaped_at = λ n. none }

abbrev silent : Network
silent = record {
  loopback_ip = λ host. false;
  endpoints = record {
    positions_summary = [];
    transactions = [];
    tax_carry_forward = [];
    tax_minus = [];
    movements = [];
    moneymap_categories = [];
  };
  get = λ url cookie referer. err TransportError.timeout;
  post_page = λ n request cookie. err TransportError.timeout;
  post_categories = λ cookie. err TransportError.timeout;
  positions_from = λ body. none;
  transactions_from = λ body. none;
  carry_forward_from = λ body. none;
  minuses_from = λ body. none;
  movements_from = λ body. none;
  categories_from = λ body. none;
  positive = λ x. false;
  weight = λ x y. x;
}

abbrev session_held : WorkerState
session_held = record {
  market_session =
      some (record { cookie = codes "sid=1"; expires_in_secs = none; valid_until_epoch = pos 9 });
  logins = 3;
  reads = 0;
}

run_private_read_fresh_example :
    (run_private_read silent quiet none
      (PrivateRead.movements (codes "2024-01-01") (codes "2023-01-01"))
      session_held).1
    ≡ (if valid_read (PrivateRead.movements (codes "2024-01-01") (codes "2023-01-01"))
        then logged_in_once session_held
        else session_held)
run_private_read_fresh_example =
    run_private_read_fresh silent quiet none
      (PrivateRead.movements (codes "2024-01-01") (codes "2023-01-01")) session_held

abbrev house : Text × RawCategoryItem
house = (
  codes "003",
  record { categoria = some (codes "Casa"); flag_spesa_ricavo = none; sottocategorie = none },
)

abbrev study : Text × RawCategoryItem
study = (
  codes "001",
  record {
    categoria = some (codes "Universit&agrave;");
    flag_spesa_ricavo = none;
    sottocategorie = none;
  },
)

to_category_rows-SameTaxonomy_example :
    to_category_rows (house ∷ study ∷ []) ≡ to_category_rows (study ∷ house ∷ [])
to_category_rows-SameTaxonomy_example =
    to_category_rows-SameTaxonomy (SameTaxonomy.categories (SameEntries.swap house study refl))
