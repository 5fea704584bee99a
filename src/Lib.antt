-- ===== src/Lib.antt =====
-- fineco-helper: verification library.
--
-- The program is one binary with several roles (docs/ARCHITECTURE.md): a gateway (crates/fineco-gateway)
-- that serves the tools, a store-server (crates/fineco-helper, crates/fineco-refresh,
-- crates/fineco-query, crates/fineco-store) that owns the snapshot database and the refresh
-- controller, and a credential worker (crates/fineco-worker, crates/fineco-live). They share the leaf
-- crate crates/fineco-core and the messages of crates/fineco-ipc. A refresh request passes the policy
-- (crates/fineco-ipc), the controller's gate (crates/fineco-helper, crates/fineco-refresh), takes the
-- area's lock, which is a row of the store's `job_runs` (crates/fineco-store), fetches, captures and
-- finishes its job; cached reads (crates/fineco-query) answer from what was captured. Timestamps are
-- texts of one shape everywhere: the store orders and counts jobs by them, and the controller's
-- cooldowns, budgets and circuit breakers compare the epochs that they parse to.
--
-- What is modelled:
--   Core/Clock.antt         crates/fineco-core/src/freshness.rs: the calendar (`is_leap`,
--                           `days_in_month`, `days_from_civil`, `civil_from_days`), the parser
--                           `parse_iso8601_utc` with `parse_date`, `parse_time` and `digits`, and the
--                           printer `epoch_to_iso8601_utc`. Subexpressions of the two calendar
--                           functions are definitions of their own (`year_days`, `era_of`, ...). Its
--                           children hold the year of a day of an era (Civil), the calendar as
--                           arithmetic of natural numbers (CivilPos), the dates found (Valid),
--                           printing and parsing (RoundTrip).
--   Core/Freshness.antt     the same file: `FreshnessState`, `freshness_from_age`.
--   Core/Classes.antt, Core/SafeError.antt  crates/fineco-core/src/lib.rs: `ErrorClass`, `SafeError`, its
--                           constructors and its printing, and `from_upstream_status`.
--   Core/Validate.antt      the same file: the validators of requests.
--   Core/Text.antt          crates/fineco-core/src/text.rs: `sanitize_text`.
--   Core/Transport.antt     crates/fineco-core/src/transport.rs: `is_secure_or_loopback`.
--   Store/Rows.antt, Store/Db.antt  crates/fineco-store: the rows, the tables, and how statements reach
--                           them. The driver's failures are a list, so that a theorem for every store
--                           is one for every pattern of failures. Store/Db/Keeps.antt has one rule for
--                           each way to build an action.
--   Store/Jobs.antt         crates/fineco-store/src/jobs.rs; its children hold the lock (Lock), runs of
--                           calls (History), what `try_begin_job` does (Acquire), and its end (Release).
--   Store/Captures.antt, Store/Portfolio.antt, Store/Orders.antt, Store/Tax.antt, Store/Movements.antt,
--   Store/Categories.antt   crates/fineco-store/src/capture.rs, orders.rs, tax.rs, movements.rs,
--                           categories.rs and `portfolio_history` of history.rs: the captures, and the latest reads.
--   Store/Freshness.antt, Store/Health.antt, Store/Report.antt  freshness.rs, health.rs and the text cells
--                           of report.rs of the same crate.
--   Store/History.antt      the rest of history.rs, and `shareable_report_rows` of report.rs.
--   Refresh/Preflight.antt, Refresh/Retry.antt, Refresh/Run.antt  crates/fineco-refresh/src/lib.rs: the
--                           gate with the breaker, `with_retry`, and the four refreshes. A fetcher is
--                           what one fetch answers. Run's children hold what a refresh does to the job
--                           runs (Leads, Locked, Budget, Frees).
--   Ipc/Capability.antt     crates/fineco-ipc/src/capability.rs: the policy.
--   Ipc/Request.antt, Ipc/Refresh.antt, Ipc/Market.antt, Ipc/Details.antt, Ipc/Validate.antt,
--   Ipc/Answers.antt        crates/fineco-ipc/src/lib.rs: requests with their capabilities, audit names and
--                           bounds, and the values of answers.
--   Ipc/Frame.antt          the same file: the frames that messages are sent in.
--   Controller/Login.antt, Controller/Circuit.antt, Controller/Refresh.antt, Controller/Market.antt
--                           crates/fineco-helper/src/controller.rs: `LiveLoginState`,
--                           `MarketCircuitState`, `handle` and `handle_market_control`; their children
--                           and Controller/Permits.antt hold the theorems.
--   Query/Dividends.antt, Query/Answer.antt, Query/Dto.antt, Query/Handle.antt
--                           crates/fineco-query/src/dividends.rs,
--                           the dividends answer of src/lib.rs there, and `handle` with every other
--                           answer; Query/Handle/Reads.antt is about what a read changes.
--   Gateway/Access.antt, Gateway/Scope.antt  crates/fineco-gateway/src/access.rs, where the JWT library is
--                           a parameter, and `ScopedGateway` of src/lib.rs there, where the gateway
--                           that it wraps is one. Gateway/Calls.antt has the calls behind the tools, with
--                           their policy checks and the records of src/audit.rs, and
--                           Gateway/Calls/Enriched.antt `market_asset_details_call`, where the market
--                           client and what a fetched report adds to the details are parameters.
--   Live/Wire.antt, Live/Errors.antt, Live/Call.antt, Live/Client.antt  crates/fineco-live/src/lib.rs: the
--                           requests and their dispatch, the errors built again, `serve_one` against
--                           `LiveClient::call`, and the client as the store-server's fetchers.
--   Worker/Errors.antt, Worker/Cookies.antt, Worker/Dates.antt, Worker/Expiry.antt, Worker/Login.antt,
--   Worker/Session.antt, Worker/Urls.antt  crates/fineco-worker/src/lib.rs: safe errors and retries of a
--                           market call, cookies and their lifetimes, the login (with
--                           `credential_from_parts` of src/credentials.rs there), the market session that
--                           is held between reads with its eviction, its reaper and the one repeated
--                           login, and the URLs. Worker/Session/Count.antt joins it to the controller's
--                           count of logins.
--   Worker/Movements.antt, Worker/Parse.antt, Worker/Taxonomy.antt  the walk over the pages of movements
--                           (`fetch_movement_pages`) and the end of crates/fineco-worker/src/parse.rs: the
--                           private reads' answers as rows, and the entities of category names;
--                           Worker/Categories.antt has the rows of the taxonomy, and Worker/Fetch.antt the
--                           private reads of a refresh (`fetch_portfolio`, `fetch_raw_orders`, ...). At most
--                           400 pages are walked.
--   Samples.antt, Examples/  data, and the theorems at concrete inputs.
--   Base.antt, Base/        shared names: tests, lists, results, text, integers.
--
-- An `i64` is an integer of Base/Int.antt, and the numbers here stay in its range. Text is a list of
-- bytes or of code points; each module says which. An `f64` is its bits: rounding, division and
-- printing are parameters, as are JSON encoding and parsing. The timestamp printer's digits take 20
-- rounds, which is enough for every `i64`: they have 19 digits. The retries recurse on the attempts
-- that are left, so they end. The meaning of each SQL statement is written out on tables that are
-- lists, newest row first.
--
-- Not modelled here: the clock itself (`now_epoch_seconds` reads the system's time), poisoned locks,
-- the decorator `Retrying`, the HMAC of ids, backup and schema migration, the rows and headers of the
-- printed reports, the deadlines of sockets and accepting connections, the gateway's routing of tools,
-- what an enrichment's report adds to the details and fetching its keys, the worker's HTTP client,
-- and its market answers with the resolution of candidates. Of the other crates: crates/fineco-market
-- reads third-party pages, crates/fineco-tls configures a TLS library, and the start-up in
-- crates/fineco-helper is input and output.
pub mod Base
pub mod Core
pub mod Store
pub mod Ipc
pub mod Query
pub mod Gateway
pub mod Live
pub mod Worker
pub mod Controller
pub mod Samples
mod Examples
pub mod Refresh
