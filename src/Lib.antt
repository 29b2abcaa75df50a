-- ===== src/Lib.antt =====
-- Verification of personal-fin-hub, a program that keeps a household's investments: a FastAPI backend
-- over SQLite (backend/), which this library models in parts, and a web frontend (frontend/).
--
-- The parts and how they interact. Sales are taken from purchases first in, first out
-- (backend/services/pnl_rules.py); the tax rule of a sale is that of the fiscal period its date falls in
-- (backend/services/fiscal_period_svc.py over backend/db/queries.py), and a year's gains and dividends are
-- taxed by its brackets (backend/services/tax_engine.py). Market data comes from an HTTP API
-- through a client that retries and a circuit breaker that all its calls share
-- (backend/services/api_client.py, backend/services/api_resilience.py). From macro data a replayed state
-- machine derives the phase of the market cycle (backend/services/market_cycle_engine.py).
-- Transactions move the cash of an entity's pockets (backend/services/transaction_svc.py): a snapshot
-- fixes a pocket's balance by an adjustment before it, a spend that the balance does not cover is given
-- inferred cash, and fees, taxes, transfers and snapshots (the services of those names) set these adjustments
-- again. Amounts cross currencies by stored rates (backend/services/currency_svc.py).
--
-- Files and what they model.
-- Base and its children: the names the other files share, Boolean tests and lists over the native
--   numbers, signed numbers, a stable sort.
-- Resilience/Breaker: `CircuitBreaker`. A record holds its fields; `allow_request`, `can_proceed`,
--   `record_success` and `record_failure` take the clock's reading and return the new record, since the
--   lock makes each of them atomic. Breaker/History: any sequence of calls. Breaker/Trial: the trial.
-- Resilience/Backoff: `should_retry_http`, `backoff_delay`, `jitter`, `retry_after_seconds` and
--   `sleep_between_attempts`.
-- Resilience/Client: `MarketAPIClient._request` (`request`, `request_loop` for its loop, `attempt_once`
--   for the body) and `health_check`. httpx is a parameter, `net`: what the wire does at each attempt.
--   Client/Rounds: one attempt. Client/Outcomes: a whole call. Client/Sequence: calls one after another.
-- FiscalPeriods/Table: the table fiscal_periods and the queries on it. FiscalPeriods/Service: the
--   service, with the active profile and the table as arguments; an exception is a value, and the table
--   is returned with it. Service/Disjoint, Service/Lookup and Service/Isolation: what it keeps.
-- FiscalExemptions: the table fiscal_exemptions, its queries, and the service of
--   backend/services/fiscal_exemption_svc.py. FiscalExemptions/References: the transactions that refer to it.
-- MarketCycle/Graph: `CycleState`, `_EDGE_DEFS`, `_edges`, `_outgoing`. MarketCycle/Signals: the signals
--   (`_probe` and what it calls, as a Boolean). MarketCycle/Engine: `_held`, `_status_for` and
--   `evaluate`. Engine/Held, Engine/Moves, Engine/Runs, Engine/Ambiguity: what it does.
--   MarketCycle/Load: `_load` and `scope_keys` over the derived indicators. MarketCycle/Complete: what the engine is given.
-- Pnl/Lots: lots and the loop that consumes them. Pnl/Fifo: `compute_fifo`. Lots/Shares and
--   Fifo/Ledger: the same seen as single shares in a row. Pnl/Convert: `convert_sale`, `convert_dividend`
--   and what they call, with the rate provider as a parameter. Convert/Rates: when rates are needed.
-- Tax/Data: rows and results of the tax engine. Tax/Bands: `apply_progressive`. Tax/Items and Tax/Year:
--   `compute_fiscal_year`. Tax/Catalogue: `resolve_tax_base`. Bands/Ranges, Year/Sums, Year/Brackets, Year/Totals: what they compute.
-- Currency/Rates: the table currencies, its queries, and the look-up and edits of rates. Currency/Calendar:
--   `business_days_between`, `is_stale_rate`, `_sync_windows`, `_get_fx_pairs`. Currency/Sync: `sync_rates`,
--   with the market client as a parameter. Currency/OneWay: the direction of a pair under the calls but `sync_rates`.
-- Cash/Data: the rows of the database and the bodies of requests. Cash/Store: the queries on transactions,
--   snapshots, adjustments and links. Cash/Balance: `get_balance_at_date` and `compute_fee_cash_out_at`.
--   Cash/Adjustments: `_recalculate_adjustments`, `_ensure_cash_for_spend`, `_link_injection`,
--   `_refresh_injection`, `_required_injection_for_day`, `reconcile_after_fee_change`. Cash/Service: `create`,
--   `get`, `update`, `delete` of transaction_svc.py. Cash/Snapshots, Cash/Charges, Cash/Transfers: the services of
--   balance snapshots, fees and taxes, transfers. Cash/Wholes:
--   transaction_full_svc.py and transaction_batch_svc.py. A call takes the database and returns it; a raise returns the
--   one it got, since each connection is closed without a commit, and no foreign key is enforced.
--   Cash/Sums, Cash/Rows, Cash/Anchors, Cash/Cover, Cash/Reconcile: what adjustments do to a balance.
--   Cash/Ledger: the transactions that are no adjustments, as an abstract list that the calls refine.
-- Derived/Trends: the whole of backend/services/derived_kpi_calc.py. Derived/Months: the grid of `to_monthly`.
-- Derived/World: world_kpi_svc.py and world_kpi_calc.py, names and markets as constructors, with the observations of
--   backend/db/queries.py. Derived/Registry: derived_kpi_svc.py. Derived/Answers: what it answers.
-- Tests (one for each part): runs on concrete inputs, and every theorem below at such an input.
--
-- Bounds and fuel. Python's integers have no bound, and neither have the numbers here. Quantities are
-- whole units of a fixed-point scale and amounts and rates are signed fixed-point numbers, so their sums
-- and comparisons are exact; floating-point products, quotients and rounding are the parameters `Floats` and `Rounding`;
-- a tax is counted in the product of the units of amounts and rates. Times are
-- whole units of the clock, waits are milliseconds, dates are ordinals. The loop of `compute_fifo`
-- that consumes lots runs on fuel, one unit more than there are lots: each round but the last takes a lot
-- off the queue. The loop over days has one unit for each day and the loop over windows one for each second
-- between its ends, each of which takes more than one. `to_monthly` has a turn for
-- each month, and derived indicators are resolved two deep, which is the depth of the registry. The retry loop runs on the number of attempts, which is the loop's own bound.
--
-- Not modelled: the tax engine's plain queries, the reports on rates and holdings, schedules, the fetching of macro data, backups, analytics, catalogue services, routes,
-- migrations, scripts and the frontend. Of the market cycle, the texts shown with a status;
-- of the client, the calls that only build a path; the registry of breakers; logging.
pub mod Base
pub mod Cash
pub mod Currency
pub mod Derived
pub mod FiscalExemptions
pub mod FiscalPeriods
pub mod MarketCycle
pub mod Pnl
pub mod Resilience
pub mod Tax
