-- ===== src/Lib.antt =====
-- The trading core of the repository, modelled from its Python sources.
--
-- Demo models the durable ledger of autonomous Demo trading and its risk rules.
--   Demo.Errors   what is raised, times, `_utc`, `_positive`
--   Demo.Trade    the rows of the two tables (`AutonomousTradeRecord`, `AutonomousDailyRiskRecord`)
--   Demo.Risk     src/execution/demo_autonomous_risk.py: the configuration, the exit reason and the
--                 loss limit; the division of two decimals is a parameter of the exit reason
--   Demo.Table    the SELECT, INSERT and UPDATE statements and the UNIQUE constraints
--   Demo.Ledger   `begin_trade`, `_transition` and the `mark_` methods of
--                 src/execution/demo_autonomous_state.py
--   Demo.Daily    `_ensure_day`, `_validate_entry_authorization`, `authorize_entry`, `record_entry`,
--                 `record_close` and `activate_kill_switch`
--   Demo.Session  any sequence of calls on one store; one that raises rolls back
-- A database is the list of the rows of each table. A call takes a database and returns a result, the
-- new database with it when it commits. Sqlite and the uuid of a trade are parameters: the statements
-- are modelled by what they do to the rows, and `trade_id_of` is any function of the observation.
--
-- Book models order books that are rebuilt from raw events.
--   Book.Event    src/data/raw_event.py: the event and its JSON payload; `json.loads`, `int` and
--                 `Decimal` are the record `Python` of functions, of which nothing is assumed
--   Book.Side     one side of a book, as a dictionary in its order of insertion, and the helpers
--                 `_levels`, `_apply_levels` and `_validate_book` that the three replays repeat
--   Book.Bybit    `BybitOrderBook` of src/data/bybit_replay.py
--   Book.Ticker   `BybitTickerState` of src/data/bybit_replay.py
--   Book.BybitSession  `BybitReplaySession` of src/data/bybit_replay.py
--   Book.Replay   the book and the session that the two next ones share
--   Book.Okx      `OkxSequenceGate` of src/data/okx_adapter.py and src/data/okx_replay.py
--   Book.Binance  `BinanceDepthSequenceGate` of src/data/binance_adapter.py and
--                 src/data/binance_replay.py
-- A method that changes an object returns the object beside its result, also when it raises. A
-- session gives each symbol a book and a gate; the gate decides whether an event reaches the book.
--
-- Merge models src/data/ordered_merge.py: sources are opened in the order of their lower bounds and
-- merged by a heap, which is a list in order; the iterator of a source stands in its heap entry. The
-- keys of rows and their comparisons are parameters. The outer loop runs on fuel, one turn more than
-- there are rows.
--
-- Lock models `CycleLock` of src/research/locking.py: a world is the time, the lock file and the
-- processes, and an event lets time pass, lets a process make its next system call, or ends it.
--
-- Portfolio models the shared risk budget of src/risk/portfolio_engine.py.
--   Portfolio.Records  the configuration, positions, proposals, decisions and snapshots, with what each
--                      `__post_init__` raises
--   Portfolio.Engine   the state of `PortfolioRiskEngine`, its exposures, `_blocking_reason`,
--                      `_rejected` and `_roll_day`
--   Portfolio.Entry    `evaluate_entry`, which returns the engine also when it raises
--   Portfolio.Calls    `record_open`, `record_close`, the kill switch, `update_equity`, `snapshot`,
--                      `from_snapshot`, and any sequence of calls
-- Floating-point arithmetic is the record `Floats` of functions, an instance argument; where a theorem
-- needs that `<` is irreflexive and transitive, as IEEE 754 has it, `Ieee` says so, and `IeeeNumbers`
-- that it is total on numbers.
--
-- RiskEngine models src/risk/engine.py: `_roll_day`, `evaluate`, `open_position` and `close_position`.
-- A time is its wall clock; `make_qty` and `as_double` of an instrument are parameters, of which
-- nothing is assumed.
--
-- Portfolio.Store models src/risk/portfolio_state_store.py: a file is its text, which `save` replaces as
-- a whole. The JSON of a text, sha256 and the ISO texts of times are the record `Codec` of functions;
-- `Readable` says that what Python writes it reads back.
--
-- Shadow models src/execution/shadow_runtime.py.
--   Shadow.Record    `ShadowAuditRecord`, its checks and its JSON
--   Shadow.Journal   `ShadowAuditJournal`, whose file is a list of lines, each chained to the one before
--   Shadow.Decision  what is observed, and `_validate_actionable`
--   Shadow.Runtime   `_record`, the staged engine and its saving
--   Shadow.Session   `initialize_new`, `resume`, `observe`, `close_virtual`, `activate_safety_hold`
-- A runtime has its engine, the file of its store and its journal; a call returns it also when it raises.
--
-- Supervisor models `PaperSessionSupervisor` of src/execution/supervisor.py with the session state of
-- src/execution/session_state.py. Its loop runs on fuel, one turn more than the attempts that
-- `max_restarts` leaves.
--
-- Base has the shared helpers: Boolean tests, integers and lists over the native numbers, texts,
-- results, decimals and dictionaries. A decimal is a count of 10^-18 with the number of its places;
-- sums are exact, and a product is cut at 18 places. Python's integers are unbounded and so are the
-- model's. All loops but those of the merge and of the supervisor are over lists.
--
-- Not modelled: network and file access, reports and checksums of replays, sizing by ATR,
-- strategies, machine learning and backtests.
pub mod Base
pub mod Book
pub mod Demo
pub mod Lock
pub mod Merge
pub mod Portfolio
pub mod RiskEngine
pub mod Shadow
pub mod Supervisor
