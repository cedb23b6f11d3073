-- ===== src/Lib.antt =====
-- Ghost Grid, a trading program: the model of its core and the theorems about it.
--
-- The program turns price ticks into scores, gates the scores, sizes and checks orders, follows the open
-- positions tick by tick, and guards the portfolio by a circuit breaker and a watchdog. A file here models
-- the source that its first lines name, with paths from the repository's root:
-- - Config: config/instruments.py and the thresholds of config/constants.py and core/mode_selector.py.
-- - Positions: positions/. Machine is PositionStateMachine, Trail the trailing stop, Cvd and Weakness the
--   two detectors, Registry the PositionRegistry. Ratchet, Exits, Rounds, Books and Foreign
--   prove things of them.
-- - Portfolio: portfolio/state.py with portfolio/ledger.py, portfolio/equity_tracker.py,
--   portfolio/mode_automaton.py and portfolio/correlation.py.
-- - Nuclear: nuclear/. Triggers decides, Controller is one poll, Cooldown proves what sequences of polls do.
-- - Risk: risk/ (Sizer, Validator) and watchdog/ (Watchdog).
-- - Scoring: scoring/gate.py (Gate), and the gate against the history of scores (History).
-- - Data: data/schema.py and data/aggregator.py (Bars), data/cvd_engine.py (Ring), data/atr.py and data/vwap.py
--   (Averages), data/snapshot_builder.py with data/regime.py (Regime, Snapshots), data/feed_router.py (Router).
--   Lanes, Ticks, Stream and
--   Sessions prove things of them.
-- - Scoring, the engines: Snapshot is what they read of data/schema.py. Hmp (scoring/hmp/: Swing, Bos, Choch,
--   Fvg, OrderBlock, Engine), Hlcp (scoring/hlcp/ and regime/indicators/ema_ribbon.py: Ribbon, Liquidity,
--   Decay, Engine), Mpp (scoring/mpp/: Cvd, Bias, Absorption, Engine). Weights is scoring/bayesian_weights.py
--   and Fusion scoring/fusion.py. Hmp/Detected, Hmp/Gaps and Reach prove things of
--   them.
-- - Config/Sessions: config/sessions.py. Observability/Drift: observability/drift_detector.py. Core/Selector:
--   core/mode_selector.py. Positions/Engine: positions/exit_engine.py. Execution/Paper: execution/paper.py.
-- - Main: main.py. Pipeline is on_snapshot over the positions, the gate and the risk governor; Guarded proves
--   what holds at its order, Settles things of runs, Reward things of the ratio of an order in decimals.
-- - Telegram: telegram/commands.py (Commands; Confirmed and Locks prove what histories leave) and the limiter of
--   telegram/alerts.py (Alerts, Spacing).
-- - Db: the pool of db/connection.py (Connection, Handed) and db/recovery.py (Recovery).
-- - Bridge: bridge/pipe_client.py (Client, Opening) and bridge/writer.py (Writer, Delivery, Sending).
--   bridge/reconnect.py (Reconnect), a round of its loop; Outage proves what runs of rounds do.
--   bridge/protocol.py (Protocol) over security/sanitization.py (Sanitize), with Python's strings in Text;
--   Lines, Ranges, Accepted and Renders prove what the parser makes of a line. bridge/reader.py and
--   bridge/health.py (Reader) take lines into bounded queues; Queues and Intake prove what these hold.
-- - Execution: execution/retry.py (Retry), over sequences of calls in Attempts, execution/leverage.py
--   (Leverage), execution/fill_handler.py (Fills), execution/dispatcher.py with the commands
--   of bridge/protocol.py (Dispatcher), and execution/commander.py (Commander); Orders proves what an order
--   ends in.
-- - Security: security/rate_limiter.py (RateLimiter), with Buckets for its proofs.
-- - Tests: runs at concrete inputs, and instances of the theorems.
--
-- How the model stands to the code. A method is a function from the object's record to the new record and its
-- result. An exception is none, or an outcome of its own where the caller goes on after it. Registry and portfolio
-- share the machines by reference, so a heap of machines is passed along. Floats are an interface (Common/Reals):
-- the type, its arithmetic and its comparison are parameters, with the laws that comparison is a total preorder,
-- literals are not negative and ordered, sums, products and rounding are monotone on what is not negative, that
-- subtracting what is not negative does not increase a value, and that the negation of what is not positive is not
-- negative; NaN is excluded. Common/Fixed gives an instance, decimal fixed point, on which the tests run. Times of
-- the guardian are integer milliseconds. Texts of reasons are data. Loops are recursions on the lists that they go
-- through; the loop that opens the pipe runs on fuel for thirty-one rounds, one more than its calls. What
-- win32file, sqlite3 and the other tasks do comes in as arguments, or as steps between the steps of the code.
--
-- Not modelled: the asyncio tasks, sqlite and SQL, the texts of the chat front end, the reports, logging and the
-- wall clock, which are I/O; the start-up and the periodic tasks of main.py; the loop over the exits in
-- on_snapshot, which the await before it keeps from running, and what follows the construction of an order, which
-- raises; an exception of the weight updater; and so far regime/classifier.py, which the feed does not call.
-- positions/ reads attributes of a snapshot (mid, cvd, lists of bars) that data/schema.py does not define: the
-- record Snapshot of Positions/Models holds what positions/ reads, MarketSnapshot of Scoring/Snapshot what the
-- engines read, with lists of bars, BuiltSnapshot of Data/Regime what the builder makes, and LiveSnapshot of
-- Main/Pipeline what main.py reads. The settings of the environment are outside; the calls that positions/ makes
-- on the weight updater are kept in order in the machine's record.
pub mod Common
pub mod Config
pub mod Positions
pub mod Portfolio
pub mod Nuclear
pub mod Risk
pub mod Scoring
pub mod Data
pub mod Main
pub mod Telegram
pub mod Db
pub mod Observability
pub mod Core
pub mod Bridge
pub mod Execution
pub mod Security
mod Tests
