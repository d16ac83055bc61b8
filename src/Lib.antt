-- ===== src/Lib.antt =====
-- Erebor: models of the trading engine (engine/) and what is proved of them.
--
-- The engine is a set of Go services around Redis streams and a database. The ingest service
-- keeps one order book per symbol: a dispatcher hands raw diffs to the handler of their symbol,
-- and the handler bootstraps the book from a fetched snapshot, follows the stream, and starts
-- anew after a gap; it writes diffs and checkpoints to the database and books to a stream. The
-- signals service turns books into signals. The execution service trades on signals on paper: a
-- decider, a risk checker, a blotter over a store of fills, a cache of best prices and a session
-- manager. A backtest replays the recorded diffs as books onto streams of its own, an executor
-- trades on them with the same rule and arithmetic, and a collector reads the orders and writes
-- trades and equity to the database. The services meet in the messages of Wire and in the tables
-- of the two repositories.
--
-- Shared modules.
--   Prelude      numbers, tests, lists, integers over the native naturals, Go maps.
--   Decimal      the decimal library as an interface with its laws (Decimal/Laws has what follows
--                from them, Decimal/Integers an instance to compute with).
--   Platform     the functions of Go's standard library that the engine calls, as parameters, and
--                the laws of its printers and parsers (Platform/Sample has an instance that
--                meets them).
--   Wire         messages: the price levels in them, and in Wire/Books, Wire/Orders and Wire/Signals
--                the publishers and decoders of engine/publisher, engine/backtest,
--                engine/signals and engine/execution. Wire/Drain is the loop that reads the rest
--                of a stream after a cancellation, by engine/backtest/execution/executor.go and
--                engine/backtest/collector/collector.go.
--
-- The ingest service.
--   Ingest/Domain    engine/domain/types.go.
--   Ingest/Book      engine/book/book.go: `apply`, `snapshot`, `sorted_levels`, `reset` and
--                    `load_snapshot` are Apply, Snapshot, sortedLevels, Reset and LoadSnapshot. The
--                    children prove what updates, snapshots and their order are worth.
--   Ingest/Handler   engine/symbol/handler.go: `handle_diff` and `run_snapshot_fetch` are HandleDiff
--                    and runSnapshotFetch, a step each since the lock is held; the functions with a
--                    name in ...Locked keep it without the suffix. Ingest/Symbol holds the states,
--                    the configuration, the interface of the book and the search of the buffer.
--   Ingest/Dispatch  engine/dispatch/dispatcher.go: convertRaw, parseLevels and Run.
--   Ingest/Stream    engine/stream/stream.go: runLoop with its pauses, what runOnce forwards.
--   Ingest/Repository  engine/repository/repository.go: the tables, WriteDiff, WriteCheckpoint,
--                    QueryDiffs and QueryNearestCheckpoint.
--   Ingest/Service   engine/cmd/erebor-ingest/main.go: the start of the process, and what it does
--                    with the handlers of all symbols. A handler that the code shares by a pointer
--                    stands in one list, and the dispatcher's map holds its index.
--   Ingest/Examples, Ingest/Service/Examples  runs on concrete data.
--
-- The trading side.
--   Trading/Order, Trading/Fill   orders (engine/backtest/domain) and engine/fillmath/fill.go.
--   Trading/Risk       engine/risk/checker.go and haltstore.go: CanTrade, RecordFill, the halt.
--   Trading/Signals    engine/signals/compute/signals.go.
--   Trading/SignalService   engine/signals/consumer/consumer.go: readLoop and handleMessage.
--   Trading/Strategy   engine/execution/decider and the rule of engine/backtest/execution.
--   Trading/Blotter    engine/execution/blotter/blotter.go, and RecordFill of
--                      engine/execution/repository/repository.go.
--   Trading/Session    engine/execution/session/manager.go and the session table.
--   Trading/Cache      engine/execution/l2cache/cache.go.
--   Trading/Consumer   engine/execution/consumer/consumer.go: decoding and a batch. Trading/Consumer/Loop
--                      is readLoop with drainPEL, readNew, handleMessage and ack, over the consumer
--                      group of Trading/Consumer/Group.
--   Trading/Paper      the signal handler of engine/execution/cmd/erebor-execution/main.go.
--   Trading/Service    the process of that file: `startup`, `build_desk`, `consume` and `shutdown`
--                      are the parts of main.
--   Trading/Metrics, Trading/RoundTrips   the drawdown and the pairing of trades of
--                      engine/backtest/metrics/computer.go.
--   Trading/Examples, Trading/Scenarios, Trading/Deliveries,
--   Trading/Processes   runs on concrete data.
--
-- The backtest.
--   Backtest/Replay      engine/backtest/replay: `replay`, `handle_gap`, `apply_and_publish` and
--                        `sleep_time` are replay, handleGap, applyAndPublish and the pause of Wait.
--   Backtest/Executor    engine/backtest/execution/executor.go: `symbol_loop` and what it calls. A
--                        symbol's loop is taken alone: the shared risk checker is the part of it
--                        that this loop sees.
--   Backtest/Shared      `Start` and the loops of all symbols: `begin`, `publish` and `finish` are
--                        handleL2 up to its XADD, the XADD, and RecordFill.
--   Backtest/Collector   engine/backtest/collector/collector.go: both loops, the equity tracker.
--   Backtest/EndToEnd    the executor and the collector together.
--   Backtest/Repository  engine/backtest/repository/repository.go: the tables and operations.
--   Backtest/Runner      engine/backtest/runner/runner.go: the row of a run and the order of actions.
--   Backtest/Cli         engine/backtest/cmd/erebor-backtest/main.go and engine/backtest/config: the
--                        flags, and `main` around the runner.
--   Wire/Examples, Backtest/Examples, Backtest/Scenarios, Backtest/Cli/Examples,
--   Backtest/Shared/Examples   runs on concrete data.
--
-- Bounds. The loops over a batch, a book or a replay run over a list. Only the drain of a stream
-- takes fuel, one unit for each XRANGE: it ends as soon as one returns nothing, each other one
-- returns a message, so more units than messages are left are enough. The increment of update
-- ids wraps at 2 ^ 63 as an int64 does. A time is a number of nanoseconds, 0 is Go's zero time.
-- A depth or another configured number that is not positive is 0.
--
-- Not modelled: sockets and HTTP, and the transport of SQL and Redis calls, whose answers are
-- arguments or interfaces; log lines; the configuration files and the process of the signals
-- service; the text that json.Marshal and the type JSONB make of a session's configuration, which
-- is a parameter; the depth fetcher; the floating-point metrics of the backtest; the dashboard. A
-- mutex makes the method that holds it one step.
pub mod Prelude
pub mod Decimal
pub mod Platform
pub mod Wire
pub mod Ingest
pub mod Trading
pub mod Backtest
