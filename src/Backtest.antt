-- ===== src/Backtest.antt =====
-- The backtest: engine/backtest.
pub mod Executor
pub mod Collector
pub mod EndToEnd
pub mod Shared
pub mod Replay
pub mod Repository
pub mod Runner
pub mod Cli
mod Examples
mod Scenarios
