-- ===== src/Trading.antt =====
-- The trading side: engine/fillmath, engine/risk, engine/execution, engine/signals/compute and
-- engine/backtest.
pub mod Order
pub mod Fill
pub mod Risk
pub mod Signals
pub mod Strategy
pub mod Blotter
pub mod Session
pub mod Service
pub mod Cache
pub mod Consumer
pub mod Paper
pub mod SignalService
pub mod Metrics
pub mod RoundTrips
mod Examples
mod Scenarios
mod Deliveries
mod Processes
