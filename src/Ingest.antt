-- ===== src/Ingest.antt =====
-- The ingest service: engine/book, engine/domain, engine/symbol, engine/dispatch,
-- engine/repository, engine/stream.
pub mod Domain
pub mod Book
pub mod Symbol
pub mod Handler
pub mod Dispatch
pub mod Stream
pub mod Repository
pub mod Service
mod Examples
