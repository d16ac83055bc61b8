-- ===== src/Backtest/Replay/Recorded.antt =====
-- What the ingest service writes (engine/repository/repository.go), and what a replay makes of it
-- (engine/backtest/replay/engine.go).
use erebor.Prelude.{ℕ, ◌≡◌, refl, ◌∙◌, none, some, String, List, [], ◌∷◌, ◌++◌, keep_if, arith}
use erebor.Decimal.{Decimal, IsExact}
use erebor.Platform.{Platform, IsFaithful}
use erebor.Ingest.Domain.{DiffEvent, SnapshotEvent}
use erebor.Ingest.Book
use erebor.Ingest.Book.{Book}
use erebor.Ingest.Repository.{
  PgTables, pg_repository, write_diff, query_nearest_checkpoint, query_diffs,
}
use erebor.Ingest.Repository.Queries.{asked, write_diffs, InOrder, query_diffs-write_diffs}
use erebor.Backtest.Replay.{SpeedController, Outcome, Engine, replay}
use erebor.Backtest.Replay.Books.{fine, Contiguous, messages, replay-Contiguous}

module _ (𝒟 : Decimal) (𝒫 : Platform) where
  open 𝒟 use {Amount}

  nearest-write_diff :
      (t : PgTables) (event : DiffEvent Amount) (symbol : String) (at : ℕ)
      → query_nearest_checkpoint 𝒟 𝒫 (write_diff 𝒟 𝒫 t event) symbol at
        ≡ query_nearest_checkpoint 𝒟 𝒫 t symbol at
  unfolding query_nearest_checkpoint write_diff
  nearest-write_diff t event symbol at = ground arith

  nearest-write_diffs :
      (t : PgTables) (events : List (DiffEvent Amount)) (symbol : String) (at : ℕ)
      → query_nearest_checkpoint 𝒟 𝒫 (write_diffs 𝒟 𝒫 t events) symbol at
        ≡ query_nearest_checkpoint 𝒟 𝒫 t symbol at
  nearest-write_diffs t [] symbol at = refl
  nearest-write_diffs t (event ∷ events) symbol at =
      nearest-write_diffs (write_diff 𝒟 𝒫 t event) events symbol at
      ∙ nearest-write_diff t event symbol at

  module _ (ℒ : IsExact 𝒟) (ℱ : IsFaithful 𝒫) where
    -- What the ingest service recorded is what a backtest replays. Over tables that give a
    -- checkpoint for the start of the run and no diffs between it and the end, let diffs be
    -- written in the order of their times, behind all rows that are there, and let those of the
    -- symbol and the range follow each other without a gap: a replay in which nothing fails ends
    -- without an error and publishes the book after each of these.
    pub replay-recorded :
        (speed : SpeedController) (outcomes : ℕ → Outcome) (e : Engine Amount) (t : PgTables)
        (checkpoint : SnapshotEvent Amount) (events : List (DiffEvent Amount))
        → ((j : ℕ) → outcomes j ≡ fine)
        → query_nearest_checkpoint 𝒟 𝒫 t e.cfg.symbol e.cfg.from ≡ some checkpoint
        → query_diffs 𝒟 𝒫 t e.cfg.symbol checkpoint.captured_at e.cfg.to ≡ some []
        → InOrder 𝒟 𝒫 t.diffs events
        → Contiguous none (keep_if (asked 𝒟 𝒫 e.cfg.symbol checkpoint.captured_at e.cfg.to) events)
        → let repo = pg_repository 𝒟 𝒫 (write_diffs 𝒟 𝒫 t events) in
          let start = Book.load_snapshot 𝒟 (Book.reset 𝒟 e.book) checkpoint in
          let p = replay 𝒟 𝒫 repo speed outcomes e in
          (p.engine.stream
            ≡ e.stream
              ++ messages 𝒟 𝒫 repo speed e start
                  (keep_if (asked 𝒟 𝒫 e.cfg.symbol checkpoint.captured_at e.cfg.to) events))
          × (p.error ≡ none)
    unfolding pg_repository
    replay-recorded speed outcomes e t checkpoint events ok c d o g =
        let all =
          replay-Contiguous 𝒟 𝒫 (pg_repository 𝒟 𝒫 (write_diffs 𝒟 𝒫 t events)) speed outcomes e
            checkpoint (keep_if (asked 𝒟 𝒫 e.cfg.symbol checkpoint.captured_at e.cfg.to) events) ok
            (nearest-write_diffs t events e.cfg.symbol e.cfg.from ∙ c)
            (query_diffs-write_diffs 𝒟 𝒫 ℒ ℱ t e.cfg.symbol checkpoint.captured_at e.cfg.to []
              events d o)
            g in
        (all.0, all.4)
