-- ===== src/Backtest/Replay/Gaps.antt =====
-- Gaps between the diffs of a replay (engine/backtest/replay/engine.go).
use erebor.Prelude.{
  ℕ, ◌+◌, ◌≡◌, refl, sym, ap, ◌∙◌, Option, none, some, String, List, [], ◌∷◌, ◌++◌, append_nil,
  append_assoc, length, length-append, arith, if◌then◌else◌,
}
use erebor.Prelude.Int.{eqb_ℤ, inc64}
use erebor.Decimal.{Decimal}
use erebor.Platform.{Platform}
use erebor.Ingest.Domain.{DiffEvent, SnapshotEvent}
use erebor.Ingest.Book
use erebor.Ingest.Book.{Book}
use erebor.Wire.Books.{publish}
use erebor.Ingest.Repository.{Repository}
use erebor.Backtest.Replay.{
  EngineConfig, SpeedController, sleep_time, Outcome, Engine, Progress, reseed, maybe_handle_gap,
  handle_gap, message, apply_and_publish, after_diff, replay_loop, started, replay_diffs,
  replay_from, replay,
}
use erebor.Backtest.Replay.Books.{fine, slept, apply_all, after_wait-fine}

module _ {A : Type 0} where
  abbrev pub gap_here : Option (DiffEvent A) → DiffEvent A → List (ℕ × ℕ)
  gap_here none diff = []
  gap_here (some last) diff =
      if eqb_ℤ diff.first_update_id (inc64 last.final_update_id)
      then []
      else (last.event_time, diff.event_time) ∷ []

  -- The times around each place where the ids do not go on.
  abbrev pub gap_periods : Option (DiffEvent A) → List (DiffEvent A) → List (ℕ × ℕ)
  gap_periods last [] = []
  gap_periods last (diff ∷ diffs) = gap_here last diff ++ gap_periods (some diff) diffs

module _ (𝒟 : Decimal) (𝒫 : Platform) (ingest_repo : Repository 𝒟.Amount)
    (speed : SpeedController) where
  open 𝒟 use {Amount}

  -- The book on which a diff is applied: over a gap, the checkpoint nearest to the diff, if the
  -- table has one.
  abbrev pub book_before :
      String → Book Amount → Option (DiffEvent Amount) → DiffEvent Amount → Book Amount
  book_before symbol b none diff = b
  book_before symbol b (some last) diff =
      if eqb_ℤ diff.first_update_id (inc64 last.final_update_id)
      then b
      else elim (ingest_repo.query_nearest_checkpoint symbol diff.event_time) [
        | none ↦ b
        | some checkpoint ↦ Book.load_snapshot 𝒟 (Book.reset 𝒟 b) checkpoint
      ]

  -- One message after each diff, with the book so far.
  abbrev pub messages_over :
      EngineConfig
      → Book Amount
      → Option (DiffEvent Amount)
      → List (DiffEvent Amount)
      → List (List (String × String))
  messages_over cfg b last [] = []
  messages_over cfg b last (diff ∷ diffs) =
      let b' = Book.apply 𝒟 (book_before cfg.symbol b last diff) diff in
      let snap = Book.snapshot 𝒟 b' cfg.depth 0 in
      publish 𝒟 𝒫 cfg.run_id cfg.symbol diff.event_time snap.last_update_id snap.bids snap.asks
      ∷ messages_over cfg b' (some diff) diffs

  -- From `p`, with the book `b`, to `p'` all the diffs were published and their gaps handled.
  pub record HandlesGaps (p : Progress Amount) (b : Book Amount) (last : Option (DiffEvent Amount))
      (diffs : List (DiffEvent Amount)) (p' : Progress Amount) : Type 0 where
    pub stream_lem : p'.engine.stream ≡ p.engine.stream ++ messages_over p.engine.cfg b last diffs
    pub data_gaps_lem : p'.engine.data_gaps ≡ p.engine.data_gaps ++ gap_periods last diffs
    pub gaps_lem : p'.gaps ≡ p.gaps + length (gap_periods last diffs)
    pub published_lem : p'.published ≡ p.published + length diffs
    pub error_lem : p'.error ≡ p.error

  data_gaps-maybe_handle_gap :
      (e : Engine Amount) (last : Option (DiffEvent Amount)) (diff : DiffEvent Amount) (prev : ℕ)
      → (maybe_handle_gap 𝒟 𝒫 ingest_repo speed e last diff prev).0.0.data_gaps
        ≡ e.data_gaps ++ gap_here last diff
  unfolding maybe_handle_gap handle_gap reseed
  data_gaps-maybe_handle_gap e none diff prev = sym (append_nil e.data_gaps)
  data_gaps-maybe_handle_gap e (some last) diff prev = ground (arith, append_nil e.data_gaps)

  after_gap :
      (e : Engine Amount) (last : Option (DiffEvent Amount)) (diff : DiffEvent Amount) (prev : ℕ)
      → let e' = (maybe_handle_gap 𝒟 𝒫 ingest_repo speed e last diff prev).0.0 in
        (e'.cfg ≡ e.cfg)
        × (e'.stream ≡ e.stream)
        × (e'.book ≡ book_before e.cfg.symbol e.book last diff)
  unfolding maybe_handle_gap handle_gap reseed
  after_gap e none diff prev = (refl, refl, refl)
  after_gap e (some last) diff prev = ground arith

  counted :
      (e : Engine Amount) (last : Option (DiffEvent Amount)) (diff : DiffEvent Amount) (prev n : ℕ)
      → (if (maybe_handle_gap 𝒟 𝒫 ingest_repo speed e last diff prev).0.1 then n + 1 else n)
        ≡ n + length (gap_here last diff)
  unfolding maybe_handle_gap
  counted e none diff prev n = omega arith
  counted e (some last) diff prev n = ground arith

  loop-HandlesGaps :
      (outcomes : ℕ → Outcome) (i : ℕ) (p : Progress Amount) (last : Option (DiffEvent Amount))
      (prev : ℕ) (diffs : List (DiffEvent Amount))
      → ((j : ℕ) → outcomes j ≡ fine)
      → HandlesGaps p p.engine.book last diffs
          (replay_loop 𝒟 𝒫 ingest_repo speed outcomes i p last prev diffs)
  unfolding replay_loop
  loop-HandlesGaps outcomes i p last prev [] ok = record {
    stream_lem = sym (append_nil _);
    data_gaps_lem = sym (append_nil _);
    gaps_lem = omega arith;
    published_lem = omega arith;
    error_lem = refl;
  }
  loop-HandlesGaps outcomes i p last prev (diff ∷ diffs) ok =
      let g = maybe_handle_gap 𝒟 𝒫 ingest_repo speed p.engine last diff prev in
      let again : Progress Amount → Progress Amount = λ p'.
        replay_loop 𝒟 𝒫 ingest_repo speed outcomes (i + 1) p' (some diff) diff.event_time diffs in
      let q = record p { engine = g.0.0; gaps = if g.0.1 then p.gaps + 1 else p.gaps } in
      let e = record g.0.0 { book = Book.apply 𝒟 g.0.0.book diff } in
      let p1 = record q {
        engine = record e {
          stream = e.stream ++ message 𝒟 𝒫 ingest_repo speed e diff.event_time e.book ∷ [];
          sleeps = e.sleeps ++ slept (sleep_time speed g.1 diff.event_time);
        };
        published = p.published + 1;
      } in
      let step : after_diff 𝒟 𝒫 ingest_repo speed again q (outcomes i)
            (apply_and_publish 𝒟 𝒫 ingest_repo speed g.0.0 diff g.1 (outcomes i))
          ≡ again p1 =
        ap
          (λ o.
            after_diff 𝒟 𝒫 ingest_repo speed again q o
              (apply_and_publish 𝒟 𝒫 ingest_repo speed g.0.0 diff g.1 o))
          (ok i)
        ∙ ap (after_diff 𝒟 𝒫 ingest_repo speed again q fine) (
            unfold apply_and_publish in
            after_wait-fine 𝒟 𝒫 ingest_repo speed e diff (sleep_time speed g.1 diff.event_time))
        ∙ unfold after_diff in refl in
      let r = loop-HandlesGaps outcomes (i + 1) p1 (some diff) diff.event_time diffs ok in
      let (cfg_eq, stream_eq, book_eq) = after_gap p.engine last diff prev in
      record {
        stream_lem =
            ap (λ k. k.engine.stream) step
            ∙ r.stream_lem
            ∙ append_assoc g.0.0.stream
                (message 𝒟 𝒫 ingest_repo speed e diff.event_time e.book ∷ [])
                (messages_over g.0.0.cfg e.book (some diff) diffs)
            ∙ rw (cfg_eq, stream_eq, book_eq) refl;
        data_gaps_lem =
            ap (λ k. k.engine.data_gaps) step
            ∙ r.data_gaps_lem
            ∙ ap (λ gs. gs ++ gap_periods (some diff) diffs)
                (data_gaps-maybe_handle_gap p.engine last diff prev)
            ∙ append_assoc p.engine.data_gaps (gap_here last diff) (gap_periods (some diff) diffs);
        gaps_lem =
            ap (λ k. k.gaps) step
            ∙ r.gaps_lem
            ∙ ap (λ n. n + length (gap_periods (some diff) diffs))
                (counted p.engine last diff prev p.gaps)
            ∙ omega (arith, length-append (gap_here last diff) (gap_periods (some diff) diffs));
        published_lem = ap (λ k. k.published) step ∙ r.published_lem ∙ omega arith;
        error_lem = ap (λ k. k.error) step ∙ r.error_lem;
      }

  -- A replay that gets a checkpoint and diffs, and in which nothing else fails, gets through
  -- every gap between the diffs: it publishes one message for each diff, in order, with the book
  -- that the diffs so far make of the checkpoint, where at a gap the book starts again from the
  -- checkpoint nearest to the diff behind it, if the table has one; it announces and writes exactly the times around each place where the ids do not
  -- go on, in order, counts them and the messages, and ends without an error.
  pub replay-HandlesGaps :
      (outcomes : ℕ → Outcome) (e : Engine Amount) (checkpoint : SnapshotEvent Amount)
      (diffs : List (DiffEvent Amount))
      → ((j : ℕ) → outcomes j ≡ fine)
      → ingest_repo.query_nearest_checkpoint e.cfg.symbol e.cfg.from ≡ some checkpoint
      → ingest_repo.query_diffs e.cfg.symbol checkpoint.captured_at e.cfg.to ≡ some diffs
      → HandlesGaps
          (started 𝒟 𝒫 ingest_repo speed e none)
          (Book.load_snapshot 𝒟 (Book.reset 𝒟 e.book) checkpoint)
          none
          diffs
          (replay 𝒟 𝒫 ingest_repo speed outcomes e)
  unfolding replay replay_from replay_diffs reseed
  replay-HandlesGaps outcomes e checkpoint diffs ok c d =
      let r =
        loop-HandlesGaps outcomes 0
          (started 𝒟 𝒫 ingest_repo speed (reseed 𝒟 𝒫 ingest_repo speed e checkpoint) none) none 0
          diffs ok in
      rw (c, d)
        (record {
          stream_lem = r.stream_lem;
          data_gaps_lem = r.data_gaps_lem;
          gaps_lem = r.gaps_lem;
          published_lem = r.published_lem;
          error_lem = r.error_lem;
        })

  symbol-apply_all :
      (b : Book Amount) (diffs : List (DiffEvent Amount)) → (apply_all 𝒟 b diffs).symbol ≡ b.symbol
  unfolding Book.apply
  symbol-apply_all b [] = refl
  symbol-apply_all b (diff ∷ diffs) = symbol-apply_all (Book.apply 𝒟 b diff) diffs

  -- If the table has no checkpoint from between, the one nearest to the end of a gap is the one
  -- that the replay started from. The reseeded book is then the book of the start, and all the
  -- diffs that were applied before the gap are lost.
  pub reseed_forgets :
      (e : Engine Amount) (checkpoint : SnapshotEvent Amount) (diffs : List (DiffEvent Amount))
      (gap_from gap_to : ℕ)
      → ingest_repo.query_nearest_checkpoint e.cfg.symbol gap_to ≡ some checkpoint
      → let start = Book.load_snapshot 𝒟 (Book.reset 𝒟 e.book) checkpoint in
        (handle_gap 𝒟 𝒫 ingest_repo speed
          (record e { book = apply_all 𝒟 start diffs })
          gap_from
          gap_to).0.book
        ≡ start
  unfolding handle_gap reseed Book.load_snapshot Book.reset
  reseed_forgets e checkpoint diffs gap_from gap_to c =
      rw (handle_gap, c)
        (ap (λ s. record (Book.load_snapshot 𝒟 (Book.reset 𝒟 e.book) checkpoint) { symbol = s })
          (symbol-apply_all (Book.load_snapshot 𝒟 (Book.reset 𝒟 e.book) checkpoint) diffs))
