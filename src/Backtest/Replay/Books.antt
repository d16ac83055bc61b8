-- ===== src/Backtest/Replay/Books.antt =====
-- A replay of diffs without a gap (engine/backtest/replay/engine.go).
use erebor.Prelude.{
  ℕ, ◌+◌, ◌≡◌, refl, sym, ap, ◌∙◌, true, false, Option, none, some, String, List, [], ◌∷◌, ◌++◌,
  append_nil, append_assoc, length, arith, if◌then◌else◌,
}
use erebor.Prelude.Int.{eqb_ℤ, inc64}
use erebor.Decimal.{Decimal}
use erebor.Platform.{Platform}
use erebor.Ingest.Domain.{DiffEvent, SnapshotEvent}
use erebor.Ingest.Book
use erebor.Ingest.Book.{Book}
use erebor.Ingest.Repository.{Repository}
use erebor.Backtest.Replay.{
  SpeedController, sleep_time, Outcome, Engine, Progress, reseed, maybe_handle_gap, message,
  publish_book, after_wait, apply_and_publish, after_diff, replay_loop, started, replay_diffs,
  replay_from, replay,
}

-- Nothing fails.
abbrev pub fine : Outcome
fine = record { interrupted = false; publish_ok = true; cancelled = false }

abbrev pub slept : Option ℕ → List ℕ
slept none = []
slept (some sleep) = sleep ∷ []

module _ {A : Type 0} where
  -- Each diff begins with the id after the last one's.
  abbrev pub Contiguous : Option (DiffEvent A) → List (DiffEvent A) → Type 0
  Contiguous last [] = Unit
  Contiguous none (diff ∷ diffs) = Contiguous (some diff) diffs
  Contiguous (some last) (diff ∷ diffs) =
      (eqb_ℤ diff.first_update_id (inc64 last.final_update_id) ≡ true)
      × Contiguous (some diff) diffs

  Contiguous-tail :
      (last : Option (DiffEvent A)) (diff : DiffEvent A) (diffs : List (DiffEvent A))
      → Contiguous last (diff ∷ diffs)
      → Contiguous (some diff) diffs
  Contiguous-tail none diff diffs c = c
  Contiguous-tail (some last) diff diffs c = c.1

  -- The pauses after an event of the time `prev`.
  abbrev pub pauses : SpeedController → ℕ → List (DiffEvent A) → List ℕ
  pauses speed prev [] = []
  pauses speed prev (diff ∷ diffs) =
      slept (sleep_time speed prev diff.event_time) ++ pauses speed diff.event_time diffs

module _ (𝒟 : Decimal) where
  open 𝒟 use {Amount}

  -- The book after the diffs.
  abbrev pub apply_all : Book Amount → List (DiffEvent Amount) → Book Amount
  apply_all b [] = b
  apply_all b (diff ∷ diffs) = apply_all (Book.apply 𝒟 b diff) diffs

module _ (𝒟 : Decimal) (𝒫 : Platform) (ingest_repo : Repository 𝒟.Amount)
    (speed : SpeedController) where
  open 𝒟 use {Amount}

  -- One message after each diff, with the book so far.
  abbrev pub messages :
      Engine Amount → Book Amount → List (DiffEvent Amount) → List (List (String × String))
  messages e b [] = []
  messages e b (diff ∷ diffs) =
      let b' = Book.apply 𝒟 b diff in
      message 𝒟 𝒫 ingest_repo speed e diff.event_time b' ∷ messages e b' diffs

  -- `p` after all of the diffs.
  abbrev pub replayed : Progress Amount → ℕ → List (DiffEvent Amount) → Progress Amount
  replayed p prev diffs = record p {
    engine = record p.engine {
      book = apply_all 𝒟 p.engine.book diffs;
      stream = p.engine.stream ++ messages p.engine p.engine.book diffs;
      sleeps = p.engine.sleeps ++ pauses speed prev diffs;
    };
    published = p.published + length diffs;
  }

  no_gap :
      (e : Engine Amount) (last : Option (DiffEvent Amount)) (diff : DiffEvent Amount)
      (diffs : List (DiffEvent Amount)) (prev : ℕ)
      → Contiguous last (diff ∷ diffs)
      → maybe_handle_gap 𝒟 𝒫 ingest_repo speed e last diff prev ≡ ((e, false), prev)
  unfolding maybe_handle_gap
  no_gap e none diff diffs prev c = refl
  no_gap e (some last) diff diffs prev c = rw (c.0) refl

  pub after_wait-fine :
      (e : Engine Amount) (diff : DiffEvent Amount) (sleep : Option ℕ)
      → after_wait 𝒟 𝒫 ingest_repo speed e diff fine sleep ≡ (
        record e {
          stream = e.stream ++ message 𝒟 𝒫 ingest_repo speed e diff.event_time e.book ∷ [];
          sleeps = e.sleeps ++ slept sleep;
        },
        none,
      )
  unfolding after_wait publish_book
  after_wait-fine e diff none =
      ap
        (λ sleeps. (
          record e {
            stream = e.stream ++ message 𝒟 𝒫 ingest_repo speed e diff.event_time e.book ∷ [];
            sleeps = sleeps;
          },
          none,
        ))
        (sym (append_nil e.sleeps))
  after_wait-fine e diff (some sleep) = refl

  built :
      (p : Progress Amount) (b : Book Amount) {stream stream' : List (List (String × String))}
      {sleeps sleeps' : List ℕ} {n n' : ℕ}
      → stream ≡ stream'
      → sleeps ≡ sleeps'
      → n ≡ n'
      → record p {
        engine = record p.engine { book = b; stream = stream; sleeps = sleeps };
        published = n;
      }
        ≡ record p {
          engine = record p.engine { book = b; stream = stream'; sleeps = sleeps' };
          published = n';
        }
  built p b e f g = cc (e, f, g)

  loop_lem :
      (outcomes : ℕ → Outcome) (i : ℕ) (p : Progress Amount) (last : Option (DiffEvent Amount))
      (prev : ℕ) (diffs : List (DiffEvent Amount))
      → ((j : ℕ) → outcomes j ≡ fine)
      → Contiguous last diffs
      → replay_loop 𝒟 𝒫 ingest_repo speed outcomes i p last prev diffs ≡ replayed p prev diffs
  unfolding replay_loop
  loop_lem outcomes i p last prev [] ok c = sym (
      built p p.engine.book (append_nil p.engine.stream) (append_nil p.engine.sleeps) (omega arith))
  loop_lem outcomes i p last prev (diff ∷ diffs) ok c =
      let again : Progress Amount → Progress Amount = λ p'.
        replay_loop 𝒟 𝒫 ingest_repo speed outcomes (i + 1) p' (some diff) diff.event_time diffs in
      let e = record p.engine { book = Book.apply 𝒟 p.engine.book diff } in
      let sent = message 𝒟 𝒫 ingest_repo speed e diff.event_time e.book in
      let slept_now = slept (sleep_time speed prev diff.event_time) in
      let p' = record p {
        engine = record e { stream = e.stream ++ sent ∷ []; sleeps = e.sleeps ++ slept_now };
        published = p.published + 1;
      } in
      ap
        (λ g.
          after_diff 𝒟 𝒫 ingest_repo speed again
            (record p { engine = g.0.0; gaps = if g.0.1 then p.gaps + 1 else p.gaps }) (outcomes i)
            (apply_and_publish 𝒟 𝒫 ingest_repo speed g.0.0 diff g.1 (outcomes i)))
        (no_gap p.engine last diff diffs prev c)
      ∙ ap
          (λ o.
            after_diff 𝒟 𝒫 ingest_repo speed again p o
              (apply_and_publish 𝒟 𝒫 ingest_repo speed p.engine diff prev o))
          (ok i)
      ∙ ap (after_diff 𝒟 𝒫 ingest_repo speed again p fine) (
          unfold apply_and_publish in
          after_wait-fine e diff (sleep_time speed prev diff.event_time))
      ∙ unfold after_diff in
        loop_lem outcomes (i + 1) p' (some diff) diff.event_time diffs ok
          (Contiguous-tail last diff diffs c)
        ∙ built p (apply_all 𝒟 e.book diffs)
            (append_assoc e.stream (sent ∷ []) (messages p'.engine e.book diffs))
            (append_assoc e.sleeps slept_now (pauses speed diff.event_time diffs)) (omega arith)

  replayed_lem :
      (outcomes : ℕ → Outcome) (e : Engine Amount) (checkpoint : SnapshotEvent Amount)
      (diffs : List (DiffEvent Amount))
      → ((j : ℕ) → outcomes j ≡ fine)
      → ingest_repo.query_nearest_checkpoint e.cfg.symbol e.cfg.from ≡ some checkpoint
      → ingest_repo.query_diffs e.cfg.symbol checkpoint.captured_at e.cfg.to ≡ some diffs
      → Contiguous none diffs
      → replay 𝒟 𝒫 ingest_repo speed outcomes e
        ≡ replayed
            (started 𝒟 𝒫 ingest_repo speed (reseed 𝒟 𝒫 ingest_repo speed e checkpoint) none)
            0
            diffs
  unfolding replay replay_from replay_diffs reseed
  replayed_lem outcomes e checkpoint diffs ok c d g =
      rw (c, d)
        (loop_lem outcomes 0
          (started 𝒟 𝒫 ingest_repo speed (reseed 𝒟 𝒫 ingest_repo speed e checkpoint) none) none 0
          diffs ok g)

  pub replay-sleeps :
      (outcomes : ℕ → Outcome) (e : Engine Amount) (checkpoint : SnapshotEvent Amount)
      (diffs : List (DiffEvent Amount))
      → ((j : ℕ) → outcomes j ≡ fine)
      → ingest_repo.query_nearest_checkpoint e.cfg.symbol e.cfg.from ≡ some checkpoint
      → ingest_repo.query_diffs e.cfg.symbol checkpoint.captured_at e.cfg.to ≡ some diffs
      → Contiguous none diffs
      → (replay 𝒟 𝒫 ingest_repo speed outcomes e).engine.sleeps ≡ e.sleeps ++ pauses speed 0 diffs
  unfolding reseed
  replay-sleeps outcomes e checkpoint diffs ok c d g =
      ap (λ p. p.engine.sleeps) (replayed_lem outcomes e checkpoint diffs ok c d g)

  pub replay-Contiguous :
      (outcomes : ℕ → Outcome) (e : Engine Amount) (checkpoint : SnapshotEvent Amount)
      (diffs : List (DiffEvent Amount))
      → ((j : ℕ) → outcomes j ≡ fine)
      → ingest_repo.query_nearest_checkpoint e.cfg.symbol e.cfg.from ≡ some checkpoint
      → ingest_repo.query_diffs e.cfg.symbol checkpoint.captured_at e.cfg.to ≡ some diffs
      → Contiguous none diffs
      → let p = replay 𝒟 𝒫 ingest_repo speed outcomes e in
        let start = Book.load_snapshot 𝒟 (Book.reset 𝒟 e.book) checkpoint in
        (p.engine.stream ≡ e.stream ++ messages e start diffs)
        × (p.engine.book ≡ apply_all 𝒟 start diffs)
        × (p.published ≡ length diffs)
        × (p.gaps ≡ 0)
        × (p.error ≡ none)
  unfolding reseed
  replay-Contiguous outcomes e checkpoint diffs ok c d g =
      let whole = replayed_lem outcomes e checkpoint diffs ok c d g in
      (
        ap (λ p. p.engine.stream) whole,
        ap (λ p. p.engine.book) whole,
        ap (λ p. p.published) whole ∙ omega arith,
        ap (λ p. p.gaps) whole,
        ap (λ p. p.error) whole,
      )
