-- ===== src/Backtest/Replay/Clock.antt =====
-- The logical clock of a replay (engine/backtest/replay/engine.go), whatever fails.
use erebor.Prelude.{
  ℕ, suc, ◌+◌, ◌≡◌, refl, sym, ap, ◌∙◌, Bool, true, false, Option, none, some, String, List, [],
  ◌∷◌, ◌++◌, map, append_nil, append_assoc, length, take, if◌then◌else◌, arith, if_cases,
}
use erebor.Prelude.Assoc.{lookup}
use erebor.Decimal.{Decimal}
use erebor.Platform.{Platform}
use erebor.Ingest.Domain.{DiffEvent, SnapshotEvent}
use erebor.Ingest.Book
use erebor.Ingest.Repository.{Repository}
use erebor.Wire.{string_val}
use erebor.Wire.Books.{publish}
use erebor.Backtest.Replay.{
  SpeedController, sleep_time, Outcome, ReplayError, context_done, Engine, Progress, reseed,
  handle_gap, maybe_handle_gap, publish_book, after_wait, apply_and_publish, after_diff,
  replay_loop, started, replay_diffs, replay_from, replay,
}

-- The event times of messages.
abbrev pub times : List (List (String × String)) → List String
times messages = map (λ values. string_val values "event_time") messages

times-append : (ms ns : List (List (String × String))) → times (ms ++ ns) ≡ times ms ++ times ns
times-append [] ns = refl
times-append (m ∷ ms) ns = ap (λ ts. string_val m "event_time" ∷ ts) (times-append ms ns)

module _ (𝒟 : Decimal) (𝒫 : Platform) (ingest_repo : Repository 𝒟.Amount)
    (speed : SpeedController) where
  open 𝒟 use {Amount}

  abbrev pub clock : List (DiffEvent Amount) → List String
  clock diffs = map (λ d. 𝒫.format_time d.event_time) diffs

  -- From `p` to `p'` some of the diffs were published, the first ones in order, and all of them
  -- if there is no error.
  pub record Advances (p : Progress Amount) (diffs : List (DiffEvent Amount)) (p' : Progress Amount)
      : Type 0 where
    pub sent : ℕ
    pub published_lem : p'.published ≡ p.published + sent
    pub times_lem : times p'.engine.stream ≡ times p.engine.stream ++ take sent (clock diffs)
    pub complete : p'.error ≡ none → sent ≡ length diffs

  abbrev Sent : List String → DiffEvent Amount → Engine Amount × Option ReplayError → Type 0
  Sent before diff (e, none) = times e.stream ≡ before ++ 𝒫.format_time diff.event_time ∷ []
  Sent before diff (e, some err) = times e.stream ≡ before

  publish_book-Sent :
      (e : Engine Amount) (diff : DiffEvent Amount) (ok : Bool)
      → Sent (times e.stream) diff (publish_book 𝒟 𝒫 ingest_repo speed e diff ok)
  unfolding publish_book publish lookup
  publish_book-Sent e diff true = times-append e.stream _
  publish_book-Sent e diff false = refl

  after_wait-Sent :
      (e : Engine Amount) (diff : DiffEvent Amount) (o : Outcome) (sleep : Option ℕ)
      → Sent (times e.stream) diff (after_wait 𝒟 𝒫 ingest_repo speed e diff o sleep)
  unfolding after_wait
  after_wait-Sent e diff o none = publish_book-Sent e diff o.publish_ok
  after_wait-Sent e diff o (some sleep) =
      if_cases (Sent (times e.stream) diff) o.interrupted (λ _. refl)
        (λ _. publish_book-Sent (record e { sleeps = e.sleeps ++ sleep ∷ [] }) diff o.publish_ok)

  stream-maybe_handle_gap :
      (e : Engine Amount) (last : Option (DiffEvent Amount)) (diff : DiffEvent Amount) (prev : ℕ)
      → (maybe_handle_gap 𝒟 𝒫 ingest_repo speed e last diff prev).0.0.stream ≡ e.stream
  unfolding maybe_handle_gap handle_gap reseed
  stream-maybe_handle_gap e none diff prev = refl
  stream-maybe_handle_gap e (some last) diff prev = ground arith

  after_diff-Advances :
      (again : Progress Amount → Progress Amount) (p : Progress Amount) (diff : DiffEvent Amount)
      (diffs : List (DiffEvent Amount)) (o : Outcome) (r : Engine Amount × Option ReplayError)
      → Sent (times p.engine.stream) diff r
      → ((p1 : Progress Amount) → Advances p1 diffs (again p1))
      → Advances p (diff ∷ diffs) (after_diff 𝒟 𝒫 ingest_repo speed again p o r)
  unfolding after_diff
  after_diff-Advances again p diff diffs o (e, some err) s h = record {
    sent = 0;
    published_lem = omega arith;
    times_lem = s ∙ sym (append_nil _);
    complete = λ n. ground (arith, n);
  }
  after_diff-Advances again p diff diffs o (e, none) s h = split o.cancelled
    where
      next : Progress Amount
      next = record p { engine = e; published = p.published + 1 }

      split :
          (c : Bool)
          → Advances p (diff ∷ diffs) (elim c [
            | true ↦ record p { engine = e; published = p.published + 1; error = some context_done }
            | false ↦ again (record p { engine = e; published = p.published + 1 })
          ])
      split true = record {
        sent = 1;
        published_lem = refl;
        times_lem = s;
        complete = λ n. ground (arith, n);
      }
      split false =
          let r = h next in
          record {
            sent = suc r.sent;
            published_lem = omega (arith, r.published_lem);
            times_lem =
                r.times_lem
                ∙ ap (λ ts. ts ++ take r.sent (clock diffs)) s
                ∙ append_assoc (times p.engine.stream) (𝒫.format_time diff.event_time ∷ [])
                    (take r.sent (clock diffs));
            complete = λ n. ap suc (r.complete n);
          }

  replay_loop-Advances :
      (outcomes : ℕ → Outcome) (i : ℕ) (p : Progress Amount) (last : Option (DiffEvent Amount))
      (prev : ℕ) (diffs : List (DiffEvent Amount))
      → Advances p diffs (replay_loop 𝒟 𝒫 ingest_repo speed outcomes i p last prev diffs)
  unfolding replay_loop
  replay_loop-Advances outcomes i p last prev [] = record {
    sent = 0;
    published_lem = omega arith;
    times_lem = sym (append_nil _);
    complete = λ n. refl;
  }
  replay_loop-Advances outcomes i p last prev (diff ∷ diffs) =
      let gap = maybe_handle_gap 𝒟 𝒫 ingest_repo speed p.engine last diff prev in
      let q = record p { engine = gap.0.0; gaps = if gap.0.1 then p.gaps + 1 else p.gaps } in
      let r =
        after_diff-Advances
          (λ p'.
            replay_loop 𝒟 𝒫 ingest_repo speed outcomes (i + 1) p' (some diff) diff.event_time diffs)
          q diff diffs (outcomes i)
          (apply_and_publish 𝒟 𝒫 ingest_repo speed gap.0.0 diff gap.1 (outcomes i))
          (unfold apply_and_publish in
            after_wait-Sent (record gap.0.0 { book = Book.apply 𝒟 gap.0.0.book diff }) diff
              (outcomes i) (sleep_time speed gap.1 diff.event_time))
          (λ p1. replay_loop-Advances outcomes (i + 1) p1 (some diff) diff.event_time diffs) in
      record {
        sent = r.sent;
        published_lem = r.published_lem;
        times_lem =
            r.times_lem
            ∙ ap (λ m. times m ++ take r.sent (clock (diff ∷ diffs)))
                (stream-maybe_handle_gap p.engine last diff prev);
        complete = r.complete;
      }

  -- A replay that gets a checkpoint and diffs publishes one message for each of the first diffs,
  -- in their order and each with its diff's event time, through gaps and reseeds, whatever
  -- fails; and one for every diff if it ends without an error.
  pub replay-Advances :
      (outcomes : ℕ → Outcome) (e : Engine Amount) (checkpoint : SnapshotEvent Amount)
      (diffs : List (DiffEvent Amount))
      → ingest_repo.query_nearest_checkpoint e.cfg.symbol e.cfg.from ≡ some checkpoint
      → ingest_repo.query_diffs e.cfg.symbol checkpoint.captured_at e.cfg.to ≡ some diffs
      → Advances
          (started 𝒟 𝒫 ingest_repo speed e none)
          diffs
          (replay 𝒟 𝒫 ingest_repo speed outcomes e)
  unfolding replay replay_from replay_diffs reseed
  replay-Advances outcomes e checkpoint diffs c d =
      rw (c, d)
        (kept (
          replay_loop-Advances outcomes 0
            (started 𝒟 𝒫 ingest_repo speed (reseed 𝒟 𝒫 ingest_repo speed e checkpoint) none) none 0
            diffs))
    where
      kept :
          {p' : Progress Amount}
          → Advances
              (started 𝒟 𝒫 ingest_repo speed (reseed 𝒟 𝒫 ingest_repo speed e checkpoint) none)
              diffs
              p'
          → Advances (started 𝒟 𝒫 ingest_repo speed e none) diffs p'
      kept r = record {
        sent = r.sent;
        published_lem = r.published_lem;
        times_lem = r.times_lem;
        complete = r.complete;
      }
