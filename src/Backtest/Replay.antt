-- ===== src/Backtest/Replay.antt =====
-- engine/backtest/replay: the replay of one symbol from the ingest tables (engine.go) at a
-- configured speed (speed.go). What the world does during one diff is an `Outcome`. `stream`
-- holds the published book updates, `sleeps` the pauses and `data_gaps` the gaps that are
-- announced and written (errors of which are only logged), oldest first. `Book.Apply` never
-- fails, so no diff is skipped.
pub mod Clock
pub mod Books
pub mod Recorded
pub mod Pacing
pub mod Gaps
use erebor.Prelude.{
  ℕ, ◌+◌, ◌-◌, Bool, true, false, ◌||◌, Option, none, some, String, List, [], ◌∷◌, ◌++◌,
  if◌then◌else◌, leb, ◌==◌,
}
use erebor.Prelude.Int.{eqb_ℤ, inc64}
use erebor.Decimal.{Decimal}
use erebor.Platform.{Platform}
use erebor.Ingest.Domain.{DiffEvent, SnapshotEvent}
use erebor.Ingest.Book
use erebor.Ingest.Book.{Book, snapshot, reset, load_snapshot}
use erebor.Ingest.Repository.{Repository}
use erebor.Wire.Books.{publish}

pub data SpeedMode : Type 0 where
  afap nx wall_clock : SpeedMode
  -- Any other string.
  other_mode : SpeedMode

-- `scaled` divides a duration by the speed factor, a floating-point number.
pub record SpeedController : Type 0 where
  pub mode : SpeedMode
  pub scaled : ℕ → ℕ

abbrev pub is_afap : SpeedMode → Bool
is_afap afap = true
is_afap nx = false
is_afap wall_clock = false
is_afap other_mode = false

abbrev pub paced : SpeedController → ℕ → ℕ
paced sc delta = elim sc.mode [
  | afap ↦ 0
  | nx ↦ sc.scaled delta
  | wall_clock ↦ delta
  | other_mode ↦ 0
]

-- How long `Wait` sleeps; `none` if it returns at once.
unfoldable pub sleep_time : SpeedController → ℕ → ℕ → Option ℕ
sleep_time sc prev_event_time curr_event_time =
    if is_afap sc.mode || prev_event_time == 0
    then none
    else if leb curr_event_time prev_event_time
    then none
    else some (paced sc (curr_event_time - prev_event_time))

-- Whether the context ends a sleep, XADD succeeds, and the context is cancelled afterwards.
pub record Outcome : Type 0 where
  pub interrupted : Bool
  pub publish_ok : Bool
  pub cancelled : Bool

pub data ReplayError : Type 0 where
  seek_checkpoint query_failed wait_interrupted publish_failed context_done : ReplayError

pub record EngineConfig : Type 0 where
  pub run_id : String
  pub symbol : String
  pub from : ℕ
  pub to : ℕ
  pub depth : ℕ

pub record Engine (A : Type 0) : Type 0 where
  pub cfg : EngineConfig
  pub book : Book A
  pub stream : List (List (String × String))
  pub sleeps : List ℕ
  pub data_gaps : List (ℕ × ℕ)

-- What `replay` returns, with the engine.
pub record Progress (A : Type 0) : Type 0 where
  pub engine : Engine A
  pub published : ℕ
  pub gaps : ℕ
  pub error : Option ReplayError

module _ (𝒟 : Decimal) (𝒫 : Platform) (ingest_repo : Repository 𝒟.Amount)
    (speed : SpeedController) where
  open 𝒟 use {Amount}

  unfoldable pub reseed : Engine Amount → SnapshotEvent Amount → Engine Amount
  reseed e checkpoint = record e { book = load_snapshot 𝒟 (reset 𝒟 e.book) checkpoint }

  -- `handleGap`: whether the book was reseeded.
  unfoldable pub handle_gap : Engine Amount → ℕ → ℕ → Engine Amount × Bool
  unfolding reseed
  handle_gap e gap_from gap_to =
      let e' = record e { data_gaps = e.data_gaps ++ (gap_from, gap_to) ∷ [] } in
      elim (ingest_repo.query_nearest_checkpoint e.cfg.symbol gap_to) [
        | some checkpoint ↦ (reseed e' checkpoint, true)
        | none ↦ (e', false)
      ]

  -- By the diff before this one, if there is one.
  unfoldable pub maybe_handle_gap :
      Engine Amount → Option (DiffEvent Amount) → DiffEvent Amount → ℕ → (Engine Amount × Bool) × ℕ
  unfolding handle_gap
  maybe_handle_gap e none diff prev_event_time = ((e, false), prev_event_time)
  maybe_handle_gap e (some last) diff prev_event_time =
      let (e', reseeded) = handle_gap e last.event_time diff.event_time in
      if eqb_ℤ diff.first_update_id (inc64 last.final_update_id)
      then ((e, false), prev_event_time)
      else ((e', true), (if reseeded then 0 else prev_event_time))

  -- Snapshot's clock reading is not used.
  abbrev pub message : Engine Amount → ℕ → Book Amount → List (String × String)
  message e event_time b =
      let snap = snapshot 𝒟 b e.cfg.depth 0 in
      publish 𝒟 𝒫 e.cfg.run_id e.cfg.symbol event_time snap.last_update_id snap.bids snap.asks

  unfoldable pub publish_book :
      Engine Amount → DiffEvent Amount → Bool → Engine Amount × Option ReplayError
  publish_book e diff publish_ok =
      if publish_ok
      then (record e { stream = e.stream ++ message e diff.event_time e.book ∷ [] }, none)
      else (e, some publish_failed)

  -- By how long `Wait` sleeps.
  unfoldable pub after_wait :
      Engine Amount → DiffEvent Amount → Outcome → Option ℕ → Engine Amount × Option ReplayError
  unfolding publish_book
  after_wait e diff o none = publish_book e diff o.publish_ok
  after_wait e diff o (some sleep) =
      if o.interrupted
      then (e, some wait_interrupted)
      else publish_book (record e { sleeps = e.sleeps ++ sleep ∷ [] }) diff o.publish_ok

  unfoldable pub apply_and_publish :
      Engine Amount → DiffEvent Amount → ℕ → Outcome → Engine Amount × Option ReplayError
  unfolding after_wait sleep_time
  apply_and_publish e diff prev_event_time o =
      after_wait (record e { book = Book.apply 𝒟 e.book diff }) diff o
        (sleep_time speed prev_event_time diff.event_time)

  -- The rest of an iteration and, unless it ends the loop, the next ones.
  unfoldable pub after_diff :
      (Progress Amount → Progress Amount)
      → Progress Amount
      → Outcome
      → Engine Amount × Option ReplayError
      → Progress Amount
  after_diff again p o (e, some err) = record p { engine = e; error = some err }
  after_diff again p o (e, none) = elim o.cancelled [
    | true ↦ record p { engine = e; published = p.published + 1; error = some context_done }
    | false ↦ again (record p { engine = e; published = p.published + 1 })
  ]

  -- The loop of `replay`, from the diff number `i` on.
  unfoldable pub replay_loop :
      (ℕ → Outcome)
      → ℕ
      → Progress Amount
      → Option (DiffEvent Amount)
      → ℕ
      → List (DiffEvent Amount)
      → Progress Amount
  unfolding maybe_handle_gap apply_and_publish after_diff
  replay_loop outcomes i p last prev_event_time [] = p
  replay_loop outcomes i p last prev_event_time (diff ∷ diffs) =
      let ((e, gap_found), prev) = maybe_handle_gap p.engine last diff prev_event_time in
      after_diff (λ p'. replay_loop outcomes (i + 1) p' (some diff) diff.event_time diffs)
        (record p { engine = e; gaps = (if gap_found then p.gaps + 1 else p.gaps) }) (outcomes i)
        (apply_and_publish e diff prev (outcomes i))

  abbrev pub started : Engine Amount → Option ReplayError → Progress Amount
  started e error = record { engine = e; published = 0; gaps = 0; error = error }

  -- By the answer of `QueryDiffs`.
  unfoldable pub replay_diffs :
      (ℕ → Outcome) → Engine Amount → Option (List (DiffEvent Amount)) → Progress Amount
  unfolding replay_loop
  replay_diffs outcomes e none = started e (some query_failed)
  replay_diffs outcomes e (some diffs) = replay_loop outcomes 0 (started e none) none 0 diffs

  -- By the answer of `QueryNearestCheckpoint`.
  unfoldable pub replay_from :
      (ℕ → Outcome) → Engine Amount → Option (SnapshotEvent Amount) → Progress Amount
  unfolding reseed replay_diffs
  replay_from outcomes e none = started e (some seek_checkpoint)
  replay_from outcomes e (some checkpoint) =
      replay_diffs outcomes (reseed e checkpoint)
        (ingest_repo.query_diffs e.cfg.symbol checkpoint.captured_at e.cfg.to)

  unfoldable pub replay : (ℕ → Outcome) → Engine Amount → Progress Amount
  unfolding replay_from
  replay outcomes e =
      replay_from outcomes e (ingest_repo.query_nearest_checkpoint e.cfg.symbol e.cfg.from)
