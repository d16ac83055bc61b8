-- ===== src/Ingest/Handler.antt =====
-- engine/symbol/handler.go and state.go: the handler of one symbol, from the first diff through
-- the bootstrap to the synchronised stream.
--
-- The lock makes `HandleDiff` and the locked part of `runSnapshotFetch` one step each. A call of
-- the publisher, the repository or the fetcher is an entry of `calls`, newest first; what the
-- outside answers stands in `Env`. `fetches_in_flight` is the counter of `bootstrapG`. A step
-- reads the clock once; a configured number that is not positive is 0; the counter of diffs has
-- no bound, since each checkpoint resets it. Log lines are left out.
pub mod Replay
pub mod Invariant
pub mod Reach
pub mod Sequence
pub mod Alignment
pub mod Staleness
pub mod Tracking
use erebor.Prelude.{
  ℕ, ◌+◌, ◌-◌, Bool, true, false, not, ◌&&◌, ◌||◌, Option, none, some, String, List, [], ◌∷◌, ◌++◌,
  if◌then◌else◌, ltb, leb, ◌==◌, length, drop,
}
use erebor.Prelude.Int.{ℤ, pos, inc64, eqb_ℤ}
use erebor.Ingest.Domain.{DiffEvent, SnapshotEvent, PriceLevel}
pub use erebor.Ingest.Symbol.{
  SymbolState, disconnected, bootstrapping, synced, resyncing, Config, OrderBook, Call,
  fetch_snapshot, publish_l2, write_diff, write_checkpoint, Env, is_bootstrapping, aligns,
}
unfoldable pub use erebor.Ingest.Symbol.{with_defaults, discard_pre_snapshot, find_alignment_index}

module _ {A : Type 0} (O : OrderBook A) where
  pub record Handler : Type 0 where
    pub cfg : Config
    pub book : O.Self
    pub publishes : Bool
    pub has_ctx : Bool
    pub state : SymbolState
    pub buffer : List (DiffEvent A)
    pub snapshot : Option (SnapshotEvent A)
    pub snapshot_pending : Bool
    pub snapshot_stale : Bool
    pub last_final_update_id : ℤ
    pub last_checkpoint_time : ℕ
    pub diffs_since_checkpoint : ℕ
    pub fetches_in_flight : ℕ
    pub calls : List (Call A)

  unfoldable pub new_handler : Config → O.Self → Bool → Handler
  unfolding with_defaults
  new_handler cfg book publishes = record {
    cfg = with_defaults cfg;
    book = book;
    publishes = publishes;
    has_ctx = false;
    state = disconnected;
    buffer = [];
    snapshot = none;
    snapshot_pending = false;
    snapshot_stale = false;
    last_final_update_id = pos 0;
    last_checkpoint_time = 0;
    diffs_since_checkpoint = 0;
    fetches_in_flight = 0;
    calls = [];
  }

  unfoldable pub start : Handler → Handler
  start h = record h { has_ctx = true }

  abbrev pub transition : Handler → SymbolState → Handler
  transition h to = record h { state = to }

  abbrev pub buffer_event : Handler → DiffEvent A → Handler
  buffer_event h event = record h { buffer = h.buffer ++ event ∷ [] }

  unfoldable pub kickoff_snapshot : Handler → Handler
  kickoff_snapshot h = if h.snapshot_pending then h else record h {
    snapshot_pending = true;
    fetches_in_flight = h.fetches_in_flight + 1;
    calls = fetch_snapshot h.cfg.depth_limit ∷ h.calls;
  }

  unfoldable pub publish_l2_locked : Env → Handler → DiffEvent A → Handler
  publish_l2_locked env h event =
      let snap = O.snapshot h.book h.cfg.depth_limit env.now in
      if h.publishes
      then record h {
        calls = publish_l2 event.event_time event.final_update_id snap.bids snap.asks ∷ h.calls;
      }
      else h

  unfoldable pub should_checkpoint : Env → Handler → Bool
  should_checkpoint env h =
      leb h.cfg.checkpoint_diff_threshold h.diffs_since_checkpoint
      || (not (h.last_checkpoint_time == 0)
          && leb h.cfg.checkpoint_interval (env.now - h.last_checkpoint_time))

  unfoldable pub enter_resync : Handler → DiffEvent A → Handler
  unfolding kickoff_snapshot
  enter_resync h pending = kickoff_snapshot (
      transition
        (record (transition h resyncing) {
          book = O.reset h.book;
          last_final_update_id = pos 0;
          diffs_since_checkpoint = 0;
          last_checkpoint_time = 0;
          buffer = pending ∷ [];
          snapshot = none;
        })
        bootstrapping)

  -- The tail of `handleSyncedLocked`.
  unfoldable pub checkpoint : Env → Handler → Handler
  checkpoint env h =
      let snap = O.snapshot h.book h.cfg.depth_limit env.now in
      let tried = record h { calls = write_checkpoint snap ∷ h.calls } in
      if env.checkpoint_ok
      then record tried { last_checkpoint_time = env.now; diffs_since_checkpoint = 0 }
      else tried

  -- What both the synchronised stream and the replay do with an event that the book took.
  unfoldable pub deliver : Env → Handler → O.Self → DiffEvent A → Handler
  unfolding publish_l2_locked
  deliver env h book event =
      let published =
        publish_l2_locked env
          (record h { book = book; last_final_update_id = event.final_update_id }) event in
      record published { calls = write_diff event ∷ published.calls }

  unfoldable pub handle_synced : Env → Handler → DiffEvent A → Handler
  unfolding enter_resync deliver should_checkpoint checkpoint
  handle_synced env h event =
      let (book, applied) = O.apply h.book event in
      let delivered = deliver env h book event in
      let counted = record delivered {
        diffs_since_checkpoint = delivered.diffs_since_checkpoint + 1;
      } in
      if not (eqb_ℤ event.first_update_id (inc64 h.last_final_update_id))
      then enter_resync h event
      else if not applied
      then enter_resync (record h { book = book }) event
      else if should_checkpoint env counted
      then checkpoint env counted
      else counted

  -- The loop of `replayAlignedBufferLocked`, which returns early if the book refuses an event; a
  -- gap between replayed events is only logged.
  unfoldable pub replay : Env → Handler → List (DiffEvent A) → Handler × Bool
  unfolding kickoff_snapshot deliver
  replay env h [] = (h, true)
  replay env h (ev ∷ evs) =
      let (book, applied) = O.apply h.book ev in
      let rest = replay env (deliver env h book ev) evs in
      let dropped = record h {
        buffer = [];
        snapshot = none;
        state = resyncing;
        book = O.reset book;
      } in
      if not applied then (kickoff_snapshot (transition dropped bootstrapping), false) else rest

  -- The assignments after the loop.
  abbrev pub finish_replay : Env → Handler × Bool → Handler
  finish_replay env (h, false) = h
  finish_replay env (h, true) = record h {
    buffer = [];
    snapshot = none;
    last_checkpoint_time = env.now;
    diffs_since_checkpoint = 0;
    state = synced;
  }

  unfoldable pub replay_aligned_buffer : Env → Handler → ℕ → SnapshotEvent A → Handler
  unfolding replay
  replay_aligned_buffer env h align_idx snap =
      let loaded = record h {
        book = O.load_snapshot (O.reset h.book) snap;
        last_final_update_id = snap.last_update_id;
      } in
      finish_replay env (replay env loaded (drop align_idx h.buffer))

  -- `tryAlignLocked` once the buffer has been searched.
  unfoldable pub after_search : Env → Handler → SnapshotEvent A → Option ℕ → Handler
  unfolding kickoff_snapshot replay_aligned_buffer
  after_search env h snap (some align_idx) = replay_aligned_buffer env h align_idx snap
  after_search env h snap none =
      if ltb h.cfg.max_buffer_size (length h.buffer)
      then kickoff_snapshot (record h { buffer = []; snapshot = none })
      else h

  unfoldable pub align : Env → Handler → Option (SnapshotEvent A) → Handler
  unfolding after_search
  align env h none = h
  align env h (some snap) =
      let kept = record h { buffer = discard_pre_snapshot h.buffer snap.last_update_id } in
      after_search env kept snap (find_alignment_index kept.buffer snap.last_update_id)

  unfoldable pub try_align : Env → Handler → Handler
  unfolding align
  try_align env h = align env h h.snapshot

  -- The overflow branch of `HandleDiff`.
  unfoldable pub overflow : Handler → Handler
  unfolding kickoff_snapshot
  overflow h =
      let emptied = record h { buffer = []; snapshot = none } in
      if h.snapshot_pending
      then record emptied { snapshot_stale = true }
      else kickoff_snapshot emptied

  -- The case Bootstrapping of `HandleDiff` after the event is buffered, by `h.snapshot`.
  unfoldable pub advance_bootstrap : Env → Handler → Option (SnapshotEvent A) → Handler
  unfolding try_align overflow
  advance_bootstrap env h (some snap) = try_align env h
  advance_bootstrap env h none =
      if ltb h.cfg.max_buffer_size (length h.buffer) then overflow h else h

  unfoldable pub handle_bootstrapping : Env → Handler → DiffEvent A → Handler
  unfolding advance_bootstrap
  handle_bootstrapping env h event =
      let buffered = buffer_event h event in advance_bootstrap env buffered buffered.snapshot

  -- The switch of `HandleDiff`.
  unfoldable pub dispatch : SymbolState → Env → Handler → DiffEvent A → Handler
  unfolding kickoff_snapshot handle_bootstrapping handle_synced
  dispatch disconnected env h event =
      buffer_event (kickoff_snapshot (transition h bootstrapping)) event
  dispatch bootstrapping env h event = handle_bootstrapping env h event
  dispatch synced env h event = handle_synced env h event
  dispatch resyncing env h event = buffer_event h event

  unfoldable pub handle_diff : Env → Handler → DiffEvent A → Handler
  unfolding dispatch
  handle_diff env h event = dispatch h.state env h event

  unfoldable pub handle_snapshot_error : Env → Handler → Handler
  unfolding kickoff_snapshot
  handle_snapshot_error env h =
      if h.has_ctx && env.cancelled
      then h
      else if is_bootstrapping h.state
      then kickoff_snapshot h
      else h

  -- `runSnapshotFetch` once the fetch has returned; `none` is an error.
  unfoldable pub fetch_returned : Env → Handler → Option (SnapshotEvent A) → Handler
  unfolding handle_snapshot_error kickoff_snapshot try_align
  fetch_returned env h none = handle_snapshot_error env h
  fetch_returned env h (some snap) =
      let fresh = record h { snapshot_stale = false } in
      if h.snapshot_stale
      then (if is_bootstrapping h.state then kickoff_snapshot fresh else fresh)
      else try_align env (record h { snapshot = some snap })

  unfoldable pub run_snapshot_fetch : Env → Handler → Option (SnapshotEvent A) → Handler
  unfolding fetch_returned
  run_snapshot_fetch env h result =
      let done = fetch_returned env (record h { snapshot_pending = false }) result in
      record done { fetches_in_flight = done.fetches_in_flight - 1 }
