-- ===== src/Ingest/Handler/Tracking.antt =====
-- The update id that the handler keeps and the one that its book keeps
-- (engine/symbol/handler.go, engine/book/book.go).
use erebor.Prelude.{
  ℕ, ◌≡◌, Bool, false, Option, none, some, List, [], ◌∷◌, ◌++◌, drop, arith, not, if_cases,
}
use erebor.Ingest.Domain.{DiffEvent, SnapshotEvent}
use erebor.Ingest.Handler.{
  SymbolState, disconnected, bootstrapping, synced, resyncing, OrderBook, Env, Config, Handler,
  new_handler, start, deliver, try_align, handle_synced, replay, finish_replay, after_search, align,
  advance_bootstrap, dispatch, handle_diff, fetch_returned, run_snapshot_fetch,
  discard_pre_snapshot, find_alignment_index,
}
use erebor.Ingest.Handler.Reach.{Step, diff, fetched, Reach, here, next}

module _ {A : Type 0} (O : OrderBook A)
    (applies : (book : O.Self) (ev : DiffEvent A)
      → O.last_update_id (O.apply book ev).0 ≡ ev.final_update_id)
    (loads : (book : O.Self) (snap : SnapshotEvent A)
      → O.last_update_id (O.load_snapshot book snap) ≡ snap.last_update_id) where
  abbrev TracksSynced : Handler O → Type 0
  TracksSynced h = h.state ≡ synced → O.last_update_id h.book ≡ h.last_final_update_id

  deliver_tracks :
      (env : Env) (h : Handler O) (ev : DiffEvent A)
      → let d = deliver O env h (O.apply h.book ev).0 ev in
        O.last_update_id d.book ≡ d.last_final_update_id
  unfolding deliver
  deliver_tracks env h ev = ground (arith, applies h.book ev)

  replay-TracksSynced :
      (env : Env) (h : Handler O) (evs : List (DiffEvent A))
      → O.last_update_id h.book ≡ h.last_final_update_id
      → TracksSynced (finish_replay O env (replay O env h evs))
  unfolding replay
  replay-TracksSynced env h [] t = λ s. t
  replay-TracksSynced env h (ev ∷ evs) t =
      if_cases (λ r. TracksSynced (finish_replay O env r)) (not (O.apply h.book ev).1)
        (λ e. ground arith)
        (λ e.
          replay-TracksSynced env (deliver O env h (O.apply h.book ev).0 ev) evs
            (deliver_tracks env h ev))

  after_search-TracksSynced :
      (env : Env) (h : Handler O) (snap : SnapshotEvent A) (i : Option ℕ)
      → TracksSynced h
      → TracksSynced (after_search O env h snap i)
  unfolding after_search
  after_search-TracksSynced env h snap none t = ground arith
  after_search-TracksSynced env h snap (some i) t =
      replay-TracksSynced env
        (record h {
          book = O.load_snapshot (O.reset h.book) snap;
          last_final_update_id = snap.last_update_id;
        })
        (drop i h.buffer) (loads (O.reset h.book) snap)

  align-TracksSynced :
      (env : Env) (h : Handler O) (o : Option (SnapshotEvent A))
      → TracksSynced h
      → TracksSynced (align O env h o)
  unfolding align
  align-TracksSynced env h none t = t
  align-TracksSynced env h (some snap) t =
      let kept = record h { buffer = discard_pre_snapshot h.buffer snap.last_update_id } in
      after_search-TracksSynced env kept snap (find_alignment_index kept.buffer snap.last_update_id)
        t

  advance_bootstrap-TracksSynced :
      (env : Env) (h : Handler O) (o : Option (SnapshotEvent A))
      → TracksSynced h
      → TracksSynced (advance_bootstrap O env h o)
  unfolding advance_bootstrap try_align
  advance_bootstrap-TracksSynced env h none t = ground arith
  advance_bootstrap-TracksSynced env h (some snap) t = align-TracksSynced env h h.snapshot t

  handle_synced-TracksSynced :
      (env : Env) (h : Handler O) (ev : DiffEvent A) → TracksSynced (handle_synced O env h ev)
  unfolding handle_synced
  handle_synced-TracksSynced env h ev = ground (arith, applies h.book ev)

  dispatch-TracksSynced :
      (state : SymbolState) (env : Env) (h : Handler O) (ev : DiffEvent A)
      → TracksSynced h
      → TracksSynced (dispatch O state env h ev)
  unfolding dispatch
  dispatch-TracksSynced disconnected env h ev t = ground arith
  dispatch-TracksSynced bootstrapping env h ev t =
      advance_bootstrap-TracksSynced env (record h { buffer = h.buffer ++ ev ∷ [] }) h.snapshot t
  dispatch-TracksSynced synced env h ev t = handle_synced-TracksSynced env h ev
  dispatch-TracksSynced resyncing env h ev t = t

  fetch_returned-TracksSynced :
      (env : Env) (h : Handler O) (o : Option (SnapshotEvent A))
      → TracksSynced h
      → TracksSynced (fetch_returned O env h o)
  unfolding fetch_returned try_align
  fetch_returned-TracksSynced env h none t = ground arith
  fetch_returned-TracksSynced env h (some snap) t =
      if_cases TracksSynced h.snapshot_stale (λ e. ground arith)
        (λ e. align-TracksSynced env (record h { snapshot = some snap }) (some snap) t)

  Step-TracksSynced :
      (P : Env → Type 0) {h k : Handler O} → Step O P h k → TracksSynced h → TracksSynced k
  unfolding handle_diff run_snapshot_fetch
  Step-TracksSynced P {h = h} (diff env ev p) t = dispatch-TracksSynced h.state env h ev t
  Step-TracksSynced P {h = h} (fetched env result p f) t =
      fetch_returned-TracksSynced env (record h { snapshot_pending = false }) result t

  Reach-TracksSynced :
      (P : Env → Type 0) {h k : Handler O} → Reach O P h k → TracksSynced h → TracksSynced k
  Reach-TracksSynced P here t = t
  Reach-TracksSynced P (next r s) t = Step-TracksSynced P s (Reach-TracksSynced P r t)

  -- For a book whose `apply` takes over the final id of the diff and whose `load_snapshot` takes
  -- over that of the snapshot: after any diffs and any returned fetches, the book of a
  -- synchronised handler carries the update id that the handler expects the stream to go on from.
  pub synced_book_id :
      (P : Env → Type 0) (cfg : Config) (book : O.Self) (publishes : Bool) {h : Handler O}
      → Reach O P (start O (new_handler O cfg book publishes)) h
      → h.state ≡ synced
      → O.last_update_id h.book ≡ h.last_final_update_id
  synced_book_id P cfg book publishes r =
      Reach-TracksSynced P r (unfold start new_handler in λ s. ground (arith, s))
