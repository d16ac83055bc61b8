-- ===== src/Ingest/Handler/Invariant.antt =====
-- What holds of a handler (engine/symbol/handler.go) between two steps.
use erebor.Prelude.{
  ℕ, ◌+◌, ◌-◌, ◌≤◌, ◌<◌, ◌≡◌, refl, Bool, true, false, Option, none, some, [], ◌∷◌, if◌then◌else◌,
  arith, ◌⊎◌, inl, inr, length, length-append, if_cases, sym, drop, ◌++◌,
}
use mathlib.Core.Path.{subst}
use erebor.Ingest.Domain.{DiffEvent, SnapshotEvent}
use erebor.Ingest.Handler.{
  SymbolState, disconnected, bootstrapping, synced, resyncing, OrderBook, Env, Handler, Config,
  new_handler, start, align, handle_synced, advance_bootstrap, dispatch, fetch_returned,
  after_search, handle_diff, run_snapshot_fetch, discard_pre_snapshot, find_alignment_index,
  finish_replay, with_defaults,
}
use erebor.Ingest.Handler.Replay.{Keeps, Restarts, deliver-Keeps, replay-outcome}

abbrev pub is_some {ℓ} : {A : Type ℓ} → Option A → Bool
is_some none = false
is_some (some a) = true

module _ {A : Type 0} (O : OrderBook A) where
  -- The fetches in flight are the pending one and `extra`, which is 1 while the fetch that has
  -- returned is still counted.
  pub record Inv (extra : ℕ) (h : Handler O) : Type 0 where
    pub single_flight : h.fetches_in_flight ≡ (if h.snapshot_pending then 1 else 0) + extra
    pub settled : h.state ≡ resyncing → ⊥
    pub unstarted : h.state ≡ disconnected → (h.snapshot_pending ≡ false) × (length h.buffer ≡ 0)
    pub held : is_some h.snapshot ≡ true → (h.state ≡ bootstrapping) × (h.snapshot_pending ≡ false)
    pub drained : h.state ≡ synced → (length h.buffer ≡ 0) × (h.snapshot_pending ≡ false)
    pub stale_waits :
        h.snapshot_stale ≡ true → (h.state ≡ bootstrapping) × (is_some h.snapshot ≡ false)
    pub room : 0 < h.cfg.max_buffer_size
    pub bounded : length h.buffer ≤ h.cfg.max_buffer_size

  pub start-Inv :
      (cfg : Config) (book : O.Self) (publishes : Bool)
      → Inv 0 (start O (new_handler O cfg book publishes))
  unfolding start new_handler with_defaults
  start-Inv cfg book publishes = ground arith

  -- The state before an alignment is tried: a snapshot is there, or has just come.
  record CanAlign (h : Handler O) : Type 0 where
    single_flight : h.snapshot_pending ≡ false
    bootstraps : h.state ≡ bootstrapping
    fresh : h.snapshot_stale ≡ false
    room : 0 < h.cfg.max_buffer_size

  finish_replay-Inv :
      (extra : ℕ) (env : Env) (h : Handler O) (r : Handler O × Bool)
      → CanAlign h
      → h.fetches_in_flight ≡ extra
      → ((r.1 ≡ true) × Keeps O h r.0) ⊎ ((r.1 ≡ false) × Restarts O h r.0)
      → Inv extra (finish_replay O env r)
  finish_replay-Inv extra env h (g, true) c e (inl (done, k)) = ground arith
  finish_replay-Inv extra env h (g, true) c e (inr (stopped, k)) = cc
  finish_replay-Inv extra env h (g, false) c e (inl (done, k)) = cc
  finish_replay-Inv extra env h (g, false) c e (inr (stopped, k)) = ground arith

  after_search-Inv :
      (extra : ℕ) (env : Env) (h : Handler O) (snap : SnapshotEvent A) (i : Option ℕ)
      → CanAlign h
      → h.fetches_in_flight ≡ extra
      → Inv extra (after_search O env h snap i)
  unfolding after_search
  after_search-Inv extra env h snap none c e = ground arith
  after_search-Inv extra env h snap (some i) c e =
      let loaded = record h {
        book = O.load_snapshot (O.reset h.book) snap;
        last_final_update_id = snap.last_update_id;
      } in
      finish_replay-Inv extra env loaded _ (ground arith) e
        (replay-outcome O env loaded (drop i h.buffer))

  align-Inv :
      (extra : ℕ) (env : Env) (h : Handler O) (snap : SnapshotEvent A)
      → CanAlign h
      → h.fetches_in_flight ≡ extra
      → Inv extra (align O env h (some snap))
  unfolding align
  align-Inv extra env h snap c e =
      let kept = record h { buffer = discard_pre_snapshot h.buffer snap.last_update_id } in
      after_search-Inv extra env kept snap (find_alignment_index kept.buffer snap.last_update_id)
        (ground arith) e

  advance_bootstrap-Inv :
      (env : Env) (h : Handler O) (event : DiffEvent A) (snapshot : Option (SnapshotEvent A))
      → h.snapshot ≡ snapshot
      → h.state ≡ bootstrapping
      → Inv 0 h
      → Inv 0 (advance_bootstrap O env (record h { buffer = h.buffer ++ event ∷ [] }) snapshot)
  unfolding advance_bootstrap
  advance_bootstrap-Inv env h event none e s v = ground arith
  advance_bootstrap-Inv env h event (some snap) e s v =
      let longer = record h { buffer = h.buffer ++ event ∷ [] } in
      subst (λ o. Inv 0 (align O env longer o)) (sym e)
        (align-Inv 0 env longer snap (ground arith) (ground arith))

  handle_synced-Inv :
      (env : Env) (h : Handler O) (event : DiffEvent A)
      → h.state ≡ synced
      → Inv 0 h
      → Inv 0 (handle_synced O env h event)
  unfolding handle_synced
  handle_synced-Inv env h event s v =
      ground (arith, deliver-Keeps O env h (O.apply h.book event).0 event)

  dispatch-Inv :
      (s : SymbolState) (env : Env) (h : Handler O) (event : DiffEvent A)
      → h.state ≡ s
      → Inv 0 h
      → Inv 0 (dispatch O s env h event)
  unfolding dispatch
  dispatch-Inv disconnected env h event s v = ground (arith, length-append h.buffer (event ∷ []))
  dispatch-Inv bootstrapping env h event s v = advance_bootstrap-Inv env h event h.snapshot refl s v
  dispatch-Inv synced env h event s v = handle_synced-Inv env h event s v
  dispatch-Inv resyncing env h event s v = absurd (v.settled s)

  -- A diff, in any state and whatever the book and the store answer, keeps the invariant.
  pub handle_diff-Inv :
      (env : Env) (h : Handler O) (event : DiffEvent A)
      → Inv 0 h
      → Inv 0 (handle_diff O env h event)
  unfolding handle_diff
  handle_diff-Inv env h event v = dispatch-Inv h.state env h event refl v

  drop_extra :
      (h : Handler O) → Inv 1 h → Inv 0 (record h { fetches_in_flight = h.fetches_in_flight - 1 })
  drop_extra h v = ground arith

  pub pending-bootstraps :
      (h : Handler O) → h.snapshot_pending ≡ true → Inv 0 h → h.state ≡ bootstrapping
  pending-bootstraps h p v = ground arith

  fetch_returned-Inv :
      (env : Env) (h : Handler O) (result : Option (SnapshotEvent A))
      → h.snapshot_pending ≡ true
      → Inv 0 h
      → Inv 1 (fetch_returned O env (record h { snapshot_pending = false }) result)
  unfolding fetch_returned
  fetch_returned-Inv env h none p v = ground arith
  fetch_returned-Inv env h (some snap) p v =
      if_cases (Inv 1) h.snapshot_stale (λ stale. ground arith)
        λ fresh.
          align-Inv 1 env (record h { snapshot_pending = false; snapshot = some snap }) snap
            (ground (arith, pending-bootstraps h p v)) (ground arith)

  -- So does the end of a fetch that is in flight, with an error or a snapshot.
  pub run_snapshot_fetch-Inv :
      (env : Env) (h : Handler O) (result : Option (SnapshotEvent A))
      → 0 < h.fetches_in_flight
      → Inv 0 h
      → Inv 0 (run_snapshot_fetch O env h result)
  unfolding run_snapshot_fetch
  run_snapshot_fetch-Inv env h result f v =
      drop_extra _ (fetch_returned-Inv env h result (ground arith) v)
