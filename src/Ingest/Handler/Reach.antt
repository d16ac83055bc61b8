-- ===== src/Ingest/Handler/Reach.antt =====
-- The runs of a handler (engine/symbol/handler.go): any interleaving of diffs with fetches that
-- return.
use mathlib.Core.Path.{subst}
use erebor.Prelude.{
  ℕ, ◌<◌, ◌≡◌, refl, sym, Bool, true, false, Option, none, some, [], ◌∷◌, ◌++◌, arith, ◌⊎◌, inl,
  inr, if_cases, drop,
}
use erebor.Ingest.Domain.{DiffEvent, SnapshotEvent}
use erebor.Ingest.Handler.{
  SymbolState, disconnected, bootstrapping, synced, resyncing, OrderBook, Env, Handler, Config,
  new_handler, start, after_search, align, advance_bootstrap, dispatch, handle_diff, fetch_returned,
  run_snapshot_fetch, finish_replay, discard_pre_snapshot, find_alignment_index,
}
use erebor.Ingest.Handler.Replay.{Keeps, Restarts, deliver-Keeps, replay-outcome}
use erebor.Ingest.Handler.Invariant.{
  is_some, Inv, start-Inv, handle_diff-Inv, run_snapshot_fetch-Inv,
}

module _ {A : Type 0} (O : OrderBook A) where
  -- A fetch returns only while one is in flight. `P` restricts what the environment answers.
  pub data Step (P : Env → Type 0) (h : Handler O) : Handler O → Type 0 where
    diff : (env : Env) (event : DiffEvent A) → P env → Step P h (handle_diff O env h event)
    fetched :
        (env : Env) (result : Option (SnapshotEvent A))
        → P env
        → 0 < h.fetches_in_flight
        → Step P h (run_snapshot_fetch O env h result)

  pub data Reach (P : Env → Type 0) (h : Handler O) : Handler O → Type 0 where
    here : Reach P h h
    next : {g k : Handler O} → Reach P h g → Step P g k → Reach P h k

  Step-Inv : (P : Env → Type 0) {h k : Handler O} → Step P h k → Inv O 0 h → Inv O 0 k
  Step-Inv P (diff env event p) v = handle_diff-Inv O env _ event v
  Step-Inv P (fetched env result p f) v = run_snapshot_fetch-Inv O env _ result f v

  Reach-Inv : (P : Env → Type 0) {h k : Handler O} → Reach P h k → Inv O 0 h → Inv O 0 k
  Reach-Inv P here v = v
  Reach-Inv P (next r s) v = Step-Inv P s (Reach-Inv P r v)

  -- A started handler, after any diffs and any returned fetches: exactly the pending fetch is in
  -- flight, at most one; the state is never RESYNCING; a held snapshot means BOOTSTRAPPING with
  -- no fetch pending; a synchronised handler has an empty buffer and no fetch; the stale mark
  -- means BOOTSTRAPPING with no snapshot; the buffer is at most its configured size.
  pub run-Inv :
      (P : Env → Type 0) (cfg : Config) (book : O.Self) (publishes : Bool) {h : Handler O}
      → Reach P (start O (new_handler O cfg book publishes)) h
      → Inv O 0 h
  run-Inv P cfg book publishes r = Reach-Inv P r (start-Inv O cfg book publishes)

  -- Something will still move a bootstrap on.
  abbrev pub Waits : Handler O → Type 0
  Waits h = h.state ≡ bootstrapping → (is_some h.snapshot ≡ true) ⊎ (h.snapshot_pending ≡ true)

  finish_replay-Waits :
      (env : Env) (h : Handler O) (r : Handler O × Bool)
      → ((r.1 ≡ true) × Keeps O h r.0) ⊎ ((r.1 ≡ false) × Restarts O h r.0)
      → Waits (finish_replay O env r)
  finish_replay-Waits env h (g, true) o = ground arith
  finish_replay-Waits env h (g, false) (inl (done, k)) = cc
  finish_replay-Waits env h (g, false) (inr (stopped, k)) = ground arith

  after_search-Waits :
      (env : Env) (h : Handler O) (snap : SnapshotEvent A) (i : Option ℕ)
      → Waits h
      → Waits (after_search O env h snap i)
  unfolding after_search
  after_search-Waits env h snap none w = ground arith
  after_search-Waits env h snap (some i) w =
      let loaded = record h {
        book = O.load_snapshot (O.reset h.book) snap;
        last_final_update_id = snap.last_update_id;
      } in
      finish_replay-Waits env loaded _ (replay-outcome O env loaded (drop i h.buffer))

  align-Waits :
      (env : Env) (h : Handler O) (snap : SnapshotEvent A)
      → Waits h
      → Waits (align O env h (some snap))
  unfolding align
  align-Waits env h snap w =
      let kept = record h { buffer = discard_pre_snapshot h.buffer snap.last_update_id } in
      after_search-Waits env kept snap (find_alignment_index kept.buffer snap.last_update_id) w

  advance_bootstrap-Waits :
      (env : Env) (h : Handler O) (snapshot : Option (SnapshotEvent A))
      → h.snapshot ≡ snapshot
      → Waits h
      → Waits (advance_bootstrap O env h snapshot)
  unfolding advance_bootstrap
  advance_bootstrap-Waits env h none e w = ground arith
  advance_bootstrap-Waits env h (some snap) e w =
      subst (λ o. Waits (align O env h o)) (sym e) (align-Waits env h snap w)

  dispatch-Waits :
      (s : SymbolState) (env : Env) (h : Handler O) (event : DiffEvent A)
      → h.state ≡ s
      → Waits h
      → Waits (dispatch O s env h event)
  unfolding dispatch
  dispatch-Waits disconnected env h event s w = ground arith
  dispatch-Waits bootstrapping env h event s w =
      advance_bootstrap-Waits env (record h { buffer = h.buffer ++ event ∷ [] }) h.snapshot refl w
  dispatch-Waits synced env h event s w =
      ground (arith, deliver-Keeps O env h (O.apply h.book event).0 event)
  dispatch-Waits resyncing env h event s w = w

  fetch_returned-Waits :
      (env : Env) (h : Handler O) (result : Option (SnapshotEvent A))
      → env.cancelled ≡ false
      → Waits (fetch_returned O env h result)
  unfolding fetch_returned
  fetch_returned-Waits env h none c = ground arith
  fetch_returned-Waits env h (some snap) c =
      if_cases Waits h.snapshot_stale (λ stale. ground arith)
        λ fresh. align-Waits env (record h { snapshot = some snap }) snap (λ s. inl refl)

  -- A step of an environment that does not cancel keeps a bootstrap waiting for something.
  Step-Waits : {h k : Handler O} → Step (λ env. env.cancelled ≡ false) h k → Waits h → Waits k
  unfolding handle_diff run_snapshot_fetch
  Step-Waits {h} (diff env event p) w = dispatch-Waits h.state env h event refl w
  Step-Waits {h} (fetched env result p f) w =
      fetch_returned-Waits env (record h { snapshot_pending = false }) result p

  Reach-Waits : {h k : Handler O} → Reach (λ env. env.cancelled ≡ false) h k → Waits h → Waits k
  Reach-Waits here w = w
  Reach-Waits (next r s) w = Step-Waits s (Reach-Waits r w)

  -- While the context is not cancelled a handler is never stranded: after any diffs and any
  -- returned fetches, one that is BOOTSTRAPPING holds a snapshot or has a fetch pending.
  pub never_stranded :
      (cfg : Config) (book : O.Self) (publishes : Bool) {h : Handler O}
      → Reach (λ env. env.cancelled ≡ false) (start O (new_handler O cfg book publishes)) h
      → h.state ≡ bootstrapping
      → (is_some h.snapshot ≡ true) ⊎ (h.snapshot_pending ≡ true)
  never_stranded cfg book publishes r = Reach-Waits r (unfold start new_handler in λ s. cc)
