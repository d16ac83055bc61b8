-- ===== src/Ingest/Handler/Staleness.antt =====
-- The stale mark of a fetch: the overflow branch of `HandleDiff`, and `runSnapshotFetch`
-- (engine/symbol/handler.go).
use erebor.Prelude.{◌≡◌, true, false, none, some, ◌∷◌, arith}
use erebor.Ingest.Domain.{SnapshotEvent}
use erebor.Ingest.Handler.{
  bootstrapping, OrderBook, Env, Handler, fetch_snapshot, run_snapshot_fetch,
}

module _ {A : Type 0} (O : OrderBook A) where
  -- While a BOOTSTRAPPING handler's fetch is marked stale and its context is not cancelled, a
  -- failed fetch keeps the mark, and the snapshot that the next fetch brings is thrown away: it
  -- is neither held nor loaded, and a third fetch starts.
  pub stale_survives_error :
      (env env' : Env) (h : Handler O) (snap : SnapshotEvent A)
      → h.state ≡ bootstrapping
      → h.snapshot_stale ≡ true
      → env.cancelled ≡ false
      → let failed = run_snapshot_fetch O env h none in
        let later = run_snapshot_fetch O env' failed (some snap) in
        (later.snapshot ≡ h.snapshot)
        × (later.book ≡ h.book)
        × (later.calls
            ≡ fetch_snapshot h.cfg.depth_limit ∷ fetch_snapshot h.cfg.depth_limit ∷ h.calls)
        × (later.snapshot_pending ≡ true)
  unfolding run_snapshot_fetch
  stale_survives_error env env' h snap b s c = ground arith
