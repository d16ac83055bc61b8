-- ===== src/Ingest/Handler/Replay.antt =====
-- What the replay of the buffer (`replayAlignedBufferLocked` in engine/symbol/handler.go) does
-- to each field of the handler.
use erebor.Prelude.{
  ◌+◌, ◌≡◌, refl, true, false, none, List, [], ◌∷◌, if◌then◌else◌, arith, ◌⊎◌, inl, inr, Bool-cases,
}
use erebor.Ingest.Domain.{DiffEvent}
use erebor.Ingest.Handler.{
  bootstrapping, OrderBook, Env, Handler, kickoff_snapshot, deliver, publish_l2_locked, replay,
}

module _ {A : Type 0} (O : OrderBook A) where
  -- The fields that a delivery leaves alone.
  pub record Keeps (h h' : Handler O) : Type 0 where
    pub cfg : h'.cfg ≡ h.cfg
    pub state : h'.state ≡ h.state
    pub buffer : h'.buffer ≡ h.buffer
    pub snapshot : h'.snapshot ≡ h.snapshot
    pub pending : h'.snapshot_pending ≡ h.snapshot_pending
    pub stale : h'.snapshot_stale ≡ h.snapshot_stale
    pub in_flight : h'.fetches_in_flight ≡ h.fetches_in_flight
    pub diffs : h'.diffs_since_checkpoint ≡ h.diffs_since_checkpoint

  -- The fields after the early return.
  pub record Restarts (h h' : Handler O) : Type 0 where
    pub cfg : h'.cfg ≡ h.cfg
    pub state : h'.state ≡ bootstrapping
    pub buffer : h'.buffer ≡ []
    pub snapshot : h'.snapshot ≡ none
    pub pending : h'.snapshot_pending ≡ true
    pub stale : h'.snapshot_stale ≡ h.snapshot_stale
    pub in_flight :
        h'.fetches_in_flight
        ≡ (if h.snapshot_pending then h.fetches_in_flight else h.fetches_in_flight + 1)

  pub deliver-Keeps :
      (env : Env) (h : Handler O) (book : O.Self) (ev : DiffEvent A)
      → Keeps h (deliver O env h book ev)
  unfolding deliver publish_l2_locked
  deliver-Keeps env h book ev = ground arith

  Keeps-trans : (h g k : Handler O) → Keeps h g → Keeps g k → Keeps h k
  Keeps-trans h g k p q = ground arith

  Restarts-after : (h g k : Handler O) → Keeps h g → Restarts g k → Restarts h k
  Restarts-after h g k p q = ground arith

  pub replay-outcome :
      (env : Env) (h : Handler O) (evs : List (DiffEvent A))
      → ((replay O env h evs).1 ≡ true) × Keeps h (replay O env h evs).0
        ⊎ ((replay O env h evs).1 ≡ false) × Restarts h (replay O env h evs).0
  unfolding replay kickoff_snapshot
  replay-outcome env h [] = inl (ground arith)
  replay-outcome env h (ev ∷ evs) = elim (Bool-cases (O.apply h.book ev).1) [
    | inl ok ↦
        let next = deliver O env h (O.apply h.book ev).0 ev in
        rw ok (elim (replay-outcome env next evs) [
          | inl (done, kept) ↦ inl (done, Keeps-trans h next _ (deliver-Keeps env h _ ev) kept)
          | inr (stopped, restarted) ↦
              inr (stopped, Restarts-after h next _ (deliver-Keeps env h _ ev) restarted)
        ])
    | inr refused ↦ rw refused (inr (refl, ground arith))
  ]
