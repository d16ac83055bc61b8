-- ===== src/Ingest/Handler/Sequence.antt =====
-- The synchronised stream: `handleSyncedLocked` and `enterResyncLocked` of
-- engine/symbol/handler.go.
use erebor.Prelude.{◌≡◌, ◌≢◌, ◌↔◌, true, false, none, List, [], ◌∷◌, arith, ◌⊎◌}
use erebor.Prelude.Int.{ℤ, pos, inc64, eqb_ℤ, eq_of_parts}
use erebor.Ingest.Domain.{DiffEvent}
use erebor.Ingest.Handler.{
  bootstrapping, synced, OrderBook, Env, Handler, Call, fetch_snapshot, publish_l2, write_diff,
  write_checkpoint, handle_diff,
}

-- The diffs that were handed to the repository, newest first.
abbrev pub written : {A : Type 0} → List (Call A) → List (DiffEvent A)
written [] = []
written (write_diff ev ∷ cs) = ev ∷ written cs
written (fetch_snapshot n ∷ cs) = written cs
written (publish_l2 t i b a ∷ cs) = written cs
written (write_checkpoint s ∷ cs) = written cs

eqb_ℤ_iff : (a b : ℤ) → (eqb_ℤ a b ≡ true) ↔ (a ≡ b)
eqb_ℤ_iff a b = ground (arith, eq_of_parts a b)

module _ {A : Type 0} (O : OrderBook A) where
  -- What a synchronised handler does with an event that continues the sequence.
  pub record Accepts (h : Handler O) (event : DiffEvent A) (h' : Handler O) : Type 0 where
    pub continues : event.first_update_id ≡ inc64 h.last_final_update_id
    pub taken : (O.apply h.book event).1 ≡ true
    pub state : h'.state ≡ synced
    pub book : h'.book ≡ (O.apply h.book event).0
    pub last : h'.last_final_update_id ≡ event.final_update_id
    pub stored : written h'.calls ≡ event ∷ written h.calls

  -- And with any other.
  pub record Resyncs (h : Handler O) (event : DiffEvent A) (h' : Handler O) : Type 0 where
    pub reason :
        (event.first_update_id ≢ inc64 h.last_final_update_id) ⊎ ((O.apply h.book event).1 ≡ false)
    pub state : h'.state ≡ bootstrapping
    pub buffer : h'.buffer ≡ event ∷ []
    pub snapshot : h'.snapshot ≡ none
    pub pending : h'.snapshot_pending ≡ true
    pub last : h'.last_final_update_id ≡ pos 0
    pub stored : written h'.calls ≡ written h.calls

  -- A synchronised handler takes an event exactly if its first id follows the last final id and
  -- the book applies it: then the book and the last id advance and the diff is stored. Otherwise
  -- it goes back to BOOTSTRAPPING with that event alone buffered, a fetch pending, and the diff
  -- not stored.
  pub synced_step :
      (env : Env) (h : Handler O) (event : DiffEvent A)
      → h.state ≡ synced
      → Accepts h event (handle_diff O env h event) ⊎ Resyncs h event (handle_diff O env h event)
  unfolding handle_diff
  synced_step env h event s =
      ground (arith, eqb_ℤ_iff event.first_update_id (inc64 h.last_final_update_id))
