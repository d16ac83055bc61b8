-- ===== src/Ingest/Symbol.antt =====
-- engine/symbol/state.go and what the handler of engine/symbol/handler.go is built from: its
-- configuration, the book as an interface, its calls, and the search of the buffer.
use erebor.Prelude.{
  ℕ, suc, Bool, true, false, ◌&&◌, Option, none, some, String, List, [], ◌∷◌, if◌then◌else◌, ◌==◌,
  keep_if,
}
use erebor.Prelude.Int.{ℤ, inc64, leb_ℤ, ltb_ℤ}
use erebor.Ingest.Domain.{DiffEvent, SnapshotEvent, PriceLevel}

pub data SymbolState : Type 0 where
  disconnected bootstrapping synced resyncing : SymbolState

pub record Config : Type 0 where
  pub symbol : String
  pub depth_limit : ℕ
  pub checkpoint_interval : ℕ
  pub checkpoint_diff_threshold : ℕ
  pub max_buffer_size : ℕ

-- book.OrderBook; `apply` says by its Boolean whether it succeeded. A book with no
-- `LoadSnapshot` method has the identity there.
pub record OrderBook (A : Type 0) : Type 1 where
  pub Self : Type 0
  pub apply : Self → DiffEvent A → Self × Bool
  pub snapshot : Self → ℕ → ℕ → SnapshotEvent A
  pub last_update_id : Self → ℤ
  pub reset : Self → Self
  pub load_snapshot : Self → SnapshotEvent A → Self

pub data Call (A : Type 0) : Type 0 where
  fetch_snapshot : ℕ → Call A
  publish_l2 : ℕ → ℤ → List (PriceLevel A) → List (PriceLevel A) → Call A
  write_diff : DiffEvent A → Call A
  write_checkpoint : SnapshotEvent A → Call A

-- The clock, whether the context of `Start` is cancelled, and whether `WriteCheckpoint` succeeds.
pub record Env : Type 0 where
  pub now : ℕ
  pub cancelled : Bool
  pub checkpoint_ok : Bool

-- NewHandler's defaults.
unfoldable pub with_defaults : Config → Config
with_defaults cfg = record cfg {
  depth_limit = if cfg.depth_limit == 0 then 50 else cfg.depth_limit;
  checkpoint_interval =
      if cfg.checkpoint_interval == 0 then 1000000000 else cfg.checkpoint_interval;
  checkpoint_diff_threshold =
      if cfg.checkpoint_diff_threshold == 0 then 500 else cfg.checkpoint_diff_threshold;
  max_buffer_size = if cfg.max_buffer_size == 0 then 1000 else cfg.max_buffer_size;
}

abbrev pub is_bootstrapping : SymbolState → Bool
is_bootstrapping bootstrapping = true
is_bootstrapping _ = false

module _ {A : Type 0} where
  unfoldable pub discard_pre_snapshot : List (DiffEvent A) → ℤ → List (DiffEvent A)
  discard_pre_snapshot buf last_update_id =
      keep_if (λ ev. ltb_ℤ last_update_id ev.final_update_id) buf

  abbrev pub aligns : ℤ → DiffEvent A → Bool
  aligns last_update_id ev =
      leb_ℤ ev.first_update_id (inc64 last_update_id)
      && leb_ℤ (inc64 last_update_id) ev.final_update_id

  -- `none` is the source's -1.
  unfoldable pub find_alignment_index : List (DiffEvent A) → ℤ → Option ℕ
  find_alignment_index [] last_update_id = none
  find_alignment_index (ev ∷ buf) last_update_id =
      let rest = find_alignment_index buf last_update_id in
      if aligns last_update_id ev then some 0 else elim rest [ some i ↦ some (suc i) | none ↦ none ]
