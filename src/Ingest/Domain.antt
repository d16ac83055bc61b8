-- ===== src/Ingest/Domain.antt =====
-- engine/domain/types.go. `A` is the type of decimals; a time is in nanoseconds, and 0 is Go's
-- zero time.
use erebor.Prelude.{ℕ, String, List}
use erebor.Prelude.Int.{ℤ}

pub record PriceLevel (A : Type 0) : Type 0 where
  pub price : A
  pub quantity : A

pub record DiffEvent (A : Type 0) : Type 0 where
  pub symbol : String
  pub event_time : ℕ
  pub first_update_id : ℤ
  pub final_update_id : ℤ
  pub bids : List (PriceLevel A)
  pub asks : List (PriceLevel A)

pub record SnapshotEvent (A : Type 0) : Type 0 where
  pub symbol : String
  pub captured_at : ℕ
  pub last_update_id : ℤ
  pub bids : List (PriceLevel A)
  pub asks : List (PriceLevel A)
