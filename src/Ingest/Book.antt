-- ===== src/Ingest/Book.antt =====
-- engine/book/book.go: the in-memory order book. Each side is a map from the printed price to
-- the quantity; the lock makes every method one step. A `depth` of 0 stands for every depth
-- that is not positive, and `now` is the clock's reading.
pub mod Updates
pub mod Sorting
pub mod Invariant
pub mod Snapshots
pub mod Depth
pub mod Determinism
pub mod RoundTrip
use erebor.Prelude.{
  ℕ, Bool, true, false, not, ◌&&◌, none, some, String, List, [], ◌∷◌, if◌then◌else◌, ltb, length,
  take,
}
use erebor.Prelude.Int.{ℤ, pos}
use erebor.Prelude.Assoc.{insert, erase}
use erebor.Decimal.{Decimal}
use erebor.Ingest.Domain.{PriceLevel, DiffEvent, SnapshotEvent}

pub record Book (A : Type 0) : Type 0 where
  pub symbol : String
  pub bids : List (String × A)
  pub asks : List (String × A)
  pub last_update_id : ℤ

module _ (𝒟 : Decimal) where
  open 𝒟 use {Amount, is_zero, less_than, greater_than, to_string, of_string}

  unfoldable pub new : String → Book Amount
  new symbol = record { symbol = symbol; bids = []; asks = []; last_update_id = pos 0 }

  unfoldable pub apply_level : List (String × Amount) → PriceLevel Amount → List (String × Amount)
  apply_level side lvl =
      let key = to_string lvl.price in
      if is_zero lvl.quantity then erase key side else insert key lvl.quantity side

  unfoldable pub apply_levels :
      List (String × Amount) → List (PriceLevel Amount) → List (String × Amount)
  unfolding apply_level
  apply_levels side [] = side
  apply_levels side (lvl ∷ lvls) = apply_levels (apply_level side lvl) lvls

  unfoldable pub apply : Book Amount → DiffEvent Amount → Book Amount
  apply b diff = record b {
    bids = apply_levels b.bids diff.bids;
    asks = apply_levels b.asks diff.asks;
    last_update_id = diff.final_update_id;
  }

  -- The entries whose key parses, as price levels.
  unfoldable pub parse_side : List (String × Amount) → List (PriceLevel Amount)
  parse_side [] = []
  parse_side ((key, qty) ∷ side) =
      let rest = parse_side side in
      elim (of_string key) [
        | some price ↦ record { price = price; quantity = qty } ∷ rest
        | none ↦ rest
      ]

  unfoldable pub before : Bool → Amount → Amount → Bool
  before descending p q = if descending then greater_than p q else less_than p q

  unfoldable pub insert_level :
      (Amount → Amount → Bool)
      → PriceLevel Amount
      → List (PriceLevel Amount)
      → List (PriceLevel Amount)
  insert_level less x [] = x ∷ []
  insert_level less x (y ∷ ys) =
      let rest = insert_level less x ys in if less y.price x.price then y ∷ rest else x ∷ y ∷ ys

  unfoldable pub sort_levels :
      (Amount → Amount → Bool) → List (PriceLevel Amount) → List (PriceLevel Amount)
  sort_levels less [] = []
  sort_levels less (x ∷ xs) = insert_level less x (sort_levels less xs)

  unfoldable pub sorted_levels : List (String × Amount) → Bool → ℕ → List (PriceLevel Amount)
  sorted_levels side descending depth =
      let levels = sort_levels (before descending) (parse_side side) in
      if ltb 0 depth && ltb depth (length levels) then take depth levels else levels

  unfoldable pub snapshot : Book Amount → ℕ → ℕ → SnapshotEvent Amount
  snapshot b depth now = record {
    symbol = b.symbol;
    captured_at = now;
    last_update_id = b.last_update_id;
    bids = sorted_levels b.bids true depth;
    asks = sorted_levels b.asks false depth;
  }

  unfoldable pub reset : Book Amount → Book Amount
  reset b = record b { bids = []; asks = []; last_update_id = pos 0 }

  unfoldable pub load_levels :
      List (String × Amount) → List (PriceLevel Amount) → List (String × Amount)
  load_levels side [] = side
  load_levels side (lvl ∷ lvls) =
      load_levels
        (if not (is_zero lvl.quantity)
          then insert (to_string lvl.price) lvl.quantity side
          else side)
        lvls

  unfoldable pub load_snapshot : Book Amount → SnapshotEvent Amount → Book Amount
  load_snapshot b snap = record b {
    bids = load_levels [] snap.bids;
    asks = load_levels [] snap.asks;
    last_update_id = snap.last_update_id;
  }
