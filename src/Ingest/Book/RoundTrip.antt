-- ===== src/Ingest/Book/RoundTrip.antt =====
-- A checkpoint that is loaded again: `Snapshot` and then `LoadSnapshot` of
-- engine/book/book.go.
use text.Mathlib.TextEquality.{eq_iff}
use erebor.Prelude.{
  ℕ, ◌≡◌, refl, Bool, true, false, not, Option, none, some, String, List, [], ◌∷◌, if◌then◌else◌,
  arith, ap, ◌∙◌,
}
use erebor.Prelude.Assoc.{lookup, insert, lookup-insert}
use erebor.Decimal.{Decimal, IsExact}
use erebor.Ingest.Domain.{PriceLevel}
use erebor.Ingest.Book.{Book, snapshot, sorted_levels, load_levels, load_snapshot}
use erebor.Ingest.Book.Invariant.{Canonical, IsSide, IsWellFormed}
use erebor.Ingest.Book.Sorting.{quantity_at, DistinctPrices}
use erebor.Ingest.Book.Snapshots.{IsSorted-side}

module _ (𝒟 : Decimal) (ℒ : IsExact 𝒟) where
  open 𝒟 use {Amount, is_zero, to_string}

  -- The entry that `load_levels` leaves for a key.
  abbrev loaded : Option Amount → Option Amount → Option Amount
  loaded old none = old
  loaded old (some q) = if is_zero q then old else some q

  lookup-load_levels :
      (k : String) (side : List (String × Amount)) (ls : List (PriceLevel Amount))
      → DistinctPrices 𝒟 ls
      → lookup k (load_levels 𝒟 side ls) ≡ loaded (lookup k side) (quantity_at 𝒟 k ls)
  unfolding load_levels
  lookup-load_levels k side [] d = refl
  lookup-load_levels k side (l ∷ ls) d =
      let side' =
        if not (is_zero l.quantity) then insert (to_string l.price) l.quantity side else side in
      ground (
        arith,
        lookup-load_levels k side' ls d.1,
        lookup-insert (to_string l.price) k l.quantity side,
        eq_iff (to_string l.price) k,
      )

  lookup_full :
      (k : String) (side : List (String × Amount))
      → Canonical 𝒟 side
      → loaded none (lookup k side) ≡ lookup k side
  unfolding lookup
  lookup_full k [] c = refl
  lookup_full k ((j, q) ∷ side) (named, full, c) = ground (arith, lookup_full k side c)

  load_side :
      (k : String) (side : List (String × Amount)) (descending : Bool)
      → IsSide 𝒟 side
      → lookup k (load_levels 𝒟 [] (sorted_levels 𝒟 side descending 0)) ≡ lookup k side
  unfolding lookup
  load_side k side descending s =
      let (same, distinct, sorted) = IsSorted-side 𝒟 ℒ side descending s in
      lookup-load_levels k [] (sorted_levels 𝒟 side descending 0) distinct
      ∙ ap (loaded none) (same k)
      ∙ lookup_full k side s.canonical

  -- A snapshot of a well-formed book, taken at full depth and loaded into any book, gives back
  -- the update id and the quantity of every price.
  pub load_snapshot-snapshot :
      (b c : Book Amount) (now : ℕ) (k : String)
      → IsWellFormed 𝒟 b
      → let b' = load_snapshot 𝒟 c (snapshot 𝒟 b 0 now) in
        (lookup k b'.bids ≡ lookup k b.bids)
        × (lookup k b'.asks ≡ lookup k b.asks)
        × (b'.last_update_id ≡ b.last_update_id)
  unfolding load_snapshot snapshot
  load_snapshot-snapshot b c now k w =
      (load_side k b.bids true w.bids_ok, load_side k b.asks false w.asks_ok, refl)
