-- ===== src/Ingest/Book/Snapshots.antt =====
-- What a snapshot of a book shows: `Snapshot` and `sortedLevels` of engine/book/book.go.
use erebor.Prelude.{◌≡◌, refl, Bool, String, List, [], ◌∷◌, arith, ◌∙◌}
use erebor.Prelude.Assoc.{lookup, DistinctKeys}
use erebor.Decimal.{Decimal, IsExact}
use erebor.Ingest.Book.{before, parse_side, sorted_levels}
use erebor.Ingest.Book.Invariant.{Canonical, IsSide}
use erebor.Ingest.Book.Sorting.{
  quantity_at, DistinctPrices, IsSorted, before-IsOrder, sort_levels_lem,
}

module _ (𝒟 : Decimal) (ℒ : IsExact 𝒟) where
  open 𝒟 use {Amount, is_zero, to_string, of_string}

  quantity_at-parse_side :
      (k : String) (side : List (String × Amount))
      → Canonical 𝒟 side
      → quantity_at 𝒟 k (parse_side 𝒟 side) ≡ lookup k side
  unfolding parse_side lookup
  quantity_at-parse_side k [] c = refl
  quantity_at-parse_side k ((j, q) ∷ side) ((p, named), full, c) =
      ground (arith, ℒ.of_string-to_string p, quantity_at-parse_side k side c)

  parse_side-DistinctPrices :
      (side : List (String × Amount))
      → DistinctKeys side
      → Canonical 𝒟 side
      → DistinctPrices 𝒟 (parse_side 𝒟 side)
  unfolding parse_side
  parse_side-DistinctPrices [] d c = tt
  parse_side-DistinctPrices ((j, q) ∷ side) d ((p, named), full, c) = ground (
    arith,
    ℒ.of_string-to_string p,
    quantity_at-parse_side j side c,
    parse_side-DistinctPrices side d.1 c,
  )

  -- The whole side, sorted: every price of the map with its quantity, and nothing else.
  pub IsSorted-side :
      (side : List (String × Amount)) (descending : Bool)
      → IsSide 𝒟 side
      → let levels = sorted_levels 𝒟 side descending 0 in
        ((k : String) → quantity_at 𝒟 k levels ≡ lookup k side)
        × DistinctPrices 𝒟 levels
        × IsSorted 𝒟 (before 𝒟 descending) levels
  unfolding sorted_levels
  IsSorted-side side descending s =
      let (same, distinct, sorted) =
        sort_levels_lem 𝒟 (before 𝒟 descending) (before-IsOrder 𝒟 ℒ descending) (parse_side 𝒟 side)
          (parse_side-DistinctPrices side s.distinct s.canonical) in
      (λ k. same k ∙ quantity_at-parse_side k side s.canonical, distinct, sorted)
