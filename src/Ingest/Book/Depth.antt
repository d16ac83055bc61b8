-- ===== src/Ingest/Book/Depth.antt =====
-- The order and the depth of a snapshot: the last lines of `sortedLevels` in
-- engine/book/book.go.
use erebor.Prelude.{
  take-append-drop, ℕ, zero, suc, ◌≤◌, ◌<◌, ◌≡◌, refl, Bool, true, false, ◌&&◌, String, List, [],
  ◌∷◌, ◌++◌, if◌then◌else◌, arith, ap, length, take, drop, ltb, All,
}
use mathlib.Core.List.{append-nil}
use erebor.Decimal.{Decimal, IsExact}
use erebor.Ingest.Domain.{PriceLevel}
use erebor.Ingest.Book.{Book, before, sorted_levels, snapshot}
use erebor.Ingest.Book.Invariant.{IsSide, IsWellFormed}
use erebor.Ingest.Book.Sorting.{IsSorted}
use erebor.Ingest.Book.Snapshots.{IsSorted-side}

length-take-le : {A : Type 0} (n : ℕ) (xs : List A) → length (take n xs) ≤ n
length-take-le zero xs = omega arith
length-take-le (suc n) [] = omega arith
length-take-le (suc n) (x ∷ xs) = omega (arith, length-take-le n xs)

module _ (𝒟 : Decimal) where
  open 𝒟 use {Amount}

  All-take {κ} :
      (P : PriceLevel Amount → Type κ) (n : ℕ) (ls : List (PriceLevel Amount))
      → All P ls
      → All P (take n ls)
  All-take P zero ls all = tt
  All-take P (suc n) [] all = tt
  All-take P (suc n) (l ∷ ls) all = (all.0, All-take P n ls all.1)

  take-IsSorted :
      (less : Amount → Amount → Bool) (n : ℕ) (ls : List (PriceLevel Amount))
      → IsSorted 𝒟 less ls
      → IsSorted 𝒟 less (take n ls)
  take-IsSorted less zero ls s = tt
  take-IsSorted less (suc n) [] s = tt
  take-IsSorted less (suc n) (l ∷ ls) s = (All-take _ n ls s.0, take-IsSorted less n ls s.1)

  -- What a positive depth cuts off.
  abbrev pub deeper : List (String × Amount) → Bool → ℕ → List (PriceLevel Amount)
  deeper side descending depth =
      let whole = sorted_levels 𝒟 side descending 0 in if ltb 0 depth then drop depth whole else []

  pub sorted_levels-cases :
      (side : List (String × Amount)) (descending : Bool) (depth : ℕ)
      → let whole = sorted_levels 𝒟 side descending 0 in
        sorted_levels 𝒟 side descending depth
        ≡ (if ltb 0 depth && ltb depth (length whole) then take depth whole else whole)
  unfolding sorted_levels
  sorted_levels-cases side descending depth = refl

  take_all :
      (n : ℕ) (ls : List (PriceLevel Amount)) → length ls ≤ n → (take n ls ≡ ls) × (drop n ls ≡ [])
  take_all zero [] h = (refl, refl)
  take_all zero (l ∷ ls) h = absurd (omega arith)
  take_all (suc n) [] h = (refl, refl)
  take_all (suc n) (l ∷ ls) h =
      (ap (◌∷◌ l) (take_all n ls (omega arith)).0, (take_all n ls (omega arith)).1)

  -- The levels of a snapshot side are the best of the whole side: what it leaves out comes
  -- after them in the same order, and a positive depth bounds how many there are.
  pub sorted_levels-append-deeper :
      (side : List (String × Amount)) (descending : Bool) (depth : ℕ)
      → (sorted_levels 𝒟 side descending depth ++ deeper side descending depth
          ≡ sorted_levels 𝒟 side descending 0)
        × (0 < depth → length (sorted_levels 𝒟 side descending depth) ≤ depth)
  sorted_levels-append-deeper side descending depth =
      let whole = sorted_levels 𝒟 side descending 0 in
      ground (
        arith,
        sorted_levels-cases side descending depth,
        take-append-drop depth whole,
        take_all depth whole,
        append-nil whole,
        length-take-le depth whole,
      )

module _ (𝒟 : Decimal) (ℒ : IsExact 𝒟) where
  open 𝒟 use {Amount}

  sorted_levels-IsSorted :
      (side : List (String × Amount)) (descending : Bool) (depth : ℕ)
      → IsSide 𝒟 side
      → IsSorted 𝒟 (before 𝒟 descending) (sorted_levels 𝒟 side descending depth)
  sorted_levels-IsSorted side descending depth s =
      let whole = sorted_levels 𝒟 side descending 0 in
      ground (
        arith,
        sorted_levels-cases 𝒟 side descending depth,
        (IsSorted-side 𝒟 ℒ side descending s).2,
        take-IsSorted 𝒟 (before 𝒟 descending) depth whole,
      )

  -- A snapshot of a well-formed book has its bids strictly falling and its asks strictly
  -- rising, at every depth.
  pub snapshot-IsSorted :
      (b : Book Amount) (depth now : ℕ)
      → IsWellFormed 𝒟 b
      → IsSorted 𝒟 (before 𝒟 true) (snapshot 𝒟 b depth now).bids
        × IsSorted 𝒟 (before 𝒟 false) (snapshot 𝒟 b depth now).asks
  unfolding snapshot
  snapshot-IsSorted b depth now w = (
    sorted_levels-IsSorted b.bids true depth w.bids_ok,
    sorted_levels-IsSorted b.asks false depth w.asks_ok,
  )
