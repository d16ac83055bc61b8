-- ===== src/Ingest/Book/Invariant.antt =====
-- What holds of the maps of an order book (engine/book/book.go) after every method.
use erebor.Prelude.{◌≡◌, refl, false, String, List, [], ◌∷◌, arith, Bool-cases, inl, inr}
use erebor.Prelude.Assoc.{insert, erase, DistinctKeys, erase-DistinctKeys, insert-DistinctKeys}
use erebor.Decimal.{Decimal}
use erebor.Ingest.Domain.{PriceLevel, DiffEvent, SnapshotEvent}
use erebor.Ingest.Book.{
  Book, new, apply_level, apply_levels, apply, reset, load_levels, load_snapshot,
}

module _ (𝒟 : Decimal) where
  open 𝒟 use {Amount, is_zero, to_string}

  -- Every key is a printed price, and no quantity is zero.
  abbrev pub Canonical : List (String × Amount) → Type 0
  Canonical [] = Unit
  Canonical ((key, qty) ∷ side) =
      ((price : Amount) × (key ≡ to_string price)) × (is_zero qty ≡ false) × Canonical side

  pub record IsSide (side : List (String × Amount)) : Type 0 where
    pub distinct : DistinctKeys side
    pub canonical : Canonical side

  pub record IsWellFormed (b : Book Amount) : Type 0 where
    pub bids_ok : IsSide b.bids
    pub asks_ok : IsSide b.asks

  erase-Canonical :
      (k : String) (side : List (String × Amount)) → Canonical side → Canonical (erase k side)
  unfolding erase
  erase-Canonical k [] c = tt
  erase-Canonical k ((j, q) ∷ side) (named, full, c) = ground (arith, erase-Canonical k side c)

  insert-IsSide :
      (price qty : Amount) (side : List (String × Amount))
      → is_zero qty ≡ false
      → IsSide side
      → IsSide (insert (to_string price) qty side)
  insert-IsSide price qty side full s = record {
    distinct = insert-DistinctKeys (to_string price) qty side s.distinct;
    canonical =
        unfold insert in ((price, refl), full, erase-Canonical (to_string price) side s.canonical);
  }

  apply_level-IsSide :
      (side : List (String × Amount)) (l : PriceLevel Amount)
      → IsSide side
      → IsSide (apply_level 𝒟 side l)
  unfolding apply_level
  apply_level-IsSide side l s = elim (Bool-cases (is_zero l.quantity)) [
    | inl gone ↦ rw gone (record {
      distinct = erase-DistinctKeys (to_string l.price) side s.distinct;
      canonical = erase-Canonical (to_string l.price) side s.canonical;
    })
    | inr full ↦ rw full (insert-IsSide l.price l.quantity side full s)
  ]

  apply_levels-IsSide :
      (side : List (String × Amount)) (ls : List (PriceLevel Amount))
      → IsSide side
      → IsSide (apply_levels 𝒟 side ls)
  unfolding apply_levels
  apply_levels-IsSide side [] s = s
  apply_levels-IsSide side (l ∷ ls) s =
      apply_levels-IsSide (apply_level 𝒟 side l) ls (apply_level-IsSide side l s)

  load_levels-IsSide :
      (side : List (String × Amount)) (ls : List (PriceLevel Amount))
      → IsSide side
      → IsSide (load_levels 𝒟 side ls)
  unfolding load_levels
  load_levels-IsSide side [] s = s
  load_levels-IsSide side (l ∷ ls) s = elim (Bool-cases (is_zero l.quantity)) [
    | inl gone ↦ rw gone (load_levels-IsSide side ls s)
    | inr full ↦ rw full (
        load_levels-IsSide (insert (to_string l.price) l.quantity side) ls
          (insert-IsSide l.price l.quantity side full s))
  ]

  empty-IsSide : IsSide []
  empty-IsSide = record { distinct = tt; canonical = tt }

  -- A new or reset book is well formed, and `apply` and `load_snapshot` keep it so: the keys of
  -- a side are distinct printed prices, and no stored quantity is zero.
  pub methods-IsWellFormed :
      (symbol : String) (b : Book Amount) (d : DiffEvent Amount) (snap : SnapshotEvent Amount)
      → IsWellFormed b
      → IsWellFormed (new 𝒟 symbol)
        × IsWellFormed (reset 𝒟 b)
        × IsWellFormed (apply 𝒟 b d)
        × IsWellFormed (load_snapshot 𝒟 b snap)
  unfolding new reset apply load_snapshot
  methods-IsWellFormed symbol b d snap w = (
    record { bids_ok = empty-IsSide; asks_ok = empty-IsSide },
    record { bids_ok = empty-IsSide; asks_ok = empty-IsSide },
    record {
      bids_ok = apply_levels-IsSide b.bids d.bids w.bids_ok;
      asks_ok = apply_levels-IsSide b.asks d.asks w.asks_ok;
    },
    record {
      bids_ok = load_levels-IsSide [] snap.bids empty-IsSide;
      asks_ok = load_levels-IsSide [] snap.asks empty-IsSide;
    },
  )
