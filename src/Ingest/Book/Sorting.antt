-- ===== src/Ingest/Book/Sorting.antt =====
-- Sorting price levels: what `sort.Slice` returns in `sortedLevels` of engine/book/book.go.
use text.Mathlib.Text.{◌==◌ as str_eq}
use text.Mathlib.TextEquality.{eq_iff}
use erebor.Prelude.{
  ◌≡◌, refl, sym, Bool, true, false, Option, none, some, String, List, [], ◌∷◌, if◌then◌else◌,
  arith, All, ap, ◌∙◌,
}
use erebor.Decimal.{Decimal, IsExact}
use erebor.Ingest.Domain.{PriceLevel}
use erebor.Ingest.Book.{before, insert_level, sort_levels}

module _ (𝒟 : Decimal) where
  open 𝒟 use {Amount, to_string}

  -- The quantity of the first level with this key.
  abbrev pub quantity_at : String → List (PriceLevel Amount) → Option Amount
  quantity_at k [] = none
  quantity_at k (l ∷ ls) =
      if str_eq (to_string l.price) k then some l.quantity else quantity_at k ls

  abbrev pub DistinctPrices : List (PriceLevel Amount) → Type 0
  DistinctPrices [] = Unit
  DistinctPrices (l ∷ ls) = (quantity_at (to_string l.price) ls ≡ none) × DistinctPrices ls

  -- Each price comes strictly before all that follow.
  abbrev pub IsSorted : (Amount → Amount → Bool) → List (PriceLevel Amount) → Type 0
  IsSorted less [] = Unit
  IsSorted less (l ∷ ls) = All (λ m. less l.price m.price ≡ true) ls × IsSorted less ls

  -- A strict total order on prices.
  pub record IsOrder (less : Amount → Amount → Bool) : Type 0 where
    pub irrefl : (a : Amount) → less a a ≡ false
    pub trans : (a b c : Amount) → less a b ≡ true → less b c ≡ true → less a c ≡ true
    pub total : (a b : Amount) → less a b ≡ false → less b a ≡ false → a ≡ b

module _ (𝒟 : Decimal) (ℒ : IsExact 𝒟) where
  pub before-IsOrder : (descending : Bool) → IsOrder 𝒟 (before 𝒟 descending)
  unfolding before
  before-IsOrder false = record { irrefl = ℒ.lt_irrefl; trans = ℒ.lt_trans; total = ℒ.lt_total }
  before-IsOrder true = record {
    irrefl = λ a. ℒ.greater_lem a a ∙ ℒ.lt_irrefl a;
    trans = λ a b c h k.
        ℒ.greater_lem a c
        ∙ ℒ.lt_trans c b a (sym (ℒ.greater_lem b c) ∙ k) (sym (ℒ.greater_lem a b) ∙ h);
    total = λ a b h k. ℒ.lt_total a b (sym (ℒ.greater_lem b a) ∙ k) (sym (ℒ.greater_lem a b) ∙ h);
  }

module _ (𝒟 : Decimal) (less : 𝒟.Amount → 𝒟.Amount → Bool) (order : IsOrder 𝒟 less) where
  open 𝒟 use {Amount, to_string}

  pub quantity_at-insert_level :
      (k : String) (x : PriceLevel Amount) (ys : List (PriceLevel Amount))
      → quantity_at 𝒟 (to_string x.price) ys ≡ none
      → quantity_at 𝒟 k (insert_level 𝒟 less x ys)
        ≡ (if str_eq (to_string x.price) k then some x.quantity else quantity_at 𝒟 k ys)
  unfolding insert_level
  quantity_at-insert_level k x [] h = refl
  quantity_at-insert_level k x (y ∷ ys) h = ground (
    arith,
    quantity_at-insert_level k x ys,
    eq_iff (to_string x.price) k,
    eq_iff (to_string y.price) k,
    eq_iff (to_string y.price) (to_string x.price),
  )

  insert_level-DistinctPrices :
      (x : PriceLevel Amount) (ys : List (PriceLevel Amount))
      → quantity_at 𝒟 (to_string x.price) ys ≡ none
      → DistinctPrices 𝒟 ys
      → DistinctPrices 𝒟 (insert_level 𝒟 less x ys)
  unfolding insert_level
  insert_level-DistinctPrices x [] h d = (refl, tt)
  insert_level-DistinctPrices x (y ∷ ys) h d = ground (
    arith,
    insert_level-DistinctPrices x ys,
    quantity_at-insert_level (to_string y.price) x ys,
    eq_iff (to_string x.price) (to_string y.price),
    eq_iff (to_string y.price) (to_string x.price),
  )

  All-insert_level :
      (a : Amount) (x : PriceLevel Amount) (ys : List (PriceLevel Amount))
      → less a x.price ≡ true
      → All (λ m. less a m.price ≡ true) ys
      → All (λ m. less a m.price ≡ true) (insert_level 𝒟 less x ys)
  unfolding insert_level
  All-insert_level a x [] h all = (h, tt)
  All-insert_level a x (y ∷ ys) h all = ground (arith, All-insert_level a x ys)

  All-trans :
      (a b : Amount) (ys : List (PriceLevel Amount))
      → less a b ≡ true
      → All (λ m. less b m.price ≡ true) ys
      → All (λ m. less a m.price ≡ true) ys
  All-trans a b [] h all = tt
  All-trans a b (y ∷ ys) h all = (order.trans a b y.price h all.0, All-trans a b ys h all.1)

  insert_level-IsSorted :
      (x : PriceLevel Amount) (ys : List (PriceLevel Amount))
      → quantity_at 𝒟 (to_string x.price) ys ≡ none
      → IsSorted 𝒟 less ys
      → IsSorted 𝒟 less (insert_level 𝒟 less x ys)
  unfolding insert_level
  insert_level-IsSorted x [] h s = (tt, tt)
  insert_level-IsSorted x (y ∷ ys) h s = ground (
    arith,
    insert_level-IsSorted x ys,
    All-insert_level y.price x ys,
    All-trans x.price y.price ys,
    order.total x.price y.price,
    eq_iff (to_string y.price) (to_string x.price),
    ap to_string {x = x.price} {y = y.price},
  )

  pub sort_levels_lem :
      (xs : List (PriceLevel Amount))
      → DistinctPrices 𝒟 xs
      → ((k : String) → quantity_at 𝒟 k (sort_levels 𝒟 less xs) ≡ quantity_at 𝒟 k xs)
        × DistinctPrices 𝒟 (sort_levels 𝒟 less xs)
        × IsSorted 𝒟 less (sort_levels 𝒟 less xs)
  unfolding sort_levels
  sort_levels_lem [] d = (λ k. refl, tt, tt)
  sort_levels_lem (x ∷ xs) d =
      let (same, distinct, sorted) = sort_levels_lem xs d.1 in
      let fresh = same (to_string x.price) ∙ d.0 in
      (
        λ k.
            quantity_at-insert_level k x (sort_levels 𝒟 less xs) fresh
            ∙ ap (λ o. if str_eq (to_string x.price) k then some x.quantity else o) (same k),
        insert_level-DistinctPrices x _ fresh distinct,
        insert_level-IsSorted x _ fresh sorted,
      )
