-- ===== src/Ingest/Book/Determinism.antt =====
-- Go iterates over a map in random order: the levels that `sortedLevels` of
-- engine/book/book.go returns do not depend on it.
use text.Mathlib.Text.{◌==◌ as str_eq}
use text.Mathlib.TextEquality.{eq_iff}
use erebor.Prelude.{
  ℕ, ◌≡◌, refl, sym, Bool, true, none, some, String, List, [], ◌∷◌, arith, ap, ◌∙◌, Bool-cases, inl,
  inr, All,
}
use erebor.Prelude.Assoc.{lookup}
use erebor.Decimal.{Decimal, IsExact}
use erebor.Ingest.Domain.{PriceLevel}
use erebor.Ingest.Book.{before, sorted_levels}
use erebor.Ingest.Book.Invariant.{IsSide}
use erebor.Ingest.Book.Sorting.{quantity_at, DistinctPrices, IsSorted, IsOrder, before-IsOrder}
use erebor.Ingest.Book.Snapshots.{IsSorted-side}
use erebor.Ingest.Book.Depth.{sorted_levels-cases}

module _ (𝒟 : Decimal) (ℒ : IsExact 𝒟) where
  open 𝒟 use {Amount, to_string, of_string}

  to_string_injective : (p q : Amount) → to_string p ≡ to_string q → p ≡ q
  to_string_injective p q e =
      ground (arith, ℒ.of_string-to_string p, ℒ.of_string-to_string q, ap of_string e)

  module _ (less : Amount → Amount → Bool) (order : IsOrder 𝒟 less) where
    -- A price that occurs below a level in a sorted list comes after it.
    quantity_at_after :
        (p a : Amount) (ls : List (PriceLevel Amount)) {q : Amount}
        → All (λ m. less a m.price ≡ true) ls
        → quantity_at 𝒟 (to_string p) ls ≡ some q
        → less a p ≡ true
    quantity_at_after p a [] all e = cc
    quantity_at_after p a (l ∷ ls) {q} all e =
        elim (Bool-cases (str_eq (to_string l.price) (to_string p))) [
          | inl same ↦
              ground
                (arith, eq_iff (to_string l.price) (to_string p), to_string_injective l.price p)
          | inr other ↦ quantity_at_after p a ls {q = q} all.1 (ground arith)
        ]

    heads_equal :
        (x y : PriceLevel Amount) (xs ys : List (PriceLevel Amount))
        → IsSorted 𝒟 less (x ∷ xs)
        → IsSorted 𝒟 less (y ∷ ys)
        → quantity_at 𝒟 (to_string x.price) (y ∷ ys) ≡ some x.quantity
        → quantity_at 𝒟 (to_string y.price) (x ∷ xs) ≡ some y.quantity
        → x ≡ y
    heads_equal x y xs ys sx sy hx hy = ground (
      arith,
      eq_iff (to_string y.price) (to_string x.price),
      eq_iff (to_string x.price) (to_string y.price),
      to_string_injective x.price y.price,
      quantity_at_after x.price y.price ys {q = x.quantity} sy.0,
      quantity_at_after y.price x.price xs {q = y.quantity} sx.0,
      order.trans x.price y.price x.price,
      order.irrefl x.price,
    )

    rest_agrees :
        (x : PriceLevel Amount) (xs ys : List (PriceLevel Amount)) (k : String)
        → quantity_at 𝒟 (to_string x.price) xs ≡ none
        → quantity_at 𝒟 (to_string x.price) ys ≡ none
        → quantity_at 𝒟 k (x ∷ xs) ≡ quantity_at 𝒟 k (x ∷ ys)
        → quantity_at 𝒟 k xs ≡ quantity_at 𝒟 k ys
    rest_agrees x xs ys k hx hy e = ground (arith, eq_iff (to_string x.price) k)

    first_found :
        (x : PriceLevel Amount) (xs : List (PriceLevel Amount))
        → quantity_at 𝒟 (to_string x.price) (x ∷ xs) ≡ some x.quantity
    first_found x xs = ground (arith, eq_iff (to_string x.price) (to_string x.price))

    -- Two strictly sorted lists that agree at every price are one list.
    sorted_unique :
        (xs ys : List (PriceLevel Amount))
        → IsSorted 𝒟 less xs
        → IsSorted 𝒟 less ys
        → DistinctPrices 𝒟 xs
        → DistinctPrices 𝒟 ys
        → ((k : String) → quantity_at 𝒟 k xs ≡ quantity_at 𝒟 k ys)
        → xs ≡ ys
    sorted_unique [] [] sx sy dx dy same = refl
    sorted_unique [] (y ∷ ys) sx sy dx dy same = cc (same (to_string y.price), first_found y ys)
    sorted_unique (x ∷ xs) [] sx sy dx dy same = cc (same (to_string x.price), first_found x xs)
    sorted_unique (x ∷ xs) (y ∷ ys) sx sy dx dy same =
        let one : x ≡ y =
          heads_equal x y xs ys sx sy (sym (same (to_string x.price)) ∙ first_found x xs)
            (same (to_string y.price) ∙ first_found y ys) in
        let fresh : quantity_at 𝒟 (to_string x.price) ys ≡ none = rw one dy.0 in
        let rest : xs ≡ ys = sorted_unique xs ys sx.1 sy.1 dx.1 dy.1 (λ k.
          rest_agrees x xs ys k dx.0 fresh
            (same k ∙ ap (λ l. quantity_at 𝒟 k (l ∷ ys)) (sym one))) in
        cc

  -- Two maps with the same entries, held in whatever order, give the same sorted levels.
  pub sorted_levels_deterministic :
      (m n : List (String × Amount)) (descending : Bool) (depth : ℕ)
      → IsSide 𝒟 m
      → IsSide 𝒟 n
      → ((k : String) → lookup k m ≡ lookup k n)
      → sorted_levels 𝒟 m descending depth ≡ sorted_levels 𝒟 n descending depth
  sorted_levels_deterministic m n descending depth sm sn same =
      let (atm, dm, om) = IsSorted-side 𝒟 ℒ m descending sm in
      let (atn, dn, on) = IsSorted-side 𝒟 ℒ n descending sn in
      let whole =
        sorted_unique (before 𝒟 descending) (before-IsOrder 𝒟 ℒ descending)
          (sorted_levels 𝒟 m descending 0) (sorted_levels 𝒟 n descending 0) om on dm dn
          (λ k. atm k ∙ same k ∙ sym (atn k)) in
      ground (
        arith,
        whole,
        sorted_levels-cases 𝒟 m descending depth,
        sorted_levels-cases 𝒟 n descending depth,
      )
