-- ===== src/Trading/Signals/Imbalance.antt =====
-- The range of the book imbalance: `bookImbalance` and `sumQty` of
-- engine/signals/compute/signals.go.
use erebor.Prelude.{
  ℕ, zero, suc, ◌+◌, ◌≡◌, sym, ap, ◌∙◌, true, false, List, [], ◌∷◌, if◌then◌else◌, ltb, take, All,
  arith, if_cases,
}
use erebor.Prelude.Int.{pos}
use erebor.Decimal.{Decimal, IsExact, Le, zero_amount}
use erebor.Decimal.Laws.{
  zero-add, Le_trans, le-add_nonneg, sub-le_nonneg, neg-zero, sub_swap, Le_neg,
}
use erebor.Ingest.Domain.{PriceLevel}
use erebor.Trading.Signals.{sum_qty_from, sum_qty, imbalance}

module _ (𝒟 : Decimal) where
  open 𝒟 use {Amount, add}

  abbrev pub total_qty : List (PriceLevel Amount) → Amount
  total_qty [] = zero_amount 𝒟
  total_qty (l ∷ ls) = add l.quantity (total_qty ls)

module _ (𝒟 : Decimal) (ℒ : IsExact 𝒟) where
  open 𝒟 use {Amount, of_int, add, sub, neg, div, is_zero, less_than}

  sum_all :
      (i : ℕ) (total : Amount) (ls : List (PriceLevel Amount))
      → sum_qty_from 𝒟 0 i total ls ≡ add total (total_qty 𝒟 ls)
  unfolding sum_qty_from
  sum_all i total [] = sym (ℒ.add-zero total)
  sum_all i total (l ∷ ls) =
      sum_all (suc i) (add total l.quantity) ls ∙ ℒ.add_assoc total l.quantity (total_qty 𝒟 ls)

  sum_first :
      (n i depth : ℕ) (total : Amount) (ls : List (PriceLevel Amount))
      → n + i ≡ depth
      → ltb 0 depth ≡ true
      → sum_qty_from 𝒟 depth i total ls ≡ add total (total_qty 𝒟 (take n ls))
  unfolding sum_qty_from
  sum_first zero i depth total [] e h = sym (ℒ.add-zero total)
  sum_first (suc n) i depth total [] e h = sym (ℒ.add-zero total)
  sum_first zero i depth total (l ∷ ls) e h = ground (arith, ℒ.add-zero total)
  sum_first (suc n) i depth total (l ∷ ls) e h = ground (
    arith,
    sum_first n (suc i) depth (add total l.quantity) ls,
    ℒ.add_assoc total l.quantity (total_qty 𝒟 (take n ls)),
  )

  -- The loop sums the first `depth` levels, and all of them for a depth of 0.
  pub sum_qty_lem :
      (levels : List (PriceLevel Amount)) (depth : ℕ)
      → sum_qty 𝒟 levels depth ≡ total_qty 𝒟 (if ltb 0 depth then take depth levels else levels)
  unfolding sum_qty
  sum_qty_lem levels zero = sum_all 0 (zero_amount 𝒟) levels ∙ zero-add 𝒟 ℒ _
  sum_qty_lem levels (suc d) = ground (
    arith,
    sum_first (suc d) 0 (suc d) (zero_amount 𝒟) levels (omega arith) (ground arith),
    zero-add 𝒟 ℒ (total_qty 𝒟 (take (suc d) levels)),
  )

  abbrev pub NonNegative : List (PriceLevel Amount) → Type 0
  NonNegative = All (λ l. Le 𝒟 (zero_amount 𝒟) l.quantity)

  total_nonneg :
      (ls : List (PriceLevel Amount)) → NonNegative ls → Le 𝒟 (zero_amount 𝒟) (total_qty 𝒟 ls)
  total_nonneg [] all = ℒ.lt_irrefl _
  total_nonneg (l ∷ ls) all =
      Le_trans 𝒟 ℒ (zero_amount 𝒟) l.quantity _ all.0
        (le-add_nonneg 𝒟 ℒ l.quantity (total_qty 𝒟 ls) (total_nonneg ls all.1))

  take_nonneg : (n : ℕ) (ls : List (PriceLevel Amount)) → NonNegative ls → NonNegative (take n ls)
  take_nonneg zero ls all = tt
  take_nonneg (suc n) [] all = tt
  take_nonneg (suc n) (l ∷ ls) all = (all.0, take_nonneg n ls all.1)

  sum_nonneg :
      (ls : List (PriceLevel Amount)) (depth : ℕ)
      → NonNegative ls
      → Le 𝒟 (zero_amount 𝒟) (sum_qty 𝒟 ls depth)
  sum_nonneg ls depth all = ground (
    arith,
    sum_qty_lem ls depth,
    total_nonneg ls all,
    total_nonneg (take depth ls) (take_nonneg depth ls all),
  )

  ratio_le_one :
      (b a t : Amount)
      → Le 𝒟 (zero_amount 𝒟) a
      → Le 𝒟 b t
      → less_than (zero_amount 𝒟) t ≡ true
      → is_zero t ≡ false
      → Le 𝒟 (div (sub b a) t) (of_int (pos 1))
  ratio_le_one b a t ha hb positive nz = ground (
    arith,
    ℒ.div_mono (sub b a) t t positive (Le_trans 𝒟 ℒ (sub b a) b t (sub-le_nonneg 𝒟 ℒ b a ha) hb),
    ℒ.div_self t nz,
  )

  ratio_bounds :
      (b a : Amount)
      → Le 𝒟 (zero_amount 𝒟) b
      → Le 𝒟 (zero_amount 𝒟) a
      → is_zero (add b a) ≡ false
      → Le 𝒟 (neg (of_int (pos 1))) (div (sub b a) (add b a))
        × Le 𝒟 (div (sub b a) (add b a)) (of_int (pos 1))
  ratio_bounds b a hb ha nz =
      let t = add b a in
      let b_le : Le 𝒟 b t = le-add_nonneg 𝒟 ℒ b a ha in
      let a_le : Le 𝒟 a t = ground (arith, le-add_nonneg 𝒟 ℒ a b hb, ℒ.add_comm a b) in
      let t_nonneg : Le 𝒟 (zero_amount 𝒟) t = Le_trans 𝒟 ℒ (zero_amount 𝒟) b t hb b_le in
      let positive : less_than (zero_amount 𝒟) t ≡ true =
        ground (arith, ℒ.lt_total (zero_amount 𝒟) t, ℒ.zero_iff t) in
      let mirrored : div (sub b a) t ≡ neg (div (sub a b) t) =
        ap (λ n. div n t) (sub_swap 𝒟 ℒ a b) ∙ ℒ.div-neg (sub a b) t in
      (
        rw mirrored (Le_neg 𝒟 ℒ _ _ (ratio_le_one a b t hb a_le positive nz)),
        ratio_le_one b a t ha b_le positive nz,
      )

  minus_one : Le 𝒟 (neg (of_int (pos 1))) (zero_amount 𝒟) × Le 𝒟 (zero_amount 𝒟) (of_int (pos 1))
  minus_one =
      let one : Le 𝒟 (zero_amount 𝒟) (of_int (pos 1)) = ℒ.of_int-lt (pos 1) (pos 0) in
      (ground (arith, Le_neg 𝒟 ℒ (zero_amount 𝒟) (of_int (pos 1)) one, neg-zero 𝒟 ℒ), one)

  -- For levels with no negative quantity the imbalance lies between -1 and 1, at every depth and
  -- for empty sides too.
  pub imbalance_bounds :
      (bids asks : List (PriceLevel Amount)) (depth : ℕ)
      → NonNegative bids
      → NonNegative asks
      → Le 𝒟 (neg (of_int (pos 1))) (imbalance 𝒟 bids asks depth)
        × Le 𝒟 (imbalance 𝒟 bids asks depth) (of_int (pos 1))
  unfolding imbalance
  imbalance_bounds bids asks depth hb ha =
      let b = sum_qty 𝒟 bids depth in
      let a = sum_qty 𝒟 asks depth in
      if_cases (λ v. Le 𝒟 (neg (of_int (pos 1))) v × Le 𝒟 v (of_int (pos 1))) (is_zero (add b a))
        (λ empty. minus_one)
        (λ full. ratio_bounds b a (sum_nonneg bids depth hb) (sum_nonneg asks depth ha) full)
