-- ===== src/Trading/Fill.antt =====
-- engine/fillmath/fill.go: the price and the fee of a pessimistic market fill.
use erebor.Prelude.{◌≡◌, Bool, true, false, if◌then◌else◌, arith}
use erebor.Prelude.Int.{ℤ, pos, leb_ℤ}
use erebor.Decimal.{Decimal, IsExact, Le, zero_amount}
use erebor.Decimal.Laws.{Le-mul, le-add_nonneg, sub-le_nonneg}

module _ (𝒟 : Decimal) where
  open 𝒟 use {Amount, of_int, add, sub, mul, div}

  abbrev pub ten4 : Amount
  ten4 = of_int (pos 10000)

  unfoldable pub compute_fill_price : Bool → Amount → ℤ → Amount
  compute_fill_price is_buy best_price slippage_bps =
      let slip = div (of_int slippage_bps) ten4 in
      if is_buy then add best_price (mul best_price slip) else sub best_price (mul best_price slip)

  unfoldable pub compute_fee : Amount → Amount → ℤ → Amount
  compute_fee qty fill_price fee_bps = div (mul (mul qty fill_price) (of_int fee_bps)) ten4

module _ (𝒟 : Decimal) (ℒ : IsExact 𝒟) where
  open 𝒟 use {Amount, of_int, add, sub, mul, div}

  slip_nonneg :
      (bps : ℤ) → leb_ℤ (pos 0) bps ≡ true → Le 𝒟 (zero_amount 𝒟) (div (of_int bps) (ten4 𝒟))
  slip_nonneg bps k = ground (
    arith,
    ℒ.div_mono (of_int (pos 0)) (of_int bps) (ten4 𝒟),
    ℒ.zero-div (ten4 𝒟),
    ℒ.of_int-lt (pos 0) (pos 10000),
    ℒ.of_int-lt bps (pos 0),
  )

  -- For slippage and a best price that are not negative, a buy fills at the best ask or above,
  -- and a sell at the best bid or below.
  pub compute_fill_price_pessimistic :
      (best_price : Amount) (slippage_bps : ℤ)
      → Le 𝒟 (zero_amount 𝒟) best_price
      → leb_ℤ (pos 0) slippage_bps ≡ true
      → Le 𝒟 best_price (compute_fill_price 𝒟 true best_price slippage_bps)
        × Le 𝒟 (compute_fill_price 𝒟 false best_price slippage_bps) best_price
  unfolding compute_fill_price
  compute_fill_price_pessimistic best_price slippage_bps h k =
      let extra = Le-mul 𝒟 ℒ best_price _ h (slip_nonneg slippage_bps k) in
      (le-add_nonneg 𝒟 ℒ best_price _ extra, sub-le_nonneg 𝒟 ℒ best_price _ extra)
