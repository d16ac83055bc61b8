-- ===== src/Trading/Metrics.antt =====
-- The maximal drawdown of engine/backtest/metrics/computer.go: the loop of `equityMetrics` over
-- the equities of a run. The other figures are floating-point numbers or averages, and left out.
pub mod Drawdown
use erebor.Prelude.{Bool, true, false, List, [], ◌∷◌, if◌then◌else◌}
use erebor.Prelude.Int.{pos}
use erebor.Decimal.{Decimal, zero_amount}

module _ (𝒟 : Decimal) where
  open 𝒟 use {Amount, of_int, sub, mul, div, is_zero, is_positive, greater_than}

  unfoldable pub higher : Amount → Amount → Amount
  higher a b = if greater_than a b then a else b

  -- The fall from a peak, in percent.
  abbrev pub drawdown : Amount → Amount → Amount
  drawdown peak equity = mul (div (sub peak equity) peak) (of_int (pos 100))

  -- The loop, with the peak and the maximum so far.
  unfoldable pub drawdown_from : Amount → Amount → List Amount → Amount
  unfolding higher
  drawdown_from peak max_drawdown [] = max_drawdown
  drawdown_from peak max_drawdown (e ∷ equity) =
      let top = higher e peak in
      let so_far = if is_positive top then higher (drawdown top e) max_drawdown else max_drawdown in
      drawdown_from top so_far equity

  -- A series of fewer than two points, or one that starts at zero, has none.
  unfoldable pub max_drawdown : List Amount → Amount
  unfolding drawdown_from
  max_drawdown [] = zero_amount 𝒟
  max_drawdown (first ∷ []) = zero_amount 𝒟
  max_drawdown (first ∷ e ∷ equity) =
      if is_zero first
      then zero_amount 𝒟
      else drawdown_from first (zero_amount 𝒟) (first ∷ e ∷ equity)
