-- ===== src/Trading/Strategy.antt =====
-- The strategy that paper trading and the backtest share: engine/execution/decider/decider.go,
-- `tradeDecision` and `computeFillPrice` of engine/backtest/execution/executor.go, and the
-- configuration of strategy.go. The parsing of the configuration is left out.
pub mod Agreement
use text.Mathlib.Text.{◌==◌ as str_eq}
use erebor.Prelude.{
  Bool, true, false, not, ◌&&◌, ◌||◌, Option, none, some, String, List, [], ◌∷◌, if◌then◌else◌,
}
use erebor.Prelude.Int.{ℤ}
use erebor.Decimal.{Decimal}
use erebor.Ingest.Domain.{PriceLevel}
use erebor.Trading.Order.{Side, buy, sell, is_buy}
use erebor.Trading.Fill.{compute_fill_price}
use erebor.Trading.Signals.{SignalEvent}

pub record StrategyConfig (A : Type 0) : Type 0 where
  pub maker_fee_bps : ℤ
  pub taker_fee_bps : ℤ
  pub slippage_bps : ℤ
  pub trade_qty : A
  pub buy_threshold : A
  pub sell_threshold : A
  pub initial_capital : A
  pub max_position_qty : List (String × A)
  pub max_drawdown_pct : A
  pub run_loss_limit_pct : A

-- decider.Position.
pub data Position : Type 0 where
  flat long short : Position

abbrev pub flat_or_short : Position → Bool
flat_or_short flat = true
flat_or_short short = true
flat_or_short long = false

abbrev pub flat_or_long : Position → Bool
flat_or_long flat = true
flat_or_long long = true
flat_or_long short = false

module _ (𝒟 : Decimal) where
  open 𝒟 use {Amount, neg, is_zero, is_positive, is_negative, less_than, greater_than}

  -- `none` is the answer ("", false).
  unfoldable pub decide : StrategyConfig Amount → SignalEvent Amount → Position → Option Side
  decide cfg sig position =
      let want_buy = greater_than sig.value cfg.buy_threshold in
      let want_sell = less_than sig.value (neg cfg.sell_threshold) in
      if not (str_eq sig.name "book_imbalance")
      then none
      else if want_buy && flat_or_short position
      then some buy
      else if want_sell && flat_or_long position
      then some sell
      else none

  unfoldable pub trade_decision : StrategyConfig Amount → Amount → Amount → Option Side
  trade_decision cfg imbalance qty =
      let want_buy = greater_than imbalance cfg.buy_threshold in
      let want_sell = less_than imbalance (neg cfg.sell_threshold) in
      if want_buy && (is_zero qty || is_negative qty)
      then some buy
      else if want_sell && (is_zero qty || is_positive qty)
      then some sell
      else none

  -- The price of the first opposite level; `none` is the error for an empty side.
  unfoldable pub fill_price :
      StrategyConfig Amount
      → Side
      → List (PriceLevel Amount)
      → List (PriceLevel Amount)
      → Option Amount
  fill_price cfg side bids asks =
      if is_buy side
      then elim asks [
        | [] ↦ none
        | best ∷ rest ↦ some (compute_fill_price 𝒟 true best.price cfg.slippage_bps)
      ]
      else elim bids [
        | [] ↦ none
        | best ∷ rest ↦ some (compute_fill_price 𝒟 false best.price cfg.slippage_bps)
      ]
