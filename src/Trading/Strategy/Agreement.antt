-- ===== src/Trading/Strategy/Agreement.antt =====
-- Paper trading and the backtest decide alike: `Decide` of engine/execution/decider/decider.go
-- over `Position` of engine/execution/blotter/blotter.go, and `tradeDecision` of
-- engine/backtest/execution/executor.go.
use text.Mathlib.TextEquality.{eq_iff}
use erebor.Prelude.{◌≡◌, arith}
use erebor.Decimal.{Decimal, IsExact, zero_amount}
use erebor.Decimal.Laws.{lt_asymm}
use erebor.Trading.Signals.{SignalEvent}
use erebor.Trading.Strategy.{StrategyConfig, decide, trade_decision}
use erebor.Trading.Blotter.{FillStore, Blotter, position_of, position}

module _ (𝒟 : Decimal) (ℒ : IsExact 𝒟) (F : FillStore 𝒟.Amount) where
  open 𝒟 use {Amount, is_zero, is_positive, is_negative, neg, less_than, greater_than}

  -- On a book imbalance signal, the decider over the blotter's position of a symbol and the
  -- backtest's rule over the same net quantity give the same answer.
  pub decide_agrees :
      (cfg : StrategyConfig Amount) (sig : SignalEvent Amount) (b : Blotter 𝒟 F)
      → sig.name ≡ "book_imbalance"
      → decide 𝒟 cfg sig (position 𝒟 F b sig.symbol).0
        ≡ trade_decision 𝒟 cfg sig.value (position_of 𝒟 F b sig.symbol).net_qty
  unfolding decide trade_decision position
  decide_agrees cfg sig b named =
      let qty = (position_of 𝒟 F b sig.symbol).net_qty in
      ground (
        arith,
        eq_iff sig.name "book_imbalance",
        ℒ.positive_lem qty,
        ℒ.negative_lem qty,
        ℒ.zero_iff qty,
        ℒ.lt_total qty (zero_amount 𝒟),
        lt_asymm 𝒟 ℒ qty (zero_amount 𝒟),
        ℒ.lt_irrefl (zero_amount 𝒟),
      )
