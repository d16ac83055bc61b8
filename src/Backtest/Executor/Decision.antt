-- ===== src/Backtest/Executor/Decision.antt =====
-- The decision of engine/backtest/execution/executor.go (`tradeDecision`) and the position after
-- the trade that it asks for.
use erebor.Prelude.{◌≡◌, true, false, ◌||◌, ◌⊎◌, some, arith}
use erebor.Decimal.{Decimal, IsExact, zero_amount}
use erebor.Decimal.Laws.{zero-add, neg-add, sub_self, neg-zero, neg-neg, lt_asymm, Le_neg}
use erebor.Trading.Order.{Side, buy, sell}
use erebor.Trading.Strategy.{StrategyConfig, trade_decision}

module _ (𝒟 : Decimal) (ℒ : IsExact 𝒟) where
  open 𝒟 use {Amount, add, sub, neg, is_zero, is_positive, is_negative}

  -- One trade short, flat, or one trade long.
  abbrev pub OneTrade : Amount → Amount → Type 0
  OneTrade q qty = (qty ≡ neg q) ⊎ (qty ≡ zero_amount 𝒟) ⊎ (qty ≡ q)

  -- A buy from flat or short, a sell from flat or long.
  abbrev pub Allowed : Side → Amount → Type 0
  Allowed side qty =
      ((side ≡ buy) × ((is_zero qty || is_negative qty) ≡ true))
      ⊎ ((side ≡ sell) × ((is_zero qty || is_positive qty) ≡ true))

  pub decision-cases :
      (cfg : StrategyConfig Amount) (i qty : Amount) (side : Side)
      → trade_decision 𝒟 cfg i qty ≡ some side
      → Allowed side qty
  unfolding trade_decision
  decision-cases cfg i qty side h = ground arith

  pub bought-OneTrade :
      (q qty : Amount)
      → is_positive q ≡ true
      → OneTrade q qty
      → (is_zero qty || is_negative qty) ≡ true
      → OneTrade q (add qty q)
  bought-OneTrade q qty h o d = ground (
    arith,
    neg-add 𝒟 ℒ q,
    zero-add 𝒟 ℒ q,
    ℒ.positive_lem q,
    ℒ.negative_lem q,
    ℒ.zero_iff q,
    ℒ.lt_irrefl (zero_amount 𝒟),
    lt_asymm 𝒟 ℒ (zero_amount 𝒟) q,
  )

  neg_positive :
      (q : Amount) → is_positive q ≡ true → (is_zero (neg q) || is_positive (neg q)) ≡ false
  neg_positive q h = ground (
    arith,
    ℒ.positive_lem q,
    ℒ.positive_lem (neg q),
    ℒ.zero_iff (neg q),
    neg-neg 𝒟 ℒ q,
    neg-zero 𝒟 ℒ,
    ℒ.lt_irrefl (zero_amount 𝒟),
    lt_asymm 𝒟 ℒ (zero_amount 𝒟) q,
    Le_neg 𝒟 ℒ (zero_amount 𝒟) q,
  )

  pub sold-OneTrade :
      (q qty : Amount)
      → is_positive q ≡ true
      → OneTrade q qty
      → (is_zero qty || is_positive qty) ≡ true
      → OneTrade q (sub qty q)
  sold-OneTrade q qty h o d =
      ground
        (arith, neg_positive q, sub_self 𝒟 ℒ q, ℒ.sub_lem (zero_amount 𝒟) q, zero-add 𝒟 ℒ (neg q))
