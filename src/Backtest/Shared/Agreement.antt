-- ===== src/Backtest/Shared/Agreement.antt =====
-- The position of a loop of engine/backtest/execution/executor.go and that of the shared risk
-- checker.
use text.Mathlib.Text.{◌==◌ as str_eq}
use erebor.Prelude.{
  ℕ, zero, suc, ◌≡◌, refl, ap, ◌∙◌, true, false, inl, inr, Option, none, some, String, List, [],
  ◌∷◌, map, arith, All, modify,
}
use erebor.Decimal.{Decimal, IsExact}
use erebor.Trading.Order.{Side}
use erebor.Trading.Risk.{HaltStore, Checker, Config, Rejection, can_trade, record_fill, moved}
use erebor.Trading.Risk
use erebor.Trading.Strategy.{StrategyConfig, fill_price}
use erebor.Wire.Books.{L2EventData}
use erebor.Backtest.Executor.Decision.{OneTrade, Allowed, bought-OneTrade, sold-OneTrade}
use erebor.Backtest.Shared.{
  Phase, waiting, publishing, recording, Loop, order_of, take_order, priced, answered,
}

module _ (𝒟 : Decimal) (ℒ : IsExact 𝒟) (S : HaltStore) where
  open 𝒟 use {Amount, add, sub, neg, is_zero, is_positive, is_negative}

  -- The position of the risk checker is that of the loop, less the fill that the loop has still
  -- to record.
  abbrev pub Agrees : Checker 𝒟 S → Loop 𝒟 → Phase 𝒟 → Type 0
  Agrees risk l waiting = Risk.position_of 𝒟 S risk l.symbol ≡ l.qty
  Agrees risk l (publishing o) =
      (o.symbol ≡ l.symbol)
      × (moved 𝒟 S o.side (Risk.position_of 𝒟 S risk l.symbol) o.fill_qty ≡ l.qty)
  Agrees risk l (recording o) =
      (o.symbol ≡ l.symbol)
      × (moved 𝒟 S o.side (Risk.position_of 𝒟 S risk l.symbol) o.fill_qty ≡ l.qty)

  abbrev pub Held : Amount → Checker 𝒟 S → Loop 𝒟 → Type 0
  Held q risk l = OneTrade 𝒟 ℒ q l.qty × Agrees risk l l.phase

  abbrev pub DistinctSymbols : List String → Type 0
  DistinctSymbols [] = Unit
  DistinctSymbols (s ∷ ss) = All (λ t. str_eq s t ≡ false) ss × DistinctSymbols ss

  abbrev pub symbols : List (Loop 𝒟) → List String
  symbols ls = map (λ l. l.symbol) ls

  Agrees-moved :
      (risk risk' : Checker 𝒟 S) (l : Loop 𝒟)
      → Risk.position_of 𝒟 S risk' l.symbol ≡ Risk.position_of 𝒟 S risk l.symbol
      → (p : Phase 𝒟) → Agrees risk l p
      → Agrees risk' l p
  Agrees-moved risk risk' l e waiting a = e ∙ a
  Agrees-moved risk risk' l e (publishing o) (same, a) =
      (same, ap (λ x. moved 𝒟 S o.side x o.fill_qty) e ∙ a)
  Agrees-moved risk risk' l e (recording o) (same, a) =
      (same, ap (λ x. moved 𝒟 S o.side x o.fill_qty) e ∙ a)

  pub symbols-modify :
      (i : ℕ) (f : Loop 𝒟 → Loop 𝒟) (ls : List (Loop 𝒟))
      → ((l : Loop 𝒟) → (f l).symbol ≡ l.symbol)
      → symbols (modify i f ls) ≡ symbols ls
  symbols-modify i f [] e = refl
  symbols-modify zero f (l ∷ ls) e = ap (λ s. s ∷ symbols ls) (e l)
  symbols-modify (suc i) f (l ∷ ls) e = ap (λ ss. l.symbol ∷ ss) (symbols-modify i f ls e)

  pub Held-moved :
      (q : Amount) (risk risk' : Checker 𝒟 S) (l : Loop 𝒟)
      → Risk.position_of 𝒟 S risk' l.symbol ≡ Risk.position_of 𝒟 S risk l.symbol
      → Held q risk l
      → Held q risk' l
  Held-moved q risk risk' l e (o, a) = (o, Agrees-moved risk risk' l e l.phase a)

  taken-Held :
      (q : Amount) (cfg : StrategyConfig Amount) (risk : Checker 𝒟 S) (l : Loop 𝒟)
      (ev : L2EventData Amount) (side : Side) (order_id : String) (price : Amount)
      → cfg.trade_qty ≡ q
      → is_positive q ≡ true
      → OneTrade 𝒟 ℒ q l.qty
      → Risk.position_of 𝒟 S risk l.symbol ≡ l.qty
      → Allowed 𝒟 ℒ side l.qty
      → Held q risk (take_order 𝒟 l (order_of 𝒟 cfg l ev side order_id price))
  unfolding take_order order_of
  taken-Held q cfg risk l ev side order_id price t h o a (inl (b, d)) =
      (rw (b, t) (bought-OneTrade 𝒟 ℒ q l.qty h o d), (refl, ground (arith, a, b)))
  taken-Held q cfg risk l ev side order_id price t h o a (inr (b, d)) = (
    rw (b, t) (sold-OneTrade 𝒟 ℒ q l.qty h o d),
    (refl, ground (arith, a, b, ℒ.sub_lem l.qty cfg.trade_qty)),
  )

  pub answered-Held :
      (q : Amount) (cfg : StrategyConfig Amount) (risk : Checker 𝒟 S) (l : Loop 𝒟)
      (ev : L2EventData Amount) (side : Side) (order_id : String) (answer : Option Rejection)
      → cfg.trade_qty ≡ q
      → is_positive q ≡ true
      → Held q risk l
      → Risk.position_of 𝒟 S risk l.symbol ≡ l.qty
      → Allowed 𝒟 ℒ side l.qty
      → Held q risk (answered 𝒟 cfg l ev side order_id answer)
  unfolding answered priced
  answered-Held q cfg risk l ev side order_id (some r) t h k a d = k
  answered-Held q cfg risk l ev side order_id none t h k a d =
      priced-Held (fill_price 𝒟 cfg side ev.bids ev.asks)
    where
      priced-Held : (p : Option Amount) → Held q risk (priced 𝒟 cfg l ev side order_id p)
      priced-Held none = k
      priced-Held (some price) = taken-Held q cfg risk l ev side order_id price t h k.0 a d
