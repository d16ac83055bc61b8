-- ===== src/Backtest/Shared/Positions.antt =====
-- The positions of all loops of engine/backtest/execution/executor.go and of the risk checker that
-- they share, under every interleaving.
use mathlib.Core.Path.{subst}
use erebor.Prelude.{
  ◌≡◌, refl, sym, ap, ◌∙◌, true, inl, inr, none, some, String, List, [], ◌∷◌, map, All,
}
use erebor.Prelude.Assoc.{lookup}
use erebor.Decimal.{Decimal, IsExact, zero_amount}
use erebor.Trading.Risk.{HaltStore, Checker}
use erebor.Trading.Strategy.{StrategyConfig}
use erebor.Backtest.Shared.{
  idle, System, publish, finish, launch, Step, begins, publishes, finishes, Run, start, later,
}
use erebor.Backtest.Shared.Agreement.{Held, symbols, DistinctSymbols, symbols-modify}
use erebor.Backtest.Shared.Recording.{recorded_all}
use erebor.Backtest.Shared.Beginning.{begin-Held, publish-Held, begin_static}

module _ (𝒟 : Decimal) (ℒ : IsExact 𝒟) (S : HaltStore) where
  open 𝒟 use {Amount, add, sub, neg, is_zero, is_positive, is_negative}

  -- What a run starts from and keeps.
  pub record Together (q : Amount) (s : System 𝒟 S) : Type 0 where
    pub trade_qty : s.cfg.trade_qty ≡ q
    pub distinct : DistinctSymbols 𝒟 ℒ S (symbols 𝒟 ℒ S s.loops)
    pub held : All (Held 𝒟 ℒ S q s.risk) s.loops

  step-Together :
      (q : Amount) (s t : System 𝒟 S)
      → is_positive q ≡ true
      → Together q s
      → Step 𝒟 S s t
      → Together q t
  unfolding publish finish
  step-Together q s _ h g (begins i l ev order_id e w) = record {
    trade_qty = ap (λ c. c.trade_qty) (begin_static 𝒟 ℒ S s i l ev order_id).0 ∙ g.trade_qty;
    distinct =
        subst (DistinctSymbols 𝒟 ℒ S) (sym (begin_static 𝒟 ℒ S s i l ev order_id).1) g.distinct;
    held = begin-Held 𝒟 ℒ S q s i l ev order_id g.trade_qty h e w g.held;
  }
  step-Together q s _ h g (publishes i l order ok e w) = record {
    trade_qty = g.trade_qty;
    distinct =
        subst (DistinctSymbols 𝒟 ℒ S) (sym (symbols-modify 𝒟 ℒ S i _ s.loops (λ x. refl)))
          g.distinct;
    held = publish-Held 𝒟 ℒ S q s i l order ok e w g.held;
  }
  step-Together q s _ h g (finishes i l order e w) = record {
    trade_qty = g.trade_qty;
    distinct =
        subst (DistinctSymbols 𝒟 ℒ S) (sym (symbols-modify 𝒟 ℒ S i _ s.loops (λ x. refl)))
          g.distinct;
    held = recorded_all 𝒟 ℒ S q s.risk order s.loops i l e w g.distinct g.held;
  }

  run-Together :
      (q : Amount) (s t : System 𝒟 S)
      → is_positive q ≡ true
      → Together q s
      → Run 𝒟 S s t
      → Together q t
  run-Together q s _ h g start = g
  run-Together q s u h g (later r st) = step-Together q _ u h (run-Together q s _ h g r) st

  symbols-idle : (ss : List String) → symbols 𝒟 ℒ S (map (λ s. idle 𝒟 s) ss) ≡ ss
  symbols-idle [] = refl
  symbols-idle (s ∷ ss) = ap (λ r. s ∷ r) (symbols-idle ss)

  idle-Held :
      (q : Amount) (risk : Checker 𝒟 S) (ss : List String)
      → risk.positions ≡ []
      → All (Held 𝒟 ℒ S q risk) (map (λ s. idle 𝒟 s) ss)
  unfolding lookup
  idle-Held q risk [] e = tt
  idle-Held q risk (s ∷ ss) e = (
    (inr (inl refl), ap (λ m. elim (lookup s m) [ some p ↦ p | none ↦ zero_amount 𝒟 ]) e),
    idle-Held q risk ss e,
  )

  -- The loops of distinct symbols 𝒟 ℒ S are started with a positive trade quantity and a risk checker
  -- that holds no position. Then in whatever order the loops take their steps, no symbol is ever
  -- more than one trade long or short, and the position that the shared risk checker has of it is
  -- that of its loop, less the one fill that the loop has still to record.
  pub run-Held :
      (cfg : StrategyConfig Amount) (risk : Checker 𝒟 S) (ss : List String) (t : System 𝒟 S)
      → is_positive cfg.trade_qty ≡ true
      → DistinctSymbols 𝒟 ℒ S ss
      → risk.positions ≡ []
      → Run 𝒟 S (launch 𝒟 S cfg risk ss) t
      → All (Held 𝒟 ℒ S cfg.trade_qty t.risk) t.loops
  unfolding launch
  run-Held cfg risk ss t h distinct e r =
      (run-Together cfg.trade_qty (launch 𝒟 S cfg risk ss) t h
        (record {
          trade_qty = refl;
          distinct = subst (DistinctSymbols 𝒟 ℒ S) (sym (symbols-idle ss)) distinct;
          held = idle-Held cfg.trade_qty risk ss e;
        })
        r).held
