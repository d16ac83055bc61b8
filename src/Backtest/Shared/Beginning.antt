-- ===== src/Backtest/Shared/Beginning.antt =====
-- `handleL2` of one loop of engine/backtest/execution/executor.go up to its XADD, seen by all loops.
use mathlib.Core.Path.{subst}
use erebor.Prelude.{
  ℕ, ◌≡◌, refl, sym, ap, ◌∙◌, Bool, true, Option, none, some, String, arith, All, All_mono,
  All-modify, get_elem?,
}
use erebor.Prelude.Assoc.{lookup}
use erebor.Decimal.{Decimal, IsExact, zero_amount}
use erebor.Trading.Order.{Side, OrderEvent}
use erebor.Trading.Risk.{HaltStore, Rejection, can_trade}
use erebor.Trading.Risk.Accounting.{positions-can_trade}
use erebor.Trading.Strategy.{StrategyConfig, trade_decision}
use erebor.Wire.Books.{L2EventData}
use erebor.Backtest.Executor.{book_imbalance}
use erebor.Backtest.Executor.Decision.{Allowed, decision-cases}
use erebor.Backtest.Shared.{
  waiting, publishing, recording, Loop, answered, priced, take_order, System, decided, begin,
  publish,
}
use erebor.Backtest.Shared.Agreement.{
  Agrees, Held, Held-moved, answered-Held, symbols, symbols-modify,
}

module _ (𝒟 : Decimal) (ℒ : IsExact 𝒟) (S : HaltStore) where
  open 𝒟 use {Amount, add, sub, neg, is_zero, is_positive, is_negative}

  pub begin-Held :
      (q : Amount) (s : System 𝒟 S) (i : ℕ) (l : Loop 𝒟) (ev : L2EventData Amount)
      (order_id : String)
      → s.cfg.trade_qty ≡ q
      → is_positive q ≡ true
      → get_elem? s.loops i ≡ some l
      → l.phase ≡ waiting
      → All (Held 𝒟 ℒ S q s.risk) s.loops
      → All (Held 𝒟 ℒ S q (begin 𝒟 S s i l ev order_id).risk) (begin 𝒟 S s i l ev order_id).loops
  unfolding begin decided
  begin-Held q s i l ev order_id t h e w k =
      decided-Held (trade_decision 𝒟 s.cfg (book_imbalance 𝒟 ev.bids ev.asks 10) l.qty)
        (decision-cases 𝒟 ℒ s.cfg (book_imbalance 𝒟 ev.bids ev.asks 10) l.qty)
    where
      decided-Held :
          (o : Option Side)
          → ((side : Side) → o ≡ some side → Allowed 𝒟 ℒ side l.qty)
          → All
              (Held 𝒟 ℒ S q (decided 𝒟 S s i l ev order_id o).risk)
              (decided 𝒟 S s i l ev order_id o).loops
      decided-Held none d = k
      decided-Held (some side) d =
          let checked = can_trade 𝒟 S s.risk l.symbol side s.cfg.trade_qty ev.event_time in
          let kept : (x : Loop 𝒟) → Held 𝒟 ℒ S q s.risk x → Held 𝒟 ℒ S q checked.0 x = λ x p.
            Held-moved 𝒟 ℒ S q s.risk checked.0 x
              (ap (λ m. elim (lookup x.symbol m) [ some p ↦ p | none ↦ zero_amount 𝒟 ])
                (positions-can_trade 𝒟 ℒ S s.risk l.symbol side s.cfg.trade_qty ev.event_time))
              p in
          All-modify (Held 𝒟 ℒ S q checked.0) i (λ x. answered 𝒟 s.cfg x ev side order_id checked.1)
            s.loops
            (λ x here p.
              let same : x ≡ l = ground (arith, here, e) in
              answered-Held 𝒟 ℒ S q s.cfg checked.0 x ev side order_id checked.1 t h p
                (subst (Agrees 𝒟 ℒ S checked.0 x) (ap (λ y. y.phase) same ∙ w) p.1)
                (subst (λ y. Allowed 𝒟 ℒ side y.qty) (sym same) (d side refl)))
            (All_mono (Held 𝒟 ℒ S q s.risk) (Held 𝒟 ℒ S q checked.0) s.loops kept k)

  pub publish-Held :
      (q : Amount) (s : System 𝒟 S) (i : ℕ) (l : Loop 𝒟) (order : OrderEvent Amount) (ok : Bool)
      → get_elem? s.loops i ≡ some l
      → l.phase ≡ publishing order
      → All (Held 𝒟 ℒ S q s.risk) s.loops
      → All (Held 𝒟 ℒ S q s.risk) (publish 𝒟 S s i order ok).loops
  unfolding publish
  publish-Held q s i l order ok e w k =
      All-modify (Held 𝒟 ℒ S q s.risk) i (λ x. record x { phase = recording order }) s.loops
        (λ x here p.
          let same : x ≡ l = ground (arith, here, e) in
          (p.0, subst (Agrees 𝒟 ℒ S s.risk x) (ap (λ y. y.phase) same ∙ w) p.1))
        k

  answered-symbol :
      (cfg : StrategyConfig Amount) (l : Loop 𝒟) (ev : L2EventData Amount) (side : Side)
      (order_id : String) (answer : Option Rejection)
      → (answered 𝒟 cfg l ev side order_id answer).symbol ≡ l.symbol
  unfolding answered priced take_order
  answered-symbol cfg l ev side order_id answer = ground arith

  pub begin_static :
      (s : System 𝒟 S) (i : ℕ) (l : Loop 𝒟) (ev : L2EventData Amount) (order_id : String)
      → ((begin 𝒟 S s i l ev order_id).cfg ≡ s.cfg)
        × (symbols 𝒟 ℒ S (begin 𝒟 S s i l ev order_id).loops ≡ symbols 𝒟 ℒ S s.loops)
  unfolding begin decided
  begin_static s i l ev order_id =
      by_decision (trade_decision 𝒟 s.cfg (book_imbalance 𝒟 ev.bids ev.asks 10) l.qty)
    where
      by_decision :
          (o : Option Side)
          → ((decided 𝒟 S s i l ev order_id o).cfg ≡ s.cfg)
            × (symbols 𝒟 ℒ S (decided 𝒟 S s i l ev order_id o).loops ≡ symbols 𝒟 ℒ S s.loops)
      by_decision none = (refl, refl)
      by_decision (some side) =
          (refl, symbols-modify 𝒟 ℒ S i _ s.loops (λ x. answered-symbol s.cfg x ev side order_id _))
