-- ===== src/Backtest/Shared/Recording.antt =====
-- RecordFill of one loop of engine/backtest/execution/executor.go, seen by all loops.
use mathlib.Core.Path.{subst}
use text.Mathlib.Text.{◌==◌ as str_eq}
use text.Mathlib.TextEquality.{eq_iff}
use erebor.Prelude.{
  ℕ, zero, suc, ◌≡◌, sym, ap, ◌∙◌, false, some, String, List, [], ◌∷◌, arith, All, All-get_elem?,
  get_elem?, modify,
}
use erebor.Decimal.{Decimal, IsExact}
use erebor.Trading.Order.{Side, OrderEvent}
use erebor.Trading.Risk.{HaltStore, Checker, Config, Rejection, can_trade, record_fill, moved}
use erebor.Trading.Risk
use erebor.Trading.Risk.Accounting.{position_of-record_fill, position_of-record_fill_other}
use erebor.Backtest.Executor.Decision.{OneTrade}
use erebor.Backtest.Shared.{waiting, recording, Loop, System}
use erebor.Backtest.Shared.Agreement.{Agrees, Held, symbols, DistinctSymbols, Held-moved}

module _ (𝒟 : Decimal) (ℒ : IsExact 𝒟) (S : HaltStore) where
  open 𝒟 use {Amount, add, sub, neg, is_zero, is_positive, is_negative}

  others-Held :
      (q : Amount) (risk : Checker 𝒟 S) (symbol : String) (side : Side) (qty price fee : Amount)
      (ls : List (Loop 𝒟))
      → All (λ s. str_eq symbol s ≡ false) (symbols 𝒟 ℒ S ls)
      → All (Held 𝒟 ℒ S q risk) ls
      → All (Held 𝒟 ℒ S q (record_fill 𝒟 S risk symbol side qty price fee)) ls
  others-Held q risk symbol side qty price fee [] ne k = tt
  others-Held q risk symbol side qty price fee (l ∷ ls) (ne, nes) (k, ks) = (
    Held-moved 𝒟 ℒ S q risk (record_fill 𝒟 S risk symbol side qty price fee) l
        (position_of-record_fill_other 𝒟 ℒ S risk symbol l.symbol side qty price fee ne) k,
    others-Held q risk symbol side qty price fee ls nes ks,
  )

  fresh :
      (s : String) (ls : List (Loop 𝒟)) (i : ℕ) (l : Loop 𝒟)
      → All (λ t. str_eq s t ≡ false) (symbols 𝒟 ℒ S ls)
      → get_elem? ls i ≡ some l
      → str_eq l.symbol s ≡ false
  fresh s [] i l ne e = absurd (ground (arith, e))
  fresh s (x ∷ xs) zero l (ne, nes) e =
      let same : x ≡ l = ground (arith, e) in
      subst (λ y. str_eq y.symbol s ≡ false) same
        (ground (arith, ne, eq_iff s x.symbol, eq_iff x.symbol s))
  fresh s (x ∷ xs) (suc i) l (ne, nes) e = fresh s xs i l nes e

  recorded-Held :
      (q : Amount) (risk : Checker 𝒟 S) (l : Loop 𝒟) (o : OrderEvent Amount)
      → OneTrade 𝒟 ℒ q l.qty
      → Agrees 𝒟 ℒ S risk l (recording o)
      → Held 𝒟 ℒ S q
          (record_fill 𝒟 S risk o.symbol o.side o.fill_qty o.fill_price o.fee)
          (record l { phase = waiting })
  recorded-Held q risk l o one (same, a) = (
    one,
    subst
        (λ s.
          Risk.position_of 𝒟 S (record_fill 𝒟 S risk s o.side o.fill_qty o.fill_price o.fee)
            l.symbol
          ≡ l.qty)
        (sym same)
        (position_of-record_fill 𝒟 ℒ S risk l.symbol o.side o.fill_qty o.fill_price o.fee ∙ a),
  )

  pub recorded_all :
      (q : Amount) (risk : Checker 𝒟 S) (o : OrderEvent Amount) (ls : List (Loop 𝒟)) (i : ℕ)
      (l : Loop 𝒟)
      → get_elem? ls i ≡ some l
      → l.phase ≡ recording o
      → DistinctSymbols 𝒟 ℒ S (symbols 𝒟 ℒ S ls)
      → All (Held 𝒟 ℒ S q risk) ls
      → All
          (Held 𝒟 ℒ S q (record_fill 𝒟 S risk o.symbol o.side o.fill_qty o.fill_price o.fee))
          (modify i (λ x. record x { phase = waiting }) ls)
  recorded_all q risk o [] i l e w distinct k = tt
  recorded_all q risk o (x ∷ xs) zero l e w (ne, distinct) (p, k) =
      let same : x ≡ l = ground (arith, e) in
      let a : Agrees 𝒟 ℒ S risk x (recording o) =
        subst (Agrees 𝒟 ℒ S risk x) (ap (λ y. y.phase) same ∙ w) p.1 in
      (
        recorded-Held q risk x o p.0 a,
        others-Held q risk o.symbol o.side o.fill_qty o.fill_price o.fee xs
            (subst (λ s. All (λ t. str_eq s t ≡ false) (symbols 𝒟 ℒ S xs)) (sym a.0) ne) k,
      )
  recorded_all q risk o (x ∷ xs) (suc i) l e w (ne, distinct) (p, k) =
      let a : Agrees 𝒟 ℒ S risk l (recording o) =
        subst (Agrees 𝒟 ℒ S risk l) w (All-get_elem? (Held 𝒟 ℒ S q risk) xs i l k e).1 in
      (
        Held-moved 𝒟 ℒ S q risk (record_fill 𝒟 S risk o.symbol o.side o.fill_qty o.fill_price o.fee)
            x
            (position_of-record_fill_other 𝒟 ℒ S risk o.symbol x.symbol o.side o.fill_qty
              o.fill_price o.fee
              (subst (λ s. str_eq s x.symbol ≡ false) (sym a.0) (fresh x.symbol xs i l ne e)))
            p,
        recorded_all q risk o xs i l e w distinct k,
      )

  -- What a run starts from and keeps.
  pub record Together (q : Amount) (s : System 𝒟 S) : Type 0 where
    pub trade_qty : s.cfg.trade_qty ≡ q
    pub distinct : DistinctSymbols 𝒟 ℒ S (symbols 𝒟 ℒ S s.loops)
    pub held : All (Held 𝒟 ℒ S q s.risk) s.loops
