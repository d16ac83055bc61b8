-- ===== src/Trading/Paper/Recovery.antt =====
-- The recovery of positions after a restart: `main` of
-- engine/execution/cmd/erebor-execution/main.go, and SeedPositions of
-- engine/execution/blotter/blotter.go.
use text.Mathlib.TextEquality.{eq_iff}
use erebor.Prelude.{◌≡◌, ◌∙◌, true, false, [], ◌∷◌, arith}
use erebor.Prelude.Assoc.{lookup-insert}
use erebor.Decimal.{Decimal, IsExact, zero_amount}
use erebor.Decimal.Laws.{zero-add, neg-zero, Le_neg, lt_asymm}
use erebor.Platform.{Platform}
use erebor.Trading.Order.{buy}
use erebor.Trading.Risk.{HaltStore, Checker}
use erebor.Trading.Risk
use erebor.Trading.Risk.Accounting.{position_of-record_fill}
use erebor.Trading.Blotter.{FillStore, PositionRecord, Blotter, seed_positions}
use erebor.Trading.Blotter
use erebor.Trading.Paper.{seed_risk}

module _ (𝒟 : Decimal) (ℒ : IsExact 𝒟) (𝒫 : Platform) (S : HaltStore) (F : FillStore 𝒟.Amount) where
  open 𝒟 use {Amount, neg, is_negative, is_positive}

  seeded_risk :
      (risk : Checker 𝒟 S) (p : PositionRecord Amount)
      → Risk.position_of 𝒟 S risk p.symbol ≡ zero_amount 𝒟
      → Risk.position_of 𝒟 S (seed_risk 𝒟 𝒫 S F risk (p ∷ [])) p.symbol ≡ 𝒟.abs p.net_qty
  unfolding seed_risk
  seeded_risk risk p flat =
      position_of-record_fill 𝒟 ℒ S risk p.symbol buy (𝒟.abs p.net_qty) p.avg_entry (zero_amount 𝒟)
      ∙ ground (arith, zero-add 𝒟 ℒ (𝒟.abs p.net_qty))

  -- A short position that is recovered into a blotter and a checker without that symbol keeps
  -- its quantity in the blotter, but stands in the checker with the sign changed: it is long
  -- there.
  pub recovered_short :
      (b : Blotter 𝒟 F) (risk : Checker 𝒟 S) (p : PositionRecord Amount)
      → Risk.position_of 𝒟 S risk p.symbol ≡ zero_amount 𝒟
      → is_negative p.net_qty ≡ true
      → let held = Risk.position_of 𝒟 S (seed_risk 𝒟 𝒫 S F risk (p ∷ [])) p.symbol in
        ((Blotter.position_of 𝒟 F (seed_positions 𝒟 F b (p ∷ [])) p.symbol).net_qty ≡ p.net_qty)
        × (held ≡ neg p.net_qty)
        × (is_negative held ≡ false)
  unfolding seed_positions
  recovered_short b risk p flat short = ground (
    arith,
    seeded_risk risk p,
    ℒ.abs_lem p.net_qty,
    lookup-insert p.symbol p.symbol (record { net_qty = p.net_qty; avg_entry = p.avg_entry })
        b.positions,
    eq_iff p.symbol p.symbol,
    ℒ.negative_lem p.net_qty,
    ℒ.negative_lem (neg p.net_qty),
    Le_neg 𝒟 ℒ p.net_qty (zero_amount 𝒟),
    neg-zero 𝒟 ℒ,
    lt_asymm 𝒟 ℒ p.net_qty (zero_amount 𝒟),
  )
