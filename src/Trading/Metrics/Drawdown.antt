-- ===== src/Trading/Metrics/Drawdown.antt =====
-- What the loop over the equities computes (engine/backtest/metrics/computer.go).
use erebor.Prelude.{◌≡◌, refl, true, false, ◌⊎◌, inl, List, [], ◌∷◌, arith, if_cases}
use erebor.Decimal.{Decimal, IsExact, Le, zero_amount}
use erebor.Decimal.Laws.{Le_trans, lt_asymm}
use erebor.Trading.Metrics.{higher, drawdown, drawdown_from, max_drawdown}

module _ (𝒟 : Decimal) (ℒ : IsExact 𝒟) where
  open 𝒟 use {Amount, is_zero, is_positive, greater_than}

  -- No point of the series falls further than `m` from the highest point up to it, if that is
  -- positive.
  abbrev pub Within : Amount → Amount → List Amount → Type 0
  Within m peak [] = Unit
  Within m peak (e ∷ equity) =
      let top = higher 𝒟 e peak in
      (is_positive top ≡ true → Le 𝒟 (drawdown 𝒟 top e) m) × Within m top equity

  -- And some point falls so far.
  abbrev pub Attained : Amount → Amount → List Amount → Type 0
  Attained m peak [] = ⊥
  Attained m peak (e ∷ equity) =
      let top = higher 𝒟 e peak in
      (is_positive top ≡ true) × (drawdown 𝒟 top e ≡ m) ⊎ Attained m top equity

  higher_bounds : (a b : Amount) → Le 𝒟 a (higher 𝒟 a b) × Le 𝒟 b (higher 𝒟 a b)
  unfolding higher
  higher_bounds a b =
      ground (arith, ℒ.greater_lem a b, ℒ.lt_irrefl a, ℒ.lt_irrefl b, lt_asymm 𝒟 ℒ b a)

  higher-cases : (a b : Amount) → (higher 𝒟 a b ≡ a) ⊎ (higher 𝒟 a b ≡ b)
  unfolding higher
  higher-cases a b = ground arith

  drawdown_from_mono :
      (peak m : Amount) (equity : List Amount) → Le 𝒟 m (drawdown_from 𝒟 peak m equity)
  unfolding drawdown_from
  drawdown_from_mono peak m [] = ℒ.lt_irrefl m
  drawdown_from_mono peak m (e ∷ equity) =
      let top = higher 𝒟 e peak in
      let raised = higher 𝒟 (drawdown 𝒟 top e) m in
      if_cases (λ s. Le 𝒟 m (drawdown_from 𝒟 top s equity)) (is_positive top)
        (λ h.
          Le_trans 𝒟 ℒ m raised _ (higher_bounds (drawdown 𝒟 top e) m).1
            (drawdown_from_mono top raised equity))
        (λ h. drawdown_from_mono top m equity)

  -- The loop's result is an upper bound of every fall.
  drawdown_from-Within :
      (peak m : Amount) (equity : List Amount) → Within (drawdown_from 𝒟 peak m equity) peak equity
  unfolding drawdown_from
  drawdown_from-Within peak m [] = tt
  drawdown_from-Within peak m (e ∷ equity) =
      let top = higher 𝒟 e peak in
      let raised = higher 𝒟 (drawdown 𝒟 top e) m in
      (
        if_cases
            (λ s. is_positive top ≡ true → Le 𝒟 (drawdown 𝒟 top e) (drawdown_from 𝒟 top s equity))
            (is_positive top)
            (λ h. λ k.
              Le_trans 𝒟 ℒ (drawdown 𝒟 top e) raised _ (higher_bounds (drawdown 𝒟 top e) m).0
                (drawdown_from_mono top raised equity))
            (λ h. λ k. ground (arith, h, k)),
        if_cases (λ s. Within (drawdown_from 𝒟 top s equity) top equity) (is_positive top)
            (λ h. drawdown_from-Within top raised equity) (λ h. drawdown_from-Within top m equity),
      )

  drawdown_from-Attained :
      (peak m : Amount) (equity : List Amount)
      → (drawdown_from 𝒟 peak m equity ≡ m) ⊎ Attained (drawdown_from 𝒟 peak m equity) peak equity
  unfolding drawdown_from
  drawdown_from-Attained peak m [] = inl refl
  drawdown_from-Attained peak m (e ∷ equity) =
      let top = higher 𝒟 e peak in
      let raised = higher 𝒟 (drawdown 𝒟 top e) m in
      if_cases
        (λ s.
          (drawdown_from 𝒟 top s equity ≡ m)
          ⊎ ((is_positive top ≡ true) × (drawdown 𝒟 top e ≡ drawdown_from 𝒟 top s equity)
              ⊎ Attained (drawdown_from 𝒟 top s equity) top equity))
        (is_positive top)
        (λ h.
          ground
            (arith, h, drawdown_from-Attained top raised equity, higher-cases (drawdown 𝒟 top e) m))
        (λ h. ground (arith, drawdown_from-Attained top m equity))

  -- For a series of at least two equities that does not start at zero, the maximal drawdown is
  -- not negative, no point falls further from the highest one up to it, and some point falls
  -- exactly so far unless the drawdown is zero.
  pub max_drawdown_lem :
      (first e : Amount) (equity : List Amount)
      → is_zero first ≡ false
      → let series = first ∷ e ∷ equity in
        let m = max_drawdown 𝒟 series in
        Le 𝒟 (zero_amount 𝒟) m
        × Within m first series
        × ((m ≡ zero_amount 𝒟) ⊎ Attained m first series)
  unfolding max_drawdown
  max_drawdown_lem first e equity h =
      if_cases
        (λ m.
          Le 𝒟 (zero_amount 𝒟) m
          × Within m first (first ∷ e ∷ equity)
          × ((m ≡ zero_amount 𝒟) ⊎ Attained m first (first ∷ e ∷ equity)))
        (is_zero first) (λ k. ground (arith, h, k))
        (λ k. (
          drawdown_from_mono first (zero_amount 𝒟) (first ∷ e ∷ equity),
          drawdown_from-Within first (zero_amount 𝒟) (first ∷ e ∷ equity),
          drawdown_from-Attained first (zero_amount 𝒟) (first ∷ e ∷ equity),
        ))
