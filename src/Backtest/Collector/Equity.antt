-- ===== src/Backtest/Collector/Equity.antt =====
-- The equity after a fill: `applyFill` of engine/backtest/collector/collector.go.
use text.Mathlib.TextEquality.{eq_iff}
use erebor.Prelude.{
  ◌≡◌, refl, sym, ap, ◌∙◌, true, none, some, String, List, [], ◌∷◌, if◌then◌else◌, arith,
}
use erebor.Prelude.Assoc.{lookup, erase, insert, lookup-insert, DistinctKeys}
use erebor.Decimal.{Decimal, IsExact, zero_amount}
use erebor.Decimal.Laws.{
  add-sub_cancel, sub-add_cancel, add_right_comm, sub_right_comm, add-sub_comm, add-sub_assoc,
  mul-zero, mul-sub,
}
use erebor.Trading.Order.{Side, is_buy}
use erebor.Backtest.Collector.{EquityTracker, value_of, equity_from, equity_of, apply_fill}

module _ (𝒟 : Decimal) (ℒ : IsExact 𝒟) where
  open 𝒟 use {Amount, add, sub, mul, is_zero}

  -- The positions at their marks, as a sum.
  abbrev total : List (String × Amount) → List (String × Amount) → Amount
  total marks [] = zero_amount 𝒟
  total marks ((s, qty) ∷ ps) = add (mul qty (value_of 𝒟 marks s)) (total marks ps)

  zero-mul : (a b : Amount) → is_zero a ≡ true → mul a b ≡ zero_amount 𝒟
  zero-mul a b h = ground (arith, ℒ.zero_iff a, ℒ.mul_comm a b, mul-zero 𝒟 ℒ b)

  equity_from_lem :
      (marks ps : List (String × Amount)) (e : Amount)
      → equity_from 𝒟 marks e ps ≡ add e (total marks ps)
  unfolding equity_from
  equity_from_lem marks [] e = sym (ℒ.add-zero e)
  equity_from_lem marks ((s, qty) ∷ ps) e =
      equity_from_lem marks ps _
      ∙ ap (λ a. add a (total marks ps)) term
      ∙ ℒ.add_assoc e (mul qty (value_of 𝒟 marks s)) (total marks ps)
    where
      term :
          (if is_zero qty
            then e
            else elim (lookup s marks) [ some mark ↦ add e (mul qty mark) | none ↦ e ])
          ≡ add e (mul qty (value_of 𝒟 marks s))
      term = ground (arith, zero-mul qty (value_of 𝒟 marks s), ℒ.add-zero e, mul-zero 𝒟 ℒ qty)

  add_left_comm : (a b c : Amount) → add a (add b c) ≡ add b (add a c)
  add_left_comm a b c =
      sym (ℒ.add_assoc a b c) ∙ ap (λ t. add t c) (ℒ.add_comm a b) ∙ ℒ.add_assoc b a c

  total-erase_fresh :
      (marks : List (String × Amount)) (s : String) (ps : List (String × Amount))
      → lookup s ps ≡ none
      → total marks (erase s ps) ≡ total marks ps
  unfolding lookup erase
  total-erase_fresh marks s [] h = refl
  total-erase_fresh marks s ((j, qty) ∷ ps) h = ground (arith, total-erase_fresh marks s ps)

  total-erase :
      (marks : List (String × Amount)) (s : String) (ps : List (String × Amount))
      → DistinctKeys ps
      → total marks ps ≡ add (mul (value_of 𝒟 ps s) (value_of 𝒟 marks s)) (total marks (erase s ps))
  unfolding lookup erase
  total-erase marks s [] d = sym (
      ap (λ t. add t (zero_amount 𝒟))
        (ℒ.mul_comm (zero_amount 𝒟) _ ∙ mul-zero 𝒟 ℒ (value_of 𝒟 marks s))
      ∙ ℒ.add-zero (zero_amount 𝒟))
  total-erase marks s ((j, qty) ∷ ps) d = ground (
    arith,
    eq_iff j s,
    total-erase marks s ps d.1,
    total-erase_fresh marks s ps,
    add_left_comm (mul qty (value_of 𝒟 marks j)) (mul (value_of 𝒟 ps s) (value_of 𝒟 marks s))
        (total marks (erase s ps)),
  )

  total-remark :
      (marks : List (String × Amount)) (s : String) (price : Amount) (ps : List (String × Amount))
      → total (insert s price marks) (erase s ps) ≡ total marks (erase s ps)
  unfolding erase
  total-remark marks s price [] = refl
  total-remark marks s price ((j, qty) ∷ ps) =
      ground (
        arith,
        eq_iff j s,
        eq_iff s j,
        lookup-insert s j price marks,
        total-remark marks s price ps,
      )

  cancel_bought : (a b x : Amount) → add (sub a x) (add b x) ≡ add a b
  cancel_bought a b x =
      sym (ℒ.add_assoc (sub a x) b x)
      ∙ ap (λ t. add t x) (sym (add-sub_comm 𝒟 ℒ a b x))
      ∙ sub-add_cancel 𝒟 ℒ (add a b) x

  cancel_sold : (a b x : Amount) → add (add a x) (sub b x) ≡ add a b
  cancel_sold a b x =
      add-sub_assoc 𝒟 ℒ (add a x) b x
      ∙ ap (λ t. sub t x) (add_right_comm 𝒟 ℒ a x b)
      ∙ add-sub_cancel 𝒟 ℒ (add a b) x

  remarked : (m r p : Amount) → add (add m r) (sub p m) ≡ add p r
  remarked m r p =
      ℒ.add_comm (add m r) (sub p m) ∙ ap (add (sub p m)) (ℒ.add_comm m r) ∙ cancel_bought p r m

  -- The new equity, from the tracker's parts: `x` is the traded value, `p` and `m` the old position
  -- at the new and at the old mark, `r` the rest of the portfolio.
  revalued :
      (c m r p fee : Amount) → sub (add (add c (add m r)) (sub p m)) fee ≡ add (sub c fee) (add p r)
  revalued c m r p fee =
      ap (λ t. sub t fee) (ℒ.add_assoc c (add m r) (sub p m) ∙ ap (add c) (remarked m r p))
      ∙ add-sub_comm 𝒟 ℒ c (add p r) fee

  bought :
      (c x fee p r : Amount) → add (sub (sub c x) fee) (add (add p x) r) ≡ add (sub c fee) (add p r)
  bought c x fee p r =
      ap (λ t. add t (add (add p x) r)) (sub_right_comm 𝒟 ℒ c x fee)
      ∙ ap (add (sub (sub c fee) x)) (add_right_comm 𝒟 ℒ p x r)
      ∙ cancel_bought (sub c fee) (add p r) x

  sold :
      (c x fee p r : Amount) → add (sub (add c x) fee) (add (sub p x) r) ≡ add (sub c fee) (add p r)
  sold c x fee p r =
      ap (λ t. add t (add (sub p x) r)) (add-sub_comm 𝒟 ℒ c x fee)
      ∙ ap (add (add (sub c fee) x)) (sym (add-sub_comm 𝒟 ℒ p r x))
      ∙ cancel_sold (sub c fee) (add p r) x

  add-mul : (a b c : Amount) → mul (add a b) c ≡ add (mul a c) (mul b c)
  add-mul a b c =
      ℒ.mul_comm (add a b) c ∙ ℒ.mul-add c a b ∙ ground (arith, ℒ.mul_comm c a, ℒ.mul_comm c b)

  sub-mul : (a b c : Amount) → mul (sub a b) c ≡ sub (mul a c) (mul b c)
  sub-mul a b c =
      ℒ.mul_comm (sub a b) c ∙ mul-sub 𝒟 ℒ c a b ∙ ground (arith, ℒ.mul_comm c a, ℒ.mul_comm c b)

  pub value_of-insert :
      (s : String) (v : Amount) (m : List (String × Amount)) → value_of 𝒟 (insert s v m) s ≡ v
  value_of-insert s v m = ground (arith, lookup-insert s s v m, eq_iff s s)

  equity_of-insert :
      (c : Amount) (s : String) (qty price : Amount) (ps marks : List (String × Amount))
      → equity_of 𝒟
          (record { cash = c; positions = insert s qty ps; last_fill_price = insert s price marks })
        ≡ add c (add (mul qty price) (total marks (erase s ps)))
  unfolding equity_of
  equity_of-insert c s qty price ps marks =
      equity_from_lem (insert s price marks) (insert s qty ps) c
      ∙ ap (add c) (
          inserted (insert s price marks)
          ∙ ap (λ m. add (mul qty m) (total (insert s price marks) (erase s ps)))
              (value_of-insert s price marks)
          ∙ ap (add (mul qty price)) (total-remark marks s price ps))
    where
      inserted :
          (ms : List (String × Amount))
          → total ms (insert s qty ps) ≡ add (mul qty (value_of 𝒟 ms s)) (total ms (erase s ps))
      inserted ms = unfold insert in refl

  -- A fill is worth its fee and what it tells of the price: in a map of positions that holds no
  -- symbol twice, the equity after the fill is the equity before, with the position held so far
  -- moved from its last fill price to the new one, less the fee. How much is traded, and on which
  -- side, does not matter.
  pub apply_fill_lem :
      (t : EquityTracker Amount) (symbol : String) (side : Side) (qty price fee : Amount)
      → DistinctKeys t.positions
      → let held = value_of 𝒟 t.positions symbol in
        let mark = value_of 𝒟 t.last_fill_price symbol in
        (apply_fill 𝒟 t symbol side qty price fee).1
        ≡ sub (add (equity_of 𝒟 t) (mul held (sub price mark))) fee
  unfolding apply_fill
  apply_fill_lem t symbol side qty price fee d =
      let c = t.cash in
      let held = value_of 𝒟 t.positions symbol in
      let mark = value_of 𝒟 t.last_fill_price symbol in
      let rest = total t.last_fill_price (erase symbol t.positions) in
      let before : equity_of 𝒟 t ≡ add c (add (mul held mark) rest) =
        unfold equity_of in
        equity_from_lem t.last_fill_price t.positions c
        ∙ ap (add c) (total-erase t.last_fill_price symbol t.positions d) in
      let wanted : sub (add (equity_of 𝒟 t) (mul held (sub price mark))) fee
          ≡ add (sub c fee) (add (mul held price) rest) =
        ap (λ e. sub (add e (mul held (sub price mark))) fee) before
        ∙ ap (λ v. sub (add (add c (add (mul held mark) rest)) v) fee) (mul-sub 𝒟 ℒ held price mark)
        ∙ revalued c (mul held mark) rest (mul held price) fee in
      let x = mul qty price in
      let after : add (if is_buy side then sub (sub c x) fee else sub (add c x) fee)
            (add (mul (if is_buy side then add held qty else sub held qty) price) rest)
          ≡ add (sub c fee) (add (mul held price) rest) =
        ground (
          arith,
          add-mul held qty price,
          sub-mul held qty price,
          bought c x fee (mul held price) rest,
          sold c x fee (mul held price) rest,
        ) in
      equity_of-insert _ symbol _ price t.positions t.last_fill_price ∙ after ∙ sym wanted
