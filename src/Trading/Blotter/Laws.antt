-- ===== src/Trading/Blotter/Laws.antt =====
-- What a fill does to the quantities and the equity, and what is left when the store fails:
-- `RecordFill`, `applyFill` and `undoFill` of engine/execution/blotter/blotter.go.
use text.Mathlib.Text.{◌==◌ as str_eq}
use text.Mathlib.TextEquality.{eq_iff}
use erebor.Prelude.{◌≡◌, ap, ◌∙◌, true, false, String, if◌then◌else◌, arith, Bool-cases, inl, inr}
use erebor.Prelude.Assoc.{lookup, insert, lookup-insert}
use erebor.Decimal.{Decimal, IsExact, zero_amount}
use erebor.Decimal.Laws.{add-sub_cancel, sub-add_cancel, sub_self, sub_right_comm}
use erebor.Trading.Order.{is_buy}
use erebor.Trading.Blotter.{
  FillRequest, SymbolPosition, FillStore, Blotter, apply_fill, undo_fill, position_of, record_fill,
}

module _ (𝒟 : Decimal) where
  open 𝒟 use {Amount, add, sub, mul, is_positive}

  -- On every branch of `applyFill` the quantity moves by the filled one.
  pub net_qty-apply_fill :
      (pos : SymbolPosition Amount) (fill : FillRequest Amount)
      → (apply_fill 𝒟 pos fill).0.net_qty ≡ (
          if is_buy fill.side then add pos.net_qty fill.fill_qty else sub pos.net_qty fill.fill_qty)
  unfolding apply_fill
  net_qty-apply_fill pos fill = ground arith

module _ (𝒟 : Decimal) (F : FillStore 𝒟.Amount) where
  open 𝒟 use {Amount, add, sub, mul, is_positive}

  pub record_fill-stored :
      (b : Blotter 𝒟 F) (fill : FillRequest Amount)
      → (record_fill 𝒟 F b fill).1 ≡ true
      → let (pos, pnl) = apply_fill 𝒟 (position_of 𝒟 F b fill.symbol) fill in
        let b' = (record_fill 𝒟 F b fill).0 in
        (b'.equity ≡ sub (add b.equity pnl) fill.fee)
        × (b'.positions ≡ insert fill.symbol pos b.positions)
  unfolding record_fill
  record_fill-stored b fill h = ground arith

  pub record_fill-failed :
      (b : Blotter 𝒟 F) (fill : FillRequest Amount)
      → (record_fill 𝒟 F b fill).1 ≡ false
      → let (pos, pnl) = apply_fill 𝒟 (position_of 𝒟 F b fill.symbol) fill in
        let b' = (record_fill 𝒟 F b fill).0 in
        (b'.equity ≡ add (sub (sub (add b.equity pnl) fill.fee) pnl) fill.fee)
        × (b'.positions ≡ insert fill.symbol (undo_fill 𝒟 pos fill) b.positions)
  unfolding record_fill
  record_fill-failed b fill h = ground arith

  pub position_of-insert :
      (b c : Blotter 𝒟 F) (symbol : String) (pos : SymbolPosition Amount)
      → c.positions ≡ insert symbol pos b.positions
      → position_of 𝒟 F c symbol ≡ pos
  position_of-insert b c symbol pos e = ground (
    arith,
    lookup-insert symbol symbol pos b.positions,
    eq_iff symbol symbol,
    ap (lookup symbol) e,
  )

  pub position_of-insert_other :
      (b c : Blotter 𝒟 F) (symbol other : String) (pos : SymbolPosition Amount)
      → c.positions ≡ insert symbol pos b.positions
      → str_eq symbol other ≡ false
      → position_of 𝒟 F c other ≡ position_of 𝒟 F b other
  position_of-insert_other b c symbol other pos e ne =
      ground (arith, lookup-insert symbol other pos b.positions, ap (lookup other) e)

module _ (𝒟 : Decimal) (ℒ : IsExact 𝒟) (F : FillStore 𝒟.Amount) where
  open 𝒟 use {Amount, add, sub, mul, is_positive}

  undo_restores :
      (pos : SymbolPosition Amount) (fill : FillRequest Amount)
      → (undo_fill 𝒟 (apply_fill 𝒟 pos fill).0 fill).net_qty ≡ pos.net_qty
  unfolding undo_fill
  undo_restores pos fill = ground (
    arith,
    net_qty-apply_fill 𝒟 pos fill,
    add-sub_cancel 𝒟 ℒ pos.net_qty fill.fill_qty,
    sub-add_cancel 𝒟 ℒ pos.net_qty fill.fill_qty,
  )

  equity_restored : (e pnl fee : Amount) → add (sub (sub (add e pnl) fee) pnl) fee ≡ e
  equity_restored e pnl fee =
      ap (λ t. add t fee)
        (sub_right_comm 𝒟 ℒ (add e pnl) fee pnl ∙ ap (λ t. sub t fee) (add-sub_cancel 𝒟 ℒ e pnl))
      ∙ sub-add_cancel 𝒟 ℒ e fee

  -- If the store fails, the equity and the net quantity of every symbol are what they were.
  pub failed_fill_restores :
      (b : Blotter 𝒟 F) (fill : FillRequest Amount) (s : String)
      → (record_fill 𝒟 F b fill).1 ≡ false
      → let b' = (record_fill 𝒟 F b fill).0 in
        (b'.equity ≡ b.equity) × ((position_of 𝒟 F b' s).net_qty ≡ (position_of 𝒟 F b s).net_qty)
  failed_fill_restores b fill s h =
      let b' = (record_fill 𝒟 F b fill).0 in
      let pos = position_of 𝒟 F b fill.symbol in
      let undone = undo_fill 𝒟 (apply_fill 𝒟 pos fill).0 fill in
      let (equity, positions) = record_fill-failed 𝒟 F b fill h in
      let same : (position_of 𝒟 F b' s).net_qty ≡ (position_of 𝒟 F b s).net_qty =
        elim (Bool-cases (str_eq fill.symbol s)) [
          | inl here ↦
              let e = (eq_iff fill.symbol s).0 here in
              rw (← e) (
                ap (λ p. p.net_qty) (position_of-insert 𝒟 F b b' fill.symbol undone positions)
                ∙ undo_restores pos fill)
          | inr there ↦
              ap (λ p. p.net_qty)
                (position_of-insert_other 𝒟 F b b' fill.symbol s undone positions there)
        ] in
      (equity ∙ equity_restored b.equity _ fill.fee, same)

  forgotten :
      (pos : SymbolPosition Amount) (fill : FillRequest Amount)
      → is_positive pos.net_qty ≡ true
      → is_buy fill.side ≡ false
      → fill.fill_qty ≡ pos.net_qty
      → (undo_fill 𝒟 (apply_fill 𝒟 pos fill).0 fill).avg_entry ≡ zero_amount 𝒟
  unfolding undo_fill apply_fill
  forgotten pos fill l s q =
      ground (
        arith,
        sub_self 𝒟 ℒ pos.net_qty,
        ℒ.positive_lem (zero_amount 𝒟),
        ℒ.lt_irrefl (zero_amount 𝒟),
      )

  closing_pnl :
      (pos : SymbolPosition Amount) (fill : FillRequest Amount)
      → is_positive pos.net_qty ≡ true
      → is_buy fill.side ≡ false
      → (apply_fill 𝒟 pos fill).1 ≡ mul (sub fill.fill_price pos.avg_entry) fill.fill_qty
  unfolding apply_fill
  closing_pnl pos fill l s = ground arith

  -- The rollback does not bring the entry price back: when the sale of a whole long position
  -- fails in the store and its retry succeeds, the retry books the whole proceeds as profit, as
  -- if the position had cost nothing.
  pub retried_close_books_proceeds :
      (b : Blotter 𝒟 F) (fill : FillRequest Amount)
      → is_positive (position_of 𝒟 F b fill.symbol).net_qty ≡ true
      → is_buy fill.side ≡ false
      → fill.fill_qty ≡ (position_of 𝒟 F b fill.symbol).net_qty
      → (record_fill 𝒟 F b fill).1 ≡ false
      → (record_fill 𝒟 F (record_fill 𝒟 F b fill).0 fill).1 ≡ true
      → (record_fill 𝒟 F (record_fill 𝒟 F b fill).0 fill).0.equity
        ≡ sub (add b.equity (mul (sub fill.fill_price (zero_amount 𝒟)) fill.fill_qty)) fill.fee
  retried_close_books_proceeds b fill l s q failed stored =
      let b' = (record_fill 𝒟 F b fill).0 in
      let pos = position_of 𝒟 F b fill.symbol in
      let undone = undo_fill 𝒟 (apply_fill 𝒟 pos fill).0 fill in
      let (same_equity, same_qty) = failed_fill_restores b fill fill.symbol failed in
      let left =
        position_of-insert 𝒟 F b b' fill.symbol undone (record_fill-failed 𝒟 F b fill failed).1 in
      let pnl = closing_pnl (position_of 𝒟 F b' fill.symbol) fill (ap is_positive same_qty ∙ l) s in
      let entry = ap (λ p. p.avg_entry) left ∙ forgotten pos fill l s q in
      (record_fill-stored 𝒟 F b' fill stored).0
      ∙ ap (λ t. sub (add b'.equity t) fill.fee)
          (pnl ∙ ap (λ t. mul (sub fill.fill_price t) fill.fill_qty) entry)
      ∙ ap (λ t. sub (add t (mul (sub fill.fill_price (zero_amount 𝒟)) fill.fill_qty)) fill.fee)
          same_equity
