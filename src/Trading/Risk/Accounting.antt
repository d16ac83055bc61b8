-- ===== src/Trading/Risk/Accounting.antt =====
-- What the checker of engine/risk/checker.go books for fills, and the limit that its approval
-- secures.
use text.Mathlib.Text.{◌==◌ as str_eq}
use text.Mathlib.TextEquality.{eq_iff}
use erebor.Prelude.{
  ℕ, ◌≡◌, sym, ◌∙◌, ap, false, Option, none, some, String, List, [], ◌∷◌, if◌then◌else◌, arith,
}
use erebor.Prelude.Assoc.{lookup, lookup-insert}
use erebor.Decimal.{Decimal, IsExact, Le}
use erebor.Decimal.Laws.{add-sub_cancel, sub_right_comm, lt_asymm, Le_trans, sub-add_cancel}
use erebor.Trading.Order.{Side, buy, sell}
use erebor.Trading.Risk.{
  HaltStore, Checker, Config, position_of, moved, can_trade, record_fill, new,
}
use erebor.Trading.Risk.Halting.{Op, trade, fill, step, run}

module _ (𝒟 : Decimal) (ℒ : IsExact 𝒟) (S : HaltStore) where
  open 𝒟 use {Amount, add, sub, neg, mul, abs, greater_than, less_than}

  pub position_of-record_fill :
      (c : Checker 𝒟 S) (symbol : String) (side : Side) (qty price fee : Amount)
      → position_of 𝒟 S (record_fill 𝒟 S c symbol side qty price fee) symbol
        ≡ moved 𝒟 S side (position_of 𝒟 S c symbol) qty
  unfolding record_fill
  position_of-record_fill c symbol side qty price fee = ground (
    arith,
    lookup-insert symbol symbol (sub (position_of 𝒟 S c symbol) qty) c.positions,
    lookup-insert symbol symbol (add (position_of 𝒟 S c symbol) qty) c.positions,
    eq_iff symbol symbol,
    ℒ.sub_lem (position_of 𝒟 S c symbol) qty,
  )

  approved :
      (c : Checker 𝒟 S) (symbol : String) (side : Side) (qty : Amount) (t : ℕ) {limit : Amount}
      → lookup symbol c.cfg.max_position_qty ≡ some limit
      → (can_trade 𝒟 S c symbol side qty t).1 ≡ none
      → (greater_than (abs (moved 𝒟 S side (position_of 𝒟 S c symbol) qty)) limit ≡ false)
        × ((can_trade 𝒟 S c symbol side qty t).0.positions ≡ c.positions)
  unfolding can_trade
  approved c symbol side qty t l h = ground arith

  -- An order that `can_trade` approves for a symbol with a position limit leaves, once its fill
  -- is recorded, a position whose absolute quantity is at most the limit.
  pub approved_fill_within_limit :
      (c : Checker 𝒟 S) (symbol : String) (side : Side) (qty price fee : Amount) (t : ℕ)
      {limit : Amount}
      → lookup symbol c.cfg.max_position_qty ≡ some limit
      → (can_trade 𝒟 S c symbol side qty t).1 ≡ none
      → Le 𝒟
          (abs (
            position_of 𝒟 S
              (record_fill 𝒟 S (can_trade 𝒟 S c symbol side qty t).0 symbol side qty price fee)
              symbol))
          limit
  approved_fill_within_limit c symbol side qty price fee t {limit} l h =
      let c' = (can_trade 𝒟 S c symbol side qty t).0 in
      let (within, same) = approved c symbol side qty t {limit = limit} l h in
      rw (position_of-record_fill c' symbol side qty price fee)
        (ground (arith, ℒ.greater_lem (abs (moved 𝒟 S side (position_of 𝒟 S c symbol) qty)) limit))

  higher :
      (e p : Amount)
      → Le 𝒟 e (if greater_than e p then e else p) × Le 𝒟 p (if greater_than e p then e else p)
  higher e p = ground (arith, ℒ.greater_lem e p, lt_asymm 𝒟 ℒ p e, ℒ.lt_irrefl e, ℒ.lt_irrefl p)

  step_peak :
      (c : Checker 𝒟 S) (op : Op Amount)
      → Le 𝒟 c.equity c.peak_equity
      → Le 𝒟 (step 𝒟 S c op).equity (step 𝒟 S c op).peak_equity
        × Le 𝒟 c.peak_equity (step 𝒟 S c op).peak_equity
  unfolding step can_trade record_fill
  step_peak c (trade symbol side qty t) h = ground (arith, ℒ.lt_irrefl c.peak_equity)
  step_peak c (fill symbol side qty price fee) h = higher _ c.peak_equity

  run_peak :
      (c : Checker 𝒟 S) (ops : List (Op Amount))
      → Le 𝒟 c.equity c.peak_equity
      → Le 𝒟 (run 𝒟 S c ops).equity (run 𝒟 S c ops).peak_equity
        × Le 𝒟 c.peak_equity (run 𝒟 S c ops).peak_equity
  unfolding run
  run_peak c [] h = (h, ℒ.lt_irrefl c.peak_equity)
  run_peak c (op ∷ ops) h =
      let (below, grown) = step_peak c op h in
      let (below', grown') = run_peak (step 𝒟 S c op) ops below in
      (below', Le_trans 𝒟 ℒ c.peak_equity (step 𝒟 S c op).peak_equity _ grown grown')

  -- From a new checker on, through any checks and fills, the peak is at least the equity and at
  -- least what it was before any of the later calls.
  pub peak_bounds :
      (cfg : Config 𝒟) (id : String) (store : Option S.Self) (ops later : List (Op Amount))
      → let c = run 𝒟 S (new 𝒟 S cfg id store) ops in
        Le 𝒟 c.equity c.peak_equity × Le 𝒟 c.peak_equity (run 𝒟 S c later).peak_equity
  peak_bounds cfg id store ops later =
      let start = new 𝒟 S cfg id store in
      let fresh : Le 𝒟 start.equity start.peak_equity = unfold new in ℒ.lt_irrefl _ in
      let (below, _) = run_peak start ops fresh in
      (below, (run_peak (run 𝒟 S start ops) later below).1)

  -- A buy and then a sell of the same quantity at one price costs the two fees, and leaves the
  -- position as it was.
  pub round_trip_costs_fees :
      (c : Checker 𝒟 S) (symbol : String) (qty price fee fee' : Amount)
      → let bought = record_fill 𝒟 S c symbol buy qty price fee in
        let sold = record_fill 𝒟 S bought symbol sell qty price fee' in
        (sold.equity ≡ sub (sub c.equity fee) fee')
        × (position_of 𝒟 S sold symbol ≡ position_of 𝒟 S c symbol)
  round_trip_costs_fees c symbol qty price fee fee' =
      let bought = record_fill 𝒟 S c symbol buy qty price fee in
      let value = mul qty price in
      (
        unfold record_fill in
            ap (λ t. sub (add t value) fee') (sub_right_comm 𝒟 ℒ c.equity value fee)
            ∙ ap (λ t. sub t fee') (sub-add_cancel 𝒟 ℒ (sub c.equity fee) value),
        position_of-record_fill bought symbol sell qty price fee'
            ∙ ap (λ t. add t (neg qty)) (position_of-record_fill c symbol buy qty price fee)
            ∙ sym (ℒ.sub_lem (add (position_of 𝒟 S c symbol) qty) qty)
            ∙ add-sub_cancel 𝒟 ℒ (position_of 𝒟 S c symbol) qty,
      )

  pub position_of-record_fill_other :
      (c : Checker 𝒟 S) (symbol s : String) (side : Side) (qty price fee : Amount)
      → str_eq symbol s ≡ false
      → position_of 𝒟 S (record_fill 𝒟 S c symbol side qty price fee) s ≡ position_of 𝒟 S c s
  unfolding record_fill
  position_of-record_fill_other c symbol s side qty price fee ne = ground (
    arith,
    lookup-insert symbol s (sub (position_of 𝒟 S c symbol) qty) c.positions,
    lookup-insert symbol s (add (position_of 𝒟 S c symbol) qty) c.positions,
  )

  pub positions-can_trade :
      (c : Checker 𝒟 S) (symbol : String) (side : Side) (qty : Amount) (t : ℕ)
      → (can_trade 𝒟 S c symbol side qty t).0.positions ≡ c.positions
  unfolding can_trade
  positions-can_trade c symbol side qty t = ground arith
