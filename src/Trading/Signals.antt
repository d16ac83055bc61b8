-- ===== src/Trading/Signals.antt =====
-- engine/signals/compute/signals.go, and the same imbalance in
-- engine/backtest/execution/executor.go. The maps of parameters are left out. A depth that is
-- not positive is 0.
pub mod Imbalance
use erebor.Prelude.{
  ℕ, suc, ◌+◌, ◌≡◌, Bool, true, false, not, ◌&&◌, Option, none, some, String, List, [], ◌∷◌,
  if◌then◌else◌, ltb, leb,
}
use erebor.Prelude.Int.{ℤ, pos}
use erebor.Decimal.{Decimal, zero_amount}
use erebor.Ingest.Domain.{PriceLevel}

-- signals/domain/types.go.
pub record L2BookUpdateEvent (A : Type 0) : Type 0 where
  pub run_id : String
  pub symbol : String
  pub event_time : ℕ
  pub last_update_id : ℤ
  pub bids : List (PriceLevel A)
  pub asks : List (PriceLevel A)

pub record SignalEvent (A : Type 0) : Type 0 where
  pub run_id : String
  pub symbol : String
  pub event_time : ℕ
  pub name : String
  pub version : String
  pub value : A

module _ (𝒟 : Decimal) where
  open 𝒟 use {Amount, of_int, add, sub, mul, div, is_zero}

  -- The loop of `sumQty` at index `i`.
  unfoldable pub sum_qty_from : ℕ → ℕ → Amount → List (PriceLevel Amount) → Amount
  sum_qty_from depth i total [] = total
  sum_qty_from depth i total (lvl ∷ levels) =
      let rest = sum_qty_from depth (suc i) (add total lvl.quantity) levels in
      if ltb 0 depth && leb depth i then total else rest

  unfoldable pub sum_qty : List (PriceLevel Amount) → ℕ → Amount
  unfolding sum_qty_from
  sum_qty levels depth = sum_qty_from depth 0 (zero_amount 𝒟) levels

  -- The value of `bookImbalance`.
  unfoldable pub imbalance : List (PriceLevel Amount) → List (PriceLevel Amount) → ℕ → Amount
  imbalance bids asks depth =
      let bid_qty = sum_qty bids depth in
      let ask_qty = sum_qty asks depth in
      let total = add bid_qty ask_qty in
      if is_zero total then zero_amount 𝒟 else div (sub bid_qty ask_qty) total

  abbrev signal : L2BookUpdateEvent Amount → String → Amount → SignalEvent Amount
  signal event name value = record {
    run_id = event.run_id;
    symbol = event.symbol;
    event_time = event.event_time;
    name = name;
    version = "1";
    value = value;
  }

  unfoldable pub book_imbalance : L2BookUpdateEvent Amount → ℕ → SignalEvent Amount
  unfolding imbalance
  book_imbalance event depth = signal event "book_imbalance" (imbalance event.bids event.asks depth)

  unfoldable pub spread_value : List (PriceLevel Amount) → List (PriceLevel Amount) → Amount
  spread_value (bid ∷ bids) (ask ∷ asks) =
      let mid = div (add bid.price ask.price) (of_int (pos 2)) in
      if is_zero mid
      then zero_amount 𝒟
      else mul (div (sub ask.price bid.price) mid) (of_int (pos 10000))
  spread_value [] asks = zero_amount 𝒟
  spread_value (bid ∷ bids) [] = zero_amount 𝒟

  unfoldable pub spread_bps : L2BookUpdateEvent Amount → SignalEvent Amount
  unfolding spread_value
  spread_bps event = signal event "spread_bps" (spread_value event.bids event.asks)

  unfoldable pub mid_value : List (PriceLevel Amount) → List (PriceLevel Amount) → Amount
  mid_value (bid ∷ bids) (ask ∷ asks) = div (add bid.price ask.price) (of_int (pos 2))
  mid_value [] asks = zero_amount 𝒟
  mid_value (bid ∷ bids) [] = zero_amount 𝒟

  unfoldable pub mid_price : L2BookUpdateEvent Amount → SignalEvent Amount
  unfolding mid_value
  mid_price event = signal event "mid_price" (mid_value event.bids event.asks)

  unfoldable pub all_signals : L2BookUpdateEvent Amount → ℕ → List (SignalEvent Amount)
  unfolding book_imbalance spread_bps mid_price
  all_signals event depth = book_imbalance event depth ∷ spread_bps event ∷ mid_price event ∷ []
