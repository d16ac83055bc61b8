-- ===== src/Backtest/Collector.antt =====
-- engine/backtest/collector/collector.go: the counts of signals, and the fills of the orders
-- stream with the equity after each. What is handed to the trade writer stands in `trades` and
-- `points`, newest first; its errors are only logged. The sum over the Go map of positions is
-- taken in the order of the list.
pub mod Equity
pub mod Loops
use erebor.Prelude.{
  ℕ, ◌+◌, Bool, true, false, Option, none, some, String, List, [], ◌∷◌, if◌then◌else◌,
}
use erebor.Prelude.Assoc.{lookup, insert}
use erebor.Decimal.{Decimal, zero_amount}
use erebor.Platform.{Platform}
use erebor.Trading.Order.{
  Side, is_buy, OrderEvent, OrderStatus, pending, opened, partially_filled, filled, cancelled,
  other_status,
}
use erebor.Trading.RoundTrips.{Trade}
use erebor.Wire.{Message, string_val}
use erebor.Wire.Drain.{Read, arrived, idle, stopped, range_start, handle_all, drain}
use erebor.Wire.Orders.{decode_order_event}

-- backtest/domain EquityPoint.
pub record EquityPoint (A : Type 0) : Type 0 where
  pub run_id : String
  pub event_time : ℕ
  pub equity : A

pub record EquityTracker (A : Type 0) : Type 0 where
  pub cash : A
  pub positions : List (String × A)
  pub last_fill_price : List (String × A)

abbrev pub is_filled : OrderStatus → Bool
is_filled filled = true
is_filled pending = false
is_filled opened = false
is_filled partially_filled = false
is_filled cancelled = false
is_filled other_status = false

module _ (𝒟 : Decimal) where
  open 𝒟 use {Amount, add, sub, mul, is_zero}

  unfoldable pub new_equity_tracker : Amount → EquityTracker Amount
  new_equity_tracker initial_capital = record {
    cash = initial_capital;
    positions = [];
    last_fill_price = [];
  }

  -- A missing key of a Go map reads as zero.
  abbrev pub value_of : List (String × Amount) → String → Amount
  value_of m symbol = elim (lookup symbol m) [ some v ↦ v | none ↦ zero_amount 𝒟 ]

  -- The loop of `applyFill` over the positions.
  unfoldable pub equity_from : List (String × Amount) → Amount → List (String × Amount) → Amount
  equity_from marks equity [] = equity
  equity_from marks equity ((symbol, qty) ∷ positions) =
      equity_from marks
        (if is_zero qty
          then equity
          else elim (lookup symbol marks) [ some mark ↦ add equity (mul qty mark) | none ↦ equity ])
        positions

  unfoldable pub equity_of : EquityTracker Amount → Amount
  unfolding equity_from
  equity_of t = equity_from t.last_fill_price t.cash t.positions

  unfoldable pub apply_fill :
      EquityTracker Amount
      → String
      → Side
      → Amount
      → Amount
      → Amount
      → EquityTracker Amount × Amount
  unfolding equity_of
  apply_fill t symbol side qty price fee =
      let held = value_of t.positions symbol in
      let t' : EquityTracker Amount = record {
        cash =
            if is_buy side
            then sub (sub t.cash (mul qty price)) fee
            else sub (add t.cash (mul qty price)) fee;
        positions = insert symbol (if is_buy side then add held qty else sub held qty) t.positions;
        last_fill_price = insert symbol price t.last_fill_price;
      } in
      (t', equity_of t')

module _ (𝒟 : Decimal) (𝒫 : Platform) where
  open 𝒟 use {Amount}

  pub record Collector : Type 0 where
    pub tracker : EquityTracker Amount
    pub trades : List (Trade Amount)
    pub points : List (EquityPoint Amount)
    pub signal_counts : List (String × ℕ)
    pub total_signals : ℕ

  unfoldable pub handle_signal : Collector → Message → Collector
  handle_signal c msg =
      let symbol = 𝒫.to_upper (string_val msg.values "symbol") in
      record c {
        signal_counts =
            insert symbol (elim (lookup symbol c.signal_counts) [ some n ↦ n + 1 | none ↦ 1 ])
              c.signal_counts;
        total_signals = c.total_signals + 1;
      }

  abbrev pub trade_record : OrderEvent Amount → Trade Amount
  trade_record ev = record {
    run_id = ev.run_id;
    symbol = ev.symbol;
    event_time = ev.event_time;
    trade_id = ev.order_id;
    side = ev.side;
    fill_price = ev.fill_price;
    fill_qty = ev.fill_qty;
    fee = ev.fee;
    signal_name = ev.signal_name;
  }

  unfoldable pub record_order : Collector → OrderEvent Amount → Collector
  unfolding apply_fill
  record_order c ev =
      let (tracker, equity) =
        apply_fill 𝒟 c.tracker ev.symbol ev.side ev.fill_qty ev.fill_price ev.fee in
      record c {
        tracker = tracker;
        trades = trade_record ev ∷ c.trades;
        points =
            record { run_id = ev.run_id; event_time = ev.event_time; equity = equity } ∷ c.points;
      }

  -- By the decoded order; the Boolean says whether a trade was persisted.
  unfoldable pub take_order : Collector → Option (OrderEvent Amount) → Collector × Bool
  unfolding record_order
  take_order c none = (c, false)
  take_order c (some ev) = if is_filled ev.status then (record_order c ev, true) else (c, false)

  unfoldable pub handle_order : Collector → Message → Collector × Bool
  unfolding take_order
  handle_order c msg = take_order c (decode_order_event 𝒟 𝒫 msg.values)

  -- The collector with the number of trades persisted.
  abbrev pub count_order : Collector × ℕ → Message → Collector × ℕ
  count_order (c, n) msg =
      let (c', persisted) = handle_order c msg in (c', (if persisted then n + 1 else n))

  -- `processOrderBatch`, with the id of the last message.
  unfoldable pub process_order_batch :
      Collector × ℕ → String → List Message → (Collector × ℕ) × String
  unfolding handle_order
  process_order_batch c last_id [] = (c, last_id)
  process_order_batch c last_id (msg ∷ msgs) = process_order_batch (count_order c msg) msg.id msgs

  -- `drainOrders`; `none` means that the fuel ran out.
  unfoldable pub drain_orders :
      (String → ℕ → Option (List Message)) → ℕ → Collector × ℕ → String → Option (Collector × ℕ)
  unfolding handle_order drain
  drain_orders range fuel c last_id =
      drain (λ (msg : Message). msg.id) range count_order 100 fuel c (range_start last_id)

  -- `runOrdersReader`, which ends when the context is cancelled.
  unfoldable pub run_orders_reader :
      Collector × ℕ → String → List (Read Message) → (Collector × ℕ) × String
  unfolding process_order_batch
  run_orders_reader c last_id [] = (c, last_id)
  run_orders_reader c last_id (stopped ∷ reads) = (c, last_id)
  run_orders_reader c last_id (idle ∷ reads) = run_orders_reader c last_id reads
  run_orders_reader c last_id (arrived msgs ∷ reads) =
      let (c', last_id') = process_order_batch c last_id msgs in run_orders_reader c' last_id' reads

  -- `ordersLoop`, with the number of trades persisted.
  unfoldable pub orders_loop :
      (String → ℕ → Option (List Message))
      → ℕ
      → Collector
      → List (Read Message)
      → Option (Collector × ℕ)
  unfolding run_orders_reader drain_orders
  orders_loop range fuel c reads =
      let (c', last_id) = run_orders_reader (c, 0) "0-0" reads in drain_orders range fuel c' last_id

  -- `signalsLoop`, which does not drain its stream.
  unfoldable pub signals_loop : Collector → List (Read Message) → Collector
  unfolding handle_signal
  signals_loop c [] = c
  signals_loop c (stopped ∷ reads) = c
  signals_loop c (idle ∷ reads) = signals_loop c reads
  signals_loop c (arrived msgs ∷ reads) = signals_loop (handle_all handle_signal c msgs) reads
