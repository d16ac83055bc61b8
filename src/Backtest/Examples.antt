-- ===== src/Backtest/Examples.antt =====
-- Concrete runs of the executor and the collector (engine/backtest).
use erebor.Prelude.{
  map, ℕ, ◌≡◌, refl, sym, ap, ◌∙◌, true, false, Option, inl, inr, none, some, String, List, [], ◌∷◌,
  ◌++◌, take, arith,
}
use Prim.Native.Char.{Char}
use erebor.Prelude.Int.{pos}
use erebor.Prelude.Assoc.{lookup}
use erebor.Decimal.{zero_amount}
use erebor.Decimal.Integers.{integers, integers-IsExact}
use erebor.Platform.Sample.{platform, platform-IsFaithful}
use erebor.Trading.Order.{buy, sell, OrderEvent}
use erebor.Trading.Risk.{redis_halt_store, Checker}
use erebor.Trading.Strategy.{StrategyConfig}
use erebor.Wire.Books.{publish, decode_l2_event}
use mathlib.Core.Path.{subst}
use erebor.Wire.{Message}
use erebor.Wire.Drain.{arrived, idle, stopped, handle_all, cursor, ReadsInOrder}
use erebor.Backtest.Executor.{Arrival, Executor, handle_l2, process_l2_batch, symbol_loop}
use erebor.Backtest.Executor.Toggle.{Toggles, process_l2_batch-Toggles}
use erebor.Backtest.Executor.Shutdown.{symbol_loop_lem}
use erebor.Backtest.Collector.{
  EquityTracker, equity_of, value_of, apply_fill, Collector, new_equity_tracker,
}
use erebor.Backtest.Collector.Equity.{apply_fill_lem}
use erebor.Backtest.EndToEnd.{order_message}
use erebor.Backtest.EndToEnd.Complete.{Delivers, stream_of, backtest-Recorded}
use erebor.Backtest.Executor.Shutdown.{arrival_id}
use erebor.Backtest.Collector.{orders_loop, trade_record}
use erebor.Backtest.Collector.Loops.{message_id}
use erebor.Trading.Strategy.{trade_decision, fill_price}
use erebor.Trading.Signals.{sum_qty}
use erebor.Trading.Risk.{can_trade}
use erebor.Trading.Fill.{compute_fill_price, compute_fee}
use erebor.Wire.Examples.{amount, level, order}

abbrev pub strategy : StrategyConfig integers.Amount
strategy = record {
  maker_fee_bps = pos 1;
  taker_fee_bps = pos 2;
  slippage_bps = pos 5;
  trade_qty = amount 1;
  buy_threshold = amount 0;
  sell_threshold = amount 0;
  initial_capital = amount 1000;
  max_position_qty = [];
  max_drawdown_pct = amount 0;
  run_loss_limit_pct = amount 0;
}

abbrev pub checker : Checker integers (redis_halt_store true true)
checker = record {
  cfg = record {
    initial_capital = amount 1000;
    max_position_qty = [];
    max_drawdown_pct = amount 0;
    run_loss_limit_pct = amount 0;
  };
  halt_store = none;
  run_id = "run";
  positions = [];
  equity = amount 1000;
  peak_equity = amount 1000;
  halted = false;
  halt_reason = none;
  halt_checked = true;
  published = [];
}

abbrev executor : Executor integers platform (redis_halt_store true true)
executor = record {
  cfg = strategy;
  symbol = "BTCUSDT";
  qty = zero_amount integers;
  risk = checker;
  orders = [];
}

abbrev bids_only : List (String × String)
bids_only = publish integers platform "run" "btcusdt" 7 (pos 3) (level 9 4 ∷ []) (level 11 0 ∷ [])

-- It leads to a buy.
abbrev arrival : Arrival
arrival = record {
  message = record { id = "1-0"; values = bids_only };
  order_id = "a";
  publish_ok = true;
}

executor-Toggles :
    Toggles integers integers-IsExact platform (redis_halt_store true true) (amount 1) executor
unfolding lookup integers
executor-Toggles = record { trade_qty = refl; one_trade = inr (inl refl); in_sync = refl }

process_l2_batch-Toggles_example :
    Toggles integers integers-IsExact platform
      (redis_halt_store true true)
      (amount 1)
      (process_l2_batch integers platform
        (redis_halt_store true true)
        executor
        "0-0"
        (arrival ∷ arrival ∷ [])).0
unfolding integers
process_l2_batch-Toggles_example =
    process_l2_batch-Toggles integers integers-IsExact platform (redis_halt_store true true)
      (amount 1) executor "0-0" (arrival ∷ arrival ∷ []) refl executor-Toggles

-- A stream with one message.
abbrev range : {E : Type 0} → E → String → ℕ → Option (List E)
range e String.[] n = some (take n [])
range e (String.◌∷◌ c String.[]) n = some (take n (e ∷ []))
range e (String.◌∷◌ c (String.◌∷◌ d s)) n = some (take n [])

abbrev first : {E : Type 0} → E → List E → E
first e [] = e
first e (x ∷ xs) = x

abbrev rest : {E : Type 0} → List E → List E
rest [] = []
rest (x ∷ xs) = xs

abbrev IsEmpty : {E : Type 0} → List E → Type 0
IsEmpty [] = Unit
IsEmpty (x ∷ xs) = ⊥

range-ReadsInOrder :
    {E : Type 0} (id : E → String) (e : E) (d : Char) (s : String)
    → id e ≡ String.◌∷◌ d s
    → ReadsInOrder id (range e) (e ∷ [])
range-ReadsInOrder {E = E} id e d s named = record { range_lem = reads }
  where
    reads :
        (seen left : List E) (n : ℕ)
        → seen ++ left ≡ e ∷ []
        → range e (cursor id seen) n ≡ some (take n left)
    reads [] left n q = ap (λ l. some (take n l)) (sym q)
    reads (x ∷ []) left n q =
        ap (λ xs. range e (String.◌∷◌ "(" (id (first e xs))) n) q
        ∙ ap (λ t. range e (String.◌∷◌ "(" t) n) named
        ∙ ap (λ l. some (take n l)) (sym (ap rest q))
    reads (x ∷ y ∷ seen) left n q = absurd (subst IsEmpty (sym (ap rest q)) tt)

symbol_loop_lem_example :
    symbol_loop integers platform
      (redis_halt_store true true)
      (range arrival)
      2
      executor
      (idle ∷ stopped ∷ [])
    ≡ some (
        handle_all
          (handle_l2 integers platform (redis_halt_store true true))
          executor
          (arrival ∷ []))
symbol_loop_lem_example =
    symbol_loop_lem integers platform (redis_halt_store true true) (range arrival) (arrival ∷ []) 2
      executor (idle ∷ stopped ∷ []) (arrival ∷ [])
      (range-ReadsInOrder (λ (a : Arrival). a.message.id) arrival "1" "-0" refl) refl tt
      (omega arith)

abbrev tracker : EquityTracker integers.Amount
tracker = record {
  cash = amount 100;
  positions = ("BTCUSDT", amount 2) ∷ [];
  last_fill_price = ("BTCUSDT", amount 10) ∷ [];
}

apply_fill_lem_example :
    (apply_fill integers tracker "BTCUSDT" sell (amount 1) (amount 12) (amount 1)).1
    ≡ integers.sub
        (integers.add (equity_of integers tracker) (
          integers.mul
            (value_of integers tracker.positions "BTCUSDT")
            (integers.sub (amount 12) (value_of integers tracker.last_fill_price "BTCUSDT"))))
        (amount 1)
unfolding lookup
apply_fill_lem_example =
    apply_fill_lem integers integers-IsExact tracker "BTCUSDT" sell (amount 1) (amount 12)
      (amount 1) (refl, tt)

abbrev collector : Collector integers platform
collector = record {
  tracker = new_equity_tracker integers (amount 1000);
  trades = [];
  points = [];
  signal_counts = [];
  total_signals = 0;
}

abbrev bought : Executor integers platform (redis_halt_store true true)
bought =
    handle_all (handle_l2 integers platform (redis_halt_store true true)) executor (arrival ∷ [])

abbrev buy_order : OrderEvent integers.Amount
buy_order = record order { side = buy; fill_price = amount 11; fee = integers.of_int (pos 0) }

orders-bought : bought.orders ≡ buy_order ∷ []
unfolding handle_l2 integers lookup decode_l2_event publish trade_decision sum_qty can_trade
    fill_price compute_fill_price compute_fee
orders-bought = refl

abbrev by_order_id : OrderEvent integers.Amount → String
by_order_id order = order.order_id

abbrev buy_message : Message
buy_message =
    order_message integers integers-IsExact platform platform-IsFaithful by_order_id buy_order

abbrev OrdersRead : List (OrderEvent integers.Amount) → Type 0
OrdersRead orders =
    Delivers message_id (range buy_message) 1 (arrived (buy_message ∷ []) ∷ stopped ∷ []) (
      stream_of integers integers-IsExact platform platform-IsFaithful by_order_id
        (redis_halt_store true true) orders)

backtest-Recorded_example :
    (symbol_loop integers platform
        (redis_halt_store true true)
        (range arrival)
        2
        executor
        (idle ∷ stopped ∷ [])
      ≡ some bought)
    × ((final : Collector integers platform × ℕ) × (orders_loop integers platform
            (range buy_message)
            1
            collector
            (arrived (buy_message ∷ []) ∷ stopped ∷ [])
          ≡ some final)
        × (final.0.trades ≡ map (trade_record integers platform) bought.orders ++ collector.trades)
        × (value_of integers final.0.tracker.positions bought.symbol ≡ bought.qty))
unfolding lookup integers new_equity_tracker
backtest-Recorded_example =
    backtest-Recorded integers integers-IsExact platform platform-IsFaithful by_order_id
      (redis_halt_store true true) collector executor (arrival ∷ []) (range arrival) 2
      (idle ∷ stopped ∷ []) (range buy_message) 1 (arrived (buy_message ∷ []) ∷ stopped ∷ [])
      (refl, tt) (record { trades = refl; position = refl })
      (record {
        left = arrival ∷ [];
        order = range-ReadsInOrder arrival_id arrival "1" "-0" refl;
        whole = refl;
        named = tt;
        enough = omega arith;
      })
      (subst OrdersRead (sym orders-bought) (record {
        left = [];
        order = range-ReadsInOrder message_id buy_message "a" "" refl;
        whole = refl;
        named = (refl, tt);
        enough = omega arith;
      }))
