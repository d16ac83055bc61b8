-- ===== src/Backtest/Shared/Examples.antt =====
-- Two loops of engine/backtest/execution/executor.go that take their steps in turns.
use erebor.Prelude.{true, refl, false, String, [], ◌∷◌, All}
use erebor.Decimal.Integers.{integers, integers-IsExact}
use erebor.Prelude.Assoc.{lookup}
use erebor.Trading.Order.{buy, OrderEvent}
use erebor.Trading.Risk.{redis_halt_store, can_trade}
use erebor.Trading.Strategy.{trade_decision, fill_price}
use erebor.Trading.Signals.{sum_qty}
use erebor.Wire.Books.{L2EventData}
use erebor.Wire.Examples.{amount, level}
use erebor.Backtest.Examples.{strategy, checker}
use erebor.Trading.Fill.{compute_fill_price, compute_fee}
use erebor.Backtest.Executor.{book_imbalance}
use erebor.Backtest.Shared.{
  recording, Loop, idle, order_of, System, begin, publish, finish, launch, take_order, priced,
  answered, decided, begins, publishes, finishes, Run, start, later,
}
use erebor.Backtest.Shared.Agreement.{Held}
use erebor.Backtest.Shared.Positions.{run-Held}

abbrev ev : L2EventData integers.Amount
ev = record { run_id = "run"; event_time = 7; bids = level 9 4 ∷ []; asks = level 11 0 ∷ [] }

abbrev buy_order : String → String → OrderEvent integers.Amount
buy_order symbol order_id =
    order_of integers strategy (idle integers symbol) ev buy order_id (amount 11)

abbrev bought : String → String → Loop integers
bought symbol order_id = take_order integers (idle integers symbol) (buy_order symbol order_id)

abbrev launched : System integers (redis_halt_store true true)
launched =
    launch integers (redis_halt_store true true) strategy checker ("BTCUSDT" ∷ "ETHUSDT" ∷ [])

abbrev begun : System integers (redis_halt_store true true)
begun = begin integers (redis_halt_store true true) launched 0 (idle integers "BTCUSDT") ev "a"

abbrev both_begun : System integers (redis_halt_store true true)
both_begun = begin integers (redis_halt_store true true) begun 1 (idle integers "ETHUSDT") ev "b"

abbrev published : System integers (redis_halt_store true true)
published =
    publish integers (redis_halt_store true true) both_begun 1 (buy_order "ETHUSDT" "b") false

abbrev recorded : System integers (redis_halt_store true true)
recorded = finish integers (redis_halt_store true true) published 1 (buy_order "ETHUSDT" "b")

-- The second loop overtakes the first one.
overtaking : Run integers (redis_halt_store true true) launched recorded
unfolding integers lookup order_of take_order priced answered decided begin publish finish launch
    book_imbalance trade_decision sum_qty can_trade fill_price compute_fill_price compute_fee
overtaking =
    later
      (later
        (later (later start (begins 0 (idle integers "BTCUSDT") ev "a" refl refl))
          (begins 1 (idle integers "ETHUSDT") ev "b" refl refl))
        (publishes 1 (bought "ETHUSDT" "b") (buy_order "ETHUSDT" "b") false refl refl))
      (finishes 1 (record (bought "ETHUSDT" "b") { phase = recording (buy_order "ETHUSDT" "b") })
        (buy_order "ETHUSDT" "b") refl refl)

run-Held_example :
    All
      (Held integers integers-IsExact (redis_halt_store true true) (amount 1) recorded.risk)
      recorded.loops
unfolding integers
run-Held_example =
    run-Held integers integers-IsExact (redis_halt_store true true) strategy checker
      ("BTCUSDT" ∷ "ETHUSDT" ∷ []) recorded refl ((refl, tt), (tt, tt)) refl overtaking
