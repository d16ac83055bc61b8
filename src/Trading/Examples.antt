-- ===== src/Trading/Examples.antt =====
-- Concrete runs of the trading side (engine/risk, engine/execution, engine/signals).
use erebor.Prelude.{ℕ, ◌≡◌, ◌≢◌, refl, true, false, ◌⊎◌, none, some, [], ◌∷◌, arith}
use erebor.Prelude.Assoc.{lookup}
use erebor.Prelude.Int.{pos}
use erebor.Decimal.{Le, zero_amount}
use erebor.Decimal.Integers.{integers, integers-IsExact}
use erebor.Trading.Order.{buy, sell}
use erebor.Trading.Risk.{
  HaltStore, redis_halt_store, Checker, Config, EventType, position_limit, drawdown_halt,
  run_loss_halt, Reason, persisted, triggered, Rejection, is_halted, violates, can_trade,
  record_fill,
}
use erebor.Trading.Risk
use erebor.Trading.Risk.Halting.{run, halt_absorbs, can_trade_violation, halt_survives_restart}
use erebor.Trading.Risk.Accounting.{approved_fill_within_limit}

abbrev pub amount : ℕ → integers.Amount
amount n = integers.of_int (pos n)

abbrev limits : Config integers
limits = record {
  initial_capital = amount 1000;
  max_position_qty = ("BTCUSDT", amount 5) ∷ [];
  max_drawdown_pct = amount 1;
  run_loss_limit_pct = amount 1;
}

abbrev pub fresh_checker : Checker integers (redis_halt_store true true)
fresh_checker = record {
  cfg = limits;
  halt_store = some [];
  run_id = "run";
  positions = ("BTCUSDT", amount 2) ∷ [];
  equity = amount 1000;
  peak_equity = amount 1000;
  halted = false;
  halt_reason = none;
  halt_checked = true;
  published = [];
}

-- It has lost all its capital.
abbrev drawn_down : Checker integers (redis_halt_store true true)
drawn_down = record fresh_checker { equity = zero_amount integers }

approved_fill_within_limit_example :
    Le integers
      (integers.abs (
        Risk.position_of integers
          (redis_halt_store true true)
          (record_fill integers
            (redis_halt_store true true)
            (can_trade integers
              (redis_halt_store true true)
              fresh_checker
              "BTCUSDT"
              buy
              (amount 3)
              5).0
            "BTCUSDT"
            buy
            (amount 3)
            (amount 100)
            (amount 1))
          "BTCUSDT"))
      (amount 5)
unfolding can_trade integers lookup
approved_fill_within_limit_example =
    approved_fill_within_limit integers integers-IsExact (redis_halt_store true true) fresh_checker
      "BTCUSDT" buy (amount 3) (amount 100) (amount 1) 5 refl refl

halt_absorbs_example :
    can_trade integers
      (redis_halt_store true true)
      (run integers
        (redis_halt_store true true)
        (record fresh_checker { halted = true; halt_reason = some persisted })
        [])
      "BTCUSDT"
      sell
      (amount 1)
      6
    ≡ (
      run integers
          (redis_halt_store true true)
          (record fresh_checker { halted = true; halt_reason = some persisted })
          [],
      some (is_halted (some persisted)),
    )
halt_absorbs_example =
    halt_absorbs integers (redis_halt_store true true)
      (record fresh_checker { halted = true; halt_reason = some persisted }) [] "BTCUSDT" sell
      (amount 1) 6 refl

can_trade_violation_example :
    let c' =
      (can_trade integers (redis_halt_store true true) drawn_down "BTCUSDT" buy (amount 1) 7).0 in
    (c'.published
      ≡ record {
        run_id = "run";
        symbol = "";
        event_time = 7;
        kind = drawdown_halt;
        equity = zero_amount integers;
      }
        ∷ [])
    × ((drawdown_halt ≡ position_limit) × (c'.halted ≡ false)
        ⊎ (drawdown_halt ≢ position_limit)
          × (c'.halted ≡ true)
          × (c'.halt_reason ≡ some (triggered drawdown_halt))
          × (c'.halt_store ≡ some (Risk.redis_set_halted true [] "run")))
unfolding can_trade integers
can_trade_violation_example =
    can_trade_violation integers (redis_halt_store true true) drawn_down "BTCUSDT" buy (amount 1) 7
      {kind = drawdown_halt} refl

drawdown_is_no_position : drawdown_halt ≢ position_limit
drawdown_is_no_position e = ground (arith, e)

halt_survives_restart_example :
    let left =
      (can_trade integers
        (redis_halt_store true true)
        drawn_down
        "BTCUSDT"
        buy
        (amount 1)
        7).0.halt_store in
    let again = Risk.new integers (redis_halt_store true true) limits "run" left in
    (can_trade integers (redis_halt_store true true) again "ETHUSDT" sell (amount 2) 8).1
    ≡ some (is_halted (some persisted))
unfolding can_trade integers
halt_survives_restart_example =
    halt_survives_restart integers true true true true drawn_down [] limits "BTCUSDT" "ETHUSDT" buy
      sell (amount 1) (amount 2) 7 8 {kind = drawdown_halt} refl drawdown_is_no_position refl
