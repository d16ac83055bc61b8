-- ===== src/Trading/Paper.antt =====
-- The hot path of paper trading: `buildHandler`, `executeFill` and `publishOrder` of
-- engine/execution/cmd/erebor-execution/main.go, and the recovery of positions in `main`. The
-- state is what the closure captures: the risk checker, the blotter, the price cache; a halt of
-- the session is counted, and published orders stand in `orders`, newest first. Ids of trades
-- and orders are arguments.
pub mod Sync
pub mod Recovery
use erebor.Prelude.{
  ℕ, ◌+◌, Bool, true, false, Option, none, some, String, List, [], ◌∷◌, if◌then◌else◌,
}
use erebor.Decimal.{Decimal, zero_amount}
use erebor.Platform.{Platform}
use erebor.Trading.Order.{Side, buy, is_buy, OrderEvent, market, filled}
use erebor.Trading.Fill.{compute_fill_price, compute_fee}
use erebor.Trading.Risk.{HaltStore, Checker, Rejection, can_trade, record_fill}
use erebor.Trading.Signals.{SignalEvent}
use erebor.Trading.Strategy.{StrategyConfig, decide}
use erebor.Trading.Blotter.{FillStore, FillRequest, PositionRecord, Blotter, position}
use erebor.Trading.Blotter
use erebor.Trading.Cache.{Cache, BestPrice, best_prices}

module _ (𝒟 : Decimal) (𝒫 : Platform) (S : HaltStore) (F : FillStore 𝒟.Amount) where
  open 𝒟 use {Amount, abs}

  pub record Desk : Type 0 where
    pub session_id : String
    pub strategy : StrategyConfig Amount
    pub risk : Checker 𝒟 S
    pub blotter : Blotter 𝒟 F
    pub cache : Cache Amount
    pub session_halts : ℕ
    pub orders : List (OrderEvent Amount)

  abbrev pub best_price : Side → BestPrice Amount → Amount
  best_price side p = if is_buy side then p.ask else p.bid

  unfoldable pub request :
      Desk → String → SignalEvent Amount → Side → String → BestPrice Amount → FillRequest Amount
  request d msg_id sig side trade_id prices =
      let price =
        compute_fill_price 𝒟 (is_buy side) (best_price side prices) d.strategy.slippage_bps in
      record {
        trade_id = trade_id;
        symbol = sig.symbol;
        side = side;
        fill_price = price;
        fill_qty = d.strategy.trade_qty;
        fee = compute_fee 𝒟 d.strategy.trade_qty price d.strategy.taker_fee_bps;
        event_time = sig.event_time;
        signal_name = sig.name;
        signal_stream_id = msg_id;
      }

  -- What follows a fill that the blotter took.
  unfoldable pub book_fill : Desk → FillRequest Amount → String → Desk
  book_fill d fill order_id = record d {
    risk = record_fill 𝒟 S d.risk fill.symbol fill.side fill.fill_qty fill.fill_price fill.fee;
    orders =
        record {
          run_id = d.session_id;
          symbol = fill.symbol;
          event_time = fill.event_time;
          order_id = order_id;
          side = fill.side;
          type = market;
          price = zero_amount 𝒟;
          quantity = fill.fill_qty;
          status = filled;
          fill_price = fill.fill_price;
          fill_qty = fill.fill_qty;
          fee = fill.fee;
          signal_name = fill.signal_name;
        }
        ∷ d.orders;
  }

  -- `executeFill` with the prices of the cache; the Boolean is false for an error.
  unfoldable pub execute_fill : Desk → FillRequest Amount → String → Desk × Bool
  unfolding book_fill
  execute_fill d fill order_id =
      let (blotter, stored) = Blotter.record_fill 𝒟 F d.blotter fill in
      let after = record d { blotter = blotter } in
      if stored then (book_fill after fill order_id, true) else (after, false)

  unfoldable pub fill_at_best :
      Desk
      → String
      → SignalEvent Amount
      → Side
      → String
      → String
      → Option (BestPrice Amount)
      → Desk × Bool
  unfolding request execute_fill
  fill_at_best d msg_id sig side trade_id order_id none = (d, true)
  fill_at_best d msg_id sig side trade_id order_id (some prices) =
      execute_fill d (request d msg_id sig side trade_id prices) order_id

  -- The handler after the risk check.
  unfoldable pub after_check :
      Desk → String → SignalEvent Amount → Side → String → String → Option Rejection → Desk × Bool
  unfolding fill_at_best
  after_check d msg_id sig side trade_id order_id (some rejection) =
      ((if d.risk.halted then record d { session_halts = d.session_halts + 1 } else d), true)
  after_check d msg_id sig side trade_id order_id none =
      fill_at_best d msg_id sig side trade_id order_id (best_prices 𝒟 𝒫 d.cache sig.symbol)

  unfoldable pub act :
      Desk → String → SignalEvent Amount → String → String → Option Side → Desk × Bool
  unfolding after_check
  act d msg_id sig trade_id order_id none = (d, true)
  act d msg_id sig trade_id order_id (some side) =
      let (risk, rejection) =
        can_trade 𝒟 S d.risk sig.symbol side d.strategy.trade_qty sig.event_time in
      after_check (record d { risk = risk }) msg_id sig side trade_id order_id rejection

  unfoldable pub handle_signal : Desk → String → SignalEvent Amount → String → String → Desk × Bool
  unfolding act
  handle_signal d msg_id sig trade_id order_id =
      act d msg_id sig trade_id order_id
        (decide 𝒟 d.strategy sig (position 𝒟 F d.blotter sig.symbol).0)

  -- `main` seeds the risk checker from the recovered positions.
  unfoldable pub seed_risk : Checker 𝒟 S → List (PositionRecord Amount) → Checker 𝒟 S
  seed_risk risk [] = risk
  seed_risk risk (p ∷ ps) =
      seed_risk (record_fill 𝒟 S risk p.symbol buy (abs p.net_qty) p.avg_entry (zero_amount 𝒟)) ps
