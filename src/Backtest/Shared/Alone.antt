-- ===== src/Backtest/Shared/Alone.antt =====
-- A loop of engine/backtest/execution/executor.go that runs alone, among the steps of all loops.
use erebor.Prelude.{refl, Bool, Option, none, some, String, List, [], ◌∷◌}
use erebor.Decimal.{Decimal}
use erebor.Platform.{Platform}
use erebor.Trading.Order.{Side}
use erebor.Trading.Risk.{HaltStore, Rejection, can_trade}
use erebor.Trading.Strategy.{fill_price, trade_decision}
use erebor.Wire.Books.{L2EventData, decode_l2_event}
use erebor.Backtest.Executor.{
  book_imbalance, Arrival, Executor, filled_order, fill_order, fill_at, after_check, act,
  handle_event, handle_l2, process_l2_batch,
}
use erebor.Backtest.Shared.{
  waiting, Loop, order_of, take_order, priced, answered, System, decided, begin, publish, finish,
  begins, publishes, finishes, Run, start, later,
}

module _ (𝒟 : Decimal) (𝒫 : Platform) (S : HaltStore) where
  open 𝒟 use {Amount}

  -- The loop of an executor before it handles a message.
  abbrev pub loop_of : Executor 𝒟 𝒫 S → Loop 𝒟
  loop_of e = record { symbol = e.symbol; qty = e.qty; phase = waiting }

  -- The system in which it is the only one.
  abbrev pub alone : Executor 𝒟 𝒫 S → System 𝒟 S
  alone e = record { cfg = e.cfg; risk = e.risk; orders = e.orders; loops = loop_of e ∷ [] }

  pub run_after : (s t u : System 𝒟 S) → Run 𝒟 S s t → Run 𝒟 S t u → Run 𝒟 S s u
  run_after s t _ a start = a
  run_after s t u a (later b st) = later (run_after s t _ a b) st

  priced-Run :
      (e : Executor 𝒟 𝒫 S) (ev : L2EventData Amount) (side : Side) (order_id : String) (ok : Bool)
      (p : Option Amount)
      → Run 𝒟 S
          (record (alone e) { loops = priced 𝒟 e.cfg (loop_of e) ev side order_id p ∷ [] })
          (alone (fill_at 𝒟 𝒫 S e ev side order_id ok p))
  unfolding priced fill_at filled_order fill_order order_of take_order publish finish
  priced-Run e ev side order_id ok none = start
  priced-Run e ev side order_id ok (some price) =
      let order = order_of 𝒟 e.cfg (loop_of e) ev side order_id price in
      later (later start (publishes 0 _ order ok refl refl)) (finishes 0 _ order refl refl)

  answered-Run :
      (e : Executor 𝒟 𝒫 S) (ev : L2EventData Amount) (side : Side) (order_id : String) (ok : Bool)
      (r : Option Rejection)
      → Run 𝒟 S
          (record (alone e) { loops = answered 𝒟 e.cfg (loop_of e) ev side order_id r ∷ [] })
          (alone (after_check 𝒟 𝒫 S e ev side order_id ok r))
  unfolding answered after_check
  answered-Run e ev side order_id ok (some r) = start
  answered-Run e ev side order_id ok none =
      priced-Run e ev side order_id ok (fill_price 𝒟 e.cfg side ev.bids ev.asks)

  decided-Run :
      (e : Executor 𝒟 𝒫 S) (ev : L2EventData Amount) (order_id : String) (ok : Bool)
      (o : Option Side)
      → Run 𝒟 S
          (decided 𝒟 S (alone e) 0 (loop_of e) ev order_id o)
          (alone (act 𝒟 𝒫 S e ev order_id ok o))
  unfolding decided act
  decided-Run e ev order_id ok none = start
  decided-Run e ev order_id ok (some side) =
      let checked = can_trade 𝒟 S e.risk e.symbol side e.cfg.trade_qty ev.event_time in
      answered-Run (record e { risk = checked.0 }) ev side order_id ok checked.1

  handle_event-Run :
      (e : Executor 𝒟 𝒫 S) (order_id : String) (ok : Bool) (o : Option (L2EventData Amount))
      → Run 𝒟 S (alone e) (alone (handle_event 𝒟 𝒫 S e order_id ok o))
  unfolding handle_event begin
  handle_event-Run e order_id ok none = start
  handle_event-Run e order_id ok (some ev) =
      run_after (alone e) (begin 𝒟 S (alone e) 0 (loop_of e) ev order_id) _
        (later start (begins 0 (loop_of e) ev order_id refl refl))
        (decided-Run e ev order_id ok
          (trade_decision 𝒟 e.cfg (book_imbalance 𝒟 ev.bids ev.asks 10) e.qty))

  -- What a loop makes of a batch of messages on its own is a run of the steps of all loops in
  -- which it is the only one.
  pub process_l2_batch-Run :
      (e : Executor 𝒟 𝒫 S) (last_id : String) (batch : List Arrival)
      → Run 𝒟 S (alone e) (alone (process_l2_batch 𝒟 𝒫 S e last_id batch).0)
  unfolding process_l2_batch handle_l2
  process_l2_batch-Run e last_id [] = start
  process_l2_batch-Run e last_id (a ∷ batch) =
      run_after (alone e) (alone (handle_l2 𝒟 𝒫 S e a)) _
        (handle_event-Run e a.order_id a.publish_ok (decode_l2_event 𝒟 𝒫 a.message.values))
        (process_l2_batch-Run (handle_l2 𝒟 𝒫 S e a) a.message.id batch)
