-- ===== src/Backtest/EndToEnd.antt =====
-- The executor and the collector together (engine/backtest/execution/executor.go,
-- engine/backtest/collector/collector.go): the collector reads the orders that the executor
-- publishes.
pub mod Complete
use mathlib.Core.Path.{subst}
use erebor.Prelude.{
  ◌≡◌, refl, sym, ap, ◌∙◌, true, Option, none, some, String, List, [], ◌∷◌, ◌++◌, map,
  if◌then◌else◌, All, arith,
}
use erebor.Decimal.{Decimal, IsExact}
use erebor.Platform.{Platform, IsFaithful}
use erebor.Trading.Order.{Side, is_buy, OrderEvent, filled}
use erebor.Trading.Risk.{HaltStore, Rejection, can_trade}
use erebor.Trading.Strategy.{trade_decision, fill_price}
use erebor.Wire.{Message}
use erebor.Wire.Books.{L2EventData, decode_l2_event}
use erebor.Wire.Orders.{publish_order}
use erebor.Wire.RoundTrip.{decode-publish_order}
use erebor.Wire.Drain.{handle_all}
use erebor.Backtest.Executor.{
  book_imbalance, Arrival, Executor, filled_order, fill_order, fill_at, after_check, act,
  handle_event, handle_l2,
}
use erebor.Backtest.Collector.{
  Collector, value_of, trade_record, record_order, take_order, handle_order,
}
use erebor.Backtest.Collector.Equity.{value_of-insert}

module _ (𝒟 : Decimal) (ℒ : IsExact 𝒟) (𝒫 : Platform) (ℱ : IsFaithful 𝒫)
    (stream_id : OrderEvent 𝒟.Amount → String) where
  open 𝒟 use {Amount, add, sub}

  -- Redis gives a message its id.
  abbrev pub order_message : OrderEvent Amount → Message
  order_message order = record { id = stream_id order; values = publish_order 𝒟 𝒫 order }

  -- The collector after the orders of a list that has the newest first.
  abbrev pub collected : Collector 𝒟 𝒫 → List (OrderEvent Amount) → Collector 𝒟 𝒫
  collected c [] = c
  collected c (order ∷ orders) = (handle_order 𝒟 𝒫 (collected c orders) (order_message order)).0

  take_filled :
      (c : Collector 𝒟 𝒫) (order : OrderEvent Amount)
      → order.status ≡ filled
      → (handle_order 𝒟 𝒫 c (order_message order)).0 ≡ record_order 𝒟 𝒫 c order
  unfolding handle_order
  take_filled c order f =
      ap (λ o. (take_order 𝒟 𝒫 c o).0) (decode-publish_order 𝒟 ℒ 𝒫 ℱ order) ∙ ground (arith, f)

  trades-record_order :
      (c : Collector 𝒟 𝒫) (order : OrderEvent Amount)
      → (record_order 𝒟 𝒫 c order).trades ≡ trade_record 𝒟 𝒫 order ∷ c.trades
  unfolding record_order
  trades-record_order c order = refl

  position-record_order :
      (c : Collector 𝒟 𝒫) (order : OrderEvent Amount)
      → let held = value_of 𝒟 c.tracker.positions order.symbol in
        value_of 𝒟 (record_order 𝒟 𝒫 c order).tracker.positions order.symbol
        ≡ (if is_buy order.side then add held order.fill_qty else sub held order.fill_qty)
  unfolding record_order
  position-record_order c order = value_of-insert 𝒟 ℒ order.symbol _ c.tracker.positions

  -- What the collector has of the orders that the executor published so far.
  pub record Recorded (S : HaltStore) (c : Collector 𝒟 𝒫) (e : Executor 𝒟 𝒫 S) : Type 0 where
    pub trades : (collected c e.orders).trades ≡ map (trade_record 𝒟 𝒫) e.orders ++ c.trades
    pub position : value_of 𝒟 (collected c e.orders).tracker.positions e.symbol ≡ e.qty

  module _ (S : HaltStore) (c : Collector 𝒟 𝒫) where
    fill_order-Recorded :
        (e : Executor 𝒟 𝒫 S) (order : OrderEvent Amount)
        → order.status ≡ filled
        → order.symbol ≡ e.symbol
        → Recorded S c e
        → Recorded S c (fill_order 𝒟 𝒫 S e order true)
    unfolding fill_order
    fill_order-Recorded e order f s r = record {
      trades =
          ap (λ k. k.trades) (take_filled (collected c e.orders) order f)
          ∙ trades-record_order (collected c e.orders) order
          ∙ ap (λ ts. trade_record 𝒟 𝒫 order ∷ ts) r.trades;
      position =
          ap (λ k. value_of 𝒟 k.tracker.positions e.symbol)
            (take_filled (collected c e.orders) order f)
          ∙ ap (value_of 𝒟 (record_order 𝒟 𝒫 (collected c e.orders) order).tracker.positions)
              (sym s)
          ∙ position-record_order (collected c e.orders) order
          ∙ ap (λ h. if is_buy order.side then add h order.fill_qty else sub h order.fill_qty)
              (ap (value_of 𝒟 (collected c e.orders).tracker.positions) s ∙ r.position);
    }

    fill_at-Recorded :
        (e : Executor 𝒟 𝒫 S) (ev : L2EventData Amount) (side : Side) (order_id : String)
        (p : Option Amount)
        → Recorded S c e
        → Recorded S c (fill_at 𝒟 𝒫 S e ev side order_id true p)
    unfolding fill_at filled_order
    fill_at-Recorded e ev side order_id none r = r
    fill_at-Recorded e ev side order_id (some price) r =
        fill_order-Recorded e (filled_order 𝒟 𝒫 S e ev side order_id price) refl refl r

    after_check-Recorded :
        (e : Executor 𝒟 𝒫 S) (ev : L2EventData Amount) (side : Side) (order_id : String)
        (o : Option Rejection)
        → Recorded S c e
        → Recorded S c (after_check 𝒟 𝒫 S e ev side order_id true o)
    unfolding after_check
    after_check-Recorded e ev side order_id (some rejection) r = r
    after_check-Recorded e ev side order_id none r =
        fill_at-Recorded e ev side order_id (fill_price 𝒟 e.cfg side ev.bids ev.asks) r

    act-Recorded :
        (e : Executor 𝒟 𝒫 S) (ev : L2EventData Amount) (order_id : String) (o : Option Side)
        → Recorded S c e
        → Recorded S c (act 𝒟 𝒫 S e ev order_id true o)
    unfolding act
    act-Recorded e ev order_id none r = r
    act-Recorded e ev order_id (some side) r =
        let checked = can_trade 𝒟 S e.risk e.symbol side e.cfg.trade_qty ev.event_time in
        after_check-Recorded (record e { risk = checked.0 }) ev side order_id checked.1
          (record { trades = r.trades; position = r.position })

    handle_event-Recorded :
        (e : Executor 𝒟 𝒫 S) (order_id : String) (o : Option (L2EventData Amount))
        → Recorded S c e
        → Recorded S c (handle_event 𝒟 𝒫 S e order_id true o)
    unfolding handle_event
    handle_event-Recorded e order_id none r = r
    handle_event-Recorded e order_id (some ev) r =
        act-Recorded e ev order_id
          (trade_decision 𝒟 e.cfg (book_imbalance 𝒟 ev.bids ev.asks 10) e.qty) r

    handle_l2-Recorded :
        (e : Executor 𝒟 𝒫 S) (a : Arrival)
        → a.publish_ok ≡ true
        → Recorded S c e
        → Recorded S c (handle_l2 𝒟 𝒫 S e a)
    unfolding handle_l2
    handle_l2-Recorded e a ok r =
        subst
          (λ b.
            Recorded S c (handle_event 𝒟 𝒫 S e a.order_id b (decode_l2_event 𝒟 𝒫 a.message.values)))
          (sym ok) (handle_event-Recorded e a.order_id (decode_l2_event 𝒟 𝒫 a.message.values) r)

    -- As long as every order reaches the stream, the collector that reads the orders has one
    -- trade for each, with its data, and holds the executor's position of the symbol.
    pub handle_all-Recorded :
        (e : Executor 𝒟 𝒫 S) (arrivals : List Arrival)
        → All (λ a. a.publish_ok ≡ true) arrivals
        → Recorded S c e
        → Recorded S c (handle_all (handle_l2 𝒟 𝒫 S) e arrivals)
    handle_all-Recorded e [] oks r = r
    handle_all-Recorded e (a ∷ arrivals) (ok, oks) r =
        handle_all-Recorded (handle_l2 𝒟 𝒫 S e a) arrivals oks (handle_l2-Recorded e a ok r)
