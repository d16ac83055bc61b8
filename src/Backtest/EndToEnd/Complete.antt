-- ===== src/Backtest/EndToEnd/Complete.antt =====
-- A backtest of one symbol to its end: the runner stops the executor first, which drains the
-- books, and then the collector, which drains the orders (engine/backtest/runner/runner.go,
-- engine/backtest/execution/executor.go, engine/backtest/collector/collector.go).
use text.Mathlib.Text.{◌==◌ as str_eq}
use erebor.Prelude.{
  ℕ, ◌<◌, ◌≡◌, refl, ap, ◌∙◌, true, false, Option, some, String, List, [], ◌∷◌, ◌++◌, map, length,
  All,
}
use erebor.Decimal.{Decimal, IsExact}
use erebor.Platform.{Platform, IsFaithful}
use erebor.Trading.Order.{OrderEvent}
use erebor.Trading.Risk.{HaltStore}
use erebor.Wire.{Message}
use erebor.Wire.Drain.{Read, delivered, handle_all, handle_all-append, ReadsInOrder}
use erebor.Backtest.Executor.{Arrival, Executor, handle_l2, symbol_loop}
use erebor.Backtest.Executor.Shutdown.{arrival_id, symbol_loop_lem}
use erebor.Backtest.Collector.{
  Collector, value_of, trade_record, count_order, handle_order, orders_loop,
}
use erebor.Backtest.Collector.Loops.{message_id, orders_loop_lem}
use erebor.Backtest.EndToEnd.{order_message, collected, Recorded, handle_all-Recorded}

-- A reader with these reads gets all of the stream: XRANGE reads it in order, the drain has more
-- fuel than messages are left for it, and no message that came before has the id 0-0.
pub record Delivers {E : Type 0} (id : E → String) (range : String → ℕ → Option (List E)) (fuel : ℕ)
    (reads : List (Read E)) (entries : List E) : Type 0 where
  pub left : List E
  pub order : ReadsInOrder id range entries
  pub whole : delivered reads ++ left ≡ entries
  pub named : All (λ e. str_eq (id e) "0-0" ≡ false) (delivered reads)
  pub enough : length left < fuel

module _ (𝒟 : Decimal) (ℒ : IsExact 𝒟) (𝒫 : Platform) (ℱ : IsFaithful 𝒫)
    (stream_id : OrderEvent 𝒟.Amount → String) (S : HaltStore) where
  open 𝒟 use {Amount}

  -- The orders stream after orders whose list has the newest first.
  abbrev pub stream_of : List (OrderEvent Amount) → List Message
  stream_of [] = []
  stream_of (order ∷ orders) = stream_of orders ++ order_message 𝒟 ℒ 𝒫 ℱ stream_id order ∷ []

  collected_lem :
      (c : Collector 𝒟 𝒫) (orders : List (OrderEvent Amount))
      → (handle_all (count_order 𝒟 𝒫) (c, 0) (stream_of orders)).0
        ≡ collected 𝒟 ℒ 𝒫 ℱ stream_id c orders
  collected_lem c [] = refl
  collected_lem c (order ∷ orders) =
      ap (λ r. r.0)
        (handle_all-append (count_order 𝒟 𝒫) (c, 0) (stream_of orders)
          (order_message 𝒟 ℒ 𝒫 ℱ stream_id order ∷ []))
      ∙ ap (λ k. (handle_order 𝒟 𝒫 k (order_message 𝒟 ℒ 𝒫 ℱ stream_id order)).0)
          (collected_lem c orders)

  -- A backtest of one symbol, in which each of the two readers gets all of its stream, every
  -- order can be published, and the collector starts with the executor's position and orders:
  -- both loops end; the executor has handled every book; the collector has, before the trades it
  -- began with, one trade with its data for each order of the executor, and holds the executor's
  -- position.
  pub backtest-Recorded :
      (c : Collector 𝒟 𝒫) (e : Executor 𝒟 𝒫 S) (arrivals : List Arrival)
      (l2_range : String → ℕ → Option (List Arrival)) (l2_fuel : ℕ) (l2_reads : List (Read Arrival))
      (orders_range : String → ℕ → Option (List Message)) (orders_fuel : ℕ)
      (orders_reads : List (Read Message))
      → All (λ a. a.publish_ok ≡ true) arrivals
      → Recorded 𝒟 ℒ 𝒫 ℱ stream_id S c e
      → Delivers arrival_id l2_range l2_fuel l2_reads arrivals
      → let e' = handle_all (handle_l2 𝒟 𝒫 S) e arrivals in
        Delivers message_id orders_range orders_fuel orders_reads (stream_of e'.orders)
        → (symbol_loop 𝒟 𝒫 S l2_range l2_fuel e l2_reads ≡ some e')
          × ((final : Collector 𝒟 𝒫 × ℕ) × (orders_loop 𝒟 𝒫 orders_range orders_fuel c orders_reads
                ≡ some final)
              × (final.0.trades ≡ map (trade_record 𝒟 𝒫) e'.orders ++ c.trades)
              × (value_of 𝒟 final.0.tracker.positions e'.symbol ≡ e'.qty))
  backtest-Recorded c e arrivals l2_range l2_fuel l2_reads orders_range orders_fuel orders_reads ok
        r l d =
      let e' = handle_all (handle_l2 𝒟 𝒫 S) e arrivals in
      let r' = handle_all-Recorded 𝒟 ℒ 𝒫 ℱ stream_id S c e arrivals ok r in
      let same = collected_lem c e'.orders in
      (
        symbol_loop_lem 𝒟 𝒫 S l2_range arrivals l2_fuel e l2_reads l.left l.order l.whole l.named
            l.enough,
        (
          handle_all (count_order 𝒟 𝒫) (c, 0) (stream_of e'.orders),
          orders_loop_lem 𝒟 𝒫 orders_range (stream_of e'.orders) orders_fuel c orders_reads d.left
              d.order d.whole d.named d.enough,
          ap (λ k. k.trades) same ∙ r'.trades,
          ap (λ k. value_of 𝒟 k.tracker.positions e'.symbol) same ∙ r'.position,
        ),
      )
