-- ===== src/Backtest/Executor/Toggle.antt =====
-- The position of the backtest's executor (engine/backtest/execution/executor.go).
use erebor.Prelude.{
  ◌≡◌, refl, ap, ◌∙◌, Bool, true, inl, inr, Option, none, some, String, List, [], ◌∷◌, arith,
}
use erebor.Prelude.Assoc.{lookup}
use erebor.Decimal.{Decimal, IsExact, zero_amount}
use erebor.Platform.{Platform}
use erebor.Trading.Order.{Side}
use erebor.Trading.Risk.{HaltStore, Rejection, can_trade, record_fill}
use erebor.Trading.Risk
use erebor.Trading.Risk.Accounting.{position_of-record_fill, positions-can_trade}
use erebor.Trading.Strategy.{trade_decision, fill_price}
use erebor.Wire.Books.{L2EventData, decode_l2_event}
use erebor.Backtest.Executor.Decision.{
  OneTrade, Allowed, decision-cases, bought-OneTrade, sold-OneTrade,
}
use erebor.Backtest.Executor.{
  book_imbalance, Arrival, Executor, filled_order, fill_order, fill_at, after_check, act,
  handle_event, handle_l2, process_l2_batch,
}

module _ (𝒟 : Decimal) (ℒ : IsExact 𝒟) (𝒫 : Platform) (S : HaltStore) where
  open 𝒟 use {Amount, add, sub, neg, is_zero, is_positive, is_negative}

  -- The position is at most one trade of the quantity `q`, and the risk checker holds the same.
  pub record Toggles (q : Amount) (e : Executor 𝒟 𝒫 S) : Type 0 where
    pub trade_qty : e.cfg.trade_qty ≡ q
    pub one_trade : OneTrade 𝒟 ℒ q e.qty
    pub in_sync : Risk.position_of 𝒟 S e.risk e.symbol ≡ e.qty

  fill_order-Toggles :
      (q : Amount) (e : Executor 𝒟 𝒫 S) (ev : L2EventData Amount) (side : Side) (order_id : String)
      (ok : Bool) (price : Amount)
      → is_positive q ≡ true
      → Toggles q e
      → Allowed 𝒟 ℒ side e.qty
      → Toggles q (fill_order 𝒟 𝒫 S e (filled_order 𝒟 𝒫 S e ev side order_id price) ok)
  unfolding fill_order filled_order
  fill_order-Toggles q e ev side order_id ok price h t (inl (b, d)) = record {
    trade_qty = t.trade_qty;
    one_trade = rw (b, t.trade_qty) (bought-OneTrade 𝒟 ℒ q e.qty h t.one_trade d);
    in_sync =
        position_of-record_fill 𝒟 ℒ S e.risk e.symbol side e.cfg.trade_qty price _
        ∙ ground (arith, t.in_sync, b);
  }
  fill_order-Toggles q e ev side order_id ok price h t (inr (b, d)) = record {
    trade_qty = t.trade_qty;
    one_trade = rw (b, t.trade_qty) (sold-OneTrade 𝒟 ℒ q e.qty h t.one_trade d);
    in_sync =
        position_of-record_fill 𝒟 ℒ S e.risk e.symbol side e.cfg.trade_qty price _
        ∙ ground (arith, t.in_sync, b, ℒ.sub_lem e.qty e.cfg.trade_qty);
  }

  fill_at-Toggles :
      (q : Amount) (e : Executor 𝒟 𝒫 S) (ev : L2EventData Amount) (side : Side) (order_id : String)
      (ok : Bool) (p : Option Amount)
      → is_positive q ≡ true
      → Toggles q e
      → Allowed 𝒟 ℒ side e.qty
      → Toggles q (fill_at 𝒟 𝒫 S e ev side order_id ok p)
  unfolding fill_at
  fill_at-Toggles q e ev side order_id ok none h t d = t
  fill_at-Toggles q e ev side order_id ok (some price) h t d =
      fill_order-Toggles q e ev side order_id ok price h t d

  act-Toggles :
      (q : Amount) (e : Executor 𝒟 𝒫 S) (ev : L2EventData Amount) (order_id : String) (ok : Bool)
      (o : Option Side)
      → is_positive q ≡ true
      → Toggles q e
      → ((side : Side) → o ≡ some side → Allowed 𝒟 ℒ side e.qty)
      → Toggles q (act 𝒟 𝒫 S e ev order_id ok o)
  unfolding act after_check
  act-Toggles q e ev order_id ok none h t d = t
  act-Toggles q e ev order_id ok (some side) h t d =
      let checked = can_trade 𝒟 S e.risk e.symbol side e.cfg.trade_qty ev.event_time in
      let kept : Toggles q (record e { risk = checked.0 }) = record {
        trade_qty = t.trade_qty;
        one_trade = t.one_trade;
        in_sync =
            ap (λ m. elim (lookup e.symbol m) [ some p ↦ p | none ↦ zero_amount 𝒟 ])
              (positions-can_trade 𝒟 ℒ S e.risk e.symbol side e.cfg.trade_qty ev.event_time)
            ∙ t.in_sync;
      } in
      after_check-Toggles q (record e { risk = checked.0 }) ev side order_id ok checked.1 h kept
        (d side refl)
    where
      after_check-Toggles :
          (q : Amount) (e : Executor 𝒟 𝒫 S) (ev : L2EventData Amount) (side : Side)
          (order_id : String) (ok : Bool) (r : Option Rejection)
          → is_positive q ≡ true
          → Toggles q e
          → Allowed 𝒟 ℒ side e.qty
          → Toggles q (after_check 𝒟 𝒫 S e ev side order_id ok r)
      after_check-Toggles q e ev side order_id ok (some r) h t d = t
      after_check-Toggles q e ev side order_id ok none h t d =
          fill_at-Toggles q e ev side order_id ok (fill_price 𝒟 e.cfg side ev.bids ev.asks) h t d

  handle_event-Toggles :
      (q : Amount) (e : Executor 𝒟 𝒫 S) (order_id : String) (ok : Bool)
      (o : Option (L2EventData Amount))
      → is_positive q ≡ true
      → Toggles q e
      → Toggles q (handle_event 𝒟 𝒫 S e order_id ok o)
  unfolding handle_event
  handle_event-Toggles q e order_id ok none h t = t
  handle_event-Toggles q e order_id ok (some ev) h t =
      act-Toggles q e ev order_id ok
        (trade_decision 𝒟 e.cfg (book_imbalance 𝒟 ev.bids ev.asks 10) e.qty) h t
        (decision-cases 𝒟 ℒ e.cfg (book_imbalance 𝒟 ev.bids ev.asks 10) e.qty)

  handle_l2-Toggles :
      (q : Amount) (e : Executor 𝒟 𝒫 S) (a : Arrival)
      → is_positive q ≡ true
      → Toggles q e
      → Toggles q (handle_l2 𝒟 𝒫 S e a)
  unfolding handle_l2
  handle_l2-Toggles q e a h t =
      handle_event-Toggles q e a.order_id a.publish_ok (decode_l2_event 𝒟 𝒫 a.message.values) h t

  -- With a positive trade quantity the executor is never more than one trade long or short, and
  -- the risk checker holds the same position of its symbol, whatever messages arrive, if both
  -- were so before.
  pub process_l2_batch-Toggles :
      (q : Amount) (e : Executor 𝒟 𝒫 S) (last_id : String) (batch : List Arrival)
      → is_positive q ≡ true
      → Toggles q e
      → Toggles q (process_l2_batch 𝒟 𝒫 S e last_id batch).0
  unfolding process_l2_batch
  process_l2_batch-Toggles q e last_id [] h t = t
  process_l2_batch-Toggles q e last_id (a ∷ batch) h t =
      process_l2_batch-Toggles q (handle_l2 𝒟 𝒫 S e a) a.message.id batch h
        (handle_l2-Toggles q e a h t)
