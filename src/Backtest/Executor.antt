-- ===== src/Backtest/Executor.antt =====
-- engine/backtest/execution/executor.go: the loop of one symbol over its L2 stream. Its risk
-- checker is the shared one; only this loop moves the position of this symbol there. Published
-- orders stand in `orders`, newest first; the id of an order and whether XADD succeeds come with
-- the message.

pub mod Decision
pub mod Toggle
pub mod Shutdown
use erebor.Prelude.{ℕ, Bool, true, false, Option, none, some, String, List, [], ◌∷◌, if◌then◌else◌}
use erebor.Decimal.{Decimal, zero_amount}
use erebor.Platform.{Platform}
use erebor.Ingest.Domain.{PriceLevel}
use erebor.Trading.Order.{Side, is_buy, OrderEvent, market, filled}
use erebor.Trading.Fill.{compute_fee}
use erebor.Trading.Risk.{HaltStore, Checker, Rejection, can_trade, record_fill}
use erebor.Trading.Signals.{imbalance}
use erebor.Trading.Strategy.{StrategyConfig, trade_decision, fill_price}
use erebor.Wire.{Message}
use erebor.Wire.Drain.{Read, arrived, idle, stopped, range_start, drain}
use erebor.Wire.Books.{L2EventData, decode_l2_event}

pub record Arrival : Type 0 where
  pub message : Message
  pub order_id : String
  pub publish_ok : Bool

module _ (𝒟 : Decimal) where
  open 𝒟 use {Amount}

  -- The executor has its own copy of this code.
  unfoldable pub book_imbalance : List (PriceLevel Amount) → List (PriceLevel Amount) → ℕ → Amount
  unfolding imbalance
  book_imbalance bids asks depth = imbalance 𝒟 bids asks depth

module _ (𝒟 : Decimal) (𝒫 : Platform) (S : HaltStore) where
  open 𝒟 use {Amount, add, sub}

  pub record Executor : Type 0 where
    pub cfg : StrategyConfig Amount
    pub symbol : String
    -- positionState.
    pub qty : Amount
    pub risk : Checker 𝒟 S
    pub orders : List (OrderEvent Amount)

  unfoldable pub filled_order :
      Executor → L2EventData Amount → Side → String → Amount → OrderEvent Amount
  filled_order e ev side order_id price = record {
    run_id = ev.run_id;
    symbol = e.symbol;
    event_time = ev.event_time;
    order_id = order_id;
    side = side;
    type = market;
    price = zero_amount 𝒟;
    quantity = e.cfg.trade_qty;
    status = filled;
    fill_price = price;
    fill_qty = e.cfg.trade_qty;
    fee = compute_fee 𝒟 e.cfg.trade_qty price e.cfg.taker_fee_bps;
    signal_name = "book_imbalance";
  }

  -- `handleL2` once a fill price is there.
  unfoldable pub fill_order : Executor → OrderEvent Amount → Bool → Executor
  fill_order e order publish_ok = record e {
    qty = if is_buy order.side then add e.qty order.fill_qty else sub e.qty order.fill_qty;
    risk = record_fill 𝒟 S e.risk e.symbol order.side order.fill_qty order.fill_price order.fee;
    orders = if publish_ok then order ∷ e.orders else e.orders;
  }

  -- By the fill price; `none` is an empty side of the book.
  unfoldable pub fill_at :
      Executor → L2EventData Amount → Side → String → Bool → Option Amount → Executor
  unfolding filled_order fill_order
  fill_at e ev side order_id publish_ok none = e
  fill_at e ev side order_id publish_ok (some price) =
      fill_order e (filled_order e ev side order_id price) publish_ok

  -- By the answer of the risk checker.
  unfoldable pub after_check :
      Executor → L2EventData Amount → Side → String → Bool → Option Rejection → Executor
  unfolding fill_at
  after_check e ev side order_id publish_ok (some rejection) = e
  after_check e ev side order_id publish_ok none =
      fill_at e ev side order_id publish_ok (fill_price 𝒟 e.cfg side ev.bids ev.asks)

  -- By the decision.
  unfoldable pub act : Executor → L2EventData Amount → String → Bool → Option Side → Executor
  unfolding after_check
  act e ev order_id publish_ok none = e
  act e ev order_id publish_ok (some side) =
      let (risk, rejection) = can_trade 𝒟 S e.risk e.symbol side e.cfg.trade_qty ev.event_time in
      after_check (record e { risk = risk }) ev side order_id publish_ok rejection

  -- By the decoded event.
  unfoldable pub handle_event : Executor → String → Bool → Option (L2EventData Amount) → Executor
  unfolding act book_imbalance
  handle_event e order_id publish_ok none = e
  handle_event e order_id publish_ok (some ev) =
      act e ev order_id publish_ok
        (trade_decision 𝒟 e.cfg (book_imbalance 𝒟 ev.bids ev.asks 10) e.qty)

  unfoldable pub handle_l2 : Executor → Arrival → Executor
  unfolding handle_event
  handle_l2 e a = handle_event e a.order_id a.publish_ok (decode_l2_event 𝒟 𝒫 a.message.values)

  -- `processL2Batch`, with the id of the last message.
  unfoldable pub process_l2_batch : Executor → String → List Arrival → Executor × String
  unfolding handle_l2
  process_l2_batch e last_id [] = (e, last_id)
  process_l2_batch e last_id (a ∷ batch) = process_l2_batch (handle_l2 e a) a.message.id batch

  -- `runL2Reader`, which ends when the context is cancelled.
  unfoldable pub run_l2_reader : Executor → String → List (Read Arrival) → Executor × String
  unfolding process_l2_batch
  run_l2_reader e last_id [] = (e, last_id)
  run_l2_reader e last_id (stopped ∷ reads) = (e, last_id)
  run_l2_reader e last_id (idle ∷ reads) = run_l2_reader e last_id reads
  run_l2_reader e last_id (arrived msgs ∷ reads) =
      let (e', last_id') = process_l2_batch e last_id msgs in run_l2_reader e' last_id' reads

  -- `drainL2`; `none` means that the fuel ran out.
  unfoldable pub drain_l2 :
      (String → ℕ → Option (List Arrival)) → ℕ → Executor → String → Option Executor
  unfolding handle_l2 drain
  drain_l2 range fuel e last_id =
      drain (λ a. a.message.id) range handle_l2 20 fuel e (range_start last_id)

  unfoldable pub symbol_loop :
      (String → ℕ → Option (List Arrival)) → ℕ → Executor → List (Read Arrival) → Option Executor
  unfolding run_l2_reader drain_l2
  symbol_loop range fuel e reads =
      let (e', last_id) = run_l2_reader e "0-0" reads in drain_l2 range fuel e' last_id
