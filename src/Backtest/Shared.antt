-- ===== src/Backtest/Shared.antt =====
-- The loops of all symbols of engine/backtest/execution/executor.go at once, as `Start` launches
-- them: they share the risk checker and the stream of orders. `handleL2` of one loop is three
-- steps, since other loops may run between its call of CanTrade, its XADD and its call of
-- RecordFill; the position of a loop is its own, and is moved with the first step.
pub mod Agreement
pub mod Beginning
pub mod Recording
pub mod Positions
pub mod Alone
mod Examples
use erebor.Prelude.{
  ℕ, ◌≡◌, Bool, true, false, Option, none, some, String, List, [], ◌∷◌, map, if◌then◌else◌,
  get_elem?, modify,
}
use erebor.Decimal.{Decimal, zero_amount}
use erebor.Platform.{Platform}
use erebor.Trading.Order.{Side, is_buy, OrderEvent, market, filled}
use erebor.Trading.Fill.{compute_fee}
use erebor.Trading.Risk.{HaltStore, Checker, Rejection, can_trade, record_fill}
use erebor.Trading.Strategy.{StrategyConfig, trade_decision, fill_price}
use erebor.Wire.Books.{L2EventData}
use erebor.Backtest.Executor.{book_imbalance}

module _ (𝒟 : Decimal) where
  open 𝒟 use {Amount, add, sub}

  -- Where a loop stands in `handleL2`: before it, before the XADD of an order, or before its
  -- RecordFill.
  pub data Phase : Type 0 where
    waiting : Phase
    publishing recording : OrderEvent Amount → Phase

  pub record Loop : Type 0 where
    pub symbol : String
    pub qty : Amount
    pub phase : Phase

  abbrev pub idle : String → Loop
  idle symbol = record { symbol = symbol; qty = zero_amount 𝒟; phase = waiting }

  unfoldable pub order_of :
      StrategyConfig Amount → Loop → L2EventData Amount → Side → String → Amount → OrderEvent Amount
  order_of cfg l ev side order_id price = record {
    run_id = ev.run_id;
    symbol = l.symbol;
    event_time = ev.event_time;
    order_id = order_id;
    side = side;
    type = market;
    price = zero_amount 𝒟;
    quantity = cfg.trade_qty;
    status = filled;
    fill_price = price;
    fill_qty = cfg.trade_qty;
    fee = compute_fee 𝒟 cfg.trade_qty price cfg.taker_fee_bps;
    signal_name = "book_imbalance";
  }

  -- The local update of the position.
  unfoldable pub take_order : Loop → OrderEvent Amount → Loop
  take_order l order = record l {
    qty = if is_buy order.side then add l.qty order.fill_qty else sub l.qty order.fill_qty;
    phase = publishing order;
  }

  -- By the fill price; `none` is an empty side of the book.
  unfoldable pub priced :
      StrategyConfig Amount → Loop → L2EventData Amount → Side → String → Option Amount → Loop
  unfolding order_of take_order
  priced cfg l ev side order_id none = l
  priced cfg l ev side order_id (some price) = take_order l (order_of cfg l ev side order_id price)

  -- By the answer of the risk checker.
  unfoldable pub answered :
      StrategyConfig Amount → Loop → L2EventData Amount → Side → String → Option Rejection → Loop
  unfolding priced
  answered cfg l ev side order_id (some rejection) = l
  answered cfg l ev side order_id none =
      priced cfg l ev side order_id (fill_price 𝒟 cfg side ev.bids ev.asks)

module _ (𝒟 : Decimal) (S : HaltStore) where
  open 𝒟 use {Amount}

  pub record System : Type 0 where
    pub cfg : StrategyConfig Amount
    pub risk : Checker 𝒟 S
    pub orders : List (OrderEvent Amount)
    pub loops : List (Loop 𝒟)

  -- `Start`: one loop per symbol.
  unfoldable pub launch : StrategyConfig Amount → Checker 𝒟 S → List String → System
  launch cfg risk symbols = record {
    cfg = cfg;
    risk = risk;
    orders = [];
    loops = map (λ s. idle 𝒟 s) symbols;
  }

  -- `handleL2` of a loop up to the XADD, by the decision.
  unfoldable pub decided : System → ℕ → Loop 𝒟 → L2EventData Amount → String → Option Side → System
  unfolding answered
  decided s i l ev order_id none = s
  decided s i l ev order_id (some side) =
      let (risk, rejection) = can_trade 𝒟 S s.risk l.symbol side s.cfg.trade_qty ev.event_time in
      record s {
        risk = risk;
        loops = modify i (λ l. answered 𝒟 s.cfg l ev side order_id rejection) s.loops;
      }

  unfoldable pub begin : System → ℕ → Loop 𝒟 → L2EventData Amount → String → System
  unfolding decided book_imbalance
  begin s i l ev order_id =
      decided s i l ev order_id (trade_decision 𝒟 s.cfg (book_imbalance 𝒟 ev.bids ev.asks 10) l.qty)

  unfoldable pub publish : System → ℕ → OrderEvent Amount → Bool → System
  publish s i order publish_ok = record s {
    orders = if publish_ok then order ∷ s.orders else s.orders;
    loops = modify i (λ l. record l { phase = recording order }) s.loops;
  }

  unfoldable pub finish : System → ℕ → OrderEvent Amount → System
  finish s i order = record s {
    risk = record_fill 𝒟 S s.risk order.symbol order.side order.fill_qty order.fill_price order.fee;
    loops = modify i (λ l. record l { phase = waiting }) s.loops;
  }

  -- One step of one loop, for an event that its stream brings.
  pub data Step (s : System) : System → Type 0 where
    begins :
        (i : ℕ) (l : Loop 𝒟) (ev : L2EventData Amount) (order_id : String)
        → get_elem? s.loops i ≡ some l
        → l.phase ≡ waiting
        → Step s (begin s i l ev order_id)
    publishes :
        (i : ℕ) (l : Loop 𝒟) (order : OrderEvent Amount) (publish_ok : Bool)
        → get_elem? s.loops i ≡ some l
        → l.phase ≡ publishing order
        → Step s (publish s i order publish_ok)
    finishes :
        (i : ℕ) (l : Loop 𝒟) (order : OrderEvent Amount)
        → get_elem? s.loops i ≡ some l
        → l.phase ≡ recording order
        → Step s (finish s i order)

  pub data Run (s : System) : System → Type 0 where
    start : Run s s
    later : {t u : System} → Run s t → Step t u → Run s u
