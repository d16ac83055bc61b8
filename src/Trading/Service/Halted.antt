-- ===== src/Trading/Service/Halted.antt =====
-- What a halt stops: the handler of engine/execution/cmd/erebor-execution/main.go over the loop of
-- its consumer, once the risk checker has halted.
use erebor.Prelude.{ℕ, ◌≡◌, refl, ap, ◌∙◌, true, Option, none, some, String, List}
use erebor.Decimal.{Decimal}
use erebor.Platform.{Platform}
use erebor.Trading.Order.{Side}
use erebor.Trading.Signals.{SignalEvent}
use erebor.Trading.Strategy.{decide}
use erebor.Trading.Risk.{HaltStore}
use erebor.Trading.Risk.Halting.{can_trade_halted}
use erebor.Trading.Blotter.{FillStore, PositionRecord, position}
use erebor.Trading.Session.{SessionStore}
use erebor.Trading.Paper.{Desk, handle_signal, act, after_check}
use erebor.Trading.Consumer.Group.{Broker}
use erebor.Trading.Consumer.Loop.{Turn, State, read_loop}
use erebor.Trading.Consumer.Loop.Invariants.{keeps-read_loop}
use erebor.Trading.Service.{Found, Live, handler}

module _ (𝒟 : Decimal) (𝒫 : Platform) (S : HaltStore) (F : FillStore 𝒟.Amount) where
  open 𝒟 use {Amount}

  -- Nothing has traded between two desks: the checker, the blotter with its store, and the orders
  -- are the same.
  abbrev pub NoTrade : Desk 𝒟 𝒫 S F → Desk 𝒟 𝒫 S F → Type 0
  NoTrade d e = (e.risk ≡ d.risk) × (e.blotter ≡ d.blotter) × (e.orders ≡ d.orders)

  act-NoTrade :
      (d : Desk 𝒟 𝒫 S F) (msg_id : String) (sig : SignalEvent Amount) (trade_id order_id : String)
      (decision : Option Side)
      → d.risk.halted ≡ true
      → let (e, done) = act 𝒟 𝒫 S F d msg_id sig trade_id order_id decision in
        NoTrade d e × (done ≡ true)
  unfolding act after_check
  act-NoTrade d msg_id sig trade_id order_id none h = ((refl, refl, refl), refl)
  act-NoTrade d msg_id sig trade_id order_id (some side) h =
      rw (can_trade_halted 𝒟 S d.risk sig.symbol side d.strategy.trade_qty sig.event_time h, h)
        ((refl, refl, refl), refl)

  handle_signal-NoTrade :
      (d : Desk 𝒟 𝒫 S F) (msg_id : String) (sig : SignalEvent Amount) (trade_id order_id : String)
      → d.risk.halted ≡ true
      → let (e, done) = handle_signal 𝒟 𝒫 S F d msg_id sig trade_id order_id in
        NoTrade d e × (done ≡ true)
  unfolding handle_signal
  handle_signal-NoTrade d msg_id sig trade_id order_id h =
      act-NoTrade d msg_id sig trade_id order_id
        (decide 𝒟 d.strategy sig (position 𝒟 F d.blotter sig.symbol).0) h

  module _ (T : SessionStore (PositionRecord Amount) Amount) (found : ℕ → Found Amount) where
    handler-NoTrade :
        (d : Desk 𝒟 𝒫 S F) (l : Live 𝒟 𝒫 S F T) (id : String) (sig : SignalEvent Amount)
        → d.risk.halted ≡ true
        → NoTrade d l.desk
        → NoTrade d (handler 𝒟 𝒫 S F T found l id sig).0.desk
    unfolding handler
    handler-NoTrade d l id sig h (r, b, o) =
        let (same, done) =
          handle_signal-NoTrade (record l.desk { cache = (found l.calls).cache }) id sig
            (found l.calls).trade_id (found l.calls).order_id (ap (λ c. c.halted) r ∙ h) in
        (same.0 ∙ r, same.1 ∙ b, same.2 ∙ o)

    -- Once the risk checker has halted, the process trades no more: whatever signals the consumer
    -- then reads, however often, at whatever prices and with whatever failures, the positions and
    -- the equity in the checker and in the blotter, the tables of the blotter and the published
    -- orders stay as they are.
    pub read_loop-NoTrade :
        {Q : Type 0} (B : Broker Q) (s : State Q (Live 𝒟 𝒫 S F T)) (turns : List Turn)
        → s.st.desk.risk.halted ≡ true
        → NoTrade s.st.desk (read_loop 𝒟 𝒫 B (handler 𝒟 𝒫 S F T found) s turns).st.desk
    read_loop-NoTrade B s turns h =
        keeps-read_loop 𝒟 𝒫 B (handler 𝒟 𝒫 S F T found) (λ l. NoTrade s.st.desk l.desk)
          (λ l id sig same. handler-NoTrade s.st.desk l id sig h same) s turns (refl, refl, refl)
