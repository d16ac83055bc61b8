-- ===== src/Trading/Paper/Sync.antt =====
-- The blotter and the risk checker book the same quantities: the signal handler of
-- engine/execution/cmd/erebor-execution/main.go, and its recovery after a restart.
use text.Mathlib.Text.{◌==◌ as str_eq}
use text.Mathlib.TextEquality.{eq_iff}
use erebor.Prelude.{
  ◌≡◌, sym, ap, ◌∙◌, Bool, true, Option, none, some, String, if◌then◌else◌, arith, if_cases,
  Bool-cases, inl, inr,
}
use erebor.Prelude.Assoc.{lookup, insert}
use erebor.Decimal.{Decimal, IsExact, zero_amount}
use erebor.Platform.{Platform}
use erebor.Trading.Order.{Side, is_buy}
use erebor.Trading.Risk.{HaltStore, Checker, Rejection, can_trade, record_fill}
use erebor.Trading.Risk
use erebor.Trading.Risk.Accounting.{
  position_of-record_fill, position_of-record_fill_other, positions-can_trade,
}
use erebor.Trading.Signals.{SignalEvent}
use erebor.Trading.Strategy.{decide}
use erebor.Trading.Blotter.{
  FillStore, FillRequest, PositionRecord, Blotter, position, apply_fill, seed_positions,
}
use erebor.Trading.Blotter
use erebor.Trading.Blotter.Laws.{
  failed_fill_restores, record_fill-stored, position_of-insert, position_of-insert_other,
  net_qty-apply_fill,
}
use erebor.Trading.Cache.{BestPrice, best_prices}
use erebor.Trading.Paper.{
  Desk, request, book_fill, execute_fill, fill_at_best, after_check, act, handle_signal,
}

module _ (𝒟 : Decimal) (ℒ : IsExact 𝒟) (𝒫 : Platform) (S : HaltStore) (F : FillStore 𝒟.Amount) where
  open 𝒟 use {Amount, add, sub, neg, abs, is_negative}

  -- Both books hold the same net quantity for every symbol.
  abbrev pub InSync : Desk 𝒟 𝒫 S F → Type 0
  InSync d =
      (s : String) → (Blotter.position_of 𝒟 F d.blotter s).net_qty ≡ Risk.position_of 𝒟 S d.risk s

  stored-InSync :
      (d : Desk 𝒟 𝒫 S F) (fill : FillRequest Amount) (s : String)
      → InSync d
      → (Blotter.record_fill 𝒟 F d.blotter fill).1 ≡ true
      → (Blotter.position_of 𝒟 F (Blotter.record_fill 𝒟 F d.blotter fill).0 s).net_qty
        ≡ Risk.position_of 𝒟 S
            (record_fill 𝒟 S d.risk fill.symbol fill.side fill.fill_qty fill.fill_price fill.fee)
            s
  stored-InSync d fill s sync stored = elim (Bool-cases (str_eq fill.symbol s)) [
    | inl here ↦ rw (← (eq_iff fill.symbol s).0 here) (
        ap (λ p. p.net_qty)
          (position_of-insert 𝒟 F d.blotter (Blotter.record_fill 𝒟 F d.blotter fill).0 fill.symbol _
            positions)
        ∙ net_qty-apply_fill 𝒟 (Blotter.position_of 𝒟 F d.blotter fill.symbol) fill
        ∙ moves
        ∙ sym (
            position_of-record_fill 𝒟 ℒ S d.risk fill.symbol fill.side fill.fill_qty fill.fill_price
              fill.fee))
    | inr there ↦
        ap (λ p. p.net_qty)
          (position_of-insert_other 𝒟 F d.blotter (Blotter.record_fill 𝒟 F d.blotter fill).0
            fill.symbol s _ positions there)
        ∙ sync s
        ∙ sym (
            position_of-record_fill_other 𝒟 ℒ S d.risk fill.symbol s fill.side fill.fill_qty
              fill.fill_price fill.fee there)
  ]
    where
      positions :
          (Blotter.record_fill 𝒟 F d.blotter fill).0.positions
          ≡ insert fill.symbol
              (apply_fill 𝒟 (Blotter.position_of 𝒟 F d.blotter fill.symbol) fill).0
              d.blotter.positions
      positions = (record_fill-stored 𝒟 F d.blotter fill stored).1

      moves :
          (if is_buy fill.side
            then add (Blotter.position_of 𝒟 F d.blotter fill.symbol).net_qty fill.fill_qty
            else sub (Blotter.position_of 𝒟 F d.blotter fill.symbol).net_qty fill.fill_qty)
          ≡ Risk.moved 𝒟 S fill.side (Risk.position_of 𝒟 S d.risk fill.symbol) fill.fill_qty
      moves = ground (
        arith,
        sync fill.symbol,
        ℒ.sub_lem (Blotter.position_of 𝒟 F d.blotter fill.symbol).net_qty fill.fill_qty,
      )

  execute_fill-InSync :
      (d : Desk 𝒟 𝒫 S F) (fill : FillRequest Amount) (order_id : String)
      → InSync d
      → InSync (execute_fill 𝒟 𝒫 S F d fill order_id).0
  unfolding execute_fill book_fill
  execute_fill-InSync d fill order_id sync s =
      if_cases
        (λ (r : Desk 𝒟 𝒫 S F × Bool).
          (Blotter.position_of 𝒟 F (r.0).blotter s).net_qty ≡ Risk.position_of 𝒟 S (r.0).risk s)
        (Blotter.record_fill 𝒟 F d.blotter fill).1 (λ stored. stored-InSync d fill s sync stored)
        (λ failed. (failed_fill_restores 𝒟 ℒ F d.blotter fill s failed).1 ∙ sync s)

  fill_at_best-InSync :
      (d : Desk 𝒟 𝒫 S F) (msg_id : String) (sig : SignalEvent Amount) (side : Side)
      (trade_id order_id : String) (prices : Option (BestPrice Amount))
      → InSync d
      → InSync (fill_at_best 𝒟 𝒫 S F d msg_id sig side trade_id order_id prices).0
  unfolding fill_at_best
  fill_at_best-InSync d msg_id sig side trade_id order_id none sync = sync
  fill_at_best-InSync d msg_id sig side trade_id order_id (some prices) sync =
      execute_fill-InSync d (request 𝒟 𝒫 S F d msg_id sig side trade_id prices) order_id sync

  after_check-InSync :
      (d : Desk 𝒟 𝒫 S F) (msg_id : String) (sig : SignalEvent Amount) (side : Side)
      (trade_id order_id : String) (r : Option Rejection)
      → InSync d
      → InSync (after_check 𝒟 𝒫 S F d msg_id sig side trade_id order_id r).0
  unfolding after_check
  after_check-InSync d msg_id sig side trade_id order_id (some r) sync =
      if_cases InSync d.risk.halted (λ e. λ s. sync s) (λ e. sync)
  after_check-InSync d msg_id sig side trade_id order_id none sync =
      fill_at_best-InSync d msg_id sig side trade_id order_id (best_prices 𝒟 𝒫 d.cache sig.symbol)
        sync

  act-InSync :
      (d : Desk 𝒟 𝒫 S F) (msg_id : String) (sig : SignalEvent Amount) (trade_id order_id : String)
      (decision : Option Side)
      → InSync d
      → InSync (act 𝒟 𝒫 S F d msg_id sig trade_id order_id decision).0
  unfolding act
  act-InSync d msg_id sig trade_id order_id none sync = sync
  act-InSync d msg_id sig trade_id order_id (some side) sync =
      let (risk, rejection) =
        can_trade 𝒟 S d.risk sig.symbol side d.strategy.trade_qty sig.event_time in
      after_check-InSync (record d { risk = risk }) msg_id sig side trade_id order_id rejection
        (λ s.
          sync s
          ∙ sym (
              ap (λ m. elim (lookup s m) [ some q ↦ q | none ↦ zero_amount 𝒟 ])
                (positions-can_trade 𝒟 ℒ S d.risk sig.symbol side d.strategy.trade_qty
                  sig.event_time)))

  -- Whatever a signal leads to (no trade, a refusal, no prices, a stored fill, a failed store),
  -- the blotter and the risk checker hold the same net quantity for every symbol afterwards if
  -- they did before.
  pub handle_signal-InSync :
      (d : Desk 𝒟 𝒫 S F) (msg_id : String) (sig : SignalEvent Amount) (trade_id order_id : String)
      → InSync d
      → InSync (handle_signal 𝒟 𝒫 S F d msg_id sig trade_id order_id).0
  unfolding handle_signal
  handle_signal-InSync d msg_id sig trade_id order_id sync =
      act-InSync d msg_id sig trade_id order_id
        (decide 𝒟 d.strategy sig (position 𝒟 F d.blotter sig.symbol).0) sync
