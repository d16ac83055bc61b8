-- ===== src/Trading/Blotter.antt =====
-- engine/execution/blotter/blotter.go: positions and equity of one paper session, and the table
-- side of `RecordFill` in engine/execution/repository/repository.go. The lock makes each method
-- one step. A position pointer that is shared with the map is written back into it.
pub mod Laws
pub mod RoundTrips
use text.Mathlib.Text.{◌==◌ as str_eq}
use erebor.Prelude.{
  ℕ, Bool, true, false, ◌&&◌, ◌||◌, none, some, String, List, [], ◌∷◌, if◌then◌else◌,
}
use erebor.Prelude.Assoc.{lookup, insert}
use erebor.Decimal.{Decimal, zero_amount}
use erebor.Trading.Order.{Side, is_buy}
use erebor.Trading.Strategy.{Position, flat, long, short}

pub record FillRequest (A : Type 0) : Type 0 where
  pub trade_id : String
  pub symbol : String
  pub side : Side
  pub fill_price : A
  pub fill_qty : A
  pub fee : A
  pub event_time : ℕ
  pub signal_name : String
  pub signal_stream_id : String

pub record SymbolPosition (A : Type 0) : Type 0 where
  pub net_qty : A
  pub avg_entry : A

pub record TradeRecord (A : Type 0) : Type 0 where
  pub session_id : String
  pub realised_pnl : A
  pub fill : FillRequest A

pub record PositionRecord (A : Type 0) : Type 0 where
  pub session_id : String
  pub symbol : String
  pub net_qty : A
  pub avg_entry : A
  pub updated_at : ℕ

pub record EquityRecord (A : Type 0) : Type 0 where
  pub session_id : String
  pub event_time : ℕ
  pub equity : A

-- blotter.FillStore: the store after the call, and whether the call succeeded.
pub record FillStore (A : Type 0) : Type 1 where
  pub Self : Type 0
  pub record_fill : Self → TradeRecord A → PositionRecord A → EquityRecord A → Self × Bool

module _ (𝒟 : Decimal) where
  open 𝒟 use {Amount, add, sub, mul, div, abs, is_zero, is_positive, is_negative}

  unfoldable pub close_long :
      SymbolPosition Amount → FillRequest Amount → SymbolPosition Amount × Amount
  close_long pos fill =
      let net_qty = sub pos.net_qty fill.fill_qty in
      (
        record {
          net_qty = net_qty;
          avg_entry = if is_positive net_qty then pos.avg_entry else zero_amount 𝒟;
        },
        mul (sub fill.fill_price pos.avg_entry) fill.fill_qty,
      )

  unfoldable pub close_short :
      SymbolPosition Amount → FillRequest Amount → SymbolPosition Amount × Amount
  close_short pos fill =
      let net_qty = add pos.net_qty fill.fill_qty in
      (
        record {
          net_qty = net_qty;
          avg_entry = if is_negative net_qty then pos.avg_entry else zero_amount 𝒟;
        },
        mul (sub pos.avg_entry fill.fill_price) fill.fill_qty,
      )

  unfoldable pub open_or_extend_long :
      SymbolPosition Amount → FillRequest Amount → SymbolPosition Amount
  open_or_extend_long pos fill =
      let new_qty = add pos.net_qty fill.fill_qty in
      record {
        net_qty = new_qty;
        avg_entry =
            if is_zero pos.net_qty
            then fill.fill_price
            else div (add (mul pos.net_qty pos.avg_entry) (mul fill.fill_qty fill.fill_price))
                new_qty;
      }

  unfoldable pub open_or_extend_short :
      SymbolPosition Amount → FillRequest Amount → SymbolPosition Amount
  open_or_extend_short pos fill =
      let abs_qty = abs pos.net_qty in
      let new_abs_qty = add abs_qty fill.fill_qty in
      record {
        net_qty = sub pos.net_qty fill.fill_qty;
        avg_entry =
            if is_zero pos.net_qty
            then fill.fill_price
            else div (add (mul abs_qty pos.avg_entry) (mul fill.fill_qty fill.fill_price))
                new_abs_qty;
      }

  unfoldable pub apply_buy :
      SymbolPosition Amount → FillRequest Amount → SymbolPosition Amount × Amount
  unfolding close_short open_or_extend_long
  apply_buy pos fill =
      if is_negative pos.net_qty
      then close_short pos fill
      else (open_or_extend_long pos fill, zero_amount 𝒟)

  unfoldable pub apply_sell :
      SymbolPosition Amount → FillRequest Amount → SymbolPosition Amount × Amount
  unfolding close_long open_or_extend_short
  apply_sell pos fill =
      if is_positive pos.net_qty
      then close_long pos fill
      else (open_or_extend_short pos fill, zero_amount 𝒟)

  unfoldable pub apply_fill :
      SymbolPosition Amount → FillRequest Amount → SymbolPosition Amount × Amount
  unfolding apply_buy apply_sell
  apply_fill pos fill = if is_buy fill.side then apply_buy pos fill else apply_sell pos fill

  unfoldable pub undo_fill : SymbolPosition Amount → FillRequest Amount → SymbolPosition Amount
  undo_fill pos fill = record pos {
    net_qty =
        if is_buy fill.side then sub pos.net_qty fill.fill_qty else add pos.net_qty fill.fill_qty;
  }

module _ (𝒟 : Decimal) (F : FillStore 𝒟.Amount) where
  open 𝒟 use {Amount, add, sub, is_zero, is_positive}

  pub record Blotter : Type 0 where
    pub session_id : String
    pub store : F.Self
    pub equity : Amount
    pub positions : List (String × SymbolPosition Amount)

  unfoldable pub new : String → Amount → F.Self → Blotter
  new session_id initial_equity store = record {
    session_id = session_id;
    store = store;
    equity = initial_equity;
    positions = [];
  }

  unfoldable pub seed_positions : Blotter → List (PositionRecord Amount) → Blotter
  seed_positions b [] = b
  seed_positions b (p ∷ ps) =
      seed_positions
        (record b {
          positions =
              insert p.symbol (record { net_qty = p.net_qty; avg_entry = p.avg_entry }) b.positions;
        })
        ps

  -- The position of a symbol, or that of a new one.
  abbrev pub position_of : Blotter → String → SymbolPosition Amount
  position_of b symbol = elim (lookup symbol b.positions) [
    | some pos ↦ pos
    | none ↦ record { net_qty = zero_amount 𝒟; avg_entry = zero_amount 𝒟 }
  ]

  -- `Position`.
  unfoldable pub position : Blotter → String → Position × Amount
  position b symbol =
      let qty = (position_of b symbol).net_qty in
      if is_zero qty
      then (flat, zero_amount 𝒟)
      else if is_positive qty
      then (long, qty)
      else (short, qty)

  -- `RecordFill`; the Boolean is false for an error.
  unfoldable pub record_fill : Blotter → FillRequest Amount → Blotter × Bool
  record_fill b fill =
      let (pos, realised_pnl) = apply_fill 𝒟 (position_of b fill.symbol) fill in
      let equity = sub (add b.equity realised_pnl) fill.fee in
      let (store, stored) =
        F.record_fill b.store
          (record { session_id = b.session_id; realised_pnl = realised_pnl; fill = fill })
          (record {
            session_id = b.session_id;
            symbol = fill.symbol;
            net_qty = pos.net_qty;
            avg_entry = pos.avg_entry;
            updated_at = fill.event_time;
          })
          (record { session_id = b.session_id; event_time = fill.event_time; equity = equity }) in
      if stored
      then (
        record b { store = store; equity = equity; positions = insert fill.symbol pos b.positions },
        true,
      )
      else (
        record b {
          store = store;
          equity = add (sub equity realised_pnl) fill.fee;
          positions = insert fill.symbol (undo_fill 𝒟 pos fill) b.positions;
        },
        false,
      )

-- The tables of the paper session that `RecordFill` of the repository writes, in one transaction.
pub record Tables (A : Type 0) : Type 0 where
  pub trades : List (TradeRecord A)
  pub positions : List (PositionRecord A)
  pub equity : List (EquityRecord A)

module _ {A : Type 0} where
  -- ON CONFLICT (session_id, signal_stream_id) DO NOTHING.
  unfoldable pub has_trade : List (TradeRecord A) → String → String → Bool
  has_trade [] session_id stream_id = false
  has_trade (t ∷ ts) session_id stream_id =
      (str_eq t.session_id session_id && str_eq t.fill.signal_stream_id stream_id)
      || has_trade ts session_id stream_id

  -- ON CONFLICT (session_id, symbol) DO UPDATE.
  unfoldable pub upsert : List (PositionRecord A) → PositionRecord A → List (PositionRecord A)
  upsert [] pos = pos ∷ []
  upsert (p ∷ ps) pos =
      let rest = upsert ps pos in
      if str_eq p.session_id pos.session_id && str_eq p.symbol pos.symbol
      then pos ∷ ps
      else p ∷ rest

  unfoldable pub tables_record_fill :
      Tables A → TradeRecord A → PositionRecord A → EquityRecord A → Tables A
  unfolding has_trade upsert
  tables_record_fill db trade pos eq = record {
    trades =
        if has_trade db.trades trade.session_id trade.fill.signal_stream_id
        then db.trades
        else trade ∷ db.trades;
    positions = upsert db.positions pos;
    equity = eq ∷ db.equity;
  }

-- The repository as a fill store; `up` says whether the database answers.
abbrev pub repository : (A : Type 0) → Bool → FillStore A
repository A up = record {
  Self = Tables A;
  record_fill =
      λ db trade pos eq. if up then (tables_record_fill db trade pos eq, true) else (db, false);
}
