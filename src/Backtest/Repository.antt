-- ===== src/Backtest/Repository.antt =====
-- engine/backtest/repository/repository.go: the tables of the backtest as
-- engine/backtest/migrations declares them, newest row first. `none` is an error of a statement: a
-- run that is there already, or one that is not. `M` is the type of a metrics record. SQL leaves
-- the order of rows with one event time open; here it is the order of writing.
pub mod Trades
use text.Mathlib.Text.{◌==◌ as str_eq}
use erebor.Prelude.{
  ℕ, Bool, true, false, ◌&&◌, ◌||◌, Option, none, some, String, List, [], ◌∷◌, if◌then◌else◌, ltb,
  keep_if,
}
use erebor.Prelude.Assoc.{lookup, insert}
use erebor.Trading.RoundTrips.{Trade}
use erebor.Backtest.Collector.{EquityPoint}
use erebor.Backtest.Replay.{SpeedMode}

pub data RunStatus : Type 0 where
  pending running completed failed cancelled : RunStatus

-- The speed factor is left out.
pub record RunRecord : Type 0 where
  pub run_id : String
  pub symbols : List String
  pub from_time : ℕ
  pub to_time : ℕ
  pub speed_mode : SpeedMode
  pub strategy_config : String
  pub status : RunStatus

pub record RunRow : Type 0 where
  pub rec : RunRecord
  pub started_at : Option ℕ
  pub completed_at : Option ℕ
  pub error : Option String

pub record DataGap : Type 0 where
  pub run_id : String
  pub symbol : String
  pub gap_from : ℕ
  pub gap_to : ℕ

-- COALESCE of a new value and the column.
abbrev pub coalesce {ℓ} : {B : Type ℓ} → Option B → Option B → Option B
coalesce (some b) column = some b
coalesce none column = column

-- ORDER BY a time ASC.
abbrev pub insert_by {ℓ} : {E : Type ℓ} → (E → ℕ) → E → List E → List E
insert_by time x [] = x ∷ []
insert_by time x (y ∷ ys) =
    let rest = insert_by time x ys in if ltb (time x) (time y) then x ∷ y ∷ ys else y ∷ rest

abbrev pub order_by {ℓ} : {E : Type ℓ} → (E → ℕ) → List E → List E
order_by time [] = []
order_by time (x ∷ xs) = insert_by time x (order_by time xs)

module _ (A M : Type 0) where
  pub record RunTables : Type 0 where
    pub runs : List (String × RunRow)
    pub trades : List (Trade A)
    pub equity : List (EquityPoint A)
    pub data_gaps : List DataGap
    pub metrics : List (String × M)

  unfoldable pub create_run : RunTables → RunRecord → Option RunTables
  create_run t rec = elim (lookup rec.run_id t.runs) [
    | some row ↦ none
    | none ↦ some (record t {
      runs =
          insert rec.run_id
            (record { rec = rec; started_at = none; completed_at = none; error = none }) t.runs;
    })
  ]

  -- The SET clause; an empty message is NULL.
  unfoldable pub set_run_status : RunStatus → Option ℕ → Option ℕ → String → RunRow → RunRow
  set_run_status status started_at completed_at err_msg row = record {
    rec = record row.rec { status = status };
    started_at = coalesce started_at row.started_at;
    completed_at = coalesce completed_at row.completed_at;
    error = coalesce (if str_eq err_msg "" then none else some err_msg) row.error;
  }

  unfoldable pub update_run_status :
      RunTables → String → RunStatus → Option ℕ → Option ℕ → String → RunTables
  unfolding set_run_status
  update_run_status t run_id status started_at completed_at err_msg = elim (lookup run_id t.runs) [
    | some row ↦ record t {
      runs = insert run_id (set_run_status status started_at completed_at err_msg row) t.runs;
    }
    | none ↦ t
  ]

  -- The reference of the other tables to the runs.
  abbrev pub if_run : RunTables → String → RunTables → Option RunTables
  if_run t run_id t' = elim (lookup run_id t.runs) [ some row ↦ some t' | none ↦ none ]

  unfoldable pub write_data_gap : RunTables → DataGap → Option RunTables
  write_data_gap t gap = if_run t gap.run_id (record t { data_gaps = gap ∷ t.data_gaps })

  -- The primary key of the trades.
  unfoldable pub has_trade : List (Trade A) → String → String → Bool
  has_trade [] run_id trade_id = false
  has_trade (trade ∷ trades) run_id trade_id =
      (str_eq trade.run_id run_id && str_eq trade.trade_id trade_id)
      || has_trade trades run_id trade_id

  unfoldable pub write_trade : RunTables → Trade A → Option RunTables
  unfolding has_trade
  write_trade t trade =
      if has_trade t.trades trade.run_id trade.trade_id
      then some t
      else if_run t trade.run_id (record t { trades = trade ∷ t.trades })

  unfoldable pub write_equity_point : RunTables → EquityPoint A → Option RunTables
  write_equity_point t point = if_run t point.run_id (record t { equity = point ∷ t.equity })

  unfoldable pub write_metrics : RunTables → String → M → Option RunTables
  write_metrics t run_id m = if_run t run_id (record t { metrics = insert run_id m t.metrics })

  unfoldable pub query_trades : RunTables → String → List (Trade A)
  query_trades t run_id =
      order_by (λ (trade : Trade A). trade.event_time)
        (keep_if (λ (trade : Trade A). str_eq trade.run_id run_id) t.trades)

  unfoldable pub query_equity_points : RunTables → String → List (EquityPoint A)
  query_equity_points t run_id =
      order_by (λ (point : EquityPoint A). point.event_time)
        (keep_if (λ (point : EquityPoint A). str_eq point.run_id run_id) t.equity)
