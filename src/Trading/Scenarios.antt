-- ===== src/Trading/Scenarios.antt =====
-- Concrete runs of the blotter, the sessions, the price cache, the signals and the desk
-- (engine/execution, engine/signals/compute).
use text.Mathlib.Text.{◌==◌ as str_eq}
use erebor.Prelude.{
  if◌then◌else◌, ℕ, ◌≡◌, refl, true, false, ◌⊎◌, Option, none, some, String, List, [], ◌∷◌,
}
use erebor.Prelude.Int.{pos}
use erebor.Prelude.Assoc.{lookup}
use erebor.Decimal.{Le, zero_amount}
use erebor.Decimal.Integers.{integers, integers-IsExact}
use erebor.Platform.Sample.{platform}
use erebor.Trading.Order.{Side, buy, sell}
use erebor.Trading.Risk.{redis_halt_store}
use erebor.Trading.Strategy.{StrategyConfig}
use erebor.Trading.Blotter.{
  FillRequest, SymbolPosition, FillStore, Tables, Blotter, position_of, record_fill, repository,
}
use erebor.Trading.Blotter.Laws.{failed_fill_restores}
use erebor.Trading.Blotter.RoundTrips.{long_round_trip}
use erebor.Trading.Session.{
  stopped, halted, PaperSession, err, Manager, start, new_session, is_halted_status, is_halted,
  latest_session, running_sessions,
}
use erebor.Trading.Session.Lifecycle.{S, Creates, resumed, start-cases}
use erebor.Wire.{Message}
use erebor.Trading.Cache.{BestPrice}
use erebor.Trading.Paper.{Desk}
use erebor.Trading.Paper.Sync.{InSync}
use erebor.Trading.Metrics.{max_drawdown}
use erebor.Trading.Metrics.Drawdown.{Within, Attained, max_drawdown_lem}
use erebor.Trading.Examples.{amount, fresh_checker}

abbrev order : String → Side → ℕ → ℕ → FillRequest integers.Amount
order id side price qty = record {
  trade_id = id;
  symbol = "BTCUSDT";
  side = side;
  fill_price = amount price;
  fill_qty = amount qty;
  fee = amount 1;
  event_time = 5;
  signal_name = "book_imbalance";
  signal_stream_id = id;
}

abbrev pub tables : FillStore integers.Amount
tables = repository integers.Amount true

-- The database does not answer.
abbrev broken : FillStore integers.Amount
broken = repository integers.Amount false

abbrev pub no_rows : Tables integers.Amount
no_rows = record { trades = []; positions = []; equity = [] }

abbrev holding_two : List (String × SymbolPosition integers.Amount)
holding_two = ("BTCUSDT", record { net_qty = amount 2; avg_entry = amount 10 }) ∷ []

abbrev empty_blotter : Blotter integers tables
empty_blotter = record { session_id = "run"; store = no_rows; equity = amount 1000; positions = [] }

abbrev broken_blotter : Blotter integers broken
broken_blotter = record {
  session_id = "run";
  store = no_rows;
  equity = amount 1000;
  positions = holding_two;
}

failed_fill_restores_example :
    let b' = (record_fill integers broken broken_blotter (order "1" buy 12 3)).0 in
    (b'.equity ≡ amount 1000)
    × ((position_of integers broken b' "BTCUSDT").net_qty
        ≡ (position_of integers broken broken_blotter "BTCUSDT").net_qty)
unfolding record_fill
failed_fill_restores_example =
    failed_fill_restores integers integers-IsExact broken broken_blotter (order "1" buy 12 3)
      "BTCUSDT" refl

long_round_trip_example :
    let b' =
      (record_fill integers tables
        (record_fill integers tables empty_blotter (order "1" buy 10 2)).0
        (order "2" sell 15 2)).0 in
    (b'.equity
      ≡ integers.sub
          (integers.add
            (integers.sub (amount 1000) (amount 1))
            (integers.mul (integers.sub (amount 15) (amount 10)) (amount 2)))
          (amount 1))
    × (position_of integers tables b' "BTCUSDT"
        ≡ record { net_qty = zero_amount integers; avg_entry = zero_amount integers })
unfolding record_fill integers lookup
long_round_trip_example =
    long_round_trip integers integers-IsExact tables empty_blotter (order "1" buy 10 2)
      (order "2" sell 15 2) refl refl refl refl refl refl refl refl

abbrev no_positions : String → List ℕ
no_positions id = []

-- What the table takes, of the texts used here.
abbrev jsonb : String → Option String
jsonb json = if str_eq json "cfg" then none else some json

abbrev no_equity : String → ℕ
no_equity id = 0

abbrev old_session : PaperSession
old_session = record {
  session_id = "old";
  status = stopped;
  symbols = [];
  strategy_config = "{}";
  started_at = 3;
  stopped_at = none;
  error = "";
}

abbrev manager : Manager (S jsonb no_positions no_equity)
manager = record { store = old_session ∷ []; session = none }

start-cases_example :
    ((s : PaperSession) × (latest_session (running_sessions manager.store) ≡ some s)
      × (start (S jsonb no_positions no_equity) manager "new" [] "cfg" 9
          ≡ resumed jsonb no_positions no_equity manager s))
    ⊎ ((latest_session (running_sessions manager.store) ≡ none)
        × (((s : PaperSession) × (latest_session manager.store ≡ some s)
              × (s.status ≡ halted)
              × (start (S jsonb no_positions no_equity) manager "new" [] "cfg" 9
                  ≡ err (is_halted s.session_id)))
            ⊎ (((s : PaperSession)
                  → latest_session manager.store ≡ some s
                  → is_halted_status s.status ≡ false)
                × Creates jsonb no_positions no_equity manager
                    (new_session (S jsonb no_positions no_equity) "new" [] "cfg" 9)
                    (start (S jsonb no_positions no_equity) manager "new" [] "cfg" 9))))
start-cases_example = start-cases jsonb no_positions no_equity manager "new" [] "cfg" 9

abbrev pub priced : BestPrice integers.Amount
priced = record { bid = amount 1; ask = amount 1 }

abbrev pub strategy : StrategyConfig integers.Amount
strategy = record {
  maker_fee_bps = pos 1;
  taker_fee_bps = pos 2;
  slippage_bps = pos 5;
  trade_qty = amount 1;
  buy_threshold = amount 0;
  sell_threshold = amount 0;
  initial_capital = amount 1000;
  max_position_qty = [];
  max_drawdown_pct = amount 0;
  run_loss_limit_pct = amount 0;
}

abbrev desk : Desk integers platform (redis_halt_store true true) tables
desk = record {
  session_id = "run";
  strategy = strategy;
  risk = record fresh_checker { positions = [] };
  blotter = empty_blotter;
  cache = record { prices = ("BTCUSDT", priced) ∷ []; ids = [] };
  session_halts = 0;
  orders = [];
}

desk-InSync : InSync integers integers-IsExact platform (redis_halt_store true true) tables desk
unfolding lookup
desk-InSync s = refl

abbrev pub signal_message : Message
signal_message = record {
  id = "7-0";
  values =
      ("symbol", "BTCUSDT")
      ∷ ("event_time", "now")
      ∷ ("value", integers.to_string (amount 1))
      ∷ ("name", "book_imbalance")
      ∷ [];
}

abbrev equities : List integers.Amount
equities = amount 100 ∷ amount 150 ∷ amount 75 ∷ []

max_drawdown_lem_example :
    Le integers (zero_amount integers) (max_drawdown integers equities)
    × Within integers integers-IsExact (max_drawdown integers equities) (amount 100) equities
    × ((max_drawdown integers equities ≡ zero_amount integers)
        ⊎ Attained integers integers-IsExact (max_drawdown integers equities) (amount 100) equities)
unfolding integers
max_drawdown_lem_example =
    max_drawdown_lem integers integers-IsExact (amount 100) (amount 150) (amount 75 ∷ []) refl
