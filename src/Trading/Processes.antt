-- ===== src/Trading/Processes.antt =====
-- Concrete runs of the process of paper trading (engine/execution): its start, its consumer and
-- its sessions.
use text.Mathlib.Text.{◌==◌ as str_eq}
use erebor.Prelude.{
  ℕ, ◌≡◌, refl, true, false, Option, none, some, if◌then◌else◌, String, List, [], ◌∷◌, inr, arith,
}
use erebor.Decimal.Integers.{integers, integers-IsExact}
use erebor.Platform.Sample.{platform}
use erebor.Trading.Risk.{redis_halt_store}
use erebor.Trading.Blotter.{PositionRecord}
use erebor.Trading.Session.{
  stopped, is_halted, err, ◌>>=◌, PaperSession, StartResult, SessionStore, Manager, start, stop,
  halt, new_session, running_sessions, latest_session, is_halted_status,
}
use erebor.Trading.Session.Lifecycle.{S, created, resumed}
use erebor.Trading.Session.Restarts.{reopened, ended, session_restarts}
use erebor.Trading.Consumer.Loop.{State, read_loop}
use erebor.Trading.Paper.{Desk}
use erebor.Trading.Paper.Sync.{InSync}
use erebor.Trading.Service.{
  Env, Found, created as group_created, Live, build_desk, handler, consume, startup, bad_strategy,
}
use erebor.Trading.Service.Composition.{consume-InSync}
use erebor.Trading.Service.Halted.{NoTrade, read_loop-NoTrade}
use erebor.Trading.Service.Startup.{bad_strategy_leaves_session}
use erebor.Trading.Examples.{amount, fresh_checker}
use erebor.Trading.Scenarios.{tables, no_rows, strategy, priced}
use erebor.Trading.Deliveries.{Queue, broker, queue, fine, deaf}

none_running : running_sessions [] ≡ []
unfolding running_sessions
none_running = refl

no_latest : (v : PaperSession) → latest_session [] ≡ some v → is_halted_status v.status ≡ false
unfolding latest_session
no_latest v e = absurd (ground (arith, e))

-- The bid and the ask are 1.
abbrev found : ℕ → Found integers.Amount
found n = record {
  trade_id = "trade";
  order_id = "order";
  cache = record { prices = ("BTCUSDT", priced) ∷ []; ids = [] };
}

abbrev no_positions : String → List (PositionRecord integers.Amount)
no_positions id = []

abbrev no_equity : String → integers.Amount
no_equity id = amount 0

-- What the table takes, of the texts used here.
abbrev jsonb : String → Option String
jsonb json = if str_eq json "{" then none else some json

abbrev sessions : SessionStore (PositionRecord integers.Amount) integers.Amount
sessions = S jsonb no_positions no_equity

abbrev env : Env integers platform (redis_halt_store true true) tables sessions
env = record {
  symbols = "BTCUSDT" ∷ [];
  strategy_config = "[]";
  parse_strategy = λ raw. none;
  redis_up = true;
  timescale_dsn = "dsn";
  database_up = true;
  group = group_created;
  halt_store = [];
  fill_store = no_rows;
  cache = record { prices = []; ids = [] };
  new_id = "new";
  now = 9;
}

abbrev first_session : PaperSession
first_session = new_session sessions "new" ("BTCUSDT" ∷ []) "[]" 9

-- It recovers two units of another symbol.
abbrev recovered : StartResult (PositionRecord integers.Amount) integers.Amount
recovered = record {
  session = first_session;
  positions =
      record {
        session_id = "new";
        symbol = "ETHUSDT";
        net_qty = amount 2;
        avg_entry = amount 10;
        updated_at = 5;
      }
      ∷ [];
  equity = some (amount 900);
  recovered = true;
}

consume-InSync_example :
    let desk =
      build_desk integers platform
        (redis_halt_store true true)
        tables
        sessions
        env
        strategy
        recovered in
    InSync integers integers-IsExact platform
      (redis_halt_store true true)
      tables
      (consume integers platform
        (redis_halt_store true true)
        tables
        sessions
        broker
        found
        desk
        queue
        (deaf ∷ fine ∷ [])).st.desk
unfolding integers
consume-InSync_example =
    consume-InSync integers integers-IsExact platform (redis_halt_store true true) tables sessions
      broker found env strategy recovered queue (deaf ∷ fine ∷ []) (refl, tt, tt)

abbrev halted_desk : Desk integers platform (redis_halt_store true true) tables
halted_desk = record {
  session_id = "run";
  strategy = strategy;
  risk = record fresh_checker { halted = true };
  blotter = record { session_id = "run"; store = no_rows; equity = amount 1000; positions = [] };
  cache = record { prices = []; ids = [] };
  session_halts = 0;
  orders = [];
}

abbrev halted_state :
    State Queue (Live integers platform (redis_halt_store true true) tables sessions)
halted_state = record { st = record { desk = halted_desk; calls = 0 }; queue = queue }

read_loop-NoTrade_example :
    NoTrade integers platform
      (redis_halt_store true true)
      tables
      halted_desk
      (read_loop integers platform broker
        (handler integers platform (redis_halt_store true true) tables sessions found)
        halted_state
        (fine ∷ [])).st.desk
read_loop-NoTrade_example =
    read_loop-NoTrade integers platform (redis_halt_store true true) tables sessions found broker
      halted_state (fine ∷ []) refl

bad_strategy_leaves_session_example :
    let (m, outcome) =
      startup integers platform
        (redis_halt_store true true)
        tables
        sessions
        env
        (reopened jsonb no_positions no_equity []) in
    (outcome ≡ inr bad_strategy)
    × (start sessions (reopened jsonb no_positions no_equity m.store) "next" [] "{}" 10
        ≡ resumed jsonb no_positions no_equity
            (reopened jsonb no_positions no_equity (first_session ∷ []))
            first_session)
bad_strategy_leaves_session_example =
    bad_strategy_leaves_session integers platform (redis_halt_store true true) tables jsonb
      no_positions no_equity env [] none_running no_latest refl refl refl refl refl refl "next" []
      "{}" 10

session_restarts_example :
    let m : Manager sessions = record {
      store = first_session ∷ [];
      session = some (record first_session { strategy_config = "[]" });
    } in
    let restart = λ (k : Manager sessions).
      start sessions (reopened jsonb no_positions no_equity k.store) "next" [] "{}" 10 in
    let fresh = new_session sessions "next" [] "{}" 10 in
    let afresh =
      created jsonb no_positions no_equity
        (reopened jsonb no_positions no_equity
          (ended jsonb no_positions no_equity first_session stopped 8 "" ∷ []))
        fresh
        "{}" in
    (restart m
      ≡ resumed jsonb no_positions no_equity
          (reopened jsonb no_positions no_equity (first_session ∷ []))
          first_session)
    × ((halt sessions m 7 "drawdown" >>= restart) ≡ err (is_halted "new"))
    × ((stop sessions m 8 >>= restart) ≡ afresh)
    × ((halt sessions m 7 "drawdown" >>= λ k. stop sessions k 8 >>= restart) ≡ afresh)
session_restarts_example =
    session_restarts jsonb no_positions no_equity first_session [] "[]" refl none_running tt 7 8
      "drawdown" "next" [] "{}" 10 refl refl
