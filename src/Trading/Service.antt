-- ===== src/Trading/Service.antt =====
-- The process of paper trading: `main`, `requireEnv` and the health handler of
-- engine/execution/cmd/erebor-execution/main.go, which compose the session manager, the risk
-- checker, the blotter, the signal handler and the consumer. What the environment answers is an
-- argument; logging and the loading of the configuration file are left out, and so are the times
-- that bound the shutdown.
pub mod Composition
pub mod Halted
pub mod Startup
use text.Mathlib.Text.{◌==◌ as str_eq}
use erebor.Prelude.{
  ℕ, ◌+◌, Bool, true, false, not, ◌&&◌, Option, none, some, String, List, [], if◌then◌else◌, ◌⊎◌,
  inl, inr,
}
use erebor.Decimal.{Decimal}
use erebor.Platform.{Platform}
use erebor.Trading.Signals.{SignalEvent}
use erebor.Trading.Strategy.{StrategyConfig}
use erebor.Trading.Risk.{HaltStore, Config, Checker}
use erebor.Trading.Risk
use erebor.Trading.Blotter.{FillStore, PositionRecord, seed_positions}
use erebor.Trading.Blotter
use erebor.Trading.Cache.{Cache}
use erebor.Trading.Session.{SessionStore, StartResult, StartError, Manager}
use erebor.Trading.Session
use erebor.Trading.Paper.{Desk, handle_signal, seed_risk}
use erebor.Trading.Consumer.Group.{Broker}
use erebor.Trading.Consumer.Loop.{Turn, State, read_loop}

-- How the process ends; each failure but the last is a call of Fatal.
pub data Exit : Type 0 where
  redis_down no_dsn no_database bad_strategy no_group : Exit
  no_session : StartError → Exit

-- The answer to XGROUP CREATE.
pub data GroupReply : Type 0 where
  created already_exists group_failed : GroupReply

-- `Start` of the consumer fails on errors other than BUSYGROUP.
unfoldable pub has_group : GroupReply → Bool
has_group created = true
has_group already_exists = true
has_group group_failed = false

-- What a call of the signal handler finds: the ids that it draws, and the best prices, which the
-- reader of the books changes between the calls.
pub record Found (A : Type 0) : Type 0 where
  pub trade_id : String
  pub order_id : String
  pub cache : Cache A

-- `/healthz`, by whether the read loop runs.
unfoldable pub healthz : Bool → ℕ
healthz running = if running then 200 else 503

module _ (𝒟 : Decimal) (𝒫 : Platform) (S : HaltStore) (F : FillStore 𝒟.Amount)
    (T : SessionStore (PositionRecord 𝒟.Amount) 𝒟.Amount) where
  open 𝒟 use {Amount, is_zero}

  pub record Env : Type 0 where
    pub symbols : List String
    pub strategy_config : String
    pub parse_strategy : String → Option (StrategyConfig Amount)
    pub redis_up : Bool
    pub timescale_dsn : String
    pub database_up : Bool
    pub group : GroupReply
    pub halt_store : S.Self
    pub fill_store : F.Self
    pub cache : Cache Amount
    -- The id and the start time of a new session.
    pub new_id : String
    pub now : ℕ

  abbrev pub risk_config : StrategyConfig Amount → Config 𝒟
  risk_config cfg = record {
    initial_capital = cfg.initial_capital;
    max_position_qty = cfg.max_position_qty;
    max_drawdown_pct = cfg.max_drawdown_pct;
    run_loss_limit_pct = cfg.run_loss_limit_pct;
  }

  -- The recovered equity, unless it is zero.
  abbrev nonzero_or : Amount → Option Amount → Amount
  nonzero_or capital none = capital
  nonzero_or capital (some equity) = if is_zero equity then capital else equity

  unfoldable pub initial_equity :
      StrategyConfig Amount → StartResult (PositionRecord Amount) Amount → Amount
  initial_equity cfg result =
      if result.recovered then nonzero_or cfg.initial_capital result.equity else cfg.initial_capital

  unfoldable pub build_desk :
      Env → StrategyConfig Amount → StartResult (PositionRecord Amount) Amount → Desk 𝒟 𝒫 S F
  unfolding initial_equity
  build_desk env cfg result =
      let id = result.session.session_id in
      let risk = Risk.new 𝒟 S (risk_config cfg) id (some env.halt_store) in
      let blotter = Blotter.new 𝒟 F id (initial_equity cfg result) env.fill_store in
      record {
        session_id = id;
        strategy = cfg;
        risk = if result.recovered then seed_risk 𝒟 𝒫 S F risk result.positions else risk;
        blotter = if result.recovered then seed_positions 𝒟 F blotter result.positions else blotter;
        cache = env.cache;
        session_halts = 0;
        orders = [];
      }

  -- The rest of the start, by the parsed configuration: the manager whatever happens, and the desk
  -- or how the process ends.
  unfoldable pub with_strategy :
      Env
      → Manager T
      → StartResult (PositionRecord Amount) Amount
      → Option (StrategyConfig Amount)
      → Manager T × (Desk 𝒟 𝒫 S F ⊎ Exit)
  unfolding build_desk has_group
  with_strategy env m result none = (m, inr bad_strategy)
  with_strategy env m result (some cfg) =
      (m, (if has_group env.group then inl (build_desk env cfg result) else inr no_group))

  unfoldable pub with_session :
      Env
      → Manager T
      → Session.Result (Manager T × StartResult (PositionRecord Amount) Amount)
      → Manager T × (Desk 𝒟 𝒫 S F ⊎ Exit)
  unfolding with_strategy
  with_session env m (Session.err e) = (m, inr (no_session e))
  with_session env m (Session.ok (m', result)) =
      with_strategy env m' result (env.parse_strategy env.strategy_config)

  -- `main` up to the start of the consumer.
  unfoldable pub startup : Env → Manager T → Manager T × (Desk 𝒟 𝒫 S F ⊎ Exit)
  unfolding with_session
  startup env m =
      let started =
        with_session env m (Session.start T m env.new_id env.symbols env.strategy_config env.now) in
      if not env.redis_up
      then (m, inr redis_down)
      else if str_eq env.timescale_dsn ""
      then (m, inr no_dsn)
      else if not env.database_up
      then (m, inr no_database)
      else started

  -- The desk with the number of calls of the handler.
  pub record Live : Type 0 where
    pub desk : Desk 𝒟 𝒫 S F
    pub calls : ℕ

  unfoldable pub handler : (ℕ → Found Amount) → Live → String → SignalEvent Amount → Live × Bool
  handler found l msg_id sig =
      let f = found l.calls in
      let (desk, done) =
        handle_signal 𝒟 𝒫 S F (record l.desk { cache = f.cache }) msg_id sig f.trade_id
          f.order_id in
      (record { desk = desk; calls = l.calls + 1 }, done)

  -- The consumer over the turns of its loop, from a new desk.
  unfoldable pub consume :
      {Q : Type 0} → Broker Q → (ℕ → Found Amount) → Desk 𝒟 𝒫 S F → Q → List Turn → State Q Live
  unfolding handler
  consume B found desk q turns =
      read_loop 𝒟 𝒫 B (handler found) (record { st = record { desk = desk; calls = 0 }; queue = q })
        turns

  -- The end of `main`: the consumer has stopped, then the session is marked; the Boolean is false
  -- if that fails.
  abbrev stop_or_log : Manager T → Session.Result (Manager T) → Manager T × Bool
  stop_or_log m (Session.ok m') = (m', true)
  stop_or_log m (Session.err e) = (m, false)

  unfoldable pub shutdown : Manager T → ℕ → Manager T × Bool
  shutdown m now = stop_or_log m (Session.stop T m now)
