-- ===== src/Trading/Risk.antt =====
-- engine/risk/checker.go and haltstore.go: the pre-trade checks, the halt and the bookkeeping of
-- fills. The lock makes each method one step. Published events stand in `published`, newest
-- first, without their text; an error of the publisher or of `SetHalted` is only logged.
pub mod Halting
pub mod Accounting
use text.Mathlib.Text.{◌==◌ as str_eq}
use erebor.Prelude.{
  ℕ, Bool, true, false, ◌&&◌, ◌||◌, Option, none, some, String, List, [], ◌∷◌, if◌then◌else◌,
}
use erebor.Prelude.Int.{pos}
use erebor.Prelude.Assoc.{lookup, insert}
use erebor.Decimal.{Decimal, zero_amount}
use erebor.Trading.Order.{Side, is_buy}

-- risk.HaltStore. `set_halted` gives the store after the call, whether it succeeded or not;
-- `is_halted` gives `none` for an error.
pub record HaltStore : Type 1 where
  pub Self : Type 0
  pub set_halted : Self → String → Self
  pub is_halted : Self → String → Option Bool

-- RedisHaltStore, over the fields of the hash. A command may fail: then HSet leaves the hash, which
-- the caller only logs, and HGet is an error.
unfoldable pub redis_set_halted : Bool → List (String × String) → String → List (String × String)
redis_set_halted hset_ok hash session_id = if hset_ok then insert session_id "1" hash else hash

unfoldable pub redis_is_halted : Bool → List (String × String) → String → Option Bool
redis_is_halted false hash session_id = none
redis_is_halted true hash session_id = elim (lookup session_id hash) [
  | none ↦ some false
  | some val ↦ some (str_eq val "1")
]

-- Whether HSet and HGet succeed. A checker calls each of them at most once: HSet at its halt, and
-- HGet at the probe.
abbrev pub redis_halt_store : Bool → Bool → HaltStore
redis_halt_store hset_ok hget_ok = record {
  Self = List (String × String);
  set_halted = redis_set_halted hset_ok;
  is_halted = redis_is_halted hget_ok;
}

pub data EventType : Type 0 where
  position_limit drawdown_halt run_loss_halt : EventType

-- `haltReason`: the persisted halt, or the type of the event that halted.
pub data Reason : Type 0 where
  persisted : Reason
  triggered : EventType → Reason

-- The error of `CanTrade`.
pub data Rejection : Type 0 where
  is_halted : Option Reason → Rejection
  violates : EventType → Rejection

module _ (𝒟 : Decimal) where
  open 𝒟 use {Amount}

  pub record Config : Type 0 where
    pub initial_capital : Amount
    pub max_position_qty : List (String × Amount)
    pub max_drawdown_pct : Amount
    pub run_loss_limit_pct : Amount

  pub record Event : Type 0 where
    pub run_id : String
    pub symbol : String
    pub event_time : ℕ
    pub kind : EventType
    pub equity : Amount

module _ (𝒟 : Decimal) (S : HaltStore) where
  open 𝒟 use {
    Amount, of_int, add, sub, mul, div, neg, abs, is_zero, is_positive, less_than, greater_than,
  }

  pub record Checker : Type 0 where
    pub cfg : Config 𝒟
    pub halt_store : Option S.Self
    pub run_id : String
    pub positions : List (String × Amount)
    pub equity : Amount
    pub peak_equity : Amount
    pub halted : Bool
    pub halt_reason : Option Reason
    pub halt_checked : Bool
    pub published : List (Event 𝒟)

  -- NewWithLogger; `New` is this with no store.
  unfoldable pub new : Config 𝒟 → String → Option S.Self → Checker
  new cfg run_id store =
      let equity = if is_zero cfg.initial_capital then zero_amount 𝒟 else cfg.initial_capital in
      record {
        cfg = cfg;
        halt_store = store;
        run_id = run_id;
        positions = [];
        equity = equity;
        peak_equity = equity;
        halted = false;
        halt_reason = none;
        halt_checked = false;
        published = [];
      }

  -- A missing key of a Go map reads as zero.
  abbrev pub position_of : Checker → String → Amount
  position_of c symbol = elim (lookup symbol c.positions) [ some q ↦ q | none ↦ zero_amount 𝒟 ]

  abbrev pub restore : Checker → Option Bool → Checker
  restore c none = c
  restore c (some false) = c
  restore c (some true) = record c { halted = true; halt_reason = some persisted }

  abbrev pub probe_store : Checker → Option S.Self → Checker
  probe_store c none = c
  probe_store c (some store) =
      restore (record c { halt_checked = true }) (S.is_halted store c.run_id)

  unfoldable pub probe_persisted_halt : Checker → Checker
  probe_persisted_halt c = if c.halted || c.halt_checked then c else probe_store c c.halt_store

  abbrev pub persist_halt : Checker → Option S.Self → Checker
  persist_halt c none = c
  persist_halt c (some store) = record c { halt_store = some (S.set_halted store c.run_id) }

  unfoldable pub publish_event : Checker → String → ℕ → EventType → Checker
  publish_event c symbol event_time kind = record c {
    published =
        record {
          run_id = c.run_id;
          symbol = symbol;
          event_time = event_time;
          kind = kind;
          equity = c.equity;
        }
        ∷ c.published;
  }

  -- The assignments and calls of a drawdown or run-loss halt.
  unfoldable pub halt : Checker → EventType → ℕ → Checker
  unfolding publish_event
  halt c kind event_time =
      let marked = record c { halted = true; halt_reason = some (triggered kind) } in
      publish_event (persist_halt marked marked.halt_store) "" event_time kind

  -- base × (1 - pct/100).
  abbrev pub threshold : Amount → Amount → Amount
  threshold base pct = mul base (sub (of_int (pos 1)) (div pct (of_int (pos 100))))

  abbrev pub below_limit : Checker → Amount → Amount → Bool
  below_limit c base pct = is_positive pct && less_than c.equity (threshold base pct)

  -- The position after a fill.
  abbrev pub moved : Side → Amount → Amount → Amount
  moved side current qty = add current (if is_buy side then qty else neg qty)

  unfoldable pub check_position :
      Checker → String → Side → Amount → ℕ → Option Amount → Checker × Option Rejection
  unfolding publish_event
  check_position c symbol side qty event_time none = (c, none)
  check_position c symbol side qty event_time (some max_qty) =
      if greater_than (abs (moved side (position_of c symbol) qty)) max_qty
      then (publish_event c symbol event_time position_limit, some (violates position_limit))
      else (c, none)

  -- The checks after the probe.
  unfoldable pub check_rules : Checker → String → Side → Amount → ℕ → Checker × Option Rejection
  unfolding halt check_position
  check_rules c symbol side qty event_time =
      if c.halted
      then (c, some (is_halted c.halt_reason))
      else if below_limit c c.peak_equity c.cfg.max_drawdown_pct
      then (halt c drawdown_halt event_time, some (violates drawdown_halt))
      else if below_limit c c.cfg.initial_capital c.cfg.run_loss_limit_pct
      then (halt c run_loss_halt event_time, some (violates run_loss_halt))
      else check_position c symbol side qty event_time (lookup symbol c.cfg.max_position_qty)

  unfoldable pub can_trade : Checker → String → Side → Amount → ℕ → Checker × Option Rejection
  unfolding probe_persisted_halt check_rules
  can_trade c symbol side qty event_time =
      check_rules (probe_persisted_halt c) symbol side qty event_time

  unfoldable pub record_fill : Checker → String → Side → Amount → Amount → Amount → Checker
  record_fill c symbol side qty fill_price fee =
      let trade_value = mul qty fill_price in
      let equity =
        if is_buy side
        then sub (sub c.equity trade_value) fee
        else sub (add c.equity trade_value) fee in
      let position =
        if is_buy side then add (position_of c symbol) qty else sub (position_of c symbol) qty in
      record c {
        positions = insert symbol position c.positions;
        equity = equity;
        peak_equity = if greater_than equity c.peak_equity then equity else c.peak_equity;
      }
