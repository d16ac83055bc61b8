-- ===== src/Backtest/Cli.antt =====
-- The command line of the backtest: engine/backtest/cmd/erebor-backtest/main.go and
-- engine/backtest/config/config.go. What Go's standard library does with the texts of the flags is
-- a parameter; logging is left out, and an error of a flag is its kind.
pub mod Validation
pub mod Outcome
mod Examples
use text.Mathlib.Text.{◌==◌ as str_eq}
use erebor.Prelude.{
  ℕ, ◌+◌, Bool, true, false, not, ◌&&◌, ◌||◌, Option, none, some, String, List, [], ◌∷◌, map,
  if◌then◌else◌, ltb,
}
use erebor.Backtest.Replay.{SpeedMode, afap, nx, wall_clock}
use erebor.Backtest.Repository.{RunRecord, pending}
use erebor.Backtest.Runner.{Environment, Runner, run, RunError}

-- Times are in nanoseconds. A speed factor is a floating-point number.
pub record Library : Type 1 where
  pub to_upper : String → String
  -- strings.TrimSpace.
  pub trim_space : String → String
  -- strings.Split at the commas.
  pub split : String → List String
  -- time.Parse with the layout RFC3339.
  pub parse_rfc3339 : String → Option ℕ
  pub json_valid : String → Bool
  pub Float : Type 0
  pub is_positive : Float → Bool

pub data FlagError : Type 0 where
  symbols_required from_required to_required no_symbol bad_from bad_to not_after bad_speed
        bad_speed_factor bad_strategy_config :
      FlagError

-- A value, or the first error of the flags.
pub data Checked (V : Type 0) : Type 0 where
  rejected : FlagError → Checked V
  accepted : V → Checked V

infixl 5 ◌>>=◌ ◌>>◌
abbrev pub ◌>>=◌ : {V W : Type 0} → Checked V → (V → Checked W) → Checked W
rejected why >>= next = rejected why
accepted value >>= next = next value

abbrev pub ◌>>◌ : {W : Type 0} → Checked (Unit {0}) → Checked W → Checked W
rejected why >> next = rejected why
accepted done >> next = next

abbrev pub fail_if : Bool → FlagError → Checked (Unit {0})
fail_if b e = if b then rejected e else accepted tt

abbrev pub or_fail : {V : Type 0} → Option V → FlagError → Checked V
or_fail (some value) why = accepted value
or_fail none why = rejected why

abbrev pub is_empty {ℓ} : {A : Type ℓ} → List A → Bool
is_empty [] = true
is_empty (x ∷ xs) = false

abbrev pub is_nx : SpeedMode → Bool
is_nx nx = true
is_nx _ = false

abbrev pub has : String → List String → Bool
has s [] = false
has s (t ∷ ts) = str_eq t s || has s ts

module _ (L : Library) where
  open L use {Float}

  -- The flags that are validated, as they are given.
  pub record Flags : Type 0 where
    pub symbols : String
    pub from : String
    pub to : String
    pub speed : String
    pub speed_factor : Float
    pub depth : ℕ
    pub strategy_config : String

  pub record ParsedFlags : Type 0 where
    pub symbols : List String
    pub from : ℕ
    pub to : ℕ
    pub speed_mode : SpeedMode
    pub speed_factor : Float
    pub depth : ℕ
    pub strategy_config : String

  abbrev pub symbol_of : String → String
  symbol_of part = L.to_upper (L.trim_space part)

  -- The loop of `splitSymbols`, by the symbols that it has seen.
  unfoldable pub add_symbols : List String → List String → List String
  add_symbols seen [] = []
  add_symbols seen (part ∷ parts) =
      let sym = symbol_of part in
      let skip = str_eq sym "" || has sym seen in
      let rest = add_symbols (if skip then seen else sym ∷ seen) parts in
      if skip then rest else sym ∷ rest

  unfoldable pub split_symbols : String → List String
  unfolding add_symbols
  split_symbols s = add_symbols [] (L.split s)

  unfoldable pub parse_speed_mode : String → Option SpeedMode
  parse_speed_mode s =
      let upper = L.to_upper s in
      if str_eq upper "AFAP"
      then some afap
      else if str_eq upper "NX"
      then some nx
      else if str_eq upper "WALL_CLOCK"
      then some wall_clock
      else none

  unfoldable pub validate_flags : Flags → Checked ParsedFlags
  unfolding split_symbols parse_speed_mode
  validate_flags flags = do
    fail_if (str_eq flags.symbols "") symbols_required
    fail_if (str_eq flags.from "") from_required
    fail_if (str_eq flags.to "") to_required
    let symbols = split_symbols flags.symbols
    fail_if (is_empty symbols) no_symbol
    from ← or_fail (L.parse_rfc3339 flags.from) bad_from
    to ← or_fail (L.parse_rfc3339 flags.to) bad_to
    fail_if (not (ltb from to)) not_after
    speed_mode ← or_fail (parse_speed_mode flags.speed) bad_speed
    fail_if (is_nx speed_mode && not (L.is_positive flags.speed_factor)) bad_speed_factor
    fail_if (not (L.json_valid flags.strategy_config)) bad_strategy_config
    accepted (record {
      symbols = symbols;
      from = from;
      to = to;
      speed_mode = speed_mode;
      speed_factor = flags.speed_factor;
      depth = flags.depth;
      strategy_config = flags.strategy_config;
    })

  -- config.Load, from the environment variables: the DSN and the address of Redis.
  unfoldable pub load_config : String → String → Option (String × String)
  load_config timescale_dsn redis_addr =
      if str_eq timescale_dsn ""
      then none
      else some (timescale_dsn, if str_eq redis_addr "" then "localhost:6379" else redis_addr)

  -- What `main` finds around it; `level_ok` says whether the log level parses, and `new_id` is the
  -- generated id, if there is one.
  pub record Setting : Type 0 where
    pub run_id : String
    pub new_id : Option String
    pub level_ok : Bool
    pub timescale_dsn : String
    pub redis_addr : String
    pub redis_up : Bool
    pub database_up : Bool
    pub env : Environment

  unfoldable pub choose_run_id : Setting → Option String
  choose_run_id s = if str_eq s.run_id "" then s.new_id else some s.run_id

  abbrev pub run_record : String → ParsedFlags → RunRecord
  run_record run_id pf = record {
    run_id = run_id;
    symbols = pf.symbols;
    from_time = pf.from;
    to_time = pf.to;
    speed_mode = pf.speed_mode;
    strategy_config = pf.strategy_config;
    status = pending;
  }

  -- `main` after the run: the runner and the exit code.
  abbrev pub exit_code : Bool → Option RunError → ℕ
  exit_code ctx_cancelled none = 0
  exit_code ctx_cancelled (some e) = if ctx_cancelled then 0 else 1

  module _ {A M : Type 0} where
    -- The rest of `main`, by the configuration; `none` is a call of Fatal, with the exit code 1,
    -- here and for the id, and so is an error of the flags.
    unfoldable pub with_config :
        Setting → Runner A M → ParsedFlags → String → Option (String × String) → Runner A M × ℕ
    with_config s r pf run_id none = (r, 1)
    with_config s r pf run_id (some cfg) =
        let (r', e) = run A M s.env (run_record run_id pf) r in
        if s.redis_up && s.database_up then (r', exit_code s.env.ctx_cancelled e) else (r, 1)

    unfoldable pub with_run_id : Setting → Runner A M → ParsedFlags → Option String → Runner A M × ℕ
    unfolding load_config with_config
    with_run_id s r pf none = (r, 1)
    with_run_id s r pf (some run_id) =
        with_config s r pf run_id (load_config s.timescale_dsn s.redis_addr)

    unfoldable pub with_flags : Setting → Runner A M → Checked ParsedFlags → Runner A M × ℕ
    unfolding choose_run_id with_run_id
    with_flags s r (rejected e) = (r, 1)
    with_flags s r (accepted pf) = with_run_id s r pf (choose_run_id s)

    unfoldable pub main : Setting → Flags → Runner A M → Runner A M × ℕ
    unfolding validate_flags with_flags
    main s flags r = if s.level_ok then with_flags s r (validate_flags flags) else (r, 2)
