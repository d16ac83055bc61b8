-- ===== src/Backtest/Cli/Examples.antt =====
-- Concrete command lines (engine/backtest/cmd/erebor-backtest/main.go): texts are not changed by
-- trimming, the symbols are split into two, and a text that parses stands for the time 5 or 9.
use text.Mathlib.Text.{◌==◌ as str_eq}
use erebor.Prelude.{◌↔◌, ℕ, ◌≡◌, refl, true, false, none, some, String, [], ◌∷◌, if◌then◌else◌}
use erebor.Prelude.Assoc.{lookup}
use erebor.Decimal.Integers.{integers}
use erebor.Backtest.Replay.{afap}
use erebor.Backtest.Repository.{completed}
use erebor.Backtest.Runner
use erebor.Backtest.Runner.{Environment, Runner}
use erebor.Backtest.Cli.{
  Library, accepted, Flags, ParsedFlags, Setting, validate_flags, choose_run_id, run_record, main,
}
use erebor.Backtest.Cli.Validation.{IsValid, validate_flags_lem}
use erebor.Backtest.Cli.Outcome.{main-completed}

abbrev library : Library
library = record {
  to_upper = λ s. if str_eq s "afap" then "AFAP" else s;
  trim_space = λ s. s;
  split = λ s. "BTCUSDT" ∷ "" ∷ "ETHUSDT" ∷ "BTCUSDT" ∷ [];
  parse_rfc3339 = λ s. if str_eq s "start" then some 5 else if str_eq s "end" then some 9 else none;
  json_valid = λ s. str_eq s "{}";
  Float = ℕ;
  is_positive = λ n. true;
}

abbrev flags : Flags library
flags = record {
  symbols = "BTCUSDT,,ETHUSDT,BTCUSDT";
  from = "start";
  to = "end";
  speed = "afap";
  speed_factor = 1;
  depth = 10;
  strategy_config = "{}";
}

abbrev parsed : ParsedFlags library
parsed = record {
  symbols = "BTCUSDT" ∷ "ETHUSDT" ∷ [];
  from = 5;
  to = 9;
  speed_mode = afap;
  speed_factor = 1;
  depth = 10;
  strategy_config = "{}";
}

validate_flags_lem_example :
    (validate_flags library flags ≡ accepted parsed) ↔ IsValid library flags parsed
validate_flags_lem_example = validate_flags_lem library flags parsed

abbrev setting : Setting library
setting = record {
  run_id = "run";
  new_id = none;
  level_ok = true;
  timescale_dsn = "dsn";
  redis_addr = "";
  redis_up = true;
  database_up = true;
  env = record {
    config_ok = true;
    create_ok = true;
    running_ok = true;
    started_at = 100;
    replay_error = none;
    ctx_cancelled = false;
    keys = [];
    final_ok = true;
    completed_at = 200;
  };
}

abbrev runner : Runner integers.Amount ℕ
runner = record {
  tables = record { runs = []; trades = []; equity = []; data_gaps = []; metrics = [] };
  actions = [];
}

exits_zero : (main library setting flags runner).1 ≡ 0
unfolding main Runner.run lookup
exits_zero = refl

free : (id : String) → choose_run_id library setting ≡ some id → lookup id runner.tables.runs ≡ none
unfolding lookup
free id e = refl

main-completed_example :
    (pf : ParsedFlags library) × (id : String) × IsValid library flags pf
    × (choose_run_id library setting ≡ some id)
    × (lookup id (main library setting flags runner).0.tables.runs
        ≡ some (record {
          rec = record (run_record library id pf) { status = completed };
          started_at = some 100;
          completed_at = some 200;
          error = none;
        }))
main-completed_example = main-completed library setting flags runner exits_zero refl free
