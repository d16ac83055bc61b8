-- ===== src/Backtest/Scenarios.antt =====
-- Concrete replays and runs (engine/repository, engine/backtest).
use erebor.Prelude.{ℕ, ◌≡◌, refl, true, false, none, some, String, List, [], ◌∷◌, ◌++◌, keep_if}
use text.Mathlib.Text.{◌==◌ as str_eq}
use erebor.Prelude.Int.{pos, inc64}
use erebor.Prelude.Assoc.{lookup}
use erebor.Decimal.Integers.{integers, integers-IsExact}
use erebor.Platform.Sample.{platform, platform-IsFaithful}
use erebor.Ingest.Domain.{PriceLevel, DiffEvent, SnapshotEvent}
use erebor.Ingest.Book
use erebor.Ingest.Repository.{
  Repository, PgTables, diff_row, query_nearest_checkpoint, query_diffs, write_checkpoint,
  pg_repository,
}
use erebor.Ingest.Repository.Queries.{asked, write_diffs, query_diffs-write_diffs}
use erebor.Trading.Order.{buy}
use erebor.Trading.RoundTrips.{Trade}
use erebor.Wire
use erebor.Wire.{Message, decode_price_levels}
use erebor.Backtest.Replay.{SpeedController, afap, Engine, EngineConfig, started, replay}
use erebor.Backtest.Replay.Books.{fine, messages}
use erebor.Backtest.Replay.Recorded.{replay-recorded}
use erebor.Backtest.Replay.Gaps.{HandlesGaps, replay-HandlesGaps}
use erebor.Backtest.Repository.{RunTables, RunRecord, pending}
use erebor.Backtest.Runner.{Environment, Runner, run}
use erebor.Backtest.Runner.Status.{expected_row, run-status}

abbrev amount : ℕ → integers.Amount
amount n = integers.of_int (pos n)

abbrev level : ℕ → ℕ → PriceLevel integers.Amount
level price quantity = record { price = amount price; quantity = amount quantity }

abbrev diff : ℕ → ℕ → ℕ → DiffEvent integers.Amount
diff time first final = record {
  symbol = "BTCUSDT";
  event_time = time;
  first_update_id = pos first;
  final_update_id = pos final;
  bids = level final 1 ∷ [];
  asks = [];
}

abbrev checkpoint : SnapshotEvent integers.Amount
checkpoint = record {
  symbol = "BTCUSDT";
  captured_at = 2;
  last_update_id = pos 4;
  bids = level 3 1 ∷ [];
  asks = level 20 1 ∷ [];
}

abbrev empty : PgTables
empty = record { diffs = []; snapshots = [] }

query_diffs-write_diffs_example :
    query_diffs integers platform
      (write_diffs integers platform empty (diff 3 5 6 ∷ diff 4 7 9 ∷ []))
      "BTCUSDT"
      4
      9
    ≡ some ([] ++ keep_if (asked integers platform "BTCUSDT" 4 9) (diff 3 5 6 ∷ diff 4 7 9 ∷ []))
unfolding diff_row query_diffs
query_diffs-write_diffs_example =
    query_diffs-write_diffs integers platform integers-IsExact platform-IsFaithful empty "BTCUSDT" 4
      9 [] (diff 3 5 6 ∷ diff 4 7 9 ∷ []) refl (tt, ((refl, tt), tt))

-- Two diffs that follow each other, and a third after a gap.
abbrev gapped : List (DiffEvent integers.Amount)
gapped = diff 3 5 6 ∷ diff 4 7 9 ∷ diff 8 12 13 ∷ []

abbrev steady : List (DiffEvent integers.Amount)
steady = diff 3 5 6 ∷ diff 4 7 9 ∷ diff 8 10 13 ∷ []

abbrev repo : List (DiffEvent integers.Amount) → Repository integers.Amount
repo diffs = record {
  query_nearest_checkpoint = λ symbol at. some checkpoint;
  query_diffs = λ symbol from to. some diffs;
}

abbrev cfg : EngineConfig
cfg = record { run_id = "run"; symbol = "BTCUSDT"; from = 2; to = 9; depth = 5 }

abbrev engine : Engine integers.Amount
engine = record {
  cfg = cfg;
  book = Book.new integers "BTCUSDT";
  stream = [];
  sleeps = [];
  data_gaps = [];
}

abbrev fast : SpeedController
fast = record { mode = afap; scaled = λ n. n }

replay-HandlesGaps_example :
    HandlesGaps integers platform
      (repo gapped)
      fast
      (started integers platform (repo gapped) fast engine none)
      (Book.load_snapshot integers (Book.reset integers engine.book) checkpoint)
      none
      gapped
      (replay integers platform (repo gapped) fast (λ i. fine) engine)
replay-HandlesGaps_example =
    replay-HandlesGaps integers platform (repo gapped) fast (λ i. fine) engine checkpoint gapped
      (λ j. refl) refl refl

abbrev recorded : PgTables
recorded = write_checkpoint integers platform empty checkpoint

replay-recorded_example :
    let tables = write_diffs integers platform recorded steady in
    let start = Book.load_snapshot integers (Book.reset integers engine.book) checkpoint in
    let p =
      replay integers platform (pg_repository integers platform tables) fast (λ i. fine) engine in
    (p.engine.stream
      ≡ engine.stream
        ++ messages integers platform
            (pg_repository integers platform tables)
            fast
            engine
            start
            (keep_if (asked integers platform "BTCUSDT" 2 9) steady))
    × (p.error ≡ none)
unfolding diff_row query_nearest_checkpoint write_checkpoint decode_price_levels Wire.levels_to_json
    integers query_diffs inc64
replay-recorded_example =
    replay-recorded integers platform integers-IsExact platform-IsFaithful fast (λ i. fine) engine
      recorded checkpoint steady (λ j. refl) refl refl (tt, ((refl, tt), ((refl, (refl, tt)), tt)))
      (refl, (refl, tt))

abbrev rec : RunRecord
rec = record {
  run_id = "run";
  symbols = "BTCUSDT" ∷ [];
  from_time = 2;
  to_time = 9;
  speed_mode = afap;
  strategy_config = "";
  status = pending;
}

abbrev traded : Trade integers.Amount
traded = record {
  run_id = "run";
  symbol = "BTCUSDT";
  event_time = 5;
  trade_id = "a";
  side = buy;
  fill_price = amount 9;
  fill_qty = amount 1;
  fee = amount 0;
  signal_name = "book_imbalance";
}

abbrev tables : RunTables integers.Amount ℕ
tables = record {
  runs = ("run", record { rec = rec; started_at = none; completed_at = none; error = none }) ∷ [];
  trades = traded ∷ [];
  equity = [];
  data_gaps = [];
  metrics = [];
}

abbrev environment : Environment
environment = record {
  config_ok = true;
  create_ok = true;
  running_ok = true;
  started_at = 100;
  replay_error = some "timeout";
  ctx_cancelled = false;
  keys = "erebor:backtest:run:l2" ∷ [];
  final_ok = true;
  completed_at = 200;
}

abbrev runner : Runner integers.Amount ℕ
runner = record {
  tables = record { runs = []; trades = []; equity = []; data_gaps = []; metrics = [] };
  actions = [];
}

run-status_example :
    (lookup "run" (run integers.Amount ℕ environment rec runner).0.tables.runs
      ≡ some (expected_row environment rec))
    × ((other : String)
        → str_eq "run" other ≡ false
        → lookup other (run integers.Amount ℕ environment rec runner).0.tables.runs ≡ none)
unfolding lookup
run-status_example = run-status integers.Amount ℕ environment rec runner refl refl refl
