-- ===== src/Ingest/Repository.antt =====
-- engine/repository/repository.go: the tables of diffs and checkpoints, newest row first. The
-- price levels of a row are JSON text, kept as it was written, and a time is kept whole, although
-- a column holds microseconds. SQL leaves open which of two checkpoints of one time is the
-- nearest, and here it is the newer row. received_at is left out.
pub mod Queries
use text.Mathlib.Text.{◌==◌ as str_eq}
use erebor.Prelude.{
  ℕ, Bool, true, false, ◌&&◌, ◌||◌, Option, none, some, String, List, [], ◌∷◌, if◌then◌else◌, ltb,
  leb, ◌==◌, length,
}
use erebor.Prelude.Int.{ℤ, ltb_ℤ, eqb_ℤ}
use erebor.Decimal.{Decimal}
use erebor.Platform.{Platform}
use erebor.Ingest.Domain.{PriceLevel, DiffEvent, SnapshotEvent}
use erebor.Wire
use erebor.Wire.{◌>>=◌}

-- What the backtest uses of it; `none` is an error.
pub record Repository (A : Type 0) : Type 0 where
  pub query_nearest_checkpoint : String → ℕ → Option (SnapshotEvent A)
  pub query_diffs : String → ℕ → ℕ → Option (List (DiffEvent A))

pub record DiffRow : Type 0 where
  pub event_time : ℕ
  pub symbol : String
  pub first_update_id : ℤ
  pub final_update_id : ℤ
  pub bids : String
  pub asks : String

pub record CheckpointRow : Type 0 where
  pub snapshot_time : ℕ
  pub symbol : String
  pub last_update_id : ℤ
  pub depth : ℕ
  pub bids : String
  pub asks : String

pub record PgTables : Type 0 where
  pub diffs : List DiffRow
  pub snapshots : List CheckpointRow

-- The unique index of the diffs.
unfoldable pub has_diff : List DiffRow → DiffRow → Bool
has_diff [] row = false
has_diff (r ∷ rows) row =
    (str_eq r.symbol row.symbol
      && eqb_ℤ r.final_update_id row.final_update_id
      && r.event_time == row.event_time)
    || has_diff rows row

-- ORDER BY event_time ASC, final_update_id ASC.
abbrev pub row_before : DiffRow → DiffRow → Bool
row_before r row =
    ltb r.event_time row.event_time
    || (r.event_time == row.event_time && ltb_ℤ r.final_update_id row.final_update_id)

unfoldable pub insert_row : DiffRow → List DiffRow → List DiffRow
insert_row row [] = row ∷ []
insert_row row (r ∷ rows) =
    let rest = insert_row row rows in if row_before row r then row ∷ r ∷ rows else r ∷ rest

abbrev pub in_range : String → ℕ → ℕ → DiffRow → Bool
in_range symbol from to row =
    str_eq row.symbol symbol && leb from row.event_time && leb row.event_time to

-- The rows of `QueryDiffs`.
unfoldable pub select_diffs : String → ℕ → ℕ → List DiffRow → List DiffRow
unfolding insert_row
select_diffs symbol from to [] = []
select_diffs symbol from to (row ∷ rows) =
    let rest = select_diffs symbol from to rows in
    if in_range symbol from to row then insert_row row rest else rest

-- The row of `QueryNearestCheckpoint`.
unfoldable pub nearest : String → ℕ → List CheckpointRow → Option CheckpointRow
nearest symbol at [] = none
nearest symbol at (row ∷ rows) =
    let rest = nearest symbol at rows in
    if str_eq row.symbol symbol && leb row.snapshot_time at
    then elim rest [
      | some best ↦ some (if ltb row.snapshot_time best.snapshot_time then best else row)
      | none ↦ some row
    ]
    else rest

module _ (𝒟 : Decimal) (𝒫 : Platform) where
  open 𝒟 use {Amount}

  unfoldable pub levels_to_json : List (PriceLevel Amount) → String
  levels_to_json levels = Wire.levels_to_json 𝒟 𝒫 levels

  -- Empty data is no levels; the first pair that does not parse is an error.
  unfoldable pub json_to_levels : String → Option (List (PriceLevel Amount))
  json_to_levels raw = Wire.decode_price_levels 𝒟 𝒫 raw

  unfoldable pub diff_row : DiffEvent Amount → DiffRow
  unfolding levels_to_json
  diff_row event = record {
    event_time = event.event_time;
    symbol = event.symbol;
    first_update_id = event.first_update_id;
    final_update_id = event.final_update_id;
    bids = levels_to_json event.bids;
    asks = levels_to_json event.asks;
  }

  unfoldable pub write_diff : PgTables → DiffEvent Amount → PgTables
  unfolding diff_row has_diff
  write_diff t event =
      if has_diff t.diffs (diff_row event) then t else record t { diffs = diff_row event ∷ t.diffs }

  unfoldable pub write_checkpoint : PgTables → SnapshotEvent Amount → PgTables
  unfolding levels_to_json
  write_checkpoint t snapshot = record t {
    snapshots =
        record {
          snapshot_time = snapshot.captured_at;
          symbol = snapshot.symbol;
          last_update_id = snapshot.last_update_id;
          depth =
              if ltb (length snapshot.bids) (length snapshot.asks)
              then length snapshot.asks
              else length snapshot.bids;
          bids = levels_to_json snapshot.bids;
          asks = levels_to_json snapshot.asks;
        }
        ∷ t.snapshots;
  }

  unfoldable pub read_checkpoint : CheckpointRow → Option (SnapshotEvent Amount)
  unfolding json_to_levels
  read_checkpoint row = do
    bids ← json_to_levels row.bids
    asks ← json_to_levels row.asks
    some (record {
      symbol = row.symbol;
      captured_at = row.snapshot_time;
      last_update_id = row.last_update_id;
      bids = bids;
      asks = asks;
    })

  unfoldable pub query_nearest_checkpoint : PgTables → String → ℕ → Option (SnapshotEvent Amount)
  unfolding nearest read_checkpoint
  query_nearest_checkpoint t symbol at = nearest symbol at t.snapshots >>= read_checkpoint

  unfoldable pub read_diff : DiffRow → Option (DiffEvent Amount)
  unfolding json_to_levels
  read_diff row = do
    bids ← json_to_levels row.bids
    asks ← json_to_levels row.asks
    some (record {
      symbol = row.symbol;
      event_time = row.event_time;
      first_update_id = row.first_update_id;
      final_update_id = row.final_update_id;
      bids = bids;
      asks = asks;
    })

  unfoldable pub read_diffs : List DiffRow → Option (List (DiffEvent Amount))
  unfolding read_diff
  read_diffs [] = some []
  read_diffs (row ∷ rows) = do
    event ← read_diff row
    events ← read_diffs rows
    some (event ∷ events)

  unfoldable pub query_diffs : PgTables → String → ℕ → ℕ → Option (List (DiffEvent Amount))
  unfolding select_diffs read_diffs
  query_diffs t symbol from to = read_diffs (select_diffs symbol from to t.diffs)

  unfoldable pub pg_repository : PgTables → Repository Amount
  unfolding query_nearest_checkpoint query_diffs
  pg_repository t = record {
    query_nearest_checkpoint = query_nearest_checkpoint t;
    query_diffs = query_diffs t;
  }
