-- ===== src/Ingest/Examples.antt =====
-- Concrete runs of the ingest service (engine/book, engine/symbol, engine/dispatch,
-- engine/stream).
use erebor.Prelude.{
  ◌≢◌, All, ℕ, ◌≡◌, refl, true, false, ◌⊎◌, none, some, String, List, [], ◌∷◌, ◌<◌, arith,
}
use erebor.Prelude.Assoc.{lookup}
use text.Mathlib.Text.{◌==◌ as str_eq}
use text.Mathlib.TextEquality.{eq_iff}
use erebor.Prelude.Int.{pos, inc64}
use erebor.Decimal.Integers.{integers, integers-IsExact}
use erebor.Ingest.Domain.{PriceLevel, DiffEvent, SnapshotEvent}
use erebor.Ingest.Book.{Book, apply, reset, snapshot, load_snapshot, sorted_levels, before}
use erebor.Ingest.Book
use erebor.Ingest.Book.Updates.{updated, announced, lookup-apply}
use erebor.Ingest.Book.Invariant.{IsSide, IsWellFormed, methods-IsWellFormed}
use erebor.Ingest.Book.Determinism.{sorted_levels_deterministic}
use erebor.Ingest.Book.RoundTrip.{load_snapshot-snapshot}
use erebor.Ingest.Stream
use erebor.Ingest.Stream.{Session, undecodable, panicked, run_loop}
use erebor.Ingest.Stream.Backoff.{IsPause, run_loop-pauses}
use erebor.Ingest.Handler.{
  bootstrapping, synced, Config, OrderBook, Env, Handler, new_handler, start, handle_diff,
  try_align, find_alignment_index, run_snapshot_fetch, discard_pre_snapshot,
}
use erebor.Ingest.Handler.Sequence.{Accepts, Resyncs, synced_step}
use erebor.Ingest.Handler.Invariant.{Inv, is_some}
use erebor.Ingest.Handler.Reach.{Reach, here, next, diff, run-Inv, never_stranded, fetched}
use erebor.Ingest.Handler.Alignment.{Outcome, try_align_lem}
use erebor.Ingest.Dispatch.{RawDiffEvent}
use erebor.Ingest.Handler.Tracking.{synced_book_id}

abbrev amount : ℕ → integers.Amount
amount n = integers.of_int (pos n)

abbrev level : ℕ → ℕ → PriceLevel integers.Amount
level p q = record { price = amount p; quantity = amount q }

abbrev event : ℕ → ℕ → DiffEvent integers.Amount
event first last = record {
  symbol = "BTCUSDT";
  event_time = last;
  first_update_id = pos first;
  final_update_id = pos last;
  bids = level 7 2 ∷ level 6 0 ∷ [];
  asks = level 8 4 ∷ [];
}

abbrev taken_snapshot : SnapshotEvent integers.Amount
taken_snapshot = record {
  symbol = "BTCUSDT";
  captured_at = 5;
  last_update_id = pos 10;
  bids = level 6 1 ∷ [];
  asks = level 9 3 ∷ [];
}

abbrev pub empty_book : Book integers.Amount
empty_book = record { symbol = "BTCUSDT"; bids = []; asks = []; last_update_id = pos 0 }

abbrev pub books : OrderBook integers.Amount
books = record {
  Self = Book integers.Amount;
  apply = λ b d. (apply integers b d, true);
  snapshot = snapshot integers;
  last_update_id = λ b. b.last_update_id;
  reset = reset integers;
  load_snapshot = load_snapshot integers;
}

abbrev config : Config
config = record {
  symbol = "BTCUSDT";
  depth_limit = 2;
  checkpoint_interval = 0;
  checkpoint_diff_threshold = 0;
  max_buffer_size = 3;
}

abbrev waiting : Handler books
waiting = record {
  cfg = config;
  book = empty_book;
  publishes = true;
  has_ctx = true;
  state = bootstrapping;
  buffer = event 9 12 ∷ event 13 14 ∷ [];
  snapshot = some taken_snapshot;
  snapshot_pending = false;
  snapshot_stale = false;
  last_final_update_id = pos 0;
  last_checkpoint_time = 0;
  diffs_since_checkpoint = 0;
  fetches_in_flight = 0;
  calls = [];
}

abbrev following : Handler books
following = record waiting {
  state = synced;
  buffer = [];
  snapshot = none;
  last_final_update_id = pos 14;
}

abbrev pub calm : Env
calm = record { now = 20; cancelled = false; checkpoint_ok = true }

synced_step_example :
    Accepts books following (event 16 17) (handle_diff books calm following (event 16 17))
    ⊎ Resyncs books following (event 16 17) (handle_diff books calm following (event 16 17))
synced_step_example = synced_step books calm following (event 16 17) refl

-- A first diff, and then a fetch that returns a snapshot.
abbrev run_example :
    (P : Env → Type 0)
    → P calm
    → Reach books P (start books (new_handler books config empty_book true)) (
        handle_diff books calm
          (start books (new_handler books config empty_book true))
          (event 9 12))
run_example P p = next here (diff calm (event 9 12) p)

run-Inv_example :
    Inv books 0
      (handle_diff books calm (start books (new_handler books config empty_book true)) (event 9 12))
run-Inv_example = run-Inv books (λ env. Unit) config empty_book true (run_example (λ env. Unit) tt)

never_stranded_example :
    let h =
      handle_diff books calm
        (start books (new_handler books config empty_book true))
        (event 9 12) in
    (is_some h.snapshot ≡ true) ⊎ (h.snapshot_pending ≡ true)
unfolding handle_diff start new_handler
never_stranded_example =
    never_stranded books config empty_book true (run_example (λ env. env.cancelled ≡ false) refl)
      refl

abbrev first_diff : Handler books
first_diff =
    handle_diff books calm (start books (new_handler books config empty_book true)) (event 9 12)

in_flight : 0 < first_diff.fetches_in_flight
unfolding handle_diff start new_handler
in_flight = ground arith

synced_book_id_example :
    let h = run_snapshot_fetch books calm first_diff (some taken_snapshot) in
    h.book.last_update_id ≡ h.last_final_update_id
unfolding handle_diff start new_handler run_snapshot_fetch apply load_snapshot find_alignment_index
    discard_pre_snapshot inc64
synced_book_id_example =
    synced_book_id books (λ book ev. refl) (λ book snap. refl) (λ env. Unit) config empty_book true
      (next (run_example (λ env. Unit) tt) (fetched calm (some taken_snapshot) tt in_flight)) refl

try_align_lem_example : Outcome books taken_snapshot waiting (try_align books calm waiting)
try_align_lem_example = try_align_lem books (λ book ev. refl) calm waiting taken_snapshot refl

abbrev priced : ℕ → String
priced n = integers.to_string (amount n)

abbrev side : List (String × integers.Amount)
side = (priced 6, amount 1) ∷ (priced 7, amount 2) ∷ []

abbrev swapped : List (String × integers.Amount)
swapped = (priced 7, amount 2) ∷ (priced 6, amount 1) ∷ []

abbrev full_book : Book integers.Amount
full_book = record {
  symbol = "BTCUSDT";
  bids = side;
  asks = (priced 9, amount 3) ∷ [];
  last_update_id = pos 10;
}

side-IsSide : IsSide integers side
unfolding integers lookup
side-IsSide = record {
  distinct = (refl, (refl, tt));
  canonical = ((amount 6, refl), refl, ((amount 7, refl), refl, tt));
}

swapped-IsSide : IsSide integers swapped
unfolding integers lookup
swapped-IsSide = record {
  distinct = (refl, (refl, tt));
  canonical = ((amount 7, refl), refl, ((amount 6, refl), refl, tt));
}

full_book-IsWellFormed : IsWellFormed integers full_book
unfolding integers lookup
full_book-IsWellFormed = record {
  bids_ok = side-IsSide;
  asks_ok = record { distinct = (refl, tt); canonical = ((amount 9, refl), refl, tt) };
}

distinct_prices : str_eq (priced 6) (priced 7) ≡ false
unfolding integers
distinct_prices = refl

same_entries : (k : String) → lookup k side ≡ lookup k swapped
unfolding lookup
same_entries k = ground (arith, eq_iff (priced 6) k, eq_iff (priced 7) k, distinct_prices)

lookup-apply_example :
    let b' = apply integers full_book (event 11 12) in
    (lookup (priced 6) b'.bids
      ≡ updated integers
          (lookup (priced 6) side)
          (announced integers (priced 6) (event 11 12).bids))
    × (lookup (priced 6) b'.asks
        ≡ updated integers
            (lookup (priced 6) full_book.asks)
            (announced integers (priced 6) (event 11 12).asks))
    × (b'.last_update_id ≡ pos 12)
lookup-apply_example = lookup-apply integers full_book (event 11 12) (priced 6)

sorted_levels_deterministic_example :
    sorted_levels integers side true 1 ≡ sorted_levels integers swapped true 1
sorted_levels_deterministic_example =
    sorted_levels_deterministic integers integers-IsExact side swapped true 1 side-IsSide
      swapped-IsSide same_entries

load_snapshot-snapshot_example :
    let b' = load_snapshot integers empty_book (snapshot integers full_book 0 5) in
    (lookup (priced 7) b'.bids ≡ lookup (priced 7) side)
    × (lookup (priced 7) b'.asks ≡ lookup (priced 7) full_book.asks)
    × (b'.last_update_id ≡ pos 10)
load_snapshot-snapshot_example =
    load_snapshot-snapshot integers integers-IsExact full_book empty_book 5 (priced 7)
      full_book-IsWellFormed

methods-IsWellFormed_example :
    IsWellFormed integers (Book.new integers "BTCUSDT")
    × IsWellFormed integers (reset integers full_book)
    × IsWellFormed integers (apply integers full_book (event 11 12))
    × IsWellFormed integers (load_snapshot integers full_book taken_snapshot)
methods-IsWellFormed_example =
    methods-IsWellFormed integers "BTCUSDT" full_book (event 11 12) taken_snapshot
      full_book-IsWellFormed

abbrev pub raw : String → RawDiffEvent
raw symbol = record {
  symbol = symbol;
  event_time_ms = pos 5;
  first_update_id = pos 11;
  final_update_id = pos 12;
  bids = (priced 6 ∷ priced 0 ∷ []) ∷ [];
  asks = [];
}

abbrev stream_config : Stream.Config
stream_config = record { initial_delay = 1; max_delay = 3 }

abbrev session : Session
session = record {
  cancelled_before = false;
  frames = undecodable ∷ [];
  cancelled_during = false;
  random = 2;
  cancelled_waiting = false;
}

run_loop-pauses_example :
    ((run_loop stream_config (Stream.start stream_config) (session ∷ session ∷ [])).1 ≢ panicked)
    × All
        (IsPause stream_config)
        (run_loop stream_config (Stream.start stream_config) (session ∷ session ∷ [])).0.waits
run_loop-pauses_example =
    run_loop-pauses stream_config (session ∷ session ∷ []) (omega arith) (omega arith) (omega arith)
