-- ===== src/Backtest/Executor/Shutdown.antt =====
-- The end of a symbol's loop (engine/backtest/execution/executor.go): the reader, then the drain.
use text.Mathlib.Text.{◌==◌ as str_eq}
use erebor.Prelude.{
  ℕ, ◌<◌, ◌≡◌, refl, sym, ap, ◌∙◌, false, Option, some, String, List, [], ◌∷◌, ◌++◌, length, All,
}
use erebor.Decimal.{Decimal}
use erebor.Platform.{Platform}
use erebor.Trading.Risk.{HaltStore}
use erebor.Wire.Drain.{
  Read, arrived, idle, stopped, delivered, last_id, handle_all, ReadsInOrder, last_id-append,
  handle_all-append, drain_lem,
}
use erebor.Backtest.Executor.{
  Arrival, Executor, handle_l2, process_l2_batch, run_l2_reader, drain_l2, symbol_loop,
}

abbrev pub arrival_id : Arrival → String
arrival_id a = a.message.id

module _ (𝒟 : Decimal) (𝒫 : Platform) (S : HaltStore) where
  process_l2_batch_lem :
      (e : Executor 𝒟 𝒫 S) (id : String) (msgs : List Arrival)
      → process_l2_batch 𝒟 𝒫 S e id msgs
        ≡ (handle_all (handle_l2 𝒟 𝒫 S) e msgs, last_id arrival_id id msgs)
  unfolding process_l2_batch
  process_l2_batch_lem e id [] = refl
  process_l2_batch_lem e id (a ∷ msgs) =
      process_l2_batch_lem (handle_l2 𝒟 𝒫 S e a) a.message.id msgs

  run_l2_reader_lem :
      (e : Executor 𝒟 𝒫 S) (id : String) (reads : List (Read Arrival))
      → run_l2_reader 𝒟 𝒫 S e id reads ≡ (
        handle_all (handle_l2 𝒟 𝒫 S) e (delivered reads),
        last_id arrival_id id (delivered reads),
      )
  unfolding run_l2_reader
  run_l2_reader_lem e id [] = refl
  run_l2_reader_lem e id (stopped ∷ reads) = refl
  run_l2_reader_lem e id (idle ∷ reads) = run_l2_reader_lem e id reads
  run_l2_reader_lem e id (arrived msgs ∷ reads) =
      ap (λ r. run_l2_reader 𝒟 𝒫 S r.0 r.1 reads) (process_l2_batch_lem e id msgs)
      ∙ run_l2_reader_lem (handle_all (handle_l2 𝒟 𝒫 S) e msgs) (last_id arrival_id id msgs) reads
      ∙ cc (
        handle_all-append (handle_l2 𝒟 𝒫 S) e msgs (delivered reads),
        last_id-append arrival_id id msgs (delivered reads),
      )

  -- The loop of a symbol ends and has handled every message of its stream once and in order:
  -- those that the reader got before the context was cancelled, then, with more fuel than
  -- messages are left, the rest. No message has the id 0-0, and XRANGE reads in order.
  pub symbol_loop_lem :
      (range : String → ℕ → Option (List Arrival)) (entries : List Arrival) (fuel : ℕ)
      (e : Executor 𝒟 𝒫 S) (reads : List (Read Arrival)) (left : List Arrival)
      → ReadsInOrder arrival_id range entries
      → delivered reads ++ left ≡ entries
      → All (λ a. str_eq a.message.id "0-0" ≡ false) (delivered reads)
      → length left < fuel
      → symbol_loop 𝒟 𝒫 S range fuel e reads ≡ some (handle_all (handle_l2 𝒟 𝒫 S) e entries)
  unfolding symbol_loop drain_l2
  symbol_loop_lem range entries fuel e reads left order whole named h =
      ap (λ r. drain_l2 𝒟 𝒫 S range fuel r.0 r.1) (run_l2_reader_lem e "0-0" reads)
      ∙ drain_lem arrival_id range (handle_l2 𝒟 𝒫 S) 19 entries order fuel
          (handle_all (handle_l2 𝒟 𝒫 S) e (delivered reads)) (delivered reads) left whole named h
      ∙ ap some (
          sym (handle_all-append (handle_l2 𝒟 𝒫 S) e (delivered reads) left)
          ∙ ap (handle_all (handle_l2 𝒟 𝒫 S) e) whole)
