-- ===== src/Backtest/Collector/Loops.antt =====
-- The loops of engine/backtest/collector/collector.go over their streams.
use text.Mathlib.Text.{◌==◌ as str_eq}
use text.Mathlib.TextEquality.{eq_iff}
use erebor.Prelude.{
  ℕ, ◌+◌, ◌<◌, ◌≡◌, refl, sym, ap, ◌∙◌, false, Option, none, some, String, List, [], ◌∷◌, ◌++◌,
  if◌then◌else◌, length, All, arith,
}
use erebor.Prelude.Assoc.{lookup, lookup-insert}
use erebor.Decimal.{Decimal}
use erebor.Platform.{Platform}
use erebor.Wire.{Message, string_val}
use erebor.Wire.Drain.{
  Read, arrived, idle, stopped, delivered, last_id, handle_all, ReadsInOrder, last_id-append,
  handle_all-append, drain_lem,
}
use erebor.Backtest.Collector.{
  Collector, handle_signal, count_order, process_order_batch, run_orders_reader, drain_orders,
  orders_loop, signals_loop,
}

abbrev pub message_id : Message → String
message_id msg = msg.id

module _ (𝒟 : Decimal) (𝒫 : Platform) where
  process_order_batch_lem :
      (c : Collector 𝒟 𝒫 × ℕ) (id : String) (msgs : List Message)
      → process_order_batch 𝒟 𝒫 c id msgs
        ≡ (handle_all (count_order 𝒟 𝒫) c msgs, last_id message_id id msgs)
  unfolding process_order_batch
  process_order_batch_lem c id [] = refl
  process_order_batch_lem c id (msg ∷ msgs) =
      process_order_batch_lem (count_order 𝒟 𝒫 c msg) msg.id msgs

  run_orders_reader_lem :
      (c : Collector 𝒟 𝒫 × ℕ) (id : String) (reads : List (Read Message))
      → run_orders_reader 𝒟 𝒫 c id reads ≡ (
        handle_all (count_order 𝒟 𝒫) c (delivered reads),
        last_id message_id id (delivered reads),
      )
  unfolding run_orders_reader
  run_orders_reader_lem c id [] = refl
  run_orders_reader_lem c id (stopped ∷ reads) = refl
  run_orders_reader_lem c id (idle ∷ reads) = run_orders_reader_lem c id reads
  run_orders_reader_lem c id (arrived msgs ∷ reads) =
      ap (λ r. run_orders_reader 𝒟 𝒫 r.0 r.1 reads) (process_order_batch_lem c id msgs)
      ∙ run_orders_reader_lem (handle_all (count_order 𝒟 𝒫) c msgs) (last_id message_id id msgs)
          reads
      ∙ cc (
        handle_all-append (count_order 𝒟 𝒫) c msgs (delivered reads),
        last_id-append message_id id msgs (delivered reads),
      )

  -- The loop over the orders ends and has taken every order of the stream once and in order,
  -- before and after the context was cancelled, with more fuel than orders are left for the
  -- drain. No message has the id 0-0, and XRANGE reads in order.
  pub orders_loop_lem :
      (range : String → ℕ → Option (List Message)) (entries : List Message) (fuel : ℕ)
      (c : Collector 𝒟 𝒫) (reads : List (Read Message)) (left : List Message)
      → ReadsInOrder message_id range entries
      → delivered reads ++ left ≡ entries
      → All (λ msg. str_eq msg.id "0-0" ≡ false) (delivered reads)
      → length left < fuel
      → orders_loop 𝒟 𝒫 range fuel c reads ≡ some (handle_all (count_order 𝒟 𝒫) (c, 0) entries)
  unfolding orders_loop drain_orders
  orders_loop_lem range entries fuel c reads left order whole named h =
      ap (λ r. drain_orders 𝒟 𝒫 range fuel r.0 r.1) (run_orders_reader_lem (c, 0) "0-0" reads)
      ∙ drain_lem message_id range (count_order 𝒟 𝒫) 99 entries order fuel
          (handle_all (count_order 𝒟 𝒫) (c, 0) (delivered reads)) (delivered reads) left whole named
          h
      ∙ ap some (
          sym (handle_all-append (count_order 𝒟 𝒫) (c, 0) (delivered reads) left)
          ∙ ap (handle_all (count_order 𝒟 𝒫) (c, 0)) whole)

  abbrev pub count_of : List (String × ℕ) → String → ℕ
  count_of counts symbol = elim (lookup symbol counts) [ some n ↦ n | none ↦ 0 ]

  -- How many messages are about the symbol.
  abbrev pub signals_of : String → List Message → ℕ
  signals_of symbol [] = 0
  signals_of symbol (msg ∷ msgs) =
      let n = signals_of symbol msgs in
      if str_eq (𝒫.to_upper (string_val msg.values "symbol")) symbol then 1 + n else n

  handle_all_signals :
      (c : Collector 𝒟 𝒫) (msgs : List Message) (symbol : String)
      → let c' = handle_all (handle_signal 𝒟 𝒫) c msgs in
        (count_of c'.signal_counts symbol
          ≡ count_of c.signal_counts symbol + signals_of symbol msgs)
        × (c'.total_signals ≡ c.total_signals + length msgs)
  unfolding handle_signal
  handle_all_signals c [] symbol = (omega arith, omega arith)
  handle_all_signals c (msg ∷ msgs) symbol =
      let key = 𝒫.to_upper (string_val msg.values "symbol") in
      let r = handle_all_signals (handle_signal 𝒟 𝒫 c msg) msgs symbol in
      (
        ground (
          arith,
          r.0,
          eq_iff key symbol,
          lookup-insert key symbol (elim (lookup key c.signal_counts) [ some n ↦ n + 1 | none ↦ 1 ])
              c.signal_counts,
        ),
        omega (arith, r.1),
      )

  signals_loop_lem :
      (c : Collector 𝒟 𝒫) (reads : List (Read Message))
      → signals_loop 𝒟 𝒫 c reads ≡ handle_all (handle_signal 𝒟 𝒫) c (delivered reads)
  unfolding signals_loop
  signals_loop_lem c [] = refl
  signals_loop_lem c (stopped ∷ reads) = refl
  signals_loop_lem c (idle ∷ reads) = signals_loop_lem c reads
  signals_loop_lem c (arrived msgs ∷ reads) =
      signals_loop_lem (handle_all (handle_signal 𝒟 𝒫) c msgs) reads
      ∙ sym (handle_all-append (handle_signal 𝒟 𝒫) c msgs (delivered reads))

  -- The loop over the signals counts each message that it is given once, in total and for the
  -- symbol of the message in capitals.
  pub signals_loop-counts :
      (c : Collector 𝒟 𝒫) (reads : List (Read Message)) (symbol : String)
      → let c' = signals_loop 𝒟 𝒫 c reads in
        (count_of c'.signal_counts symbol
          ≡ count_of c.signal_counts symbol + signals_of symbol (delivered reads))
        × (c'.total_signals ≡ c.total_signals + length (delivered reads))
  signals_loop-counts c reads symbol =
      rw (signals_loop_lem c reads) (handle_all_signals c (delivered reads) symbol)
