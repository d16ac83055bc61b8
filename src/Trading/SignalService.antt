-- ===== src/Trading/SignalService.antt =====
-- engine/signals/consumer/consumer.go: book updates in, signals out. Each message comes with the
-- answers of the XADDs for its signals; an XACK is taken to reach Redis, as its failure is only
-- logged. `published` and `acked` are oldest first.
pub mod Flow
use erebor.Prelude.{ℕ, Bool, Option, none, some, String, List, [], ◌∷◌, ◌++◌, if◌then◌else◌}
use erebor.Decimal.{Decimal}
use erebor.Platform.{Platform}
use erebor.Trading.Signals.{L2BookUpdateEvent, SignalEvent, all_signals}
use erebor.Wire.{Message}
use erebor.Wire.Drain.{Read, arrived, idle, stopped, handle_all}
use erebor.Wire.Books.{decode_l2_book_update_event}
use erebor.Wire.Signals.{publish_signal}

pub record Delivery (A : Type 0) : Type 0 where
  pub message : Message
  pub publish_ok : SignalEvent A → Bool

pub record Consumer : Type 0 where
  pub signal_depth : ℕ
  pub published : List (List (String × String))
  pub acked : List String

module _ (𝒟 : Decimal) (𝒫 : Platform) where
  open 𝒟 use {Amount}

  -- The loop over the signals: one that cannot be published is only logged.
  unfoldable pub publish_all :
      (SignalEvent Amount → Bool) → List (SignalEvent Amount) → List (List (String × String))
  publish_all publish_ok [] = []
  publish_all publish_ok (sig ∷ signals) =
      let rest = publish_all publish_ok signals in
      if publish_ok sig then publish_signal 𝒟 𝒫 sig ∷ rest else rest

  unfoldable pub ack : Consumer → String → Consumer
  ack c id = record c { acked = c.acked ++ id ∷ [] }

  -- By the decoded event.
  unfoldable pub process :
      Consumer → String → (SignalEvent Amount → Bool) → Option (L2BookUpdateEvent Amount) → Consumer
  unfolding publish_all ack
  process c id publish_ok none = ack c id
  process c id publish_ok (some event) =
      ack
        (record c {
          published = c.published ++ publish_all publish_ok (all_signals 𝒟 event c.signal_depth);
        })
        id

  unfoldable pub handle_message : Consumer → Delivery Amount → Consumer
  unfolding process
  handle_message c d =
      process c d.message.id d.publish_ok (decode_l2_book_update_event 𝒟 𝒫 d.message.values)

  -- `readLoop`.
  unfoldable pub read_loop : Consumer → List (Read (Delivery Amount)) → Consumer
  unfolding handle_message
  read_loop c [] = c
  read_loop c (stopped ∷ reads) = c
  read_loop c (idle ∷ reads) = read_loop c reads
  read_loop c (arrived ds ∷ reads) = read_loop (handle_all handle_message c ds) reads
