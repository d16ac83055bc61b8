-- ===== src/Trading/SignalService/Flow.antt =====
-- What the signals consumer (engine/signals/consumer/consumer.go) acknowledges and publishes, and
-- what the execution service reads of it.
use text.Mathlib.Text.{◌==◌ as str_eq}
use erebor.Prelude.{
  ℕ, ◌≡◌, refl, sym, ap, ◌∙◌, Bool, true, false, Option, none, some, String, List, [], ◌∷◌, ◌++◌,
  map, append_nil, append_assoc,
}
use erebor.Prelude.Int.{ℤ, IsInt64}
use erebor.Decimal.{Decimal, IsExact}
use erebor.Platform.{Platform, IsFaithful}
use erebor.Ingest.Domain.{PriceLevel}
use erebor.Trading.Signals.{
  L2BookUpdateEvent, SignalEvent, all_signals, book_imbalance, spread_bps, mid_price,
}
use erebor.Trading.Consumer.{ok, decode_signal_event}
use erebor.Wire.Drain.{Read, arrived, idle, stopped, delivered, handle_all, handle_all-append}
use erebor.Wire.Books.{publish}
use erebor.Wire.RoundTrip.{decode-publish, decode-publish_signal}
use erebor.Trading.SignalService.{
  Delivery, Consumer, publish_all, ack, process, handle_message, read_loop,
}

module _ (𝒟 : Decimal) (𝒫 : Platform) where
  open 𝒟 use {Amount}

  abbrev pub ids : List (Delivery Amount) → List String
  ids ds = map (λ d. d.message.id) ds

  read_loop_lem :
      (c : Consumer) (reads : List (Read (Delivery Amount)))
      → read_loop 𝒟 𝒫 c reads ≡ handle_all (handle_message 𝒟 𝒫) c (delivered reads)
  unfolding read_loop
  read_loop_lem c [] = refl
  read_loop_lem c (stopped ∷ reads) = refl
  read_loop_lem c (idle ∷ reads) = read_loop_lem c reads
  read_loop_lem c (arrived ds ∷ reads) =
      read_loop_lem (handle_all (handle_message 𝒟 𝒫) c ds) reads
      ∙ sym (handle_all-append (handle_message 𝒟 𝒫) c ds (delivered reads))

  acked-process :
      (c : Consumer) (id : String) (publish_ok : SignalEvent Amount → Bool)
      (o : Option (L2BookUpdateEvent Amount))
      → (process 𝒟 𝒫 c id publish_ok o).acked ≡ c.acked ++ id ∷ []
  unfolding process ack
  acked-process c id publish_ok none = refl
  acked-process c id publish_ok (some event) = refl

  acked-handle_all :
      (c : Consumer) (ds : List (Delivery Amount))
      → (handle_all (handle_message 𝒟 𝒫) c ds).acked ≡ c.acked ++ ids ds
  unfolding handle_message
  acked-handle_all c [] = sym (append_nil c.acked)
  acked-handle_all c (d ∷ ds) =
      acked-handle_all (handle_message 𝒟 𝒫 c d) ds
      ∙ ap (λ xs. xs ++ ids ds) (acked-process c d.message.id d.publish_ok _)
      ∙ append_assoc c.acked (d.message.id ∷ []) (ids ds)

  -- Every message that is delivered before the end is acknowledged once, in order, whether it
  -- decodes or not and whichever of its signals cannot be published.
  pub acked-read_loop :
      (c : Consumer) (reads : List (Read (Delivery Amount)))
      → (read_loop 𝒟 𝒫 c reads).acked ≡ c.acked ++ ids (delivered reads)
  acked-read_loop c reads =
      ap (λ k. k.acked) (read_loop_lem c reads) ∙ acked-handle_all c (delivered reads)

  module _ (ℒ : IsExact 𝒟) (ℱ : IsFaithful 𝒫) where
    -- A book update that the ingest service or a replay published, of a named symbol and with an
    -- int64 as its update id, becomes three signals, which the execution service decodes as the
    -- signals of that very book, if they can be published.
    pub book-to_signals :
        (c : Consumer) (run_id symbol id : String) (event_time : ℕ) (last_update_id : ℤ)
        (bids asks : List (PriceLevel Amount))
        → str_eq (𝒫.to_upper symbol) "" ≡ false
        → IsInt64 last_update_id
        → let event : L2BookUpdateEvent Amount = record {
          run_id = run_id;
          symbol = 𝒫.to_upper symbol;
          event_time = event_time;
          last_update_id = last_update_id;
          bids = bids;
          asks = asks;
        } in
          let c' =
            handle_message 𝒟 𝒫
              (record c { published = [] })
              (record {
                message = record {
                  id = id;
                  values = publish 𝒟 𝒫 run_id symbol event_time last_update_id bids asks;
                };
                publish_ok = λ sig. true;
              }) in
          map (decode_signal_event 𝒟 𝒫) c'.published ≡ map ok (all_signals 𝒟 event c.signal_depth)
    unfolding handle_message process publish_all ack all_signals book_imbalance spread_bps mid_price
    book-to_signals c run_id symbol id event_time last_update_id bids asks named i =
        let event : L2BookUpdateEvent Amount = record {
          run_id = run_id;
          symbol = 𝒫.to_upper symbol;
          event_time = event_time;
          last_update_id = last_update_id;
          bids = bids;
          asks = asks;
        } in
        ap
          (λ o.
            map (decode_signal_event 𝒟 𝒫)
              (process 𝒟 𝒫 (record c { published = [] }) id (λ sig. true) o).published)
          (decode-publish 𝒟 ℒ 𝒫 ℱ run_id symbol event_time last_update_id bids asks named i).0
        ∙ cc (
          decode-publish_signal 𝒟 ℒ 𝒫 ℱ (book_imbalance 𝒟 event c.signal_depth) named,
          decode-publish_signal 𝒟 ℒ 𝒫 ℱ (spread_bps 𝒟 event) named,
          decode-publish_signal 𝒟 ℒ 𝒫 ℱ (mid_price 𝒟 event) named,
        )
