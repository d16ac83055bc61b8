-- ===== src/Wire/RoundTrip.antt =====
-- What one service writes to a stream the next one reads back: the publishers and decoders of
-- engine/publisher, engine/backtest, engine/signals and engine/execution.
use text.Mathlib.Text.{◌==◌ as str_eq}
use erebor.Prelude.{ℕ, ◌≡◌, refl, false, some, String, List, [], ◌∷◌}
use erebor.Prelude.Int.{ℤ, IsInt64}
use erebor.Prelude.Assoc.{lookup}
use erebor.Decimal.{Decimal, IsExact}
use erebor.Platform.{Platform, IsFaithful}
use erebor.Ingest.Domain.{PriceLevel}
use erebor.Trading.Order.{
  Side, buy, sell, other, OrderType, limit, market, other_type, OrderStatus, pending, opened,
  partially_filled, filled, cancelled, other_status, OrderEvent, side_text, side_of_text,
  order_type_text, order_type_of_text, order_status_text, order_status_of_text,
}
use erebor.Trading.Signals.{SignalEvent}
use erebor.Trading.Consumer.{ok, decode_signal_event}
use erebor.Wire.{level_pairs, levels_to_json, parse_pairs, decode_price_levels}
use erebor.Wire.Books.{publish, decode_l2_book_update_event, decode_l2_event}
use erebor.Wire.Orders.{publish_order, decode_order_event}
use erebor.Wire.Signals.{publish_signal}

side_of_text-side_text : (s : Side) → side_of_text (side_text s) ≡ s
unfolding side_of_text side_text
side_of_text-side_text buy = refl
side_of_text-side_text sell = refl
side_of_text-side_text other = refl

order_type-round_trip : (t : OrderType) → order_type_of_text (order_type_text t) ≡ t
unfolding order_type_of_text order_type_text
order_type-round_trip limit = refl
order_type-round_trip market = refl
order_type-round_trip other_type = refl

order_status-round_trip : (s : OrderStatus) → order_status_of_text (order_status_text s) ≡ s
unfolding order_status_of_text order_status_text
order_status-round_trip pending = refl
order_status-round_trip opened = refl
order_status-round_trip partially_filled = refl
order_status-round_trip filled = refl
order_status-round_trip cancelled = refl
order_status-round_trip other_status = refl

module _ (𝒟 : Decimal) (ℒ : IsExact 𝒟) (𝒫 : Platform) (ℱ : IsFaithful 𝒫) where
  open 𝒟 use {Amount, to_string, of_string}

  parse_pairs-level_pairs :
      (levels : List (PriceLevel Amount)) → parse_pairs 𝒟 𝒫 (level_pairs 𝒟 𝒫 levels) ≡ some levels
  unfolding parse_pairs
  parse_pairs-level_pairs [] = refl
  parse_pairs-level_pairs (l ∷ levels) =
      rw
        (
          ℒ.of_string-to_string l.price,
          ℒ.of_string-to_string l.quantity,
          parse_pairs-level_pairs levels,
        )
        refl

  pub decode_price_levels-levels_to_json :
      (levels : List (PriceLevel Amount))
      → decode_price_levels 𝒟 𝒫 (levels_to_json 𝒟 𝒫 levels) ≡ some levels
  unfolding decode_price_levels levels_to_json
  decode_price_levels-levels_to_json levels =
      rw (ℱ.marshal_nonempty (level_pairs 𝒟 𝒫 levels), ℱ.unmarshal-marshal (level_pairs 𝒟 𝒫 levels))
        (parse_pairs-level_pairs levels)

  -- A published book update reads back as itself, at the signals consumer and at the backtest's
  -- executor, if the name of its symbol is not empty and its update id is an int64; only the name
  -- is put in capitals.
  pub decode-publish :
      (run_id symbol : String) (event_time : ℕ) (id : ℤ) (bids asks : List (PriceLevel Amount))
      → str_eq (𝒫.to_upper symbol) "" ≡ false
      → IsInt64 id
      → let values = publish 𝒟 𝒫 run_id symbol event_time id bids asks in
        (decode_l2_book_update_event 𝒟 𝒫 values
          ≡ some (record {
            run_id = run_id;
            symbol = 𝒫.to_upper symbol;
            event_time = event_time;
            last_update_id = id;
            bids = bids;
            asks = asks;
          }))
        × (decode_l2_event 𝒟 𝒫 values
            ≡ some (record { run_id = run_id; event_time = event_time; bids = bids; asks = asks }))
  unfolding publish decode_l2_book_update_event decode_l2_event lookup
  decode-publish run_id symbol event_time id bids asks named i =
      rw
        (
          named,
          ℱ.format_time_nonempty event_time,
          ℱ.parse_time-format_time event_time,
          ℱ.marshal_nonempty (level_pairs 𝒟 𝒫 bids),
          ℱ.unmarshal-marshal (level_pairs 𝒟 𝒫 bids),
          parse_pairs-level_pairs bids,
          ℱ.marshal_nonempty (level_pairs 𝒟 𝒫 asks),
          ℱ.unmarshal-marshal (level_pairs 𝒟 𝒫 asks),
          parse_pairs-level_pairs asks,
          ℱ.format_int_nonempty id,
          ℱ.parse-format_int id i,
        )
        (refl, refl)

  -- A published order reads back as itself at the collector, all fields.
  pub decode-publish_order :
      (order : OrderEvent Amount) → decode_order_event 𝒟 𝒫 (publish_order 𝒟 𝒫 order) ≡ some order
  unfolding publish_order decode_order_event lookup
  decode-publish_order order =
      rw
        (
          ℱ.format_time_nonempty order.event_time,
          ℱ.parse_time-format_time order.event_time,
          ℒ.to_string_nonempty order.price,
          ℒ.of_string-to_string order.price,
          ℒ.to_string_nonempty order.quantity,
          ℒ.of_string-to_string order.quantity,
          ℒ.to_string_nonempty order.fill_price,
          ℒ.of_string-to_string order.fill_price,
          ℒ.to_string_nonempty order.fill_qty,
          ℒ.of_string-to_string order.fill_qty,
          ℒ.to_string_nonempty order.fee,
          ℒ.of_string-to_string order.fee,
          side_of_text-side_text order.side,
          order_type-round_trip order.type,
          order_status-round_trip order.status,
        )
        refl

  -- A published signal of a named symbol reads back as itself at the execution service.
  pub decode-publish_signal :
      (sig : SignalEvent Amount)
      → str_eq sig.symbol "" ≡ false
      → decode_signal_event 𝒟 𝒫 (publish_signal 𝒟 𝒫 sig) ≡ ok sig
  unfolding publish_signal decode_signal_event lookup
  decode-publish_signal sig named =
      rw
        (
          named,
          ℱ.format_time_nonempty sig.event_time,
          ℱ.parse_time_z-format_time sig.event_time,
          ℒ.to_string_nonempty sig.value,
          ℒ.of_string-to_string sig.value,
        )
        refl
