-- ===== src/Wire/Examples.antt =====
-- Concrete messages between the services, and a run of the signals consumer
-- (engine/publisher, engine/backtest, engine/signals).
use erebor.Prelude.{arith, map, ℕ, ◌≡◌, refl, true, some, String, List, [], ◌∷◌}
use erebor.Prelude.Int.{pos, negsuc}
use erebor.Decimal.Integers.{integers, integers-IsExact}
use erebor.Platform.Sample.{platform, platform-IsFaithful}
use erebor.Ingest.Domain.{PriceLevel}
use erebor.Trading.Order.{sell, market, filled, OrderEvent}
use erebor.Trading.Signals.{all_signals}
use erebor.Trading.Consumer.{ok, decode_signal_event}
use erebor.Wire.Books.{publish}
use erebor.Wire.Orders.{publish_order, decode_order_event}
use erebor.Wire.RoundTrip.{decode-publish_order}
use erebor.Trading.SignalService.{Consumer, handle_message}
use erebor.Trading.SignalService.Flow.{book-to_signals}

abbrev pub amount : ℕ → integers.Amount
amount n = integers.of_int (pos n)

abbrev pub level : ℕ → ℕ → PriceLevel integers.Amount
level price quantity = record { price = amount price; quantity = amount quantity }

abbrev pub book_update : List (String × String)
book_update = publish integers platform "run" "btcusdt" 7 (pos 3) (level 9 4 ∷ []) (level 11 1 ∷ [])

abbrev pub order : OrderEvent integers.Amount
order = record {
  run_id = "run";
  symbol = "BTCUSDT";
  event_time = 7;
  order_id = "a";
  side = sell;
  type = market;
  price = amount 0;
  quantity = amount 1;
  status = filled;
  fill_price = amount 9;
  fill_qty = amount 1;
  fee = integers.of_int (negsuc 0);
  signal_name = "book_imbalance";
}

decode-publish_order_example :
    decode_order_event integers platform (publish_order integers platform order) ≡ some order
decode-publish_order_example =
    decode-publish_order integers integers-IsExact platform platform-IsFaithful order

abbrev consumer : Consumer
consumer = record { signal_depth = 10; published = []; acked = [] }

book-to_signals_example :
    let c' =
      handle_message integers platform
        (record consumer { published = [] })
        (record {
          message = record { id = "1-0"; values = book_update };
          publish_ok = λ sig. true;
        }) in
    map (decode_signal_event integers platform) c'.published
    ≡ map ok (
        all_signals integers
          (record {
            run_id = "run";
            symbol = "BTCUSDT";
            event_time = 7;
            last_update_id = pos 3;
            bids = level 9 4 ∷ [];
            asks = level 11 1 ∷ [];
          })
          10)
book-to_signals_example =
    book-to_signals integers platform integers-IsExact platform-IsFaithful consumer "run" "btcusdt"
      "1-0" 7 (pos 3) (level 9 4 ∷ []) (level 11 1 ∷ []) refl (omega arith, omega arith)
