-- ===== src/Wire/Orders.antt =====
-- Orders on a stream: `publishOrder` of engine/backtest/execution/executor.go and `Publish` of
-- engine/execution/order/publisher.go write the fields, `decodeOrderEvent` of
-- engine/backtest/collector/collector.go reads them.
use text.Mathlib.Text.{◌==◌ as str_eq}
use erebor.Prelude.{Option, some, String, List, [], ◌∷◌, if◌then◌else◌}
use erebor.Decimal.{Decimal, zero_amount}
use erebor.Platform.{Platform}
use erebor.Trading.Order.{
  OrderEvent, side_text, side_of_text, order_type_text, order_type_of_text, order_status_text,
  order_status_of_text,
}
use erebor.Wire.{string_val, ◌>>=◌, ◌>>◌, present}

module _ (𝒟 : Decimal) (𝒫 : Platform) where
  open 𝒟 use {Amount, to_string, of_string}

  unfoldable pub publish_order : OrderEvent Amount → List (String × String)
  unfolding side_text order_type_text order_status_text
  publish_order order =
      ("run_id", order.run_id)
      ∷ ("symbol", order.symbol)
      ∷ ("event_time", 𝒫.format_time order.event_time)
      ∷ ("order_id", order.order_id)
      ∷ ("side", side_text order.side)
      ∷ ("type", order_type_text order.type)
      ∷ ("price", to_string order.price)
      ∷ ("quantity", to_string order.quantity)
      ∷ ("status", order_status_text order.status)
      ∷ ("fill_price", to_string order.fill_price)
      ∷ ("fill_qty", to_string order.fill_qty)
      ∷ ("fee", to_string order.fee)
      ∷ ("signal_name", order.signal_name)
      ∷ []

  -- An empty field is zero.
  unfoldable pub decimal_val : List (String × String) → String → Option Amount
  decimal_val values key =
      let s = string_val values key in if str_eq s "" then some (zero_amount 𝒟) else of_string s

  unfoldable pub decode_order_event : List (String × String) → Option (OrderEvent Amount)
  unfolding decimal_val side_of_text order_type_of_text order_status_of_text
  decode_order_event values = do
    let ts = string_val values "event_time"
    present ts
    time ← 𝒫.parse_time ts
    price ← decimal_val values "price"
    quantity ← decimal_val values "quantity"
    fill_price ← decimal_val values "fill_price"
    fill_qty ← decimal_val values "fill_qty"
    fee ← decimal_val values "fee"
    some (record {
      run_id = string_val values "run_id";
      symbol = string_val values "symbol";
      event_time = time;
      order_id = string_val values "order_id";
      side = side_of_text (string_val values "side");
      type = order_type_of_text (string_val values "type");
      price = price;
      quantity = quantity;
      status = order_status_of_text (string_val values "status");
      fill_price = fill_price;
      fill_qty = fill_qty;
      fee = fee;
      signal_name = string_val values "signal_name";
    })
