-- ===== src/Wire/Books.antt =====
-- Book updates on a stream: `Publish` of engine/publisher/l2.go and engine/backtest/publisher/l2.go
-- writes the fields, `decodeL2BookUpdateEvent` of engine/signals/consumer/consumer.go and
-- `decodeL2Event` of engine/backtest/execution/executor.go read them.
use text.Mathlib.Text.{◌==◌ as str_eq}
use erebor.Prelude.{ℕ, Option, some, String, List, [], ◌∷◌, if◌then◌else◌}
use erebor.Prelude.Int.{ℤ, pos}
use erebor.Decimal.{Decimal}
use erebor.Platform.{Platform}
use erebor.Ingest.Domain.{PriceLevel}
use erebor.Trading.Signals.{L2BookUpdateEvent}
use erebor.Wire.{string_val, ◌>>=◌, ◌>>◌, present, levels_to_json, decode_price_levels}

-- l2EventData of the executor.
pub record L2EventData (A : Type 0) : Type 0 where
  pub run_id : String
  pub event_time : ℕ
  pub bids : List (PriceLevel A)
  pub asks : List (PriceLevel A)

module _ (𝒟 : Decimal) (𝒫 : Platform) where
  open 𝒟 use {Amount}

  unfoldable pub publish :
      String
      → String
      → ℕ
      → ℤ
      → List (PriceLevel Amount)
      → List (PriceLevel Amount)
      → List (String × String)
  unfolding levels_to_json
  publish run_id symbol event_time last_update_id bids asks =
      ("run_id", run_id)
      ∷ ("symbol", 𝒫.to_upper symbol)
      ∷ ("event_time", 𝒫.format_time event_time)
      ∷ ("last_update_id", 𝒫.format_int last_update_id)
      ∷ ("bids", levels_to_json 𝒟 𝒫 bids)
      ∷ ("asks", levels_to_json 𝒟 𝒫 asks)
      ∷ []

  -- An id that is missing reads as 0.
  abbrev pub id_or_zero : String → ℤ
  id_or_zero s = if str_eq s "" then pos 0 else 𝒫.parse_int s

  unfoldable pub decode_l2_book_update_event :
      List (String × String) → Option (L2BookUpdateEvent Amount)
  unfolding decode_price_levels
  decode_l2_book_update_event values = do
    let sym = string_val values "symbol"
    let ts = string_val values "event_time"
    present sym
    present ts
    time ← 𝒫.parse_time ts
    bids ← decode_price_levels 𝒟 𝒫 (string_val values "bids")
    asks ← decode_price_levels 𝒟 𝒫 (string_val values "asks")
    some (record {
      run_id = string_val values "run_id";
      symbol = sym;
      event_time = time;
      last_update_id = id_or_zero (string_val values "last_update_id");
      bids = bids;
      asks = asks;
    })

  unfoldable pub decode_l2_event : List (String × String) → Option (L2EventData Amount)
  unfolding decode_price_levels
  decode_l2_event values = do
    let ts = string_val values "event_time"
    present ts
    time ← 𝒫.parse_time ts
    bids ← decode_price_levels 𝒟 𝒫 (string_val values "bids")
    asks ← decode_price_levels 𝒟 𝒫 (string_val values "asks")
    some (record {
      run_id = string_val values "run_id";
      event_time = time;
      bids = bids;
      asks = asks;
    })
