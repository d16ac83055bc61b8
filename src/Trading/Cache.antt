-- ===== src/Trading/Cache.antt =====
-- engine/execution/l2cache/cache.go: the best bid and ask of each symbol.
pub mod Prices
use text.Mathlib.Text.{◌==◌ as str_eq}
use erebor.Prelude.{◌||◌, Option, none, some, String, List, [], ◌∷◌, if◌then◌else◌}
use erebor.Prelude.Assoc.{lookup, insert}
use erebor.Decimal.{Decimal, zero_amount}
use erebor.Platform.{Platform}
use erebor.Wire.{Message, string_val}

pub record BestPrice (A : Type 0) : Type 0 where
  pub bid : A
  pub ask : A

pub record Cache (A : Type 0) : Type 0 where
  pub prices : List (String × BestPrice A)
  pub ids : List (String × String)

module _ (𝒟 : Decimal) (𝒫 : Platform) where
  open 𝒟 use {Amount, of_string, is_zero}

  unfoldable pub new : List String → Cache Amount
  new [] = record { prices = []; ids = [] }
  new (sym ∷ symbols) =
      let rest = new symbols in record rest { ids = insert (𝒫.to_upper sym) "0" rest.ids }

  unfoldable pub best_prices : Cache Amount → String → Option (BestPrice Amount)
  best_prices c symbol = lookup (𝒫.to_upper symbol) c.prices

  abbrev pub first_price : Option (List (String × String)) → Option Amount
  first_price none = none
  first_price (some []) = some (zero_amount 𝒟)
  first_price (some ((price, qty) ∷ pairs)) = of_string price

  -- `none` is an error.
  unfoldable pub best_price_from_json : String → Option Amount
  best_price_from_json raw =
      if str_eq raw "" then some (zero_amount 𝒟) else first_price (𝒫.unmarshal_pairs raw)

  abbrev pub store_prices :
      Cache Amount → String → String → Option Amount → Option Amount → Cache Amount
  store_prices c sym id none ask = c
  store_prices c sym id (some bid) none = c
  store_prices c sym id (some bid) (some ask) = if is_zero bid || is_zero ask then c else record {
    prices = insert sym (record { bid = bid; ask = ask }) c.prices;
    ids = insert sym id c.ids;
  }

  unfoldable pub handle_message : Cache Amount → Message → Cache Amount
  unfolding best_price_from_json
  handle_message c msg =
      let sym = string_val msg.values "symbol" in
      if str_eq sym ""
      then c
      else store_prices c (𝒫.to_upper sym) msg.id
          (best_price_from_json (string_val msg.values "bids"))
          (best_price_from_json (string_val msg.values "asks"))

  unfoldable pub handle_messages : Cache Amount → List Message → Cache Amount
  handle_messages c [] = c
  handle_messages c (msg ∷ msgs) = handle_messages (handle_message c msg) msgs
