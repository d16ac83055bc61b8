-- ===== src/Wire.antt =====
-- What travels on the Redis streams: messages, and the text of price levels in them
-- (`levelsToJSON` of engine/publisher/l2.go and engine/backtest/publisher/l2.go, and
-- `decodePriceLevels` of engine/signals/consumer/consumer.go and
-- engine/backtest/execution/executor.go). A message is its id and its string fields; `none` is an
-- error of a decoder, whose text is only logged.
pub mod Books
pub mod Drain
pub mod Orders
pub mod Signals
pub mod RoundTrip
pub mod Examples
use text.Mathlib.Text.{◌==◌ as str_eq}
use erebor.Prelude.{Bool, Option, none, some, String, List, [], ◌∷◌, if◌then◌else◌}
use erebor.Prelude.Assoc.{lookup}
use erebor.Decimal.{Decimal}
use erebor.Platform.{Platform}
use erebor.Ingest.Domain.{PriceLevel}

pub record Message : Type 0 where
  pub id : String
  pub values : List (String × String)

-- A missing field reads as the empty string.
abbrev pub string_val : List (String × String) → String → String
string_val values key = elim (lookup key values) [ some v ↦ v | none ↦ "" ]

infixl 5 ◌>>=◌ ◌>>◌
abbrev pub ◌>>=◌ {ℓ κ} : {A : Type ℓ} {B : Type κ} → Option A → (A → Option B) → Option B
some a >>= f = f a
none >>= f = none

abbrev pub ◌>>◌ {ℓ} : {B : Type ℓ} → Option (Unit {0}) → Option B → Option B
m >> k = m >>= λ _. k

-- An empty field is an error.
abbrev pub present : String → Option (Unit {0})
present s = if str_eq s "" then none else some tt

module _ (𝒟 : Decimal) (𝒫 : Platform) where
  open 𝒟 use {Amount, to_string, of_string}

  abbrev pub level_pairs : List (PriceLevel Amount) → List (String × String)
  level_pairs [] = []
  level_pairs (lvl ∷ levels) = (to_string lvl.price, to_string lvl.quantity) ∷ level_pairs levels

  unfoldable pub levels_to_json : List (PriceLevel Amount) → String
  levels_to_json levels = 𝒫.marshal_pairs (level_pairs levels)

  -- The loop of `decodePriceLevels`, which stops at the first pair that does not parse.
  unfoldable pub parse_pairs : List (String × String) → Option (List (PriceLevel Amount))
  parse_pairs [] = some []
  parse_pairs ((p, q) ∷ pairs) = do
    price ← of_string p
    quantity ← of_string q
    levels ← parse_pairs pairs
    some (record { price = price; quantity = quantity } ∷ levels)

  unfoldable pub decode_price_levels : String → Option (List (PriceLevel Amount))
  unfolding parse_pairs
  decode_price_levels raw =
      if str_eq raw "" then some [] else (𝒫.unmarshal_pairs raw >>= parse_pairs)
