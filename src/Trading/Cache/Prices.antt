-- ===== src/Trading/Cache/Prices.antt =====
-- What the cache of engine/execution/l2cache/cache.go holds, and when a stream's position
-- advances.
use text.Mathlib.Text.{◌==◌ as str_eq}
use text.Mathlib.TextEquality.{eq_iff}
use erebor.Prelude.{
  ◌≡◌, refl, sym, ap, ◌∙◌, true, false, ◌||◌, Option, none, some, String, List, [], ◌∷◌, arith, ◌⊎◌,
  if_cases,
}
use erebor.Prelude.Assoc.{lookup, insert, lookup-insert}
use erebor.Decimal.{Decimal, zero_amount}
use erebor.Platform.{Platform}
use erebor.Wire.{Message, string_val}
use erebor.Trading.Cache.{
  BestPrice, Cache, new, best_prices, store_prices, handle_message, handle_messages,
}

module _ (𝒟 : Decimal) (𝒫 : Platform) where
  open 𝒟 use {Amount, is_zero}

  -- Every cached bid and ask is a price other than zero.
  abbrev pub HasPrices : Cache Amount → Type 0
  HasPrices c =
      (s : String) (p : BestPrice Amount)
      → lookup s c.prices ≡ some p
      → (is_zero p.bid ≡ false) × (is_zero p.ask ≡ false)

  inserted-HasPrices :
      (c : Cache Amount) (symbol id : String) (bid ask : Amount)
      → HasPrices c
      → (is_zero bid || is_zero ask) ≡ false
      → HasPrices (record {
        prices = insert symbol (record { bid = bid; ask = ask }) c.prices;
        ids = insert symbol id c.ids;
      })
  inserted-HasPrices c symbol id bid ask h nonzero s p e =
      ground (arith, h s p, lookup-insert symbol s (record { bid = bid; ask = ask }) c.prices)

  store_prices-HasPrices :
      (c : Cache Amount) (symbol id : String) (bid ask : Option Amount)
      → HasPrices c
      → HasPrices (store_prices 𝒟 𝒫 c symbol id bid ask)
  store_prices-HasPrices c symbol id none ask h = h
  store_prices-HasPrices c symbol id (some bid) none h = h
  store_prices-HasPrices c symbol id (some bid) (some ask) h =
      if_cases HasPrices (is_zero bid || is_zero ask) (λ e. h)
        (λ e. inserted-HasPrices c symbol id bid ask h e)

  handle_message-HasPrices :
      (c : Cache Amount) (msg : Message) → HasPrices c → HasPrices (handle_message 𝒟 𝒫 c msg)
  unfolding handle_message
  handle_message-HasPrices c msg h =
      if_cases HasPrices (str_eq (string_val msg.values "symbol") "") (λ e. h)
        (λ e. store_prices-HasPrices c _ msg.id _ _ h)

  handle_messages-HasPrices :
      (c : Cache Amount) (msgs : List Message)
      → HasPrices c
      → HasPrices (handle_messages 𝒟 𝒫 c msgs)
  unfolding handle_messages
  handle_messages-HasPrices c [] h = h
  handle_messages-HasPrices c (msg ∷ msgs) h =
      handle_messages-HasPrices (handle_message 𝒟 𝒫 c msg) msgs (handle_message-HasPrices c msg h)

  new_empty : (symbols : List String) → (new 𝒟 𝒫 symbols).prices ≡ []
  unfolding new
  new_empty [] = refl
  new_empty (s ∷ symbols) = new_empty symbols

  empty-HasPrices : (c : Cache Amount) → c.prices ≡ [] → HasPrices c
  unfolding lookup
  empty-HasPrices c e s p found =
      ground (arith, ap (lookup {V = BestPrice Amount} s) (sym e) ∙ found)

  -- From a new cache on, after any messages, a pair of prices that `best_prices` returns has
  -- neither price zero.
  pub best_prices_nonzero :
      (symbols : List String) (msgs : List Message) (s : String) {p : BestPrice Amount}
      → best_prices 𝒟 𝒫 (handle_messages 𝒟 𝒫 (new 𝒟 𝒫 symbols) msgs) s ≡ some p
      → (is_zero p.bid ≡ false) × (is_zero p.ask ≡ false)
  unfolding best_prices
  best_prices_nonzero symbols msgs s {p} e =
      handle_messages-HasPrices (new 𝒟 𝒫 symbols) msgs
        (empty-HasPrices (new 𝒟 𝒫 symbols) (new_empty symbols)) (𝒫.to_upper s) p e

  -- A message of a one-sided book (no bids, or no asks) leaves the cache as it is, the position
  -- in the stream too, so the next read of the stream returns it again.
  pub one_sided_not_consumed :
      (c : Cache Amount) (msg : Message)
      → (is_zero (zero_amount 𝒟) ≡ true)
      → (string_val msg.values "bids" ≡ "") ⊎ (string_val msg.values "asks" ≡ "")
      → handle_message 𝒟 𝒫 c msg ≡ c
  unfolding handle_message
  one_sided_not_consumed c msg z h =
      ground
        (arith, eq_iff (string_val msg.values "bids") "", eq_iff (string_val msg.values "asks") "")
