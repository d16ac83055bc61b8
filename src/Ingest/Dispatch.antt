-- ===== src/Ingest/Dispatch.antt =====
-- engine/dispatch/dispatcher.go: raw stream events are converted and handed to the handler of
-- their symbol. A handler is any state with a `HandleDiff`; the events of the channel are a
-- list, which ends where the channel is closed or the context is done.
pub mod Routing
use text.Mathlib.Text.{◌==◌ as str_eq}
use erebor.Prelude.{
  ℕ, suc, ◌+◌, ◌≡◌, Bool, Option, none, some, String, List, [], ◌∷◌, if◌then◌else◌,
}
use erebor.Prelude.Int.{ℤ}
use erebor.Prelude.Assoc.{lookup, insert}
use erebor.Decimal.{Decimal}
use erebor.Platform.{Platform}
use erebor.Ingest.Domain.{PriceLevel, DiffEvent}

-- stream.RawDiffEvent.
pub record RawDiffEvent : Type 0 where
  pub symbol : String
  pub event_time_ms : ℤ
  pub first_update_id : ℤ
  pub final_update_id : ℤ
  pub bids : List (List String)
  pub asks : List (List String)

-- The errors of `parseLevels`, each with the index of its level.
pub data Error : Type 0 where
  malformed : ℕ → Error
  bad_price : ℕ → Error
  bad_qty : ℕ → Error

pub data Result {ℓ} (A : Type ℓ) : Type ℓ where
  ok : A → Result A
  err : Error → Result A

infixl 5 ◌>>=◌
abbrev pub ◌>>=◌ {ℓ κ} : {A : Type ℓ} {B : Type κ} → Result A → (A → Result B) → Result B
ok a >>= f = f a
err e >>= f = err e

abbrev pub or_fail {ℓ} : {A : Type ℓ} → Option A → Error → Result A
or_fail none e = err e
or_fail (some a) e = ok a

module _ (𝒟 : Decimal) (𝒫 : Platform) where
  open 𝒟 use {Amount, of_string}

  unfoldable pub parse_level : ℕ → List String → Result (PriceLevel Amount)
  parse_level i (price ∷ qty ∷ rest) = do
    p ← or_fail (of_string price) (bad_price i)
    q ← or_fail (of_string qty) (bad_qty i)
    ok (record { price = p; quantity = q })
  parse_level i (price ∷ []) = err (malformed i)
  parse_level i [] = err (malformed i)

  -- The loop of `parseLevels` from index `i`.
  unfoldable pub parse_levels_from : ℕ → List (List String) → Result (List (PriceLevel Amount))
  unfolding parse_level
  parse_levels_from i [] = ok []
  parse_levels_from i (pair ∷ pairs) = do
    level ← parse_level i pair
    levels ← parse_levels_from (i + 1) pairs
    ok (level ∷ levels)

  unfoldable pub parse_levels : List (List String) → Result (List (PriceLevel Amount))
  unfolding parse_levels_from
  parse_levels pairs = parse_levels_from 0 pairs

  unfoldable pub convert_raw : RawDiffEvent → Result (DiffEvent Amount)
  unfolding parse_levels
  convert_raw ev = do
    bids ← parse_levels ev.bids
    asks ← parse_levels ev.asks
    ok (record {
      symbol = 𝒫.to_upper ev.symbol;
      event_time = 𝒫.unix_milli ev.event_time_ms;
      first_update_id = ev.first_update_id;
      final_update_id = ev.final_update_id;
      bids = bids;
      asks = asks;
    })

  module _ {H : Type 0} (handle_diff : H → DiffEvent Amount → H) where
    -- `New` registers each handler under the symbol in upper case.
    unfoldable pub new : List (String × H) → List (String × H)
    new [] = []
    new ((sym, h) ∷ handlers) = insert (𝒫.to_upper sym) h (new handlers)

    -- One event of the loop in `Run`: an event that does not convert, or whose symbol has no
    -- handler, is skipped.
    unfoldable pub dispatch : List (String × H) → RawDiffEvent → List (String × H)
    dispatch handlers ev = elim (convert_raw ev) [
      | err e ↦ handlers
      | ok diff ↦ elim (lookup diff.symbol handlers) [
        | none ↦ handlers
        | some h ↦ insert diff.symbol (handle_diff h diff) handlers
      ]
    ]

    unfoldable pub run : List (String × H) → List RawDiffEvent → List (String × H)
    unfolding dispatch
    run handlers [] = handlers
    run handlers (ev ∷ events) = run (dispatch handlers ev) events
