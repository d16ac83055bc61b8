-- ===== src/Wire/Signals.antt =====
-- Signals on a stream: `Publish` of engine/signals/publisher/publisher.go. The parameters of a
-- signal are left out. Trading/Consumer reads the fields.
use erebor.Prelude.{String, List, [], ◌∷◌}
use erebor.Decimal.{Decimal}
use erebor.Platform.{Platform}
use erebor.Trading.Signals.{SignalEvent}

module _ (𝒟 : Decimal) (𝒫 : Platform) where
  open 𝒟 use {Amount, to_string}

  unfoldable pub publish_signal : SignalEvent Amount → List (String × String)
  publish_signal sig =
      ("run_id", sig.run_id)
      ∷ ("symbol", sig.symbol)
      ∷ ("event_time", 𝒫.format_time sig.event_time)
      ∷ ("name", sig.name)
      ∷ ("version", sig.version)
      ∷ ("value", to_string sig.value)
      ∷ []
