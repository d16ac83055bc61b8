-- ===== src/Trading/Consumer/Pending.antt =====
-- Which messages a batch leaves pending, and what the handler sees: `readNew` and
-- `handleMessage` of engine/execution/consumer/consumer.go.
use erebor.Prelude.{◌≡◌, refl, Bool, String, List, [], ◌∷◌, if◌then◌else◌, arith}
use erebor.Decimal.{Decimal}
use erebor.Platform.{Platform}
use erebor.Trading.Signals.{SignalEvent}
use erebor.Wire.{Message}
use erebor.Trading.Consumer.{
  Result, ok, err, decode_signal_event, process, handle_message, handle_batch,
}

module _ (𝒟 : Decimal) (𝒫 : Platform) where
  open 𝒟 use {Amount}

  abbrev if_decoded :
      String
      → Result (SignalEvent Amount)
      → List (String × SignalEvent Amount)
      → List (String × SignalEvent Amount)
  if_decoded id (err e) rest = rest
  if_decoded id (ok sig) rest = (id, sig) ∷ rest

  -- The signals of the messages that decode, with the ids, in the order of the batch.
  abbrev pub decoded : List Message → List (String × SignalEvent Amount)
  decoded [] = []
  decoded (msg ∷ msgs) = if_decoded msg.id (decode_signal_event 𝒟 𝒫 msg.values) (decoded msgs)

  module _ {St : Type 0} (handler : St → String → SignalEvent Amount → St × Bool) where
    -- The state after the signals, and the ids of those on which the handler failed.
    abbrev pub handle_all : St → List (String × SignalEvent Amount) → St × List String
    handle_all st [] = (st, [])
    handle_all st ((id, sig) ∷ sigs) =
        let (st', done) = handler st id sig in
        let (st'', failed) = handle_all st' sigs in (st'', (if done then failed else id ∷ failed))

    abbrev pub ids : List Message → List String
    ids [] = []
    ids (msg ∷ msgs) = msg.id ∷ ids msgs

    -- A batch runs the handler once on every message that decodes, in order, whatever fails on
    -- the way, and leaves pending exactly those on which the handler failed.
    pub handle_batch-pending :
        (st : St) (msgs : List Message)
        → ((handle_batch 𝒟 𝒫 handler st msgs).0 ≡ (handle_all st (decoded msgs)).0)
          × (ids (handle_batch 𝒟 𝒫 handler st msgs).1 ≡ (handle_all st (decoded msgs)).1)
    unfolding handle_batch handle_message
    handle_batch-pending st [] = (refl, refl)
    handle_batch-pending st (msg ∷ msgs) =
        go (decode_signal_event 𝒟 𝒫 msg.values) (λ st'. handle_batch-pending st' msgs)
      where
        go :
            (r : Result (SignalEvent Amount))
            → ((st' : St)
                → ((handle_batch 𝒟 𝒫 handler st' msgs).0 ≡ (handle_all st' (decoded msgs)).0)
                  × (ids (handle_batch 𝒟 𝒫 handler st' msgs).1 ≡ (handle_all st' (decoded msgs)).1))
            → let (st', acked) = process 𝒟 𝒫 handler st msg.id r in
              ((handle_batch 𝒟 𝒫 handler st' msgs).0
                ≡ (handle_all st (if_decoded msg.id r (decoded msgs))).0)
              × (ids (
                    if acked
                    then (handle_batch 𝒟 𝒫 handler st' msgs).1
                    else msg ∷ (handle_batch 𝒟 𝒫 handler st' msgs).1)
                  ≡ (handle_all st (if_decoded msg.id r (decoded msgs))).1)
        go (err e) rest = rest st
        go (ok sig) rest = ground (arith, rest (handler st msg.id sig).0)
