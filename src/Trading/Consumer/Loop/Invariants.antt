-- ===== src/Trading/Consumer/Loop/Invariants.antt =====
-- What every call of the handler keeps true stays true over the loop of
-- engine/execution/consumer/consumer.go, whatever Redis and the network do.
use erebor.Prelude.{Bool, if_cases, String, List, [], ◌∷◌}
use erebor.Decimal.{Decimal}
use erebor.Platform.{Platform}
use erebor.Trading.Signals.{SignalEvent}
use erebor.Wire.{Message}
use erebor.Trading.Consumer.{Result, ok, err, process, handle_message, decode_signal_event}
use erebor.Trading.Consumer.Group.{Broker}
use erebor.Trading.Consumer.Loop.{
  Poll, delivers, times_out, refused, reply_lost, stopped, Turn, State, ack, handle,
  handle_messages, drain_pel, read_new, poll, turn, read_loop, batch_size,
}

module _ (𝒟 : Decimal) (𝒫 : Platform) {Q St : Type 0} (B : Broker Q)
    (handler : St → String → SignalEvent 𝒟.Amount → St × Bool) (P : St → Type 0)
    (keeps : (st : St) (id : String) (sig : SignalEvent 𝒟.Amount)
      → P st
      → P (handler st id sig).0) where
  keeps-process :
      (st : St) (id : String) (r : Result (SignalEvent 𝒟.Amount))
      → P st
      → P (process 𝒟 𝒫 handler st id r).0
  keeps-process st id (err e) h = h
  keeps-process st id (ok sig) h = keeps st id sig h

  keeps-handle :
      (reaches : String → Bool) (s : State Q St) (msg : Message)
      → P s.st
      → P (handle 𝒟 𝒫 B handler reaches s msg).st
  unfolding handle ack handle_message
  keeps-handle reaches s msg h =
      if_cases (λ (s' : State Q St). P s'.st) (handle_message 𝒟 𝒫 handler s.st msg).1
        (λ e. keeps-process s.st msg.id (decode_signal_event 𝒟 𝒫 msg.values) h)
        (λ e. keeps-process s.st msg.id (decode_signal_event 𝒟 𝒫 msg.values) h)

  keeps-handle_messages :
      (reaches : String → Bool) (s : State Q St) (msgs : List Message)
      → P s.st
      → P (handle_messages 𝒟 𝒫 B handler reaches s msgs).st
  unfolding handle_messages
  keeps-handle_messages reaches s [] h = h
  keeps-handle_messages reaches s (msg ∷ msgs) h =
      keeps-handle_messages reaches (handle 𝒟 𝒫 B handler reaches s msg) msgs
        (keeps-handle reaches s msg h)

  keeps-drain_pel : (t : Turn) (s : State Q St) → P s.st → P (drain_pel 𝒟 𝒫 B handler t s).st
  unfolding drain_pel
  keeps-drain_pel t s h =
      if_cases (λ (s' : State Q St). P s'.st) t.pending_fails (λ e. h)
        (λ e. keeps-handle_messages t.ack_reaches s (B.pending s.queue batch_size) h)

  keeps-poll :
      (reaches : String → Bool) (s : State Q St) (p : Poll)
      → P s.st
      → P (poll 𝒟 𝒫 B handler reaches s p).0.st
  unfolding poll
  keeps-poll reaches s delivers h =
      keeps-handle_messages reaches (record s { queue = (B.deliver s.queue batch_size).1 })
        (B.deliver s.queue batch_size).0 h
  keeps-poll reaches s times_out h = h
  keeps-poll reaches s refused h = h
  keeps-poll reaches s reply_lost h = h
  keeps-poll reaches s stopped h = h

  keeps-turn : (t : Turn) (s : State Q St) → P s.st → P (turn 𝒟 𝒫 B handler t s).0.st
  unfolding turn read_new
  keeps-turn t s h =
      let drained = drain_pel 𝒟 𝒫 B handler t s in
      if_cases (λ (r : State Q St × Bool). P (r.0).st) t.cancelled (λ e. keeps-drain_pel t s h)
        (λ e.
          keeps-poll t.ack_reaches (record drained { queue = B.add drained.queue t.added }) t.poll
            (keeps-drain_pel t s h))

  pub keeps-read_loop :
      (s : State Q St) (ts : List Turn) → P s.st → P (read_loop 𝒟 𝒫 B handler s ts).st
  unfolding read_loop
  keeps-read_loop s [] h = h
  keeps-read_loop s (t ∷ ts) h =
      if_cases (λ (s' : State Q St). P s'.st) (turn 𝒟 𝒫 B handler t s).1
        (λ e. keeps-read_loop (turn 𝒟 𝒫 B handler t s).0 ts (keeps-turn t s h))
        (λ e. keeps-turn t s h)
