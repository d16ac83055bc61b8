-- ===== src/Trading/Consumer/Loop.antt =====
-- `readLoop`, `drainPEL`, `readNew`, `handleMessage` and `ack` of
-- engine/execution/consumer/consumer.go. What the network and the context do in a turn of the loop
-- is an argument.
pub mod Distinct
pub mod Invariants
pub mod Retries
pub mod Keeping
pub mod Clearing
use erebor.Prelude.{ℕ, Bool, true, false, String, List, [], ◌∷◌, if◌then◌else◌}
use erebor.Decimal.{Decimal}
use erebor.Platform.{Platform}
use erebor.Trading.Signals.{SignalEvent}
use erebor.Wire.{Message}
use erebor.Trading.Consumer.{handle_message}
use erebor.Trading.Consumer.Group.{Broker}

abbrev pub batch_size : ℕ
batch_size = 20

-- How the read of new messages ends: with messages, at the timeout, with an error before or after
-- Redis took the command, or with an error once the context is cancelled.
pub data Poll : Type 0 where
  delivers times_out refused reply_lost stopped : Poll

pub record Turn : Type 0 where
  pub pending_fails : Bool
  -- The context is cancelled when the pending messages are done.
  pub cancelled : Bool
  pub added : List Message
  pub poll : Poll
  -- Whether the XACK of an id reaches Redis.
  pub ack_reaches : String → Bool

pub record State (Q St : Type 0) : Type 0 where
  pub st : St
  pub queue : Q

module _ (𝒟 : Decimal) (𝒫 : Platform) {Q St : Type 0} (B : Broker Q)
    (handler : St → String → SignalEvent 𝒟.Amount → St × Bool) where
  unfoldable pub ack : (String → Bool) → State Q St → String → State Q St
  ack reaches s id = record s { queue = if reaches id then B.ack s.queue id else s.queue }

  unfoldable pub handle : (String → Bool) → State Q St → Message → State Q St
  unfolding ack
  handle reaches s msg =
      let (st, done) = handle_message 𝒟 𝒫 handler s.st msg in
      let after = record s { st = st } in if done then ack reaches after msg.id else after

  unfoldable pub handle_messages : (String → Bool) → State Q St → List Message → State Q St
  unfolding handle
  handle_messages reaches s [] = s
  handle_messages reaches s (msg ∷ msgs) = handle_messages reaches (handle reaches s msg) msgs

  unfoldable pub drain_pel : Turn → State Q St → State Q St
  unfolding handle_messages
  drain_pel t s =
      if t.pending_fails then s else handle_messages t.ack_reaches s (B.pending s.queue batch_size)

  -- The Boolean is false when the loop is to stop.
  unfoldable pub poll : (String → Bool) → State Q St → Poll → State Q St × Bool
  unfolding handle_messages
  poll reaches s delivers =
      let (msgs, queue) = B.deliver s.queue batch_size in
      (handle_messages reaches (record s { queue = queue }) msgs, true)
  poll reaches s times_out = (s, true)
  poll reaches s refused = (s, true)
  poll reaches s reply_lost = (record s { queue = (B.deliver s.queue batch_size).1 }, true)
  poll reaches s stopped = (s, false)

  unfoldable pub read_new : Turn → State Q St → State Q St × Bool
  unfolding poll
  read_new t s = poll t.ack_reaches (record s { queue = B.add s.queue t.added }) t.poll

  -- One turn; the Boolean is false when the loop ends with it.
  unfoldable pub turn : Turn → State Q St → State Q St × Bool
  unfolding drain_pel read_new
  turn t s = let s' = drain_pel t s in if t.cancelled then (s', false) else read_new t s'

  unfoldable pub read_loop : State Q St → List Turn → State Q St
  unfolding turn
  read_loop s [] = s
  read_loop s (t ∷ ts) =
      let (s', goes_on) = turn t s in let rest = read_loop s' ts in if goes_on then rest else s'
