-- ===== src/Trading/Consumer/Group.antt =====
-- The consumer group that engine/execution/consumer/consumer.go reads through Redis, as an
-- interface: what the service calls, and the growth of the stream by its producer.
use text.Mathlib.Text.{◌==◌ as str_eq}
use erebor.Prelude.{ℕ, ◌≡◌, String, List, ◌++◌, take, drop, keep_if, not}
use erebor.Wire.{Message}

pub record Broker (Q : Type 0) : Type 0 where
  -- XREADGROUP with the id 0 and a count.
  pub pending : Q → ℕ → List Message
  -- XREADGROUP with the id > and a count.
  pub deliver : Q → ℕ → List Message × Q
  -- XACK.
  pub ack : Q → String → Q
  -- XADD by the signals service.
  pub add : Q → List Message → Q

-- The messages other than those with an id.
abbrev pub without : String → List Message → List Message
without id msgs = keep_if (λ m. not (str_eq m.id id)) msgs

-- What Redis documents of a group with one consumer: the entries that were delivered and not
-- acknowledged, oldest first, and those not yet delivered.
pub record IsGroup {Q : Type 0} (B : Broker Q) : Type 0 where
  pub pel : Q → List Message
  pub backlog : Q → List Message
  pub pending_lem : (q : Q) (n : ℕ) → B.pending q n ≡ take n (pel q)
  pub deliver_messages : (q : Q) (n : ℕ) → (B.deliver q n).0 ≡ take n (backlog q)
  pub pel-deliver : (q : Q) (n : ℕ) → pel (B.deliver q n).1 ≡ pel q ++ take n (backlog q)
  pub backlog-deliver : (q : Q) (n : ℕ) → backlog (B.deliver q n).1 ≡ drop n (backlog q)
  pub pel-ack : (q : Q) (id : String) → pel (B.ack q id) ≡ without id (pel q)
  pub backlog-ack : (q : Q) (id : String) → backlog (B.ack q id) ≡ backlog q
  pub pel-add : (q : Q) (msgs : List Message) → pel (B.add q msgs) ≡ pel q
  pub backlog-add : (q : Q) (msgs : List Message) → backlog (B.add q msgs) ≡ backlog q ++ msgs
