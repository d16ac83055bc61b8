-- ===== src/Trading/Deliveries.antt =====
-- Concrete turns of the consumer of signals (engine/execution/consumer/consumer.go), over a consumer
-- group that is held in two lists.
use text.Mathlib.Text.{◌==◌ as str_eq}
use text.Mathlib.TextEquality.{eq_iff}
use erebor.Prelude.{
  ◌||◌, ℕ, ◌+◌, ◌≡◌, ◌≢◌, refl, Bool, true, false, String, List, [], ◌∷◌, ◌++◌, take, drop, arith,
}
use erebor.Prelude.Assoc.{lookup}
use erebor.Decimal.Integers.{integers}
use erebor.Platform.Sample.{platform}
use erebor.Wire.{Message}
use erebor.Trading.Signals.{SignalEvent}
use erebor.Trading.Consumer.{handle_message, process, decode_signal_event}
use erebor.Trading.Consumer
use erebor.Trading.Consumer.Group.{Broker, IsGroup, without}
use erebor.Trading.Consumer.Loop.{Turn, State, delivers, reply_lost, turn, read_loop}
use erebor.Trading.Consumer.Loop.Retries.{settle, turn-settle}
use erebor.Trading.Consumer.Loop.Keeping.{accounted, read_loop-keeps}
use erebor.Trading.Consumer.Loop.Clearing.{IsQuiet, read_loop-clears}
use erebor.Trading.Scenarios.{signal_message}

-- The entries delivered and not acknowledged, and those not yet delivered.
abbrev pub Queue : Type 0
Queue = List Message × List Message

abbrev pub broker : Broker Queue
broker = record {
  pending = λ q n. take n q.0;
  deliver = λ q n. (take n q.1, (q.0 ++ take n q.1, drop n q.1));
  ack = λ q id. (without id q.0, q.1);
  add = λ q msgs. (q.0, q.1 ++ msgs);
}

abbrev pub broker-IsGroup : IsGroup broker
broker-IsGroup = record {
  pel = λ q. q.0;
  backlog = λ q. q.1;
  pending_lem = λ q n. refl;
  deliver_messages = λ q n. refl;
  pel-deliver = λ q n. refl;
  backlog-deliver = λ q n. refl;
  pel-ack = λ q id. refl;
  backlog-ack = λ q id. refl;
  pel-add = λ q msgs. refl;
  backlog-add = λ q msgs. refl;
}

abbrev pub numbered : String → Message
numbered id = record signal_message { id = id }

-- One message is pending, one is new.
abbrev pub queue : Queue
queue = (numbered "1-0" ∷ [], numbered "2-0" ∷ [])

abbrev pub fine : Turn
fine = record {
  pending_fails = false;
  cancelled = false;
  added = numbered "3-0" ∷ [];
  poll = delivers;
  ack_reaches = λ id. true;
}

abbrev pub quiet : Turn
quiet = record fine { added = [] }

-- The replies do not arrive.
abbrev pub deaf : Turn
deaf = record fine { pending_fails = true; poll = reply_lost }

-- Counts the calls, and fails on the first.
abbrev pub fail_first : ℕ → String → SignalEvent integers.Amount → ℕ × Bool
fail_first ℕ.zero id sig = (1, false)
fail_first (ℕ.suc n) id sig = (ℕ.suc (ℕ.suc n), true)

abbrev pub state : State Queue ℕ
state = record { st = 0; queue = queue }

differ : (s t : String) → str_eq s t ≡ false → s ≢ t
differ s t d e = ground (arith, eq_iff s t, d, e)

turn-settle_example :
    let (s', goes_on) = turn integers platform broker fail_first fine state in
    let (st, retried) = settle integers platform fail_first fine.ack_reaches 0 queue.0 in
    let (st', failed) =
      settle integers platform fail_first fine.ack_reaches st
        (numbered "2-0" ∷ numbered "3-0" ∷ []) in
    (s'.st ≡ st') × (s'.queue.0 ≡ retried ++ failed) × (s'.queue.1 ≡ []) × (goes_on ≡ true)
turn-settle_example =
    turn-settle integers platform fail_first broker broker-IsGroup fine state refl refl refl (
      (differ "2-0" "1-0" refl, (differ "3-0" "1-0" refl, tt)),
      ((differ "3-0" "2-0" refl, tt), (tt, tt)),
    )

-- Keeps the ids that it has succeeded on, and fails while there are none and one is refused.
abbrev note :
    Bool × List String → String → SignalEvent integers.Amount → (Bool × List String) × Bool
note (true, ids) id sig = ((false, ids), false)
note (false, ids) id sig = ((false, id ∷ ids), true)

abbrev has_id : List String → String → Bool
has_id [] id = false
has_id (i ∷ ids) id = str_eq i id || has_id ids id

abbrev is_noted : Bool × List String → String → Bool
is_noted (b, ids) id = has_id ids id

note-marks :
    (st : Bool × List String) (id : String) (sig : SignalEvent integers.Amount)
    → (note st id sig).1 ≡ true
    → is_noted (note st id sig).0 id ≡ true
note-marks (true, ids) id sig h = absurd (ground (arith, h))
note-marks (false, ids) id sig h = ground (arith, eq_iff id id)

note_remembers :
    (st : Bool × List String) (id : String) (sig : SignalEvent integers.Amount) (j : String)
    → is_noted st j ≡ true
    → is_noted (note st id sig).0 j ≡ true
note_remembers (true, ids) id sig j h = h
note_remembers (false, ids) id sig j h = ground (arith, h)

read_loop-keeps_example :
    accounted integers platform broker broker-IsGroup note is_noted note-marks note_remembers
      (read_loop integers platform broker note
        (record { st = (true, []); queue = queue })
        (deaf ∷ fine ∷ []))
      "3-0"
    ≡ true
unfolding decode_signal_event integers lookup
read_loop-keeps_example =
    read_loop-keeps integers platform broker broker-IsGroup note is_noted note-marks note_remembers
      (record { st = (true, []); queue = queue }) (deaf ∷ fine ∷ []) "3-0" refl refl

abbrev pub accept : ℕ → String → SignalEvent integers.Amount → ℕ × Bool
accept n id sig = (n + 1, true)

accepts : (st : ℕ) (m : Message) → (handle_message integers platform accept st m).1 ≡ true
unfolding handle_message
accepts st m = go (decode_signal_event integers platform m.values)
  where
    go :
        (r : Consumer.Result (SignalEvent integers.Amount))
        → (process integers platform accept st m.id r).1 ≡ true
    go (Consumer.ok sig) = refl
    go (Consumer.err e) = refl

quiet-IsQuiet : IsQuiet quiet
quiet-IsQuiet = record {
  not_cancelled = refl;
  not_stopped = refl;
  nothing_added = refl;
  acks_reach = λ id. refl;
}

read_loop-clears_example :
    let s' = read_loop integers platform broker accept state (quiet ∷ []) in
    (s'.queue.0 ≡ []) × (s'.queue.1 ≡ [])
read_loop-clears_example =
    read_loop-clears integers platform broker broker-IsGroup accept accepts state (quiet ∷ [])
      (quiet-IsQuiet, tt) (omega arith)
