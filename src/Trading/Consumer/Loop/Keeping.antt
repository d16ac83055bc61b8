-- ===== src/Trading/Consumer/Loop/Keeping.antt =====
-- No message is lost: what the group and the acknowledgements of
-- engine/execution/consumer/consumer.go account for, whatever fails on the way.
use text.Mathlib.Text.{◌==◌ as str_eq}
use text.Mathlib.TextEquality.{eq_iff}
use mathlib.Core.Path.{subst}
use erebor.Trading.Consumer.{Result, ok, err, process, handle_message, decode_signal_event}
use erebor.Trading.Consumer.Loop.Retries.{handle_lem}
use erebor.Prelude.{
  ◌≡◌, refl, ap, Bool, true, false, ◌||◌, ◌&&◌, ℕ, not, String, List, [], ◌∷◌, ◌++◌, if◌then◌else◌,
  if_cases, take-append-drop, take, drop, arith, Bool-cases, inl, inr,
}
use erebor.Decimal.{Decimal}
use erebor.Platform.{Platform}
use erebor.Trading.Signals.{SignalEvent}
use erebor.Wire.{Message}
use erebor.Trading.Consumer.Group.{Broker, IsGroup, without}
use erebor.Trading.Consumer.Loop.{
  batch_size, Poll, delivers, times_out, refused, reply_lost, stopped, Turn, State, handle,
  handle_messages, drain_pel, read_new, poll, turn, read_loop,
}

abbrev has_message : String → List Message → Bool
has_message id [] = false
has_message id (m ∷ msgs) = str_eq m.id id || has_message id msgs

abbrev pub is_stopped : Poll → Bool
is_stopped stopped = true
is_stopped _ = false

-- The messages that the signals service added before the loop ended.
abbrev pub taken : List Turn → List Message
taken [] = []
taken (t ∷ ts) =
    let rest = taken ts in
    if t.cancelled then [] else t.added ++ (if is_stopped t.poll then [] else rest)

has_message-append :
    (id : String) (xs ys : List Message)
    → has_message id (xs ++ ys) ≡ (has_message id xs || has_message id ys)
has_message-append id [] ys = refl
has_message-append id (x ∷ xs) ys = ground (arith, has_message-append id xs ys)

has_message-without :
    (id j : String) (xs : List Message)
    → (str_eq j id || has_message id (without j xs)) ≡ (str_eq j id || has_message id xs)
has_message-without id j [] = refl
has_message-without id j (x ∷ xs) =
    ground (arith, has_message-without id j xs, eq_iff x.id j, eq_iff j id, eq_iff x.id id)

module _ (𝒟 : Decimal) (𝒫 : Platform) {Q St : Type 0} (B : Broker Q)
    (handler : St → String → SignalEvent 𝒟.Amount → St × Bool) where
  pub goes_on-read_new :
      (t : Turn) (s : State Q St) → (read_new 𝒟 𝒫 B handler t s).1 ≡ not (is_stopped t.poll)
  unfolding read_new poll
  goes_on-read_new t s = go t.ack_reaches (record s { queue = B.add s.queue t.added }) t.poll
    where
      go :
          (reaches : String → Bool) (s' : State Q St) (p : Poll)
          → (poll 𝒟 𝒫 B handler reaches s' p).1 ≡ not (is_stopped p)
      go reaches s' delivers = refl
      go reaches s' times_out = refl
      go reaches s' refused = refl
      go reaches s' reply_lost = refl
      go reaches s' stopped = refl

module _ (𝒟 : Decimal) (𝒫 : Platform) where
  abbrev decodes : Message → Bool
  decodes m = elim (decode_signal_event 𝒟 𝒫 m.values) [ ok sig ↦ true | err e ↦ false ]

  -- The messages with an id decode.
  abbrev pub clean : String → List Message → Bool
  clean id [] = true
  clean id (m ∷ msgs) = (not (str_eq m.id id) || decodes m) && clean id msgs

  clean-append :
      (id : String) (xs ys : List Message) → clean id (xs ++ ys) ≡ (clean id xs && clean id ys)
  clean-append id [] ys = refl
  clean-append id (x ∷ xs) ys = ground (arith, clean-append id xs ys)

  clean-without :
      (id j : String) (xs : List Message) → clean id xs ≡ true → clean id (without j xs) ≡ true
  clean-without id j [] c = refl
  clean-without id j (x ∷ xs) c = ground (arith, c, clean-without id j xs)

  clean-take :
      (id : String) (n : ℕ) (xs : List Message)
      → clean id xs ≡ true
      → (clean id (take n xs) ≡ true) × (clean id (drop n xs) ≡ true)
  clean-take id n xs c =
      let whole = ap (clean id) (take-append-drop n xs) in
      ground (arith, c, whole, clean-append id (take n xs) (drop n xs))

module _ (𝒟 : Decimal) (𝒫 : Platform) {Q St : Type 0} (B : Broker Q) (G : IsGroup B)
    (handler : St → String → SignalEvent 𝒟.Amount → St × Bool) (is_done : St → String → Bool)
    (marks : (st : St) (id : String) (sig : SignalEvent 𝒟.Amount)
      → (handler st id sig).1 ≡ true
      → is_done (handler st id sig).0 id ≡ true)
    (remembers : (st : St) (id : String) (sig : SignalEvent 𝒟.Amount) (j : String)
      → is_done st j ≡ true
      → is_done (handler st id sig).0 j ≡ true) where
  -- The message is pending or new, or the handler has succeeded on it.
  abbrev pub accounted : State Q St → String → Bool
  accounted s id =
      (has_message id (G.pel s.queue) || has_message id (G.backlog s.queue)) || is_done s.st id

  -- The messages of the group with this id decode.
  abbrev pub sound : State Q St → String → Bool
  sound s id = clean 𝒟 𝒫 id (G.pel s.queue) && clean 𝒟 𝒫 id (G.backlog s.queue)

  handle_message-marks :
      (st : St) (m : Message) (id : String)
      → (handle_message 𝒟 𝒫 handler st m).1 ≡ true
      → (str_eq m.id id && decodes 𝒟 𝒫 m) ≡ true
      → is_done (handle_message 𝒟 𝒫 handler st m).0 id ≡ true
  unfolding handle_message
  handle_message-marks st m id h d = by_event (decode_signal_event 𝒟 𝒫 m.values) h d
    where
      by_event :
          (r : Result (SignalEvent 𝒟.Amount))
          → (process 𝒟 𝒫 handler st m.id r).1 ≡ true
          → (str_eq m.id id && elim r [ ok sig ↦ true | err e ↦ false ]) ≡ true
          → is_done (process 𝒟 𝒫 handler st m.id r).0 id ≡ true
      by_event (err e) h d = absurd (ground (arith, d))
      by_event (ok sig) h d =
          subst (λ i. is_done (handler st m.id sig).0 i ≡ true) (ground (arith, d, eq_iff m.id id))
            (marks st m.id sig h)

  handle_message-remembers :
      (st : St) (m : Message) (id : String)
      → is_done st id ≡ true
      → is_done (handle_message 𝒟 𝒫 handler st m).0 id ≡ true
  unfolding handle_message
  handle_message-remembers st m id h = by_event (decode_signal_event 𝒟 𝒫 m.values)
    where
      by_event :
          (r : Result (SignalEvent 𝒟.Amount)) → is_done (process 𝒟 𝒫 handler st m.id r).0 id ≡ true
      by_event (err e) = h
      by_event (ok sig) = remembers st m.id sig id h

  -- What each step keeps of a message; `later` is whether it is still to be added.
  abbrev Kept : String → Bool → State Q St → Type 0
  Kept id later s = (sound s id ≡ true) × ((accounted s id || later) ≡ true)

  handle-Kept :
      (reaches : String → Bool) (s : State Q St) (msg : Message) (id : String) (later : Bool)
      → (not (str_eq msg.id id) || decodes 𝒟 𝒫 msg) ≡ true
      → Kept id later s
      → Kept id later (handle 𝒟 𝒫 B handler reaches s msg)
  handle-Kept reaches s msg id later d (c, h) =
      let (st_eq, pel_eq, backlog_eq) = handle_lem 𝒟 𝒫 handler B G reaches s msg in
      let marked = handle_message-marks s.st msg id in
      let kept = handle_message-remembers s.st msg id in
      let still = clean-without 𝒟 𝒫 id msg.id (G.pel s.queue) in
      let others = has_message-without id msg.id (G.pel s.queue) in
      rw (st_eq, pel_eq, backlog_eq)
        (ground (arith, c, still), ground (arith, d, h, marked, kept, others))

  handle_messages-Kept :
      (reaches : String → Bool) (s : State Q St) (msgs : List Message) (id : String) (later : Bool)
      → clean 𝒟 𝒫 id msgs ≡ true
      → Kept id later s
      → Kept id later (handle_messages 𝒟 𝒫 B handler reaches s msgs)
  unfolding handle_messages
  handle_messages-Kept reaches s [] id later d k = k
  handle_messages-Kept reaches s (msg ∷ msgs) id later d k =
      handle_messages-Kept reaches (handle 𝒟 𝒫 B handler reaches s msg) msgs id later
        (ground (arith, d)) (handle-Kept reaches s msg id later (ground (arith, d)) k)

  drain_pel-Kept :
      (t : Turn) (s : State Q St) (id : String) (later : Bool)
      → Kept id later s
      → Kept id later (drain_pel 𝒟 𝒫 B handler t s)
  unfolding drain_pel
  drain_pel-Kept t s id later (c, h) =
      if_cases (λ r. Kept id later r) t.pending_fails (λ e. (c, h))
        (λ e.
          handle_messages-Kept t.ack_reaches s (B.pending s.queue batch_size) id later
            (rw (G.pending_lem s.queue batch_size)
              (clean-take 𝒟 𝒫 id batch_size (G.pel s.queue) (ground (arith, c))).0)
            (c, h))

  -- A delivery moves messages from the new to the pending ones.
  deliver-Kept :
      (n : ℕ) (s : State Q St) (id : String) (later : Bool)
      → Kept id later s
      → Kept id later (record s { queue = (B.deliver s.queue n).1 })
  deliver-Kept n s id later (c, h) =
      let new = G.backlog s.queue in
      let whole = ap (has_message id) (take-append-drop n new) in
      let parts = clean-take 𝒟 𝒫 id n new (ground (arith, c)) in
      rw (G.pel-deliver s.queue n, G.backlog-deliver s.queue n)
        (
          ground (arith, c, parts.0, parts.1, clean-append 𝒟 𝒫 id (G.pel s.queue) (take n new)),
          ground (
            arith,
            h,
            has_message-append id (G.pel s.queue) (take n new),
            has_message-append id (take n new) (drop n new),
            whole,
          ),
        )

  poll-Kept :
      (reaches : String → Bool) (s : State Q St) (p : Poll) (id : String) (later : Bool)
      → Kept id later s
      → Kept id later (poll 𝒟 𝒫 B handler reaches s p).0
  unfolding poll
  poll-Kept reaches s delivers id later k =
      handle_messages-Kept reaches (record s { queue = (B.deliver s.queue batch_size).1 })
        (B.deliver s.queue batch_size).0 id later
        (rw (G.deliver_messages s.queue batch_size)
          (clean-take 𝒟 𝒫 id batch_size (G.backlog s.queue) (ground (arith, k.0))).0)
        (deliver-Kept batch_size s id later k)
  poll-Kept reaches s times_out id later k = k
  poll-Kept reaches s refused id later k = k
  poll-Kept reaches s reply_lost id later k = deliver-Kept batch_size s id later k
  poll-Kept reaches s stopped id later k = k

  read_new-Kept :
      (t : Turn) (s : State Q St) (id : String) (later : Bool)
      → (sound s id && clean 𝒟 𝒫 id t.added) ≡ true
      → (accounted s id || (has_message id t.added || later)) ≡ true
      → Kept id later (read_new 𝒟 𝒫 B handler t s).0
  unfolding read_new
  read_new-Kept t s id later c h =
      poll-Kept t.ack_reaches (record s { queue = B.add s.queue t.added }) t.poll id later
        (rw (G.pel-add s.queue t.added, G.backlog-add s.queue t.added)
          (
            ground (arith, c, clean-append 𝒟 𝒫 id (G.backlog s.queue) t.added),
            ground (arith, h, has_message-append id (G.backlog s.queue) t.added),
          ))

  -- The handler marks in its state each message that it succeeds on, and never unmarks one. Then,
  -- whatever fails in the turns, also when a reply or an XACK is lost: a message that is pending or
  -- new at the start, or that the signals service adds before the loop ends, and that decodes, is
  -- pending or new in the end, or the handler has succeeded on it.
  pub read_loop-keeps :
      (s : State Q St) (ts : List Turn) (id : String)
      → (sound s id && clean 𝒟 𝒫 id (taken ts)) ≡ true
      → (accounted s id || has_message id (taken ts)) ≡ true
      → accounted (read_loop 𝒟 𝒫 B handler s ts) id ≡ true
  unfolding read_loop turn
  read_loop-keeps s [] id c h = ground (arith, h)
  read_loop-keeps s (t ∷ ts) id c h =
      let drained = drain_pel 𝒟 𝒫 B handler t s in
      let read = (read_new 𝒟 𝒫 B handler t drained).0 in
      let rest = if is_stopped t.poll then [] else taken ts in
      let (c', h') =
        drain_pel-Kept t s id (has_message id (taken (t ∷ ts))) (ground (arith, c), h) in
      elim (Bool-cases t.cancelled) [
        | inl e ↦ rw e (ground (arith, h', e))
        | inr e ↦
            let kept =
              read_new-Kept t drained id (has_message id rest)
                (ground (arith, c, c', e, clean-append 𝒟 𝒫 id t.added rest))
                (ground (arith, h', e, has_message-append id t.added rest)) in
            elim (Bool-cases (is_stopped t.poll)) [
              | inl p ↦
                  rw (e, goes_on-read_new 𝒟 𝒫 B handler t drained, p) (ground (arith, kept.1, p))
              | inr p ↦
                  rw (e, goes_on-read_new 𝒟 𝒫 B handler t drained, p)
                    (read_loop-keeps read ts id
                      (ground (arith, kept.0, c, e, p, clean-append 𝒟 𝒫 id t.added rest))
                      (ground (arith, kept.1, p)))
            ]
      ]
