-- ===== src/Trading/Consumer/Loop/Clearing.antt =====
-- The loop of engine/execution/consumer/consumer.go empties the group once reads succeed.
use text.Mathlib.Text.{◌==◌ as str_eq}
use text.Mathlib.TextEquality.{eq_iff}
use erebor.Prelude.{
  ℕ, ◌+◌, ◌-◌, ◌*◌, ◌≤◌, ◌≡◌, refl, sym, ap, ◌∙◌, Bool, true, false, ◌&&◌, not, inl, inr, String,
  List, [], ◌∷◌, ◌++◌, if◌then◌else◌, length, length-append, length-drop, length-keep_if-le,
  append_nil, take-append-drop, take, drop, All, keep_if, Bool-cases, arith,
}
use erebor.Decimal.{Decimal}
use erebor.Platform.{Platform}
use erebor.Trading.Signals.{SignalEvent}
use erebor.Wire.{Message}
use erebor.Trading.Consumer.{handle_message}
use erebor.Trading.Consumer.Group.{Broker, IsGroup, without}
use erebor.Trading.Consumer.Loop.Retries.{handle_lem}
use erebor.Trading.Consumer.Loop.Keeping.{is_stopped, goes_on-read_new}
use erebor.Trading.Consumer.Loop.{
  batch_size, Poll, delivers, times_out, refused, reply_lost, stopped, Turn, State, handle,
  handle_messages, drain_pel, read_new, poll, turn, read_loop,
}

abbrev is_delivers : Poll → Bool
is_delivers delivers = true
is_delivers _ = false

-- The turns in which the two reads succeed.
abbrev pub clear_turns : List Turn → ℕ
clear_turns [] = 0
clear_turns (t ∷ ts) =
    let rest = clear_turns ts in
    if not t.pending_fails && is_delivers t.poll then 1 + rest else rest

-- The service is not stopped, no message is added, and every XACK reaches Redis.
pub record IsQuiet (t : Turn) : Type 0 where
  pub not_cancelled : t.cancelled ≡ false
  pub not_stopped : is_stopped t.poll ≡ false
  pub nothing_added : t.added ≡ []
  pub acks_reach : (id : String) → t.ack_reaches id ≡ true

keep_if-without :
    (id : String) (p : Message → Bool) (xs : List Message)
    → without id (keep_if p xs) ≡ keep_if (λ m. p m && not (str_eq m.id id)) xs
keep_if-without id p [] = refl
keep_if-without id p (x ∷ xs) = ground (arith, keep_if-without id p xs)

keep_if-drop :
    (p : Message → Bool) (m : Message) (xs ys : List Message)
    → p m ≡ false
    → keep_if p (xs ++ m ∷ ys) ≡ keep_if p (xs ++ ys)
keep_if-drop p m [] ys e = rw e refl
keep_if-drop p m (x ∷ xs) ys e = ground (arith, keep_if-drop p m xs ys e)

empty : (xs : List Message) → length xs ≤ 0 → xs ≡ []
empty [] h = refl
empty (x ∷ xs) h = absurd (omega (arith, h))

module _ (𝒟 : Decimal) (𝒫 : Platform) {Q St : Type 0} (B : Broker Q) (G : IsGroup B)
    (handler : St → String → SignalEvent 𝒟.Amount → St × Bool)
    (accepts : (st : St) (m : Message) → (handle_message 𝒟 𝒫 handler st m).1 ≡ true) where
  abbrev outstanding : State Q St → ℕ
  outstanding s = length (G.pel s.queue) + length (G.backlog s.queue)

  handle_accepted :
      (reaches : String → Bool) (s : State Q St) (m : Message)
      → reaches m.id ≡ true
      → let s' = handle 𝒟 𝒫 B handler reaches s m in
        (G.pel s'.queue ≡ without m.id (G.pel s.queue)) × (G.backlog s'.queue ≡ G.backlog s.queue)
  handle_accepted reaches s m r =
      ground (arith, r, accepts s.st m, handle_lem 𝒟 𝒫 handler B G reaches s m)

  handle_messages-clears :
      (reaches : String → Bool) (s : State Q St) (p : Message → Bool) (pre msgs rest : List Message)
      → ((id : String) → reaches id ≡ true)
      → G.pel s.queue ≡ keep_if p (pre ++ (msgs ++ rest))
      → let s' = handle_messages 𝒟 𝒫 B handler reaches s msgs in
        (length (G.pel s'.queue) ≤ length pre + length rest)
        × (G.backlog s'.queue ≡ G.backlog s.queue)
  unfolding handle_messages
  handle_messages-clears reaches s p pre [] rest r e =
      (omega (arith, ap length e, length-keep_if-le p (pre ++ rest), length-append pre rest), refl)
  handle_messages-clears reaches s p pre (m ∷ msgs) rest r e =
      let s' = handle 𝒟 𝒫 B handler reaches s m in
      let p' : Message → Bool = λ k. p k && not (str_eq k.id m.id) in
      let (pel_eq, backlog_eq) = handle_accepted reaches s m (r m.id) in
      let gone : p' m ≡ false = ground (arith, eq_iff m.id m.id) in
      let rec = handle_messages-clears reaches s' p' pre msgs rest r (
        pel_eq
        ∙ ap (without m.id) e
        ∙ keep_if-without m.id p (pre ++ m ∷ (msgs ++ rest))
        ∙ keep_if-drop p' m pre (msgs ++ rest) gone) in
      (rec.0, rec.1 ∙ backlog_eq)

  keep_all : (xs : List Message) → xs ≡ keep_if (λ m. true) xs
  keep_all [] = refl
  keep_all (x ∷ xs) = ap (λ t. x ∷ t) (keep_all xs)

  drain_pel-clears :
      (t : Turn) (s : State Q St)
      → IsQuiet t
      → let s' = drain_pel 𝒟 𝒫 B handler t s in
        (length (G.pel s'.queue) ≤ (
          if t.pending_fails then length (G.pel s.queue) else length (G.pel s.queue) - batch_size))
        × (G.backlog s'.queue ≡ G.backlog s.queue)
  unfolding drain_pel
  drain_pel-clears t s q = elim (Bool-cases t.pending_fails) [
    | inl e ↦ rw e (omega arith, refl)
    | inr e ↦
        let n = batch_size in
        let cleared =
          handle_messages-clears t.ack_reaches s (λ m. true) [] (take n (G.pel s.queue))
            (drop n (G.pel s.queue)) q.acks_reach
            (sym (take-append-drop n (G.pel s.queue)) ∙ keep_all _) in
        rw (e, G.pending_lem s.queue n)
          (omega (arith, cleared.0, length-drop n (G.pel s.queue)), cleared.1)
  ]

  poll-clears :
      (reaches : String → Bool) (s : State Q St) (p : Poll)
      → ((id : String) → reaches id ≡ true)
      → is_stopped p ≡ false
      → outstanding (poll 𝒟 𝒫 B handler reaches s p).0 ≤ (
          if is_delivers p
          then length (G.pel s.queue) + (length (G.backlog s.queue) - batch_size)
          else outstanding s)
  unfolding poll
  poll-clears reaches s delivers r e =
      let n = batch_size in
      let s' : State Q St = record s { queue = (B.deliver s.queue n).1 } in
      let msgs = take n (G.backlog s.queue) in
      let cleared =
        handle_messages-clears reaches s' (λ m. true) (G.pel s.queue) msgs [] r
          (rw (append_nil msgs) (G.pel-deliver s.queue n ∙ keep_all _)) in
      rw (G.deliver_messages s.queue n) (
        omega (
          arith,
          cleared.0,
          ap length cleared.1,
          ap length (G.backlog-deliver s.queue n),
          length-drop n (G.backlog s.queue),
        ))
  poll-clears reaches s times_out r e = omega arith
  poll-clears reaches s refused r e = omega arith
  poll-clears reaches s reply_lost r e =
      let n = batch_size in
      omega (
        arith,
        ap length (G.pel-deliver s.queue n),
        ap length (G.backlog-deliver s.queue n),
        length-append (G.pel s.queue) (take n (G.backlog s.queue)),
        length-append (take n (G.backlog s.queue)) (drop n (G.backlog s.queue)),
        ap length (take-append-drop n (G.backlog s.queue)),
      )
  poll-clears reaches s stopped r e = absurd (ground (arith, e))

  turn-clears :
      (t : Turn) (s : State Q St)
      → IsQuiet t
      → (outstanding (turn 𝒟 𝒫 B handler t s).0 ≤ (
          if not t.pending_fails && is_delivers t.poll
          then outstanding s - batch_size
          else outstanding s))
        × ((turn 𝒟 𝒫 B handler t s).1 ≡ true)
  unfolding turn read_new
  turn-clears t s q =
      let drained = drain_pel 𝒟 𝒫 B handler t s in
      let s' : State Q St = record drained { queue = B.add drained.queue t.added } in
      let (pel_le, backlog_eq) = drain_pel-clears t s q in
      let same_backlog =
        G.backlog-add drained.queue t.added ∙ rw q.nothing_added (append_nil _) ∙ backlog_eq in
      let polled = poll-clears t.ack_reaches s' t.poll q.acks_reach q.not_stopped in
      rw q.not_cancelled (
        ground (arith, pel_le, ap length same_backlog, G.pel-add drained.queue t.added, polled),
        goes_on-read_new 𝒟 𝒫 B handler t drained ∙ rw q.not_stopped refl,
      )

  -- If the handler accepts every message, and every turn is quiet: once the two reads have
  -- succeeded in as many turns as it takes to read the outstanding messages in batches, no message
  -- is pending or new, whichever reads failed in the other turns.
  pub read_loop-clears :
      (s : State Q St) (ts : List Turn)
      → All IsQuiet ts
      → length (G.pel s.queue) + length (G.backlog s.queue) ≤ batch_size * clear_turns ts
      → let s' = read_loop 𝒟 𝒫 B handler s ts in (G.pel s'.queue ≡ []) × (G.backlog s'.queue ≡ [])
  unfolding read_loop
  read_loop-clears s [] q h =
      (empty (G.pel s.queue) (omega (arith, h)), empty (G.backlog s.queue) (omega (arith, h)))
  read_loop-clears s (t ∷ ts) (q, qs) h =
      let (less, goes_on) = turn-clears t s q in
      rw goes_on (read_loop-clears (turn 𝒟 𝒫 B handler t s).0 ts qs (ground (arith, h, less)))
