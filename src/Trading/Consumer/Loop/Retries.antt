-- ===== src/Trading/Consumer/Loop/Retries.antt =====
-- Which messages a turn of the loop of engine/execution/consumer/consumer.go leaves pending.
use mathlib.Core.Path.{subst}
use erebor.Prelude.{
  ◌≡◌, refl, sym, ap, ◌∙◌, Bool, true, false, ◌&&◌, inl, inr, String, List, [], ◌∷◌, ◌++◌,
  if◌then◌else◌, if_cases, append_assoc, append_nil, take-append-drop, take, drop, Bool-cases,
  arith, ℕ,
}
use erebor.Decimal.{Decimal}
use erebor.Platform.{Platform}
use erebor.Trading.Signals.{SignalEvent}
use erebor.Wire.{Message}
use erebor.Trading.Consumer.{handle_message}
use erebor.Trading.Consumer.Group.{Broker, IsGroup, without}
use erebor.Trading.Consumer.Loop.Distinct.{
  DistinctIds, DistinctIds-drop, DistinctIds-front, without_lem,
}
use erebor.Trading.Consumer.Loop.{
  batch_size, Turn, delivers, State, ack, handle, handle_messages, drain_pel, read_new, poll, turn,
}

module _ (𝒟 : Decimal) (𝒫 : Platform) {St : Type 0}
    (handler : St → String → SignalEvent 𝒟.Amount → St × Bool) where
  -- The state after some messages, and those that stay pending: the handler failed on them, or
  -- their XACK did not reach Redis.
  abbrev pub settle : (String → Bool) → St → List Message → St × List Message
  settle reaches st [] = (st, [])
  settle reaches st (m ∷ msgs) =
      let (st', done) = handle_message 𝒟 𝒫 handler st m in
      let (st'', left) = settle reaches st' msgs in
      (st'', (if done && reaches m.id then left else m ∷ left))

  settle-DistinctIds :
      (reaches : String → Bool) (st : St) (pre msgs rest : List Message)
      → DistinctIds (pre ++ (msgs ++ rest))
      → DistinctIds (pre ++ ((settle reaches st msgs).1 ++ rest))
  settle-DistinctIds reaches st pre [] rest d = d
  settle-DistinctIds reaches st pre (m ∷ msgs) rest d =
      let next = handle_message 𝒟 𝒫 handler st m in
      let left = (settle reaches next.0 msgs).1 in
      if_cases (λ xs. DistinctIds (pre ++ (xs ++ rest))) (next.1 && reaches m.id)
        (λ e.
          settle-DistinctIds reaches next.0 pre msgs rest (DistinctIds-drop m pre (msgs ++ rest) d))
        (λ e. subst DistinctIds (append_assoc pre (m ∷ []) (left ++ rest)) (
          settle-DistinctIds reaches next.0 (pre ++ m ∷ []) msgs rest
            (subst DistinctIds (sym (append_assoc pre (m ∷ []) (msgs ++ rest))) d)))

  module _ {Q : Type 0} (B : Broker Q) (G : IsGroup B) where
    pub handle_lem :
        (reaches : String → Bool) (s : State Q St) (m : Message)
        → let (st, done) = handle_message 𝒟 𝒫 handler s.st m in
          let s' = handle 𝒟 𝒫 B handler reaches s m in
          (s'.st ≡ st)
          × (G.pel s'.queue
              ≡ (if done && reaches m.id then without m.id (G.pel s.queue) else G.pel s.queue))
          × (G.backlog s'.queue ≡ G.backlog s.queue)
    unfolding handle ack
    handle_lem reaches s m = ground (arith, G.pel-ack s.queue m.id, G.backlog-ack s.queue m.id)

    handle_messages-settle :
        (reaches : String → Bool) (s : State Q St) (pre msgs rest : List Message)
        → G.pel s.queue ≡ pre ++ (msgs ++ rest)
        → DistinctIds (pre ++ (msgs ++ rest))
        → let s' = handle_messages 𝒟 𝒫 B handler reaches s msgs in
          (s'.st ≡ (settle reaches s.st msgs).0)
          × (G.pel s'.queue ≡ pre ++ ((settle reaches s.st msgs).1 ++ rest))
          × (G.backlog s'.queue ≡ G.backlog s.queue)
    unfolding handle_messages
    handle_messages-settle reaches s pre [] rest e d = (refl, e, refl)
    handle_messages-settle reaches s pre (m ∷ msgs) rest e d =
        let s' = handle 𝒟 𝒫 B handler reaches s m in
        let (st_eq, pel_eq, backlog_eq) = handle_lem reaches s m in
        let next = (handle_message 𝒟 𝒫 handler s.st m).0 in
        let acked = (handle_message 𝒟 𝒫 handler s.st m).1 && reaches m.id in
        elim (Bool-cases acked) [
          | inl b ↦
              let rec =
                handle_messages-settle reaches s' pre msgs rest
                  (pel_eq ∙ rw (b, e) (without_lem m pre (msgs ++ rest) d))
                  (DistinctIds-drop m pre (msgs ++ rest) d) in
              (
                rec.0 ∙ ap (λ st. (settle reaches st msgs).0) st_eq,
                rw b (rec.1 ∙ ap (λ st. pre ++ ((settle reaches st msgs).1 ++ rest)) st_eq),
                rec.2 ∙ backlog_eq,
              )
          | inr b ↦
              let rec =
                handle_messages-settle reaches s' (pre ++ m ∷ []) msgs rest
                  (pel_eq ∙ rw (b, e, append_assoc pre (m ∷ []) (msgs ++ rest)) refl)
                  (subst DistinctIds (sym (append_assoc pre (m ∷ []) (msgs ++ rest))) d) in
              (
                rec.0 ∙ ap (λ st. (settle reaches st msgs).0) st_eq,
                rw b (
                    rec.1
                    ∙ ap (λ st. (pre ++ m ∷ []) ++ ((settle reaches st msgs).1 ++ rest)) st_eq
                    ∙ append_assoc pre (m ∷ []) ((settle reaches next msgs).1 ++ rest)),
                rec.2 ∙ backlog_eq,
              )
        ]

    -- What the second read meets has distinct ids as well.
    read-DistinctIds :
        (reaches : String → Bool) (st : St) (n : ℕ) (old new : List Message)
        → DistinctIds (old ++ new)
        → DistinctIds (((settle reaches st (take n old)).1 ++ drop n old) ++ take n new)
    read-DistinctIds reaches st n old new d =
        let left = (settle reaches st (take n old)).1 in
        let split =
          ap (λ xs. xs ++ new) (sym (take-append-drop n old))
          ∙ append_assoc (take n old) (drop n old) new
          ∙ ap (λ xs. take n old ++ (drop n old ++ xs)) (sym (take-append-drop n new)) in
        let joined =
          append_assoc (left ++ drop n old) (take n new) (drop n new)
          ∙ append_assoc left (drop n old) (take n new ++ drop n new) in
        DistinctIds-front ((left ++ drop n old) ++ take n new) (drop n new) (
          subst DistinctIds (sym joined) (
            settle-DistinctIds reaches st [] (take n old) (drop n old ++ (take n new ++ drop n new))
              (subst DistinctIds split d)))

    drain_pel-settle :
        (t : Turn) (s : State Q St)
        → t.pending_fails ≡ false
        → DistinctIds (G.pel s.queue)
        → let s' = drain_pel 𝒟 𝒫 B handler t s in
          let (st, left) = settle t.ack_reaches s.st (take batch_size (G.pel s.queue)) in
          (s'.st ≡ st)
          × (G.pel s'.queue ≡ left ++ drop batch_size (G.pel s.queue))
          × (G.backlog s'.queue ≡ G.backlog s.queue)
    unfolding drain_pel
    drain_pel-settle t s f d =
        let n = batch_size in
        let whole = sym (take-append-drop n (G.pel s.queue)) in
        rw (f, G.pending_lem s.queue n)
          (handle_messages-settle t.ack_reaches s [] (take n (G.pel s.queue))
            (drop n (G.pel s.queue)) whole (subst DistinctIds whole d))

    poll-settle :
        (reaches : String → Bool) (s : State Q St)
        → DistinctIds (G.pel s.queue ++ take batch_size (G.backlog s.queue))
        → let s' = (poll 𝒟 𝒫 B handler reaches s delivers).0 in
          let (st, left) = settle reaches s.st (take batch_size (G.backlog s.queue)) in
          (s'.st ≡ st)
          × (G.pel s'.queue ≡ G.pel s.queue ++ left)
          × (G.backlog s'.queue ≡ drop batch_size (G.backlog s.queue))
    unfolding poll
    poll-settle reaches s d =
        let n = batch_size in
        let msgs = take n (G.backlog s.queue) in
        let s' : State Q St = record s { queue = (B.deliver s.queue n).1 } in
        let (st_eq, pel_eq, backlog_eq) =
          handle_messages-settle reaches s' (G.pel s.queue) msgs []
            (rw (append_nil msgs) (G.pel-deliver s.queue n)) (rw (append_nil msgs) d) in
        rw (G.deliver_messages s.queue n) (
          st_eq,
          pel_eq ∙ ap (λ xs. G.pel s.queue ++ xs) (append_nil (settle reaches s.st msgs).1),
          backlog_eq ∙ G.backlog-deliver s.queue n,
        )

    -- A turn whose reads reach Redis, on a group where no two messages have the same id: the
    -- handler runs once on each of the first pending messages, oldest first, and then once on each
    -- of the next new ones, twenty of each at most. Of these, exactly the messages on which it
    -- failed or whose XACK was lost stay pending, in their place before and behind the pending
    -- messages that were not read; those not read stay new.
    pub turn-settle :
        (t : Turn) (s : State Q St)
        → t.pending_fails ≡ false
        → t.cancelled ≡ false
        → t.poll ≡ delivers
        → DistinctIds (G.pel s.queue ++ (G.backlog s.queue ++ t.added))
        → let known = G.backlog s.queue ++ t.added in
          let (s', goes_on) = turn 𝒟 𝒫 B handler t s in
          let (st, retried) = settle t.ack_reaches s.st (take batch_size (G.pel s.queue)) in
          let (st', failed) = settle t.ack_reaches st (take batch_size known) in
          (s'.st ≡ st')
          × (G.pel s'.queue ≡ retried ++ (drop batch_size (G.pel s.queue) ++ failed))
          × (G.backlog s'.queue ≡ drop batch_size known)
          × (goes_on ≡ true)
    unfolding turn read_new
    turn-settle t s f c p d =
        let n = batch_size in
        let known = G.backlog s.queue ++ t.added in
        let drained = drain_pel 𝒟 𝒫 B handler t s in
        let s' : State Q St = record drained { queue = B.add drained.queue t.added } in
        let left = (settle t.ack_reaches s.st (take n (G.pel s.queue))).1 in
        let (st_eq, pel_eq, backlog_eq) =
          drain_pel-settle t s f (DistinctIds-front (G.pel s.queue) known d) in
        let pel_eq' = G.pel-add drained.queue t.added ∙ pel_eq in
        let known_eq = G.backlog-add drained.queue t.added ∙ ap (λ xs. xs ++ t.added) backlog_eq in
        let d' : DistinctIds (G.pel s'.queue ++ take n (G.backlog s'.queue)) =
          rw (pel_eq', known_eq) (read-DistinctIds t.ack_reaches s.st n (G.pel s.queue) known d) in
        let (st_eq', pel_eq'', backlog_eq') = poll-settle t.ack_reaches s' d' in
        let again = settle t.ack_reaches (settle t.ack_reaches s.st (take n (G.pel s.queue))).0 in
        let read : settle t.ack_reaches s'.st (take n (G.backlog s'.queue)) ≡ again (take n known) =
          rw (st_eq, known_eq) refl in
        rw (c, p)
          (
            st_eq' ∙ ap (λ r. r.0) read,
            pel_eq''
                ∙ ap (λ xs. G.pel s'.queue ++ xs) (ap (λ r. r.1) read)
                ∙ ap (λ xs. xs ++ (again (take n known)).1) pel_eq'
                ∙ append_assoc left (drop n (G.pel s.queue)) (again (take n known)).1,
            backlog_eq' ∙ ap (drop n) known_eq,
            refl,
          )
