-- ===== src/Ingest/Stream/Backoff.antt =====
-- The pauses between the sessions of engine/stream/stream.go.
use mathlib.Core.Path.{subst}
use native.Mathlib.Omega.{arith, mod_fact}
use erebor.Prelude.{
  ℕ, zero, suc, ◌+◌, ◌*◌, ◌/◌, ◌%◌, ◌≤◌, ◌≡◌, ◌≢◌, refl, sym, ap, ◌∙◌, Bool, true, false, some,
  List, [], ◌∷◌, ◌++◌, if◌then◌else◌, ltb, All,
}
use erebor.Prelude.Int.{pos, max_int64}
use erebor.Ingest.Stream.{
  Config, Session, LoopEnd, returned, panicked, Manager, start, forward, wait_time, next_delay,
  after_session, run_loop,
}

-- A pause of at least the first delay and of at most one and a half times the largest.
abbrev pub IsPause : Config → ℕ → Type 0
IsPause cfg wait = (cfg.initial_delay ≤ wait) × (2 * wait ≤ 3 * cfg.max_delay)

-- The delay lies between its bounds, and so did all the pauses.
pub record Paced (cfg : Config) (m : Manager) : Type 0 where
  pub current : ℕ
  pub delay_lem : m.delay ≡ pos current
  pub low : cfg.initial_delay ≤ current
  pub high : current ≤ cfg.max_delay
  pub paused : All (IsPause cfg) m.waits

All-snoc : (P : ℕ → Type 0) (ns : List ℕ) (n : ℕ) → All P ns → P n → All P (ns ++ n ∷ [])
All-snoc P [] n a p = (p, tt)
All-snoc P (m ∷ ns) n (q, a) p = (q, All-snoc P ns n a p)

wait_time-IsPause :
    (cfg : Config) (d random : ℕ)
    → 1 ≤ d
    → cfg.initial_delay ≤ d
    → d ≤ cfg.max_delay
    → cfg.max_delay ≤ 4611686018427387903
    → (wait : ℕ) × (wait_time (pos d) random ≡ some wait) × IsPause cfg wait
unfolding wait_time
wait_time-IsPause cfg zero random h lo hi m = absurd (omega arith)
wait_time-IsPause cfg (suc n) random h lo hi m =
    let wait = suc n + (random % suc n) / 2 in
    let short : ltb max_int64 wait ≡ false = ground (arith, mod_fact random n) in
    (
      wait,
      ap (λ b. some (if b then 0 else wait)) short,
      (omega (arith, lo), omega (arith, hi, mod_fact random n)),
    )

next_delay-bounds :
    (cfg : Config) (d : ℕ)
    → cfg.initial_delay ≤ d
    → d ≤ cfg.max_delay
    → cfg.max_delay ≤ 4611686018427387903
    → (d' : ℕ) × (next_delay cfg (pos d) ≡ pos d') × (cfg.initial_delay ≤ d') × (d' ≤ cfg.max_delay)
unfolding next_delay
next_delay-bounds cfg d lo hi m =
    let small : ltb max_int64 (d * 2) ≡ false = ground arith in
    (
      (if ltb cfg.max_delay (d * 2) then cfg.max_delay else d * 2),
      rw small (if_pos (ltb cfg.max_delay (d * 2))),
      ground arith,
      ground arith,
    )
  where
    if_pos :
        (b : Bool)
        → (if b then pos cfg.max_delay else pos (d * 2)) ≡ pos (if b then cfg.max_delay else d * 2)
    if_pos true = refl
    if_pos false = refl

abbrev NoPanic : Config → Manager × LoopEnd → Type 0
NoPanic cfg r = Paced cfg r.0 × (r.1 ≢ panicked)

after_session-NoPanic :
    (again : Manager → Manager × LoopEnd) (cfg : Config) (m : Manager) (s : Session)
    → 1 ≤ cfg.initial_delay
    → cfg.max_delay ≤ 4611686018427387903
    → Paced cfg m
    → ((k : Manager) → Paced cfg k → NoPanic cfg (again k))
    → NoPanic cfg (after_session again cfg m s (wait_time m.delay s.random))
unfolding after_session
after_session-NoPanic again cfg m s h le p ih =
    let (wait, waits, ok) =
      wait_time-IsPause cfg p.current s.random (omega (arith, h, p.low)) p.low p.high le in
    let m' = record m { waits = m.waits ++ wait ∷ [] } in
    let q : Paced cfg m' = record {
      current = p.current;
      delay_lem = p.delay_lem;
      low = p.low;
      high = p.high;
      paused = All-snoc (IsPause cfg) m.waits wait p.paused ok;
    } in
    let (d, e, lo, hi) = next_delay-bounds cfg p.current p.low p.high le in
    let next : Paced cfg (record m' { delay = next_delay cfg m.delay }) = record {
      current = d;
      delay_lem = ap (next_delay cfg) p.delay_lem ∙ e;
      low = lo;
      high = hi;
      paused = q.paused;
    } in
    subst (λ o. NoPanic cfg (after_session again cfg m s o))
      (sym (ap (λ d. wait_time d s.random) p.delay_lem ∙ waits))
      (after_wait s.cancelled_waiting m' q (ih (record m' { delay = next_delay cfg m.delay }) next))
  where
    after_wait :
        (c : Bool) (m' : Manager)
        → Paced cfg m'
        → NoPanic cfg (again (record m' { delay = next_delay cfg m.delay }))
        → NoPanic cfg (elim c [
          | true ↦ (m', returned)
          | false ↦ again (record m' { delay = next_delay cfg m.delay })
        ])
    after_wait true m' q n = (q, (λ e. ground (arith, e)))
    after_wait false m' q n = n

run_loop-NoPanic :
    (cfg : Config) (m : Manager) (sessions : List Session)
    → 1 ≤ cfg.initial_delay
    → cfg.max_delay ≤ 4611686018427387903
    → Paced cfg m
    → NoPanic cfg (run_loop cfg m sessions)
unfolding run_loop
run_loop-NoPanic cfg m [] h le p = (p, (λ e. ground (arith, e)))
run_loop-NoPanic cfg m (s ∷ sessions) h le p =
    let m' = record m { events = m.events ++ forward s.frames } in
    let p' : Paced cfg m' = record {
      current = p.current;
      delay_lem = p.delay_lem;
      low = p.low;
      high = p.high;
      paused = p.paused;
    } in
    turn s.cancelled_before s.cancelled_during m' p' (
      after_session-NoPanic (λ k. run_loop cfg k sessions) cfg m' s h le p'
        (λ k q. run_loop-NoPanic cfg k sessions h le q))
  where
    turn :
        (b c : Bool) (m' : Manager) {r : Manager × LoopEnd}
        → Paced cfg m'
        → NoPanic cfg r
        → NoPanic cfg
            (elim b [ true ↦ (m, returned) | false ↦ elim c [ true ↦ (m', returned) | false ↦ r ] ])
    turn true c m' q n = (p, (λ e. ground (arith, e)))
    turn false true m' q n = (q, (λ e. ground (arith, e)))
    turn false false m' q n = n

-- If the first delay is positive and at most the largest, which is below 2 ^ 62 nanoseconds, the
-- loop of sessions never panics, however the sessions end, and each of its pauses is at least the
-- first delay and at most one and a half times the largest.
pub run_loop-pauses :
    (cfg : Config) (sessions : List Session)
    → 1 ≤ cfg.initial_delay
    → cfg.initial_delay ≤ cfg.max_delay
    → cfg.max_delay ≤ 4611686018427387903
    → ((run_loop cfg (start cfg) sessions).1 ≢ panicked)
      × All (IsPause cfg) (run_loop cfg (start cfg) sessions).0.waits
unfolding start
run_loop-pauses cfg sessions h lo le =
    let r = run_loop-NoPanic cfg (start cfg) sessions h le (record {
      current = cfg.initial_delay;
      delay_lem = refl;
      low = omega arith;
      high = lo;
      paused = tt;
    }) in
    (r.1, r.0.paused)
