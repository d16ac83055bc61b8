-- ===== src/Ingest/Stream.antt =====
-- engine/stream/stream.go: the loop of websocket sessions with its growing pauses. What happens
-- in one turn of the loop is a `Session`; a duration is an int64 number of nanoseconds. `events`
-- and `waits` are oldest first. A configured duration that is not positive is 0.
pub mod Backoff
use text.Mathlib.Text.{◌==◌ as str_eq}
use erebor.Prelude.{
  ℕ, zero, suc, ◌+◌, ◌*◌, ◌/◌, ◌%◌, Bool, true, false, Option, none, some, String, List, [], ◌∷◌,
  ◌++◌, if◌then◌else◌, ltb, ◌==◌,
}
use erebor.Prelude.Int.{ℤ, pos, negsuc, sub_ℕ, max_int64}
use erebor.Ingest.Dispatch.{RawDiffEvent}

pub record Config : Type 0 where
  pub initial_delay : ℕ
  pub max_delay : ℕ

-- A frame that is no JSON, or one with its event type.
pub data Frame : Type 0 where
  undecodable : Frame
  decoded : String → RawDiffEvent → Frame

-- `frames` are those read before the session ends, in whatever way, and `random` is what the
-- generator draws.
pub record Session : Type 0 where
  pub cancelled_before : Bool
  pub frames : List Frame
  pub cancelled_during : Bool
  pub random : ℕ
  pub cancelled_waiting : Bool

-- The context is cancelled, `Int63n` panics, or the sessions go on.
pub data LoopEnd : Type 0 where
  returned panicked going_on : LoopEnd

pub record Manager : Type 0 where
  pub delay : ℤ
  pub events : List RawDiffEvent
  pub waits : List ℕ

-- The defaults of `New`: one second and thirty.
unfoldable pub with_defaults : Config → Config
with_defaults cfg = record {
  initial_delay = if cfg.initial_delay == 0 then 1000000000 else cfg.initial_delay;
  max_delay = if cfg.max_delay == 0 then 30000000000 else cfg.max_delay;
}

unfoldable pub start : Config → Manager
start cfg = record { delay = pos cfg.initial_delay; events = []; waits = [] }

-- The loop of `runOnce`.
unfoldable pub forward : List Frame → List RawDiffEvent
forward [] = []
forward (undecodable ∷ frames) = forward frames
forward (decoded event_type raw ∷ frames) =
    let rest = forward frames in if str_eq event_type "" then rest else raw ∷ rest

-- `Int63n` panics unless the delay is positive; a sum that overflows is negative, so there is no
-- pause.
unfoldable pub wait_time : ℤ → ℕ → Option ℕ
wait_time (negsuc n) random = none
wait_time (pos zero) random = none
wait_time (pos (suc n)) random =
    let wait = suc n + (random % suc n) / 2 in some (if ltb max_int64 wait then 0 else wait)

-- Twice the delay, which wraps, up to the maximum.
unfoldable pub next_delay : Config → ℤ → ℤ
next_delay cfg (negsuc n) = negsuc n
next_delay cfg (pos n) =
    if ltb max_int64 (n * 2)
    then sub_ℕ (n * 2) 18446744073709551616
    else if ltb cfg.max_delay (n * 2)
    then pos cfg.max_delay
    else pos (n * 2)

-- The rest of a turn, once the session has ended.
unfoldable pub after_session :
    (Manager → Manager × LoopEnd) → Config → Manager → Session → Option ℕ → Manager × LoopEnd
unfolding next_delay
after_session again cfg m s none = (m, panicked)
after_session again cfg m s (some wait) =
    let m' = record m { waits = m.waits ++ wait ∷ [] } in
    elim s.cancelled_waiting [
      | true ↦ (m', returned)
      | false ↦ again (record m' { delay = next_delay cfg m.delay })
    ]

unfoldable pub run_loop : Config → Manager → List Session → Manager × LoopEnd
unfolding forward wait_time after_session
run_loop cfg m [] = (m, going_on)
run_loop cfg m (s ∷ sessions) =
    let m' = record m { events = m.events ++ forward s.frames } in
    elim s.cancelled_before [
      | true ↦ (m, returned)
      | false ↦ elim s.cancelled_during [
        | true ↦ (m', returned)
        | false ↦ after_session (λ k. run_loop cfg k sessions) cfg m' s (wait_time m.delay s.random)
      ]
    ]
