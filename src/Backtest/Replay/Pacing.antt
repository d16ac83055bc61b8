-- ===== src/Backtest/Replay/Pacing.antt =====
-- The pauses of a replay (engine/backtest/replay/speed.go).
use erebor.Prelude.{ℕ, ◌+◌, ◌≤◌, ◌≡◌, ap, none, some, List, [], ◌∷◌, ◌++◌, arith}
use erebor.Decimal.{Decimal}
use erebor.Platform.{Platform}
use erebor.Ingest.Domain.{DiffEvent, SnapshotEvent}
use erebor.Ingest.Repository.{Repository}
use erebor.Backtest.Replay.{SpeedController, wall_clock, sleep_time, Outcome, Engine, replay}
use erebor.Backtest.Replay.Books.{fine, slept, Contiguous, pauses, replay-sleeps}

abbrev pub total : List ℕ → ℕ
total [] = 0
total (n ∷ ns) = n + total ns

total-append : (ms ns : List ℕ) → total (ms ++ ns) ≡ total ms + total ns
total-append [] ns = omega arith
total-append (m ∷ ms) ns = omega (arith, total-append ms ns)

slept-wall_clock :
    (speed : SpeedController) (prev curr : ℕ)
    → speed.mode ≡ wall_clock
    → 1 ≤ prev
    → prev ≤ curr
    → total (slept (sleep_time speed prev curr)) + prev ≡ curr
unfolding sleep_time
slept-wall_clock speed prev curr w h le = rw w (ground (arith, h, le))

first_at_once : (speed : SpeedController) (curr : ℕ) → sleep_time speed 0 curr ≡ none
unfolding sleep_time
first_at_once speed curr = ground arith

module _ {A : Type 0} where
  -- The times do not go back, from `prev` on.
  abbrev pub Forward : ℕ → List (DiffEvent A) → Type 0
  Forward prev [] = Unit
  Forward prev (diff ∷ diffs) = (prev ≤ diff.event_time) × Forward diff.event_time diffs

  abbrev pub last_time : ℕ → List (DiffEvent A) → ℕ
  last_time prev [] = prev
  last_time prev (diff ∷ diffs) = last_time diff.event_time diffs

  total-pauses :
      (speed : SpeedController) (prev : ℕ) (diffs : List (DiffEvent A))
      → speed.mode ≡ wall_clock
      → 1 ≤ prev
      → Forward prev diffs
      → total (pauses speed prev diffs) + prev ≡ last_time prev diffs
  total-pauses speed prev [] w h f = omega arith
  total-pauses speed prev (diff ∷ diffs) w h (le, f) = omega (
    arith,
    total-append (slept (sleep_time speed prev diff.event_time))
        (pauses speed diff.event_time diffs),
    slept-wall_clock speed prev diff.event_time w h le,
    total-pauses speed diff.event_time diffs w (omega (arith, h, le)) f,
  )

module _ (𝒟 : Decimal) (𝒫 : Platform) (ingest_repo : Repository 𝒟.Amount)
    (speed : SpeedController) where
  open 𝒟 use {Amount}

  -- A replay at wall-clock speed of diffs without a gap, whose times do not go back, in which
  -- nothing fails pauses in total for the time from the first diff, which is not Go's zero time,
  -- to the last.
  pub replay-wall_clock :
      (outcomes : ℕ → Outcome) (e : Engine Amount) (checkpoint : SnapshotEvent Amount)
      (diff : DiffEvent Amount) (diffs : List (DiffEvent Amount))
      → speed.mode ≡ wall_clock
      → ((j : ℕ) → outcomes j ≡ fine)
      → ingest_repo.query_nearest_checkpoint e.cfg.symbol e.cfg.from ≡ some checkpoint
      → ingest_repo.query_diffs e.cfg.symbol checkpoint.captured_at e.cfg.to ≡ some (diff ∷ diffs)
      → Contiguous none (diff ∷ diffs)
      → 1 ≤ diff.event_time
      → Forward diff.event_time diffs
      → total (replay 𝒟 𝒫 ingest_repo speed outcomes e).engine.sleeps + diff.event_time
        ≡ total e.sleeps + last_time diff.event_time diffs
  replay-wall_clock outcomes e checkpoint diff diffs w ok c d g h f = omega (
    arith,
    total-append e.sleeps (pauses speed 0 (diff ∷ diffs)),
    ap total (replay-sleeps 𝒟 𝒫 ingest_repo speed outcomes e checkpoint (diff ∷ diffs) ok c d g),
    total-append (slept (sleep_time speed 0 diff.event_time)) (pauses speed diff.event_time diffs),
    ap (λ o. total (slept o)) (first_at_once speed diff.event_time),
    total-pauses speed diff.event_time diffs w h f,
  )
