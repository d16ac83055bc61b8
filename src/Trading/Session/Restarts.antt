-- ===== src/Trading/Session/Restarts.antt =====
-- What a restart finds, by how the process ended before: `Start`, `Halt` and `Stop` of
-- engine/execution/session/manager.go over the table of engine/execution/repository/repository.go.
use text.Mathlib.Text.{◌==◌ as str_eq}
use text.Mathlib.TextEquality.{eq_iff}
use erebor.Prelude.{
  ℕ, ◌≤◌, ◌≡◌, refl, ap, ◌∙◌, true, false, Option, none, some, String, List, [], ◌∷◌, All, arith,
  Option-cases, inl, inr,
}
use erebor.Trading.Session.{
  resume, SessionStatus, running, stopped, halted, PaperSession, StartResult, is_halted, Result,
  err, ◌>>=◌, Manager, new_session, start, stop, halt, set_status, latest_session, has_session,
  running_sessions, start_running, start_latest, is_running,
}
use erebor.Trading.Session.Lifecycle.{S, created, resumed, set_status_twice, stores}

-- Older sessions, with other ids.
abbrev pub Precede : List PaperSession → PaperSession → Type 0
Precede rows s =
    All (λ r. (r.started_at ≤ s.started_at) × (str_eq r.session_id s.session_id ≡ false)) rows

latest-Bounded :
    (s : PaperSession) (rows : List PaperSession)
    → Precede rows s
    → (v : PaperSession) → latest_session rows ≡ some v
    → v.started_at ≤ s.started_at
unfolding latest_session
latest-Bounded s [] p v e = absurd (ground (arith, e))
latest-Bounded s (r ∷ rows) (q, p) v e = elim (Option-cases (latest_session rows)) [
  | inl n ↦ ground (arith, q.0, e, n)
  | inr (w, l) ↦ ground (arith, q.0, e, l, latest-Bounded s rows p w l)
]

-- The newest of the sessions comes first.
latest-newest :
    (s : PaperSession) (rows : List PaperSession)
    → Precede rows s
    → (u : PaperSession) → u.started_at ≡ s.started_at
    → latest_session (u ∷ rows) ≡ some u
unfolding latest_session
latest-newest s rows p u e = elim (Option-cases (latest_session rows)) [
  | inl n ↦ rw n refl
  | inr (v, l) ↦ rw l (ground (arith, e, latest-Bounded s rows p v l))
]

set_status-others :
    (s : PaperSession) (rows : List PaperSession) (status : SessionStatus) (t : Option ℕ)
    (reason : String)
    → Precede rows s
    → set_status rows s.session_id status t reason ≡ rows
unfolding set_status
set_status-others s [] status t reason p = refl
set_status-others s (r ∷ rows) status t reason (q, p) =
    ground (arith, q.1, set_status-others s rows status t reason p)

running-set_status :
    (rows : List PaperSession)
    → running_sessions rows ≡ []
    → (s : PaperSession) → is_running s.status ≡ false
    → running_sessions (s ∷ rows) ≡ []
unfolding running_sessions
running-set_status rows none_running s ended = ground (arith, none_running, ended)

module _ {P E : Type 0} (to_jsonb : String → Option String) (positions : String → List P)
    (equity : String → E) where
  -- The manager of a new process over a table.
  abbrev pub reopened : List PaperSession → Manager (S to_jsonb positions equity)
  reopened rows = record { store = rows; session = none }

  -- The session with the mark that ends it.
  abbrev pub ended : PaperSession → SessionStatus → ℕ → String → PaperSession
  ended s status t reason = record s { status = status; stopped_at = some t; error = reason }

  set_status-first :
      (s : PaperSession) (rows : List PaperSession)
      → Precede rows s
      → (status : SessionStatus) (t : ℕ) (reason : String)
      → set_status (s ∷ rows) s.session_id status (some t) reason ≡ ended s status t reason ∷ rows
  unfolding set_status
  set_status-first s rows p status t reason =
      ground
        (arith, eq_iff s.session_id s.session_id, set_status-others s rows status (some t) reason p)

  start_after :
      (rows : List PaperSession) (id : String) (symbols : List String) (cfg : String) (now : ℕ)
      → start (S to_jsonb positions equity) (reopened rows) id symbols cfg now
        ≡ start_running
            (S to_jsonb positions equity)
            (reopened rows)
            (new_session (S to_jsonb positions equity) id symbols cfg now)
            (latest_session (running_sessions rows))
  unfolding start
  start_after rows id symbols cfg now = refl

  pub start_crashed :
      (s : PaperSession) (rows : List PaperSession)
      → is_running s.status ≡ true
      → running_sessions rows ≡ []
      → (id : String) (symbols : List String) (cfg : String) (now : ℕ)
      → start (S to_jsonb positions equity) (reopened (s ∷ rows)) id symbols cfg now
        ≡ resumed to_jsonb positions equity (reopened (s ∷ rows)) s
  unfolding running_sessions latest_session start_running resume
  start_crashed s rows r none_running id symbols cfg now =
      start_after (s ∷ rows) id symbols cfg now ∙ rw (r, none_running) refl

  start_ended :
      (s : PaperSession) (rows : List PaperSession)
      → is_running s.status ≡ false
      → running_sessions rows ≡ []
      → (id : String) (symbols : List String) (cfg : String) (now : ℕ)
      → start (S to_jsonb positions equity) (reopened (s ∷ rows)) id symbols cfg now
        ≡ start_latest
            (S to_jsonb positions equity)
            (reopened (s ∷ rows))
            (new_session (S to_jsonb positions equity) id symbols cfg now)
            (latest_session (s ∷ rows))
  unfolding latest_session start_running
  start_ended s rows r none_running id symbols cfg now =
      start_after (s ∷ rows) id symbols cfg now ∙ rw (running-set_status rows none_running s r) refl

  -- A session is the newest, of its own id, and no other is running; `raw` is the configuration
  -- that its process holds. The next process brings a configuration that the table can hold and a
  -- new id. Then after a crash it resumes that session; after a halt and a crash it refuses to
  -- start; but after a stop it opens a new session without positions, also if the session had been
  -- halted before.
  pub session_restarts :
      (s : PaperSession) (rows : List PaperSession) (raw : String)
      → s.status ≡ running
      → running_sessions rows ≡ []
      → Precede rows s
      → (t u : ℕ) (reason : String) (id : String) (symbols : List String) (cfg : String) (now : ℕ)
        {json : String}
      → to_jsonb cfg ≡ some json
      → has_session id (s ∷ rows) ≡ false
      → let m : Manager (S to_jsonb positions equity) = record {
        store = s ∷ rows;
        session = some (record s { strategy_config = raw });
      } in
        let restart : Manager (S to_jsonb positions equity)
            → Result (Manager (S to_jsonb positions equity) × StartResult P E) =
          λ k. start (S to_jsonb positions equity) (reopened k.store) id symbols cfg now in
        let fresh = new_session (S to_jsonb positions equity) id symbols cfg now in
        let afresh =
          created to_jsonb positions equity (reopened (ended s stopped u "" ∷ rows)) fresh json in
        (restart m ≡ resumed to_jsonb positions equity (reopened (s ∷ rows)) s)
        × ((halt (S to_jsonb positions equity) m t reason >>= restart)
            ≡ err (is_halted s.session_id))
        × ((stop (S to_jsonb positions equity) m u >>= restart) ≡ afresh)
        × ((halt (S to_jsonb positions equity) m t reason >>= λ k.
              stop (S to_jsonb positions equity) k u >>= restart)
            ≡ afresh)
  unfolding halt stop start_latest
  session_restarts s rows raw r none_running p t u reason id symbols cfg now j new =
      let next = λ (xs : List PaperSession).
        start (S to_jsonb positions equity) (reopened xs) id symbols cfg now in
      let stopped_rows = ended s stopped u "" ∷ rows in
      let opens =
        ap next (set_status-first s rows p stopped u "")
        ∙ start_ended (ended s stopped u "") rows refl none_running id symbols cfg now
        ∙ rw (latest-newest s rows p (ended s stopped u "") refl) (
            stores to_jsonb positions equity (reopened stopped_rows)
              (new_session (S to_jsonb positions equity) id symbols cfg now) j new) in
      (
        start_crashed s rows (rw r refl) none_running id symbols cfg now,
        ap next (set_status-first s rows p halted t reason)
            ∙ start_ended (ended s halted t reason) rows refl none_running id symbols cfg now
            ∙ rw (latest-newest s rows p (ended s halted t reason) refl) refl,
        opens,
        ap next (
              set_status_twice to_jsonb positions equity (s ∷ rows) s.session_id halted stopped
                (some t) (some u) reason "")
            ∙ opens,
      )
