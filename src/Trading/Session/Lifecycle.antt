-- ===== src/Trading/Session/Lifecycle.antt =====
-- How sessions begin and end: `Start`, `Halt` and `Stop` of engine/execution/session/manager.go
-- over the table of engine/execution/repository/repository.go.
use mathlib.Core.Path.{subst}
use erebor.Prelude.{
  ℕ, ◌≡◌, refl, ap, ◌∙◌, true, false, Option, none, some, String, List, [], ◌∷◌, arith, ◌⊎◌, inl,
  inr, Option-cases, Bool-cases, sym,
}
use erebor.Trading.Session.{
  SessionStatus, running, stopped, halted, PaperSession, SessionStore, StartResult, is_halted,
  Result, ok, err, ◌>>=◌, Manager, new_session, start, stop, halt, set_status, latest_session,
  running_sessions, session_table, is_halted_status, start_running, start_latest, has_session,
  create_row, create_new, store_failed,
}

module _ {P E : Type 0} (to_jsonb : String → Option String) (positions : String → List P)
    (equity : String → E) where
  abbrev pub S : SessionStore P E
  S = session_table to_jsonb positions equity

  pub set_status_twice :
      (rows : List PaperSession) (id : String) (a b : SessionStatus) (t u : Option ℕ) (r q : String)
      → set_status (set_status rows id a t r) id b u q ≡ set_status rows id b u q
  unfolding set_status
  set_status_twice [] id a b t u r q = refl
  set_status_twice (s ∷ rows) id a b t u r q = ground (arith, set_status_twice rows id a b t u r q)

  -- Stopping a session after it was halted leaves the manager and the table exactly as stopping
  -- alone does: the mark HALTED and its reason are gone.
  pub stop_erases_halt :
      (m : Manager S) (t u : ℕ) (reason : String)
      → (halt S m t reason >>= λ m'. stop S m' u) ≡ stop S m u
  unfolding halt stop
  stop_erases_halt m t u reason = go m.session refl
    where
      go :
          (s : Option PaperSession)
          → m.session ≡ s
          → (halt S m t reason >>= λ m'. stop S m' u) ≡ stop S m u
      go none e = ground arith
      go (some s) e =
          ground (
            arith,
            set_status_twice m.store s.session_id halted stopped (some t) (some u) reason "",
          )

  status-cases : (t : SessionStatus) → (t ≡ halted) ⊎ (is_halted_status t ≡ false)
  status-cases halted = inl refl
  status-cases running = inr refl
  status-cases stopped = inr refl

  -- The session is added with its configuration as the table holds it.
  abbrev pub created : Manager S → PaperSession → String → Result (Manager S × StartResult P E)
  created m fresh json = ok (
    record { store = record fresh { strategy_config = json } ∷ m.store; session = some fresh },
    record { session = fresh; positions = []; equity = none; recovered = false },
  )

  abbrev pub resumed : Manager S → PaperSession → Result (Manager S × StartResult P E)
  resumed m s = ok (
    record m { session = some s },
    record {
      session = s;
      positions = positions s.session_id;
      equity = some (equity s.session_id);
      recovered = true;
    },
  )

  resumes :
      (m : Manager S) (fresh s : PaperSession) → start_running S m fresh (some s) ≡ resumed m s
  unfolding start_running
  resumes m fresh s = refl

  latest_decides :
      (m : Manager S) (fresh : PaperSession)
      → start_running S m fresh none ≡ start_latest S m fresh (latest_session m.store)
  unfolding start_running
  latest_decides m fresh = refl

  -- A new session cannot be added: its configuration is no JSON, or its id is taken.
  abbrev pub Unstorable : Manager S → PaperSession → Type 0
  Unstorable m fresh =
      (to_jsonb fresh.strategy_config ≡ none) ⊎ (has_session fresh.session_id m.store ≡ true)

  -- How the creation of a new session ends.
  abbrev pub Creates : Manager S → PaperSession → Result (Manager S × StartResult P E) → Type 0
  Creates m fresh r =
      (Unstorable m fresh × (r ≡ err store_failed))
      ⊎ ((json : String) × (to_jsonb fresh.strategy_config ≡ some json)
          × (has_session fresh.session_id m.store ≡ false)
          × (r ≡ created m fresh json))

  create_new-Creates :
      (m : Manager S) (fresh : PaperSession) → Creates m fresh (create_new S m fresh)
  unfolding create_new create_row
  create_new-Creates m fresh = elim (Option-cases (to_jsonb fresh.strategy_config)) [
    | inl n ↦ inl (inl n, rw n refl)
    | inr (json, j) ↦ elim (Bool-cases (has_session fresh.session_id m.store)) [
      | inl k ↦ inl (inr k, rw (j, k) refl)
      | inr k ↦ inr (json, j, k, rw (j, k) refl)
    ]
  ]

  pub stores :
      (m : Manager S) (fresh : PaperSession) {json : String}
      → to_jsonb fresh.strategy_config ≡ some json
      → has_session fresh.session_id m.store ≡ false
      → create_new S m fresh ≡ created m fresh json
  unfolding create_new create_row
  stores m fresh j k = rw (j, k) refl

  creates :
      (m : Manager S) (fresh : PaperSession) → start_latest S m fresh none ≡ create_new S m fresh
  unfolding start_latest
  creates m fresh = refl

  refuses :
      (m : Manager S) (fresh s : PaperSession)
      → s.status ≡ halted
      → start_latest S m fresh (some s) ≡ err (is_halted s.session_id)
  unfolding start_latest
  refuses m fresh s h = ground arith

  accepts :
      (m : Manager S) (fresh s : PaperSession)
      → is_halted_status s.status ≡ false
      → start_latest S m fresh (some s) ≡ create_new S m fresh
  unfolding start_latest
  accepts m fresh s h = ground arith

  -- What `start` does over the table: the latest running session is resumed with its positions
  -- and equity; with none running, a latest session that is halted is refused by its id; else it
  -- fails if the configuration is no JSON or the id is in the table, and otherwise a new running
  -- session is added, with its configuration as the table holds it, and returned, with no
  -- positions.
  pub start-cases :
      (m : Manager S) (id : String) (symbols : List String) (cfg : String) (now : ℕ)
      → let fresh = new_session S id symbols cfg now in
        ((s : PaperSession) × (latest_session (running_sessions m.store) ≡ some s)
          × (start S m id symbols cfg now ≡ resumed m s))
        ⊎ ((latest_session (running_sessions m.store) ≡ none)
            × (((s : PaperSession) × (latest_session m.store ≡ some s)
                  × (s.status ≡ halted)
                  × (start S m id symbols cfg now ≡ err (is_halted s.session_id)))
                ⊎ (((s : PaperSession)
                      → latest_session m.store ≡ some s
                      → is_halted_status s.status ≡ false)
                    × Creates m fresh (start S m id symbols cfg now))))
  unfolding start
  start-cases m id symbols cfg now =
      let fresh = new_session S id symbols cfg now in
      let begins : latest_session (running_sessions m.store) ≡ none
          → start_latest S m fresh (latest_session m.store) ≡ create_new S m fresh
          → Creates m fresh (start S m id symbols cfg now) =
        λ e c.
          subst (Creates m fresh)
            (sym (ap (start_running S m fresh) e ∙ latest_decides m fresh ∙ c))
            (create_new-Creates m fresh) in
      elim (Option-cases (latest_session (running_sessions m.store))) [
        | inr (s, e) ↦ inl (s, e, ap (start_running S m fresh) e ∙ resumes m fresh s)
        | inl e ↦ inr (
          e,
          elim (Option-cases (latest_session m.store)) [
            | inl l ↦ inr (λ s k. cc, begins e (ap (start_latest S m fresh) l ∙ creates m fresh))
            | inr (s, l) ↦ elim (status-cases s.status) [
              | inl h ↦ inl (
                s,
                l,
                h,
                ap (start_running S m fresh) e
                    ∙ latest_decides m fresh
                    ∙ ap (start_latest S m fresh) l
                    ∙ refuses m fresh s h,
              )
              | inr n ↦ inr (
                λ t k. ground (arith, l, k),
                begins e (ap (start_latest S m fresh) l ∙ accepts m fresh s n),
              )
            ]
          ],
        )
      ]
