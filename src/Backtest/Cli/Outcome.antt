-- ===== src/Backtest/Cli/Outcome.antt =====
-- What the exit code of engine/backtest/cmd/erebor-backtest/main.go says of the run.
use erebor.Prelude.{
  ℕ, ◌≡◌, ◌≢◌, refl, ap, ◌∙◌, Bool, true, false, ◌&&◌, Option, none, some, String, if◌then◌else◌,
  inl, inr, Option-cases, Bool-cases, arith,
}
use erebor.Prelude.Assoc.{lookup}
use erebor.Backtest.Repository.{
  running, pending, completed, RunRecord, RunRow, RunTables, create_run,
}
use erebor.Backtest.Runner.{
  Environment, Runner, RunError, create_failed, finish, after_running, after_create, run,
  set_status, set_running_failed, parse_failed,
}
use erebor.Backtest.Runner.Status.{expected_row, run-status}
use erebor.Backtest.Cli.Validation.{IsValid, validate_flags_lem}
use erebor.Backtest.Cli.{
  Library, Checked, accepted, rejected, Flags, ParsedFlags, Setting, validate_flags, choose_run_id,
  run_record, exit_code, load_config, with_config, with_run_id, with_flags, main,
}

-- Nothing failed on the way.
abbrev Course : Environment → Type 0
Course env =
    (env.config_ok ≡ true)
    × (env.create_ok ≡ true)
    × (env.running_ok ≡ true)
    × (env.replay_error ≡ none)

-- A result without an error, where the other branch has one.
taken :
    {B E : Type 0} (b : Bool) (x y : B × Option E)
    → (if b then x else y).1 ≡ none
    → y.1 ≢ none
    → (b ≡ true) × (x.1 ≡ none)
taken true x y h failed = (refl, h)
taken false x y h failed = absurd (failed h)

some_error : {E : Type 0} (e : E) → some e ≢ none
some_error e n = ground (arith, n)

no_error :
    {cancelled : Bool} (e : Option RunError)
    → cancelled ≡ false
    → (L : Library) → exit_code L cancelled e ≡ 0
    → e ≡ none
no_error none c L z = refl
no_error (some e) c L z = absurd (ground (arith, c, z))

-- The row of a run that went through.
abbrev row_of : Environment → RunRecord → RunRow
row_of env rec = record {
  rec = record rec { status = if env.final_ok then completed else running };
  started_at = some env.started_at;
  completed_at = if env.final_ok then some env.completed_at else none;
  error = none;
}

expected-Course :
    (env : Environment) (rec : RunRecord)
    → Course env
    → env.ctx_cancelled ≡ false
    → expected_row env rec ≡ row_of env rec
expected-Course env rec (parses, creates, runs, replays) c = elim (Bool-cases env.final_ok) [
  | inl e ↦ rw (runs, c, replays, e) refl
  | inr e ↦ rw (runs, c, replays, e) refl
]

module _ {A M : Type 0} where
  finish-Course :
      (env : Environment) (rec : RunRecord) (r : Runner A M)
      → env.ctx_cancelled ≡ false
      → (finish A M env rec r).1 ≡ none
      → env.replay_error ≡ none
  unfolding finish
  finish-Course env rec r c h = elim (Option-cases env.replay_error) [
    | inl e ↦ e
    | inr (msg, e) ↦ absurd (ground (arith, c, e, h))
  ]

  after_create-Course :
      (env : Environment) (rec : RunRecord) (r : Runner A M) (t : Option (RunTables A M))
      → env.ctx_cancelled ≡ false
      → (after_create A M env rec r t).1 ≡ none
      → (t ≢ none) × (env.running_ok ≡ true) × (env.replay_error ≡ none)
  unfolding after_create after_running
  after_create-Course env rec r none c h = absurd (some_error create_failed h)
  after_create-Course env rec r (some t) c h =
      let r' : Runner A M = record r { tables = t } in
      let started = set_status A M r' true rec.run_id running (some env.started_at) none "" in
      let (up, done) =
        taken env.running_ok (after_running A M env rec started) (r', some set_running_failed) h
          (some_error set_running_failed) in
      (λ n. some_error t n, up, finish-Course env rec _ c done)

  -- A run without an error went through all its steps.
  run-Course :
      (env : Environment) (rec : RunRecord) (r : Runner A M)
      → env.ctx_cancelled ≡ false
      → (run A M env rec r).1 ≡ none
      → Course env
  unfolding run
  run-Course env rec r c h =
      let t = create_run A M r.tables (record rec { status = pending }) in
      let (parses, h1) =
        taken env.config_ok (after_create A M env rec r (if env.create_ok then t else none))
          (r, some parse_failed) h (some_error parse_failed) in
      let (row, up, replayed) =
        after_create-Course env rec r (if env.create_ok then t else none) c h1 in
      (
        parses,
        elim (Bool-cases env.create_ok) [ inl e ↦ e | inr e ↦ absurd (row (rw e refl)) ],
        up,
        replayed,
      )

  module _ (L : Library) where
    -- The run that `main` makes of the flags and the id, if it gets as far.
    abbrev Ran :
        Setting L → Runner A M → Checked (ParsedFlags L) → Option String → Runner A M → Type 0
    Ran s r flags id r' =
        (pf : ParsedFlags L) × (run_id : String) × (flags ≡ accepted pf)
        × (id ≡ some run_id)
        × (exit_code L s.env.ctx_cancelled (run A M s.env (run_record L run_id pf) r).1 ≡ 0)
        × (r' ≡ (run A M s.env (run_record L run_id pf) r).0)

    zero_if :
        (b : Bool) (x y : Runner A M × ℕ)
        → (if b then x else y).1 ≡ 0
        → y.1 ≢ 0
        → (x.1 ≡ 0) × ((if b then x else y) ≡ x)
    zero_if true x y h failed = (h, refl)
    zero_if false x y h failed = absurd (failed h)

    with_config-Ran :
        (s : Setting L) (r : Runner A M) (pf : ParsedFlags L) (id : String)
        (cfg : Option (String × String))
        → (with_config L s r pf id cfg).1 ≡ 0
        → Ran s r (accepted pf) (some id) (with_config L s r pf id cfg).0
    unfolding with_config
    with_config-Ran s r pf id none h = absurd (omega (arith, h))
    with_config-Ran s r pf id (some cfg) h =
        let (r', e) = run A M s.env (run_record L id pf) r in
        let (zero, same) =
          zero_if (s.redis_up && s.database_up) (r', exit_code L s.env.ctx_cancelled e) (r, 1) h
            (λ n. omega (arith, n)) in
        (pf, id, refl, refl, zero, ap (λ p. p.0) same)

    with_run_id-Ran :
        (s : Setting L) (r : Runner A M) (pf : ParsedFlags L) (id : Option String)
        → (with_run_id L s r pf id).1 ≡ 0
        → Ran s r (accepted pf) id (with_run_id L s r pf id).0
    unfolding with_run_id
    with_run_id-Ran s r pf none h = absurd (omega (arith, h))
    with_run_id-Ran s r pf (some id) h =
        with_config-Ran s r pf id (load_config L s.timescale_dsn s.redis_addr) h

    with_flags-Ran :
        (s : Setting L) (r : Runner A M) (flags : Checked (ParsedFlags L))
        → (with_flags L s r flags).1 ≡ 0
        → Ran s r flags (choose_run_id L s) (with_flags L s r flags).0
    unfolding with_flags
    with_flags-Ran s r (rejected e) h = absurd (omega (arith, h))
    with_flags-Ran s r (accepted pf) h = with_run_id-Ran s r pf (choose_run_id L s) h

    main-Ran :
        (s : Setting L) (flags : Flags L) (r : Runner A M)
        → (main L s flags r).1 ≡ 0
        → Ran s r (validate_flags L flags) (choose_run_id L s) (main L s flags r).0
    unfolding main
    main-Ran s flags r h =
        let (zero, same) =
          zero_if s.level_ok (with_flags L s r (validate_flags L flags)) (r, 2) h
            (λ n. omega (arith, n)) in
        rw same (with_flags-Ran s r (validate_flags L flags) zero)

    -- A process that ends with the exit code 0, was not cancelled, and whose run id was free, if it
    -- had one, has made a run: the flags are valid, and the row of the run says COMPLETED, with the
    -- flags as its parameters and no error; or RUNNING, if the database failed at the end.
    pub main-completed :
        (s : Setting L) (flags : Flags L) (r : Runner A M)
        → (main L s flags r).1 ≡ 0
        → s.env.ctx_cancelled ≡ false
        → ((id : String) → choose_run_id L s ≡ some id → lookup id r.tables.runs ≡ none)
        → (pf : ParsedFlags L) × (id : String) × IsValid L flags pf
          × (choose_run_id L s ≡ some id)
          × (lookup id (main L s flags r).0.tables.runs
              ≡ some (record {
                rec = record (run_record L id pf) {
                  status = if s.env.final_ok then completed else running;
                };
                started_at = some s.env.started_at;
                completed_at = if s.env.final_ok then some s.env.completed_at else none;
                error = none;
              }))
    main-completed s flags r h c free =
        let (pf, id, valid, chosen, zero, same) = main-Ran s flags r h in
        let course =
          run-Course s.env (run_record L id pf) r c
            (no_error (run A M s.env (run_record L id pf) r).1 c L zero) in
        (
          pf,
          id,
          (validate_flags_lem L flags pf).0 valid,
          chosen,
          ap (λ k. lookup id k.tables.runs) same
              ∙ (run-status A M s.env (run_record L id pf) r course.0 course.1 (free id chosen)).0
              ∙ ap some (expected-Course s.env (run_record L id pf) course c),
        )
