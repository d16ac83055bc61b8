-- ===== src/Backtest/Runner/Status.antt =====
-- The row of a run (engine/backtest/runner/runner.go).
use text.Mathlib.Text.{◌==◌ as str_eq}
use text.Mathlib.TextEquality.{eq_iff}
use erebor.Prelude.{
  ℕ, ◌≡◌, refl, ap, ◌∙◌, Bool, true, false, Option, none, some, String, if◌then◌else◌, inl, inr,
  Option-cases, arith,
}
use erebor.Prelude.Assoc.{lookup, insert, lookup-insert}
use erebor.Backtest.Repository.{
  RunStatus, pending, running, completed, failed, cancelled, RunRecord, RunRow, RunTables,
  create_run, set_run_status, update_run_status,
}
use erebor.Backtest.Runner.{
  Environment, Runner, set_status, set_running_failed, finish, after_running, after_create, run,
}

-- The row that a run should leave.
abbrev pub expected_row : Environment → RunRecord → RunRow
expected_row env rec =
    let row : RunStatus → Option ℕ → Option ℕ → Option String → RunRow =
      λ status started completed error. record {
        rec = record rec { status = status };
        started_at = started;
        completed_at = completed;
        error = error;
      } in
    if env.running_ok
    then if env.final_ok
      then if env.ctx_cancelled
        then row cancelled (some env.started_at) none none
        else elim env.replay_error [
          | some err ↦
              row failed (some env.started_at) (some env.completed_at)
                (if str_eq err "" then none else some err)
          | none ↦ row completed (some env.started_at) (some env.completed_at) none
        ]
      else row running (some env.started_at) none none
    else row pending none none none

module _ (A M : Type 0) where
  updated :
      (t : RunTables A M) (id : String) (row : RunRow) (status : RunStatus) (s c : Option ℕ)
      (msg : String)
      → lookup id t.runs ≡ some row
      → lookup id (update_run_status A M t id status s c msg).runs
        ≡ some (set_run_status A M status s c msg row)
  unfolding update_run_status
  updated t id row status s c msg e =
      rw (update_run_status, e)
        (ground
          (arith, eq_iff id id, lookup-insert id id (set_run_status A M status s c msg row) t.runs))

  untouched :
      (t : RunTables A M) (id other : String) (status : RunStatus) (s c : Option ℕ) (msg : String)
      → str_eq id other ≡ false
      → lookup other (update_run_status A M t id status s c msg).runs ≡ lookup other t.runs
  unfolding update_run_status
  untouched t id other status s c msg d = elim (Option-cases (lookup id t.runs)) [
    | inl e ↦ rw (update_run_status, e) refl
    | inr (row, e) ↦
        rw (update_run_status, e)
          (lookup-insert id other (set_run_status A M status s c msg row) t.runs
            ∙ ap
                (λ b.
                  if b then some (set_run_status A M status s c msg row) else lookup other t.runs)
                d)
  ]

  abbrev finished : Environment → RunRow → RunRow
  finished env row =
      if env.final_ok
      then if env.ctx_cancelled
        then set_run_status A M cancelled none none "" row
        else elim env.replay_error [
          | some err ↦ set_run_status A M failed none (some env.completed_at) err row
          | none ↦ set_run_status A M completed none (some env.completed_at) "" row
        ]
      else row

  finish_row :
      (env : Environment) (rec : RunRecord) (r : Runner A M) (row : RunRow)
      → lookup rec.run_id r.tables.runs ≡ some row
      → lookup rec.run_id (finish A M env rec r).0.tables.runs ≡ some (finished env row)
  unfolding finish
  finish_row env rec r row e = elim (Option-cases env.replay_error) [
    | inl none_failed ↦ ground (
      arith,
      e,
      none_failed,
      updated r.tables rec.run_id row cancelled none none "",
      updated r.tables rec.run_id row completed none (some env.completed_at) "",
    )
    | inr (err, one_failed) ↦ ground (
      arith,
      e,
      one_failed,
      updated r.tables rec.run_id row cancelled none none "",
      updated r.tables rec.run_id row failed none (some env.completed_at) err,
    )
  ]

  finish_others :
      (env : Environment) (rec : RunRecord) (r : Runner A M) (other : String)
      → str_eq rec.run_id other ≡ false
      → lookup other (finish A M env rec r).0.tables.runs ≡ lookup other r.tables.runs
  unfolding finish
  finish_others env rec r other d = elim (Option-cases env.replay_error) [
    | inl none_failed ↦ ground (
      arith,
      none_failed,
      untouched r.tables rec.run_id other cancelled none none "" d,
      untouched r.tables rec.run_id other completed none (some env.completed_at) "" d,
    )
    | inr (err, one_failed) ↦ ground (
      arith,
      one_failed,
      untouched r.tables rec.run_id other cancelled none none "" d,
      untouched r.tables rec.run_id other failed none (some env.completed_at) err d,
    )
  ]

  abbrev new_row : RunRecord → RunRow
  new_row rec = record {
    rec = record rec { status = pending };
    started_at = none;
    completed_at = none;
    error = none;
  }

  after_create_row :
      (env : Environment) (rec : RunRecord) (r : Runner A M) (t : RunTables A M) (row : RunRow)
      → lookup rec.run_id t.runs ≡ some row
      → lookup rec.run_id (after_create A M env rec r (some t)).0.tables.runs
        ≡ some (
            if env.running_ok
            then finished env (set_run_status A M running (some env.started_at) none "" row)
            else row)
  unfolding after_create after_running
  after_create_row env rec r t row e = by_running env.running_ok
    where
      by_running :
          (b : Bool)
          → lookup rec.run_id
              (if b
                then after_running A M env rec (
                    set_status A M
                      (record r { tables = t })
                      true
                      rec.run_id
                      running
                      (some env.started_at)
                      none
                      "")
                else (record r { tables = t }, some set_running_failed)).0.tables.runs
            ≡ some (
                if b
                then finished env (set_run_status A M running (some env.started_at) none "" row)
                else row)
      by_running true =
          finish_row env rec _ (set_run_status A M running (some env.started_at) none "" row)
            (updated t rec.run_id row running (some env.started_at) none "" e)
      by_running false = e

  after_create_others :
      (env : Environment) (rec : RunRecord) (r : Runner A M) (t : RunTables A M) (other : String)
      → str_eq rec.run_id other ≡ false
      → lookup other (after_create A M env rec r (some t)).0.tables.runs ≡ lookup other t.runs
  unfolding after_create after_running
  after_create_others env rec r t other d = by_running env.running_ok
    where
      by_running :
          (b : Bool)
          → lookup other
              (if b
                then after_running A M env rec (
                    set_status A M
                      (record r { tables = t })
                      true
                      rec.run_id
                      running
                      (some env.started_at)
                      none
                      "")
                else (record r { tables = t }, some set_running_failed)).0.tables.runs
            ≡ lookup other t.runs
      by_running true =
          finish_others env rec _ other d
          ∙ untouched t rec.run_id other running (some env.started_at) none "" d
      by_running false = refl

  finished-expected :
      (env : Environment) (rec : RunRecord)
      → (if env.running_ok
          then finished env (set_run_status A M running (some env.started_at) none "" (new_row rec))
          else new_row rec)
        ≡ expected_row env rec
  unfolding set_run_status
  finished-expected env rec = elim (Option-cases env.replay_error) [
    | inl none_failed ↦ ground (arith, none_failed)
    | inr (err, one_failed) ↦ ground (arith, one_failed)
  ]

  -- A run whose configuration parses and whose record can be created, with an id that is new,
  -- leaves the row that its course asks for: PENDING if the database then fails, RUNNING if it
  -- fails at the end, and else CANCELLED, FAILED with the error, or COMPLETED, with the times of
  -- the start and, unless it was cancelled, of the end. The rows of other runs stay.
  pub run-status :
      (env : Environment) (rec : RunRecord) (r : Runner A M)
      → env.config_ok ≡ true
      → env.create_ok ≡ true
      → lookup rec.run_id r.tables.runs ≡ none
      → (lookup rec.run_id (run A M env rec r).0.tables.runs ≡ some (expected_row env rec))
        × ((other : String)
            → str_eq rec.run_id other ≡ false
            → lookup other (run A M env rec r).0.tables.runs ≡ lookup other r.tables.runs)
  unfolding run create_run
  run-status env rec r c k fresh =
      let t = record r.tables { runs = insert rec.run_id (new_row rec) r.tables.runs } in
      let created : create_run A M r.tables (record rec { status = pending }) ≡ some t =
        rw (create_run, fresh) refl in
      rw (c, k, created)
        (
          after_create_row env rec r t (new_row rec) (
                lookup-insert rec.run_id rec.run_id (new_row rec) r.tables.runs
                ∙ ground (arith, eq_iff rec.run_id rec.run_id))
              ∙ ap some (finished-expected env rec),
          (λ other d.
              after_create_others env rec r t other d
              ∙ lookup-insert rec.run_id other (new_row rec) r.tables.runs
              ∙ ap (λ b. if b then some (new_row rec) else lookup other r.tables.runs) d),
        )
