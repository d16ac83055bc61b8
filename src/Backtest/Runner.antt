-- ===== src/Backtest/Runner.antt =====
-- engine/backtest/runner/runner.go: the life of a run. What the world answers is an
-- `Environment`; what the runner does to its components and streams, other than writing the row
-- of the run, stands in `actions`, oldest first.
pub mod Status
use text.Mathlib.Text.{◌==◌ as str_eq}
use erebor.Prelude.{
  ℕ, Bool, true, false, Option, none, some, String, List, [], ◌∷◌, ◌++◌, if◌then◌else◌, keep_if,
}
use erebor.Backtest.Repository.{
  RunStatus, pending, running, completed, failed, cancelled, RunRecord, RunTables, create_run,
  update_run_status,
}

-- backtest/domain ControlEventType.
pub data ControlEventType : Type 0 where
  replay_start replay_complete data_gap control_cancelled : ControlEventType

pub data Action : Type 0 where
  publish_control : ControlEventType → Action
  start_collector start_executor replay_symbols stop_executor stop_collector : Action
  expire_stream : String → Action
  compute_metrics : Action

pub data RunError : Type 0 where
  parse_failed create_failed set_running_failed context_cancelled : RunError
  replay_failed : String → RunError

-- `replay_error` is what `g.Wait` returns, `keys` what KEYS finds.
pub record Environment : Type 0 where
  pub config_ok : Bool
  pub create_ok : Bool
  pub running_ok : Bool
  pub started_at : ℕ
  pub replay_error : Option String
  pub ctx_cancelled : Bool
  pub keys : List String
  pub final_ok : Bool
  pub completed_at : ℕ

module _ (A M : Type 0) where
  pub record Runner : Type 0 where
    pub tables : RunTables A M
    pub actions : List Action

  abbrev pub act : Runner → List Action → Runner
  act r actions = record r { actions = r.actions ++ actions }

  -- UpdateRunStatus, if the database answers.
  abbrev pub set_status : Runner → Bool → String → RunStatus → Option ℕ → Option ℕ → String → Runner
  set_status r db_ok run_id status started_at completed_at err_msg = record r {
    tables =
        if db_ok
        then update_run_status A M r.tables run_id status started_at completed_at err_msg
        else r.tables;
  }

  -- `expireStreams`.
  abbrev pub expire_streams : List String → List Action
  expire_streams [] = []
  expire_streams (key ∷ keys) = expire_stream key ∷ expire_streams keys

  -- From step 9 of `Run` on, the components are stopped.
  unfoldable pub finish : Environment → RunRecord → Runner → Runner × Option RunError
  finish env rec r =
      if env.ctx_cancelled
      then (
        set_status (act r (publish_control control_cancelled ∷ [])) env.final_ok rec.run_id
            cancelled none none "",
        some context_cancelled,
      )
      else elim env.replay_error [
        | some err ↦ (
          set_status (act r (publish_control control_cancelled ∷ [])) env.final_ok rec.run_id failed
              none (some env.completed_at) err,
          some (replay_failed err),
        )
        | none ↦ (
          set_status
              (act r
                (publish_control replay_complete ∷ expire_streams env.keys ++ compute_metrics ∷ []))
              env.final_ok rec.run_id completed none (some env.completed_at) "",
          none,
        )
      ]

  -- Steps 3 to 8, and the end.
  unfoldable pub after_running : Environment → RunRecord → Runner → Runner × Option RunError
  unfolding finish
  after_running env rec r = finish env rec (
      act r (
        publish_control replay_start
        ∷ start_collector
        ∷ start_executor
        ∷ replay_symbols
        ∷ stop_executor
        ∷ stop_collector
        ∷ []))

  -- By the answer of CreateRun.
  unfoldable pub after_create :
      Environment → RunRecord → Runner → Option (RunTables A M) → Runner × Option RunError
  unfolding after_running
  after_create env rec r none = (r, some create_failed)
  after_create env rec r (some tables) =
      let r' = record r { tables = tables } in
      if env.running_ok
      then after_running env rec
          (set_status r' true rec.run_id running (some env.started_at) none "")
      else (r', some set_running_failed)

  unfoldable pub run : Environment → RunRecord → Runner → Runner × Option RunError
  unfolding after_create create_run
  run env rec r =
      if env.config_ok
      then after_create env rec r (
          if env.create_ok then create_run A M r.tables (record rec { status = pending }) else none)
      else (r, some parse_failed)
