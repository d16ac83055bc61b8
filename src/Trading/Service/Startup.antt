-- ===== src/Trading/Service/Startup.antt =====
-- How the process of engine/execution/cmd/erebor-execution/main.go starts, and what a start that
-- fails or that recovers a session leaves behind.
use text.Mathlib.Text.{◌==◌ as str_eq}
use erebor.Prelude.{
  ℕ, ◌≡◌, refl, true, false, none, some, String, Option, List, [], ◌∷◌, ap, ◌∙◌, inl, inr, arith,
}
use erebor.Decimal.{Decimal}
use erebor.Platform.{Platform}
use erebor.Trading.Strategy.{StrategyConfig}
use erebor.Trading.Risk.{HaltStore}
use erebor.Trading.Risk
use erebor.Trading.Blotter.{FillStore, PositionRecord, Blotter, seed_positions}
use erebor.Trading.Blotter
use erebor.Trading.Session.{
  PaperSession, SessionStore, StartResult, new_session, start, latest_session, running_sessions,
  is_halted_status, has_session,
}
use erebor.Trading.Session.Lifecycle.{S, created, resumed, start-cases}
use erebor.Trading.Session.Restarts.{reopened, start_crashed}
use erebor.Trading.Paper.{seed_risk}
use erebor.Trading.Service.{
  Env, bad_strategy, build_desk, initial_equity, risk_config, startup, with_session, with_strategy,
}

module _ (𝒟 : Decimal) (𝒫 : Platform) (H : HaltStore) (F : FillStore 𝒟.Amount) where
  open 𝒟 use {Amount, is_zero}

  -- A session is recovered whose equity is not zero and whose positions are all closed. Then the
  -- blotter goes on with that equity, but the risk checker is as new: its equity and its peak are
  -- the initial capital, and the losses of the session before the restart count no more.
  pub recovered_equity :
      (T : SessionStore (PositionRecord Amount) Amount) (env : Env 𝒟 𝒫 H F T)
      (cfg : StrategyConfig Amount) (result : StartResult (PositionRecord Amount) Amount)
      {e : Amount}
      → result.recovered ≡ true
      → result.positions ≡ []
      → result.equity ≡ some e
      → is_zero e ≡ false
      → let desk = build_desk 𝒟 𝒫 H F T env cfg result in
        (desk.blotter.equity ≡ e)
        × (desk.risk
            ≡ Risk.new 𝒟 H
                (risk_config 𝒟 𝒫 H F T cfg)
                result.session.session_id
                (some env.halt_store))
  unfolding build_desk initial_equity seed_positions seed_risk Blotter.new
  recovered_equity T env cfg result r p q z = rw (r, p, q, z) (refl, refl)

  module _ (to_jsonb : String → Option String) (positions : String → List (PositionRecord Amount))
      (equity : String → Amount) where
    abbrev Table : SessionStore (PositionRecord Amount) Amount
    Table = S to_jsonb positions equity

    opens :
        (rows : List PaperSession) (id : String) (symbols : List String) (cfg : String) (now : ℕ)
        → running_sessions rows ≡ []
        → ((v : PaperSession) → latest_session rows ≡ some v → is_halted_status v.status ≡ false)
        → {json : String} → to_jsonb cfg ≡ some json
        → has_session id rows ≡ false
        → start Table (reopened to_jsonb positions equity rows) id symbols cfg now
          ≡ created to_jsonb positions equity
              (reopened to_jsonb positions equity rows)
              (new_session Table id symbols cfg now)
              json
    unfolding latest_session
    opens rows id symbols cfg now none_running not_halted j new =
        elim (start-cases to_jsonb positions equity (reopened to_jsonb positions equity rows) id
          symbols cfg now) [
            | inl (s, e, f) ↦ absurd (ground (arith, e, none_running))
            | inr (e, inl (s, l, h, f)) ↦ absurd (ground (arith, not_halted s l, h))
            | inr (e, inr (n, inl (inl bad, f))) ↦ absurd (ground (arith, j, bad))
            | inr (e, inr (n, inl (inr taken, f))) ↦ absurd (ground (arith, new, taken))
            | inr (e, inr (n, inr (json', j', k, f))) ↦
                f
                ∙ ap
                    (created to_jsonb positions equity (reopened to_jsonb positions equity rows)
                      (new_session Table id symbols cfg now))
                    (ground (arith, j, j'))
          ]

    -- No session is running, the latest was not halted, and Redis and the database answer; the
    -- strategy's configuration is JSON that the table can hold, and the id is new. Then the process
    -- opens a session before it parses the strategy: a configuration that is no strategy ends it,
    -- but the session stays running, and the next start resumes it.
    pub bad_strategy_leaves_session :
        (env : Env 𝒟 𝒫 H F Table) (rows : List PaperSession)
        → running_sessions rows ≡ []
        → ((v : PaperSession) → latest_session rows ≡ some v → is_halted_status v.status ≡ false)
        → env.redis_up ≡ true
        → str_eq env.timescale_dsn "" ≡ false
        → env.database_up ≡ true
        → {json : String} → to_jsonb env.strategy_config ≡ some json
        → has_session env.new_id rows ≡ false
        → env.parse_strategy env.strategy_config ≡ none
        → (id : String) (symbols : List String) (cfg : String) (now : ℕ)
        → let (m, outcome) = startup 𝒟 𝒫 H F Table env (reopened to_jsonb positions equity rows) in
          let fresh = new_session Table env.new_id env.symbols env.strategy_config env.now in
          let left = record fresh { strategy_config = json } in
          (outcome ≡ inr bad_strategy)
          × (start Table (reopened to_jsonb positions equity m.store) id symbols cfg now
              ≡ resumed to_jsonb positions equity
                  (reopened to_jsonb positions equity (left ∷ rows))
                  left)
    unfolding startup with_session with_strategy
    bad_strategy_leaves_session env rows none_running not_halted r d b {json} j new bad id symbols
          cfg now =
        let fresh = new_session Table env.new_id env.symbols env.strategy_config env.now in
        let left = record fresh { strategy_config = json } in
        rw
          (
            r,
            d,
            b,
            opens rows env.new_id env.symbols env.strategy_config env.now none_running not_halted j
                new,
            bad,
          )
          (
            refl,
            start_crashed to_jsonb positions equity left rows refl none_running id symbols cfg now,
          )
