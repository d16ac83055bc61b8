-- ===== src/Trading/Service/Composition.antt =====
-- The books of the whole process of engine/execution/cmd/erebor-execution/main.go, from its start
-- over the loop of its consumer.
use text.Mathlib.Text.{◌==◌ as str_eq}
use text.Mathlib.TextEquality.{eq_iff}
use erebor.Prelude.{
  true, false, Bool, if◌then◌else◌, ℕ, ◌≡◌, refl, sym, ap, ◌∙◌, false, String, List, [], ◌∷◌, All,
  Bool-cases, inl, inr, arith, some,
}
use erebor.Prelude.Assoc.{lookup, insert}
use erebor.Decimal.{Decimal, IsExact, zero_amount}
use erebor.Decimal.Laws.{zero-add}
use erebor.Platform.{Platform}
use erebor.Trading.Order.{buy}
use erebor.Trading.Signals.{SignalEvent}
use erebor.Trading.Strategy.{StrategyConfig}
use erebor.Trading.Risk.{HaltStore, Checker}
use erebor.Trading.Risk
use erebor.Trading.Risk.Accounting.{position_of-record_fill, position_of-record_fill_other}
use erebor.Trading.Blotter.{FillStore, PositionRecord, Blotter, seed_positions}
use erebor.Trading.Blotter.Laws.{position_of-insert, position_of-insert_other}
use erebor.Trading.Blotter
use erebor.Trading.Session.{SessionStore, StartResult}
use erebor.Trading.Paper.{seed_risk}
use erebor.Trading.Paper.Sync.{InSync, handle_signal-InSync}
use erebor.Trading.Consumer.Group.{Broker}
use erebor.Trading.Consumer.Loop.{Turn}
use erebor.Trading.Consumer.Loop.Invariants.{keeps-read_loop}
use erebor.Trading.Service.{
  Found, Env, Live, build_desk, handler, consume, risk_config, initial_equity,
}

module _ (𝒟 : Decimal) (ℒ : IsExact 𝒟) (𝒫 : Platform) (S : HaltStore) (F : FillStore 𝒟.Amount) where
  open 𝒟 use {Amount, is_negative, abs}

  -- Positions of different symbols, none of them short.
  abbrev pub LongOnly : List (PositionRecord Amount) → Type 0
  LongOnly [] = Unit
  LongOnly (p ∷ ps) =
      (is_negative p.net_qty ≡ false) × All (λ r. str_eq p.symbol r.symbol ≡ false) ps × LongOnly ps

  abbrev Same : Blotter 𝒟 F → Checker 𝒟 S → Type 0
  Same b risk = (s : String) → (Blotter.position_of 𝒟 F b s).net_qty ≡ Risk.position_of 𝒟 S risk s

  abbrev Unheld : Checker 𝒟 S → List (PositionRecord Amount) → Type 0
  Unheld risk ps = All (λ p. Risk.position_of 𝒟 S risk p.symbol ≡ zero_amount 𝒟) ps

  abbrev seed_one : Blotter 𝒟 F → PositionRecord Amount → Blotter 𝒟 F
  seed_one b p = record b {
    positions =
        insert p.symbol (record { net_qty = p.net_qty; avg_entry = p.avg_entry }) b.positions;
  }

  abbrev risk_one : Checker 𝒟 S → PositionRecord Amount → Checker 𝒟 S
  risk_one risk p =
      Risk.record_fill 𝒟 S risk p.symbol buy (abs p.net_qty) p.avg_entry (zero_amount 𝒟)

  Same-seed_one :
      (b : Blotter 𝒟 F) (risk : Checker 𝒟 S) (p : PositionRecord Amount)
      → is_negative p.net_qty ≡ false
      → Risk.position_of 𝒟 S risk p.symbol ≡ zero_amount 𝒟
      → Same b risk
      → Same (seed_one b p) (risk_one risk p)
  Same-seed_one b risk p nonneg unheld same s = elim (Bool-cases (str_eq p.symbol s)) [
    | inl here ↦ rw (← (eq_iff p.symbol s).0 here) (
        ap (λ pos. pos.net_qty) (position_of-insert 𝒟 F b (seed_one b p) p.symbol _ refl)
        ∙ sym (
            position_of-record_fill 𝒟 ℒ S risk p.symbol buy (abs p.net_qty) p.avg_entry
              (zero_amount 𝒟)
            ∙ ground (arith, unheld, zero-add 𝒟 ℒ (abs p.net_qty), ℒ.abs_lem p.net_qty, nonneg)))
    | inr there ↦
        ap (λ pos. pos.net_qty)
          (position_of-insert_other 𝒟 F b (seed_one b p) p.symbol s _ refl there)
        ∙ same s
        ∙ sym (
            position_of-record_fill_other 𝒟 ℒ S risk p.symbol s buy (abs p.net_qty) p.avg_entry
              (zero_amount 𝒟) there)
  ]

  Unheld-risk_one :
      (risk : Checker 𝒟 S) (p : PositionRecord Amount) (ps : List (PositionRecord Amount))
      → All (λ r. str_eq p.symbol r.symbol ≡ false) ps
      → Unheld risk ps
      → Unheld (risk_one risk p) ps
  Unheld-risk_one risk p [] d u = tt
  Unheld-risk_one risk p (r ∷ ps) (ne, d) (z, u) = (
    position_of-record_fill_other 𝒟 ℒ S risk p.symbol r.symbol buy (abs p.net_qty) p.avg_entry
          (zero_amount 𝒟) ne
        ∙ z,
    Unheld-risk_one risk p ps d u,
  )

  Same-seeded :
      (b : Blotter 𝒟 F) (risk : Checker 𝒟 S) (ps : List (PositionRecord Amount))
      → LongOnly ps
      → Unheld risk ps
      → Same b risk
      → Same (seed_positions 𝒟 F b ps) (seed_risk 𝒟 𝒫 S F risk ps)
  unfolding seed_positions seed_risk
  Same-seeded b risk [] l u same = same
  Same-seeded b risk (p ∷ ps) (nonneg, d, l) (z, u) same =
      Same-seeded (seed_one b p) (risk_one risk p) ps l (Unheld-risk_one risk p ps d u)
        (Same-seed_one b risk p nonneg z same)

  Same-started :
      (recovered : Bool) (b : Blotter 𝒟 F) (risk : Checker 𝒟 S) (ps : List (PositionRecord Amount))
      → LongOnly ps
      → Unheld risk ps
      → Same b risk
      → Same
          (if recovered then seed_positions 𝒟 F b ps else b)
          (if recovered then seed_risk 𝒟 𝒫 S F risk ps else risk)
  Same-started true b risk ps l u same = Same-seeded b risk ps l u same
  Same-started false b risk ps l u same = same

  module _ (T : SessionStore (PositionRecord Amount) Amount) where
    nothing_held :
        (env : Env 𝒟 𝒫 S F T) (cfg : StrategyConfig Amount) (id : String)
        (ps : List (PositionRecord Amount))
        → Unheld (Risk.new 𝒟 S (risk_config 𝒟 𝒫 S F T cfg) id (some env.halt_store)) ps
    unfolding Risk.new lookup
    nothing_held env cfg id [] = tt
    nothing_held env cfg id (p ∷ ps) = (refl, nothing_held env cfg id ps)

    build_desk-InSync :
        (env : Env 𝒟 𝒫 S F T) (cfg : StrategyConfig Amount)
        (result : StartResult (PositionRecord Amount) Amount)
        → LongOnly result.positions
        → InSync 𝒟 ℒ 𝒫 S F (build_desk 𝒟 𝒫 S F T env cfg result)
    unfolding build_desk Risk.new Blotter.new lookup
    build_desk-InSync env cfg result long =
        let id = result.session.session_id in
        Same-started result.recovered
          (Blotter.new 𝒟 F id (initial_equity 𝒟 𝒫 S F T cfg result) env.fill_store)
          (Risk.new 𝒟 S (risk_config 𝒟 𝒫 S F T cfg) id (some env.halt_store)) result.positions long
          (nothing_held env cfg id result.positions) (λ s. refl)

    handler-InSync :
        (found : ℕ → Found Amount) (l : Live 𝒟 𝒫 S F T) (id : String) (sig : SignalEvent Amount)
        → InSync 𝒟 ℒ 𝒫 S F l.desk
        → InSync 𝒟 ℒ 𝒫 S F (handler 𝒟 𝒫 S F T found l id sig).0.desk
    unfolding handler
    handler-InSync found l id sig sync =
        handle_signal-InSync 𝒟 ℒ 𝒫 S F (record l.desk { cache = (found l.calls).cache }) id sig
          (found l.calls).trade_id (found l.calls).order_id sync

    -- The process starts with positions of different symbols, none of them short, if it recovers
    -- any. Then after every run of the consumer, whatever the signals, the prices at each of them,
    -- the order and the number of their deliveries, the failures of stores and reads, and the lost acknowledgements, the
    -- blotter and the risk checker hold the same net quantity for every symbol.
    pub consume-InSync :
        {Q : Type 0} (B : Broker Q) (found : ℕ → Found Amount) (env : Env 𝒟 𝒫 S F T)
        (cfg : StrategyConfig Amount) (result : StartResult (PositionRecord Amount) Amount) (q : Q)
        (turns : List Turn)
        → LongOnly result.positions
        → let desk = build_desk 𝒟 𝒫 S F T env cfg result in
          InSync 𝒟 ℒ 𝒫 S F (consume 𝒟 𝒫 S F T B found desk q turns).st.desk
    unfolding consume
    consume-InSync B found env cfg result q turns long =
        keeps-read_loop 𝒟 𝒫 B (handler 𝒟 𝒫 S F T found) (λ l. InSync 𝒟 ℒ 𝒫 S F l.desk)
          (handler-InSync found) _ turns (build_desk-InSync env cfg result long)
