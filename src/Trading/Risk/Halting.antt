-- ===== src/Trading/Risk/Halting.antt =====
-- How a halt begins, lasts and survives a restart: `CanTrade`, `probePersistedHalt`,
-- `persistHalt` of engine/risk/checker.go and the Redis store of haltstore.go.
use text.Mathlib.Text.{◌==◌ as str_eq}
use text.Mathlib.TextEquality.{eq_iff}
use mathlib.Core.Option.{map as option_map}
use erebor.Prelude.{
  Option, Bool, ◌||◌, ◌&&◌, none, if◌then◌else◌, ℕ, ◌≡◌, refl, ◌∙◌, ap, ◌≢◌, ◌⊎◌, inl, inr, true,
  false, some, String, List, [], ◌∷◌, arith,
}
use erebor.Prelude.Assoc.{lookup, lookup-insert}
use erebor.Decimal.{Decimal}
use erebor.Trading.Order.{Side}
use erebor.Trading.Risk.{
  HaltStore, redis_halt_store, redis_set_halted, redis_is_halted, EventType, position_limit,
  drawdown_halt, run_loss_halt, persisted, triggered, is_halted, violates, Config, Checker, new,
  probe_persisted_halt, restore, check_rules, can_trade, record_fill,
}

-- The calls that a client makes.
pub data Op (A : Type 0) : Type 0 where
  trade : String → Side → A → ℕ → Op A
  fill : String → Side → A → A → A → Op A

module _ (𝒟 : Decimal) (S : HaltStore) where
  open 𝒟 use {Amount}

  unfoldable pub step : Checker 𝒟 S → Op Amount → Checker 𝒟 S
  step c (trade symbol side qty t) = (can_trade 𝒟 S c symbol side qty t).0
  step c (fill symbol side qty price fee) = record_fill 𝒟 S c symbol side qty price fee

  unfoldable pub run : Checker 𝒟 S → List (Op Amount) → Checker 𝒟 S
  run c [] = c
  run c (op ∷ ops) = run (step c op) ops

  step_halted :
      (c : Checker 𝒟 S) (op : Op Amount)
      → c.halted ≡ true
      → ((step c op).halted ≡ true) × ((step c op).halt_reason ≡ c.halt_reason)
  unfolding step can_trade record_fill
  step_halted c (trade symbol side qty t) h = ground arith
  step_halted c (fill symbol side qty price fee) h = (h, refl)

  run_halted :
      (c : Checker 𝒟 S) (ops : List (Op Amount))
      → c.halted ≡ true
      → ((run c ops).halted ≡ true) × ((run c ops).halt_reason ≡ c.halt_reason)
  unfolding run
  run_halted c [] h = (h, refl)
  run_halted c (op ∷ ops) h =
      let (still, reason) = step_halted c op h in
      let (ever, last) = run_halted (step c op) ops still in (ever, last ∙ reason)

  pub can_trade_halted :
      (c : Checker 𝒟 S) (symbol : String) (side : Side) (qty : Amount) (t : ℕ)
      → c.halted ≡ true
      → can_trade 𝒟 S c symbol side qty t ≡ (c, some (is_halted c.halt_reason))
  unfolding can_trade
  can_trade_halted c symbol side qty t h = ground arith

  -- A halt is for good: after it, and after any further checks and fills, every order is
  -- refused with the reason of the halt, and the refusal changes nothing.
  pub halt_absorbs :
      (c : Checker 𝒟 S) (ops : List (Op Amount)) (symbol : String) (side : Side) (qty : Amount)
      (t : ℕ)
      → c.halted ≡ true
      → can_trade 𝒟 S (run c ops) symbol side qty t ≡ (run c ops, some (is_halted c.halt_reason))
  halt_absorbs c ops symbol side qty t h =
      let (ever, reason) = run_halted c ops h in
      can_trade_halted (run c ops) symbol side qty t ever
      ∙ ap (λ r. (run c ops, some (is_halted r))) reason

  -- A refusal for a drawdown or a run loss halts the checker, with that reason, publishes one
  -- event of that type and hands the run to SetHalted of the halt store; a refusal for a position
  -- publishes one event and halts nothing.
  pub can_trade_violation :
      (c : Checker 𝒟 S) (symbol : String) (side : Side) (qty : Amount) (t : ℕ) {kind : EventType}
      → (can_trade 𝒟 S c symbol side qty t).1 ≡ some (violates kind)
      → let c' = (can_trade 𝒟 S c symbol side qty t).0 in
        (c'.published
          ≡ record {
            run_id = c.run_id;
            symbol = elim kind [
              | position_limit ↦ symbol
              | drawdown_halt ↦ ""
              | run_loss_halt ↦ ""
            ];
            event_time = t;
            kind = kind;
            equity = c.equity;
          }
            ∷ c.published)
        × ((kind ≡ position_limit) × (c'.halted ≡ false)
            ⊎ (kind ≢ position_limit)
              × (c'.halted ≡ true)
              × (c'.halt_reason ≡ some (triggered kind))
              × (c'.halt_store ≡ option_map (λ store. S.set_halted store c.run_id) c.halt_store))
  unfolding can_trade
  can_trade_violation c symbol side qty t h = ground arith

module _ (𝒟 : Decimal) where
  open 𝒟 use {Amount}

  -- Whether the hash says that a session was halted.
  abbrev pub marked : List (String × String) → String → Bool
  marked hash id = elim (lookup id hash) [ none ↦ false | some val ↦ str_eq val "1" ]

  marked-redis_set_halted :
      (hset_ok : Bool) (hash : List (String × String)) (id : String)
      → marked (redis_set_halted hset_ok hash id) id ≡ (hset_ok || marked hash id)
  unfolding redis_set_halted
  marked-redis_set_halted hset_ok hash id =
      ground (arith, lookup-insert id id "1" hash, eq_iff id id, eq_iff "1" "1")

  abbrev or_false : Option Bool → Bool
  or_false none = false
  or_false (some b) = b

  answer_lem :
      (hget_ok : Bool) (hash : List (String × String)) (id : String)
      → or_false (redis_is_halted hget_ok hash id) ≡ (hget_ok && marked hash id)
  unfolding redis_is_halted
  answer_lem false hash id = refl
  answer_lem true hash id = by_field (lookup id hash)
    where
      by_field :
          (o : Option String)
          → or_false (elim o [ none ↦ some false | some val ↦ some (str_eq val "1") ])
            ≡ elim o [ none ↦ false | some val ↦ str_eq val "1" ]
      by_field none = refl
      by_field (some val) = refl

  -- The first order of a new checker, by what the store tells it.
  restored :
      (S : HaltStore) (c : Checker 𝒟 S) (symbol : String) (side : Side) (qty : Amount) (t : ℕ)
      (o : Option Bool)
      → (check_rules 𝒟 S (restore 𝒟 S c o) symbol side qty t).1 ≡ (
          if or_false o
          then some (is_halted (some persisted))
          else (check_rules 𝒟 S c symbol side qty t).1)
  unfolding check_rules
  restored S c symbol side qty t none = refl
  restored S c symbol side qty t (some false) = refl
  restored S c symbol side qty t (some true) = refl

  restarted :
      (hset_ok hget_ok : Bool) (cfg : Config 𝒟) (id : String) (hash : List (String × String))
      (symbol : String) (side : Side) (qty : Amount) (t : ℕ)
      → let S = redis_halt_store hset_ok hget_ok in
        let again = new 𝒟 S cfg id (some hash) in
        (can_trade 𝒟 S again symbol side qty t).1 ≡ (
          if hget_ok && marked hash id
          then some (is_halted (some persisted))
          else (check_rules 𝒟 S (record again { halt_checked = true }) symbol side qty t).1)
  unfolding can_trade probe_persisted_halt new
  restarted hset_ok hget_ok cfg id hash symbol side qty t =
      let S = redis_halt_store hset_ok hget_ok in
      let again = record (new 𝒟 S cfg id (some hash)) { halt_checked = true } in
      restored S again symbol side qty t (redis_is_halted hget_ok hash id)
      ∙ ap
          (λ b.
            if b
            then some (is_halted (some persisted))
            else (check_rules 𝒟 S again symbol side qty t).1)
          (answer_lem hget_ok hash id)

  -- An order was refused for a drawdown or a run loss, with the Redis store, and a new checker for
  -- the same run starts over the hash as it was left. Its first order is refused, as halted by a
  -- persisted halt, exactly if its HGet succeeds and either the HSet of the halt had succeeded or
  -- the run was marked before. Else the halt is lost: the order goes through the rules as in a
  -- run that was never halted.
  pub halt_survives_restart :
      (hset_ok hget_ok hset_ok' hget_ok' : Bool) (c : Checker 𝒟 (redis_halt_store hset_ok hget_ok))
      (hash : List (String × String)) (cfg : Config 𝒟) (symbol symbol' : String) (side side' : Side)
      (qty qty' : Amount) (t t' : ℕ) {kind : EventType}
      → c.halt_store ≡ some hash
      → kind ≢ position_limit
      → (can_trade 𝒟 (redis_halt_store hset_ok hget_ok) c symbol side qty t).1
        ≡ some (violates kind)
      → let left =
          (can_trade 𝒟 (redis_halt_store hset_ok hget_ok) c symbol side qty t).0.halt_store in
        let S = redis_halt_store hset_ok' hget_ok' in
        let again = new 𝒟 S cfg c.run_id left in
        (can_trade 𝒟 S again symbol' side' qty' t').1 ≡ (
          if hget_ok' && (hset_ok || marked hash c.run_id)
          then some (is_halted (some persisted))
          else (check_rules 𝒟 S (record again { halt_checked = true }) symbol' side' qty' t').1)
  halt_survives_restart a b a' b' c hash cfg symbol symbol' side side' qty qty' t t' {kind} e k h =
      elim (can_trade_violation 𝒟 (redis_halt_store a b) c symbol side qty t {kind = kind} h).1 [
        | inl (limit, _) ↦ absurd (k limit)
        | inr (_, _, _, left) ↦
            rw (left, e, ← marked-redis_set_halted a hash c.run_id)
              (restarted a' b' cfg c.run_id (redis_set_halted a hash c.run_id) symbol' side' qty'
                t')
      ]
