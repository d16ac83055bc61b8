-- ===== src/Ingest/Service.antt =====
-- The ingest process: engine/cmd/erebor-ingest/main.go. Handlers are shared by the map of the
-- dispatcher, the health server and the list that is started and stopped: they stand in
-- `concrete`, and the map holds their indices. What the environment answers is an argument;
-- logging, the loading of the configuration file and the times that bound the shutdown are left
-- out.
pub mod Building
pub mod Symbols
mod Examples
use text.Mathlib.Text.{◌==◌ as str_eq}
use erebor.Prelude.{
  modify, ℕ, zero, suc, ◌<◌, ◌≡◌, Bool, true, false, not, ◌||◌, Option, none, some, String, List,
  [], ◌∷◌, ◌++◌, map, if◌then◌else◌, length, keep_if, ◌⊎◌, inl, inr,
}
use erebor.Prelude.Assoc.{lookup, insert}
use erebor.Decimal.{Decimal}
use erebor.Platform.{Platform}
use erebor.Ingest.Domain.{DiffEvent, SnapshotEvent}
use erebor.Ingest.Handler.{
  SymbolState, synced, OrderBook, Config, Env, Handler, new_handler, start, handle_diff,
  run_snapshot_fetch,
}
use erebor.Ingest.Dispatch.{RawDiffEvent, Result, ok, err, convert_raw}
use erebor.Ingest.Dispatch

-- An entry of the configured symbols; its numbers are as in the handler's `Config`.
pub record SymbolConfig : Type 0 where
  pub name : String
  pub depth_limit : ℕ
  pub checkpoint_interval : ℕ
  pub checkpoint_diff_threshold : ℕ
  pub max_buffer_size : ℕ

-- `requireEnv`: the variables that are not set, in their order.
unfoldable pub require_env : (String → String) → List String → List String
require_env getenv keys = keep_if (λ k. str_eq (getenv k) "") keys

-- The address of Redis; with none, nothing is published.
unfoldable pub redis_address : String → (String → String) → Option String
redis_address configured getenv =
    let addr = if str_eq configured "" then getenv "REDIS_ADDR" else configured in
    if str_eq addr "" then none else some addr

abbrev pub is_synced : SymbolState → Bool
is_synced synced = true
is_synced _ = false

abbrev pub is_some {ℓ} : {A : Type ℓ} → Option A → Bool
is_some none = false
is_some (some a) = true

-- The steps of `runShutdown`.
pub data Action : Type 0 where
  shutdown_health close_stream wait_dispatcher : Action
  stop_handler : String → Action

unfoldable pub run_shutdown : List String → List Action
run_shutdown names =
    shutdown_health ∷ close_stream ∷ wait_dispatcher ∷ map (λ name. stop_handler name) names

-- How the process ends at its start: by os.Exit(2), or by Fatal.
pub data Exit : Type 0 where
  missing_env : List String → Exit
  bad_config bad_log_level no_symbols no_database missing_name : Exit

module _ (𝒟 : Decimal) (𝒫 : Platform) (O : OrderBook 𝒟.Amount) where
  open 𝒟 use {Amount}

  pub record Service : Type 0 where
    pub concrete : List (Handler O)
    pub handlers : List (String × ℕ)
    pub symbol_names : List String

  abbrev pub config_of : SymbolConfig → Config
  config_of sc = record {
    symbol = 𝒫.to_upper sc.name;
    depth_limit = sc.depth_limit;
    checkpoint_interval = sc.checkpoint_interval;
    checkpoint_diff_threshold = sc.checkpoint_diff_threshold;
    max_buffer_size = sc.max_buffer_size;
  }

  -- The loop of `buildSymbolHandlers`; `none` is the error of an entry without a name.
  unfoldable pub build_from :
      (String → O.Self) → Bool → Service → List SymbolConfig → Option Service
  build_from new_book publishes s [] = some s
  build_from new_book publishes s (sc ∷ cfgs) =
      let name = 𝒫.to_upper sc.name in
      let h = new_handler O (config_of sc) (new_book name) publishes in
      let rest =
        build_from new_book publishes
          (record {
            concrete = s.concrete ++ h ∷ [];
            handlers = insert name (length s.concrete) s.handlers;
            symbol_names = s.symbol_names ++ name ∷ [];
          })
          cfgs in
      if str_eq name "" then none else rest

  unfoldable pub build_symbol_handlers :
      (String → O.Self) → Bool → List SymbolConfig → Option Service
  unfolding build_from
  build_symbol_handlers new_book publishes cfgs =
      build_from new_book publishes (record { concrete = []; handlers = []; symbol_names = [] })
        cfgs

  -- dispatch.New, and the start of the handlers.
  unfoldable pub start_all : Service → Service
  start_all s = record s {
    concrete = map (start O) s.concrete;
    handlers = Dispatch.new 𝒟 𝒫 (λ i diff. i) s.handlers;
  }

  -- `/healthz`.
  abbrev pub any_synced : List (Handler O) → Bool
  any_synced [] = false
  any_synced (h ∷ hs) = is_synced h.state || any_synced hs

  unfoldable pub healthz : Service → ℕ
  healthz s = if any_synced s.concrete then 200 else 503

  -- What `main` finds around it; `none` is a configuration file that cannot be read.
  pub record Setting : Type 0 where
    pub getenv : String → String
    pub symbols : Option (List SymbolConfig)
    pub configured_redis : String
    pub levels_ok : Bool
    pub database_ok : Bool
    pub new_book : String → O.Self

  abbrev started_or_exit : Option Service → Service ⊎ Exit
  started_or_exit none = inr missing_name
  started_or_exit (some s) = inl (start_all s)

  -- From the loaded symbols on.
  unfoldable pub with_symbols : Setting → Option (List SymbolConfig) → Service ⊎ Exit
  unfolding build_symbol_handlers start_all redis_address
  with_symbols set none = inr bad_config
  with_symbols set (some []) = if set.levels_ok then inr no_symbols else inr bad_log_level
  with_symbols set (some (sc ∷ cfgs)) =
      let publishes = is_some (redis_address set.configured_redis set.getenv) in
      let built = started_or_exit (build_symbol_handlers set.new_book publishes (sc ∷ cfgs)) in
      if not set.levels_ok
      then inr bad_log_level
      else if set.database_ok
      then built
      else inr no_database

  -- `main` up to the start of the handlers.
  abbrev if_none_missing : List String → Service ⊎ Exit → Service ⊎ Exit
  if_none_missing [] next = next
  if_none_missing (k ∷ ks) next = inr (missing_env (k ∷ ks))

  unfoldable pub startup : Setting → Service ⊎ Exit
  unfolding require_env with_symbols
  startup set =
      if_none_missing
        (require_env set.getenv ("BINANCE_API_KEY" ∷ "BINANCE_API_SECRET" ∷ "DATABASE_DSN" ∷ []))
        (with_symbols set set.symbols)

  -- An event of the dispatcher's loop, over the shared handlers.
  unfoldable pub deliver : Env → Service → DiffEvent Amount → Option ℕ → Service
  deliver env s diff none = s
  deliver env s diff (some i) = record s {
    concrete = modify i (λ h. handle_diff O env h diff) s.concrete;
  }

  unfoldable pub on_converted : Env → Service → Result (DiffEvent Amount) → Service
  unfolding deliver
  on_converted env s (err e) = s
  on_converted env s (ok diff) = deliver env s diff (lookup diff.symbol s.handlers)

  unfoldable pub on_event : Env → Service → RawDiffEvent → Service
  unfolding on_converted
  on_event env s ev = on_converted env s (convert_raw 𝒟 𝒫 ev)

  -- The fetch of a handler returns.
  unfoldable pub on_fetched : Env → Service → ℕ → Option (SnapshotEvent Amount) → Service
  on_fetched env s i result = record s {
    concrete = modify i (λ h. run_snapshot_fetch O env h result) s.concrete;
  }
