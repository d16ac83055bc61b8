-- ===== src/Ingest/Service/Symbols.antt =====
-- The process of engine/cmd/erebor-ingest/main.go while it runs: the dispatcher's events and the
-- fetches that return, for all symbols and in any order. Each handler runs as if it were alone.
use mathlib.Core.Option.{map as option_map}
use mathlib.Core.Path.{subst}
use erebor.Prelude.{
  get_elem?, modify, length, ◌++◌, Bool, false, ℕ, zero, suc, ◌==◌, ◌≡◌, refl, sym, ap, ◌∙◌,
  if◌then◌else◌, if_cases, Option, none, some, String, List, [], ◌∷◌, map, arith, inl, inr,
}
use text.Mathlib.Text.{◌==◌ as str_eq}
use erebor.Prelude.Assoc.{lookup, insert, erase, lookup-insert}
use erebor.Decimal.{Decimal}
use erebor.Platform.{Platform}
use erebor.Ingest.Domain.{DiffEvent, SnapshotEvent}
use erebor.Ingest.Handler.{
  OrderBook, Env, Handler, new_handler, start, handle_diff, run_snapshot_fetch,
}
use erebor.Ingest.Dispatch.{RawDiffEvent, Result, ok, err, convert_raw}
use erebor.Ingest.Dispatch
use erebor.Ingest.Service.{
  SymbolConfig, Service, config_of, build_from, build_symbol_handlers, start_all, deliver,
  on_converted, on_event, on_fetched,
}
use erebor.Ingest.Service.Building.{handler_of, last_index, build_symbol_handlers_lem}

option_map_id : {A : Type 0} (o : Option A) → o ≡ option_map (λ x. x) o
option_map_id none = refl
option_map_id (some x) = refl

get_elem?-modify :
    {A : Type 0} (f : A → A) (xs : List A) (i j : ℕ)
    → get_elem? (modify j f xs) i ≡ option_map (λ x. if j == i then f x else x) (get_elem? xs i)
get_elem?-modify f [] i j = refl
get_elem?-modify f (x ∷ xs) zero zero = ground arith
get_elem?-modify f (x ∷ xs) zero (suc j) = ground arith
get_elem?-modify f (x ∷ xs) (suc i) zero =
    let elsewhere : (0 == suc i) ≡ false = ground arith in
    rw elsewhere (option_map_id (get_elem? xs i))
get_elem?-modify f (x ∷ xs) (suc i) (suc j) =
    let same : (suc j == suc i) ≡ (j == i) = ground arith in rw same (get_elem?-modify f xs i j)

get_elem?-map :
    {A B : Type 0} (f : A → B) (xs : List A) (i : ℕ)
    → get_elem? (map f xs) i ≡ option_map f (get_elem? xs i)
get_elem?-map f [] i = refl
get_elem?-map f (x ∷ xs) zero = refl
get_elem?-map f (x ∷ xs) (suc i) = get_elem?-map f xs i

option_map_twice :
    {A B C : Type 0} (f : B → C) (g : A → B) (o : Option A)
    → option_map f (option_map g o) ≡ option_map (λ x. f (g x)) o
option_map_twice f g none = refl
option_map_twice f g (some x) = refl

module _ (𝒟 : Decimal) (𝒫 : Platform) (O : OrderBook 𝒟.Amount) where
  open 𝒟 use {Amount}

  -- An event of the stream, or the end of a fetch of the handler with an index.
  pub data Input : Type 0 where
    event : Env → RawDiffEvent → Input
    returned : Env → ℕ → Option (SnapshotEvent Amount) → Input

  abbrev pub on_input : Service 𝒟 𝒫 O → Input → Service 𝒟 𝒫 O
  on_input s (event env ev) = on_event 𝒟 𝒫 O env s ev
  on_input s (returned env i result) = on_fetched 𝒟 𝒫 O env s i result

  abbrev pub on_inputs : Service 𝒟 𝒫 O → List Input → Service 𝒟 𝒫 O
  on_inputs s [] = s
  on_inputs s (input ∷ inputs) = on_inputs (on_input s input) inputs

  abbrev is_index : Option ℕ → ℕ → Bool
  is_index none i = false
  is_index (some j) i = j == i

  abbrev own_diff :
      (String → Option ℕ) → ℕ → Env → Result (DiffEvent Amount) → Handler O → Handler O
  own_diff route i env (err e) h = h
  own_diff route i env (ok d) h = if is_index (route d.symbol) i then handle_diff O env h d else h

  -- What an input does to the handler with the index `i`, when `route` gives the index for a
  -- symbol: nothing, if it is not for it.
  abbrev pub own_input : (String → Option ℕ) → ℕ → Input → Handler O → Handler O
  own_input route i (event env ev) h = own_diff route i env (convert_raw 𝒟 𝒫 ev) h
  own_input route i (returned env j result) h =
      if j == i then run_snapshot_fetch O env h result else h

  abbrev pub own_inputs : (String → Option ℕ) → ℕ → List Input → Handler O → Handler O
  own_inputs route i [] h = h
  own_inputs route i (input ∷ inputs) h = own_inputs route i inputs (own_input route i input h)

  -- Every handler after an input, and the map, which stays.
  abbrev Follows :
      (String → Option ℕ) → Service 𝒟 𝒫 O → (ℕ → Handler O → Handler O) → Service 𝒟 𝒫 O → Type 0
  Follows route s own s' =
      (s'.handlers ≡ s.handlers)
      × ((i : ℕ) → get_elem? s'.concrete i ≡ option_map (own i) (get_elem? s.concrete i))

  deliver-Follows :
      (route : String → Option ℕ) (env : Env) (s : Service 𝒟 𝒫 O) (d : DiffEvent Amount)
      (r : Option ℕ)
      → Follows route s
          (λ i h. if is_index r i then handle_diff O env h d else h)
          (deliver 𝒟 𝒫 O env s d r)
  unfolding deliver
  deliver-Follows route env s d none = (refl, λ i. option_map_id (get_elem? s.concrete i))
  deliver-Follows route env s d (some j) =
      (refl, λ i. get_elem?-modify (λ h. handle_diff O env h d) s.concrete i j)

  on_converted-Follows :
      (route : String → Option ℕ) (env : Env) (s : Service 𝒟 𝒫 O) (r : Result (DiffEvent Amount))
      → ((name : String) → lookup name s.handlers ≡ route name)
      → Follows route s (λ i. own_diff route i env r) (on_converted 𝒟 𝒫 O env s r)
  unfolding on_converted
  on_converted-Follows route env s (err e) l = (refl, λ i. option_map_id (get_elem? s.concrete i))
  on_converted-Follows route env s (ok d) l =
      rw (l d.symbol) (deliver-Follows route env s d (route d.symbol))

  on_input-Follows :
      (route : String → Option ℕ) (s : Service 𝒟 𝒫 O) (input : Input)
      → ((name : String) → lookup name s.handlers ≡ route name)
      → Follows route s (λ i. own_input route i input) (on_input s input)
  unfolding on_event on_fetched
  on_input-Follows route s (event env ev) l =
      on_converted-Follows route env s (convert_raw 𝒟 𝒫 ev) l
  on_input-Follows route s (returned env j result) l =
      (refl, λ i. get_elem?-modify (λ h. run_snapshot_fetch O env h result) s.concrete i j)

  on_inputs-own :
      (route : String → Option ℕ) (s : Service 𝒟 𝒫 O) (inputs : List Input)
      → ((name : String) → lookup name s.handlers ≡ route name)
      → (i : ℕ)
      → get_elem? (on_inputs s inputs).concrete i
        ≡ option_map (own_inputs route i inputs) (get_elem? s.concrete i)
  on_inputs-own route s [] l i = option_map_id (get_elem? s.concrete i)
  on_inputs-own route s (input ∷ inputs) l i =
      let (same, own) = on_input-Follows route s input l in
      on_inputs-own route (on_input s input) inputs (λ name. ap (lookup name) same ∙ l name) i
      ∙ ap (option_map (own_inputs route i inputs)) (own i)
      ∙ option_map_twice (own_inputs route i inputs) (own_input route i input)
          (get_elem? s.concrete i)

  module _ (upper_twice : (s : String) → 𝒫.to_upper (𝒫.to_upper s) ≡ 𝒫.to_upper s) where
    abbrev Uppers : List (String × ℕ) → Type 0
    Uppers [] = Unit
    Uppers ((k, i) ∷ m) = (𝒫.to_upper k ≡ k) × Uppers m

    erase-Uppers : (k : String) (m : List (String × ℕ)) → Uppers m → Uppers (erase k m)
    unfolding erase
    erase-Uppers k [] u = tt
    erase-Uppers k ((j, i) ∷ m) (e, u) =
        if_cases Uppers (str_eq j k) (λ b. erase-Uppers k m u) (λ b. (e, erase-Uppers k m u))

    build_from-Uppers :
        (new_book : String → O.Self) (publishes : Bool) (s : Service 𝒟 𝒫 O)
        (cfgs : List SymbolConfig) (built : Service 𝒟 𝒫 O)
        → build_from 𝒟 𝒫 O new_book publishes s cfgs ≡ some built
        → Uppers s.handlers
        → Uppers built.handlers
    unfolding build_from insert
    build_from-Uppers new_book publishes s [] built b u =
        let same : s ≡ built = ground (arith, b) in
        subst (λ (t : Service 𝒟 𝒫 O). Uppers t.handlers) same u
    build_from-Uppers new_book publishes s (sc ∷ cfgs) built b u =
        let name = 𝒫.to_upper sc.name in
        let next : Service 𝒟 𝒫 O = record {
          concrete =
              s.concrete ++ new_handler O (config_of 𝒟 𝒫 O sc) (new_book name) publishes ∷ [];
          handlers = insert name (length s.concrete) s.handlers;
          symbol_names = s.symbol_names ++ name ∷ [];
        } in
        build_from-Uppers new_book publishes next cfgs built (ground (arith, b))
          (upper_twice sc.name, erase-Uppers name s.handlers u)

    -- The map of the dispatcher is that of the process.
    lookup-new :
        (name : String) (m : List (String × ℕ))
        → Uppers m
        → lookup name (Dispatch.new 𝒟 𝒫 (λ i diff. i) m) ≡ lookup name m
    unfolding Dispatch.new lookup
    lookup-new name [] u = refl
    lookup-new name ((k, i) ∷ m) (e, u) = rw e (
        lookup-insert k name i (Dispatch.new 𝒟 𝒫 (λ i diff. i) m)
        ∙ ap (λ o. if str_eq k name then some i else o) (lookup-new name m u))

    -- Whatever the order of the events of all symbols and of the fetches that return: the handler
    -- of each configured symbol is in the state to which its own inputs alone bring it, in their
    -- order, from the start with its own settings. Its own inputs are the returns of its fetches,
    -- and the events that convert and whose symbol in upper case is its name, if it is the last
    -- configured of that name.
    pub handlers-isolated :
        (new_book : String → O.Self) (publishes : Bool) (cfgs : List SymbolConfig)
        {built : Service 𝒟 𝒫 O}
        → build_symbol_handlers 𝒟 𝒫 O new_book publishes cfgs ≡ some built
        → (inputs : List Input) (i : ℕ)
        → let route : String → Option ℕ =
            λ name. last_index 𝒟 𝒫 O new_book publishes name 0 none cfgs in
          get_elem? (on_inputs (start_all 𝒟 𝒫 O built) inputs).concrete i
          ≡ option_map
              (λ sc. own_inputs route i inputs (start O (handler_of 𝒟 𝒫 O new_book publishes sc)))
              (get_elem? cfgs i)
    unfolding start_all build_symbol_handlers
    handlers-isolated new_book publishes cfgs {built} b inputs i =
        let route : String → Option ℕ =
          λ name. last_index 𝒟 𝒫 O new_book publishes name 0 none cfgs in
        let own : Handler O → Handler O = own_inputs route i inputs in
        let uppers =
          build_from-Uppers new_book publishes
            (record { concrete = []; handlers = []; symbol_names = [] }) cfgs built b tt in
        elim (build_symbol_handlers_lem 𝒟 𝒫 O new_book publishes cfgs) [
          | inl (n, missing) ↦ absurd (ground (arith, b, missing))
          | inr (n, (s, f, c, names, l)) ↦
              let same : s ≡ built = ground (arith, b, f) in
              on_inputs-own route (start_all 𝒟 𝒫 O built) inputs
                (λ name.
                  lookup-new name built.handlers uppers
                  ∙ ap (λ (t : Service 𝒟 𝒫 O). lookup name t.handlers) (sym same)
                  ∙ l name)
                i
              ∙ ap (λ hs. option_map own (get_elem? (map (start O) hs) i))
                  (ap (λ (t : Service 𝒟 𝒫 O). t.concrete) (sym same) ∙ c)
              ∙ ap (option_map own) (
                  get_elem?-map (start O) (map (handler_of 𝒟 𝒫 O new_book publishes) cfgs) i
                  ∙ ap (option_map (start O))
                      (get_elem?-map (handler_of 𝒟 𝒫 O new_book publishes) cfgs i)
                  ∙ option_map_twice (start O) (handler_of 𝒟 𝒫 O new_book publishes)
                      (get_elem? cfgs i))
              ∙ option_map_twice own (λ sc. start O (handler_of 𝒟 𝒫 O new_book publishes sc))
                  (get_elem? cfgs i)
        ]
