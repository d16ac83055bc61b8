-- ===== src/Ingest/Service/Building.antt =====
-- What `buildSymbolHandlers` of engine/cmd/erebor-ingest/main.go makes of the configured symbols.
use text.Mathlib.Text.{◌==◌ as str_eq}
use erebor.Prelude.{
  ℕ, suc, ◌≡◌, refl, sym, ap, ◌∙◌, Bool, true, false, ◌||◌, Option, none, some, String, List, [],
  ◌∷◌, ◌++◌, map, if◌then◌else◌, length, length-append, append_assoc, append_nil, Bool-cases, ◌⊎◌,
  inl, inr, arith,
}
use erebor.Prelude.Assoc.{lookup, insert, lookup-insert}
use erebor.Decimal.{Decimal}
use erebor.Platform.{Platform}
use erebor.Ingest.Handler.{OrderBook, Handler, new_handler}
use erebor.Ingest.Service.{SymbolConfig, Service, config_of, build_from, build_symbol_handlers}

module _ (𝒟 : Decimal) (𝒫 : Platform) (O : OrderBook 𝒟.Amount) (new_book : String → O.Self)
    (publishes : Bool) where
  abbrev pub name_of : SymbolConfig → String
  name_of sc = 𝒫.to_upper sc.name

  abbrev pub handler_of : SymbolConfig → Handler O
  handler_of sc = new_handler O (config_of 𝒟 𝒫 O sc) (new_book (name_of sc)) publishes

  abbrev pub nameless : List SymbolConfig → Bool
  nameless [] = false
  nameless (sc ∷ cfgs) = str_eq (name_of sc) "" || nameless cfgs

  -- The index of the last entry of a name, or what was found before.
  abbrev pub last_index : String → ℕ → Option ℕ → List SymbolConfig → Option ℕ
  last_index name i before [] = before
  last_index name i before (sc ∷ cfgs) =
      last_index name (suc i) (if str_eq (name_of sc) name then some i else before) cfgs

  -- A service that holds these handlers and names more than another, and whose map gives for each
  -- name its last entry.
  abbrev Extends : Service 𝒟 𝒫 O → List SymbolConfig → Service 𝒟 𝒫 O → Type 0
  Extends s cfgs s' =
      (s'.concrete ≡ s.concrete ++ map handler_of cfgs)
      × (s'.symbol_names ≡ s.symbol_names ++ map name_of cfgs)
      × ((name : String)
          → lookup name s'.handlers
            ≡ last_index name (length s.concrete) (lookup name s.handlers) cfgs)

  build_from_lem :
      (s : Service 𝒟 𝒫 O) (cfgs : List SymbolConfig)
      → ((nameless cfgs ≡ true) × (build_from 𝒟 𝒫 O new_book publishes s cfgs ≡ none))
        ⊎ ((nameless cfgs ≡ false)
            × ((s' : Service 𝒟 𝒫 O) × (build_from 𝒟 𝒫 O new_book publishes s cfgs ≡ some s')
                × Extends s cfgs s'))
  unfolding build_from
  build_from_lem s [] = inr (
    refl,
    (s, refl, (sym (append_nil s.concrete), sym (append_nil s.symbol_names), λ name. refl)),
  )
  build_from_lem s (sc ∷ cfgs) = elim (Bool-cases (str_eq (name_of sc) "")) [
    | inl e ↦ inl (rw e refl, rw e refl)
    | inr e ↦
        let next : Service 𝒟 𝒫 O = record {
          concrete = s.concrete ++ handler_of sc ∷ [];
          handlers = insert (name_of sc) (length s.concrete) s.handlers;
          symbol_names = s.symbol_names ++ name_of sc ∷ [];
        } in
        let grown : length next.concrete ≡ suc (length s.concrete) =
          omega (arith, length-append s.concrete (handler_of sc ∷ [])) in
        elim (build_from_lem next cfgs) [
          | inl (n, f) ↦ inl (rw e n, rw e f)
          | inr (n, (s', f, (c, names, l))) ↦ inr (
            rw e n,
            (
              s',
              rw e f,
              (
                c ∙ append_assoc s.concrete (handler_of sc ∷ []) (map handler_of cfgs),
                names ∙ append_assoc s.symbol_names (name_of sc ∷ []) (map name_of cfgs),
                λ name.
                    l name
                    ∙ ap (λ i. last_index name i (lookup name next.handlers) cfgs) grown
                    ∙ ap (λ o. last_index name (suc (length s.concrete)) o cfgs)
                        (lookup-insert (name_of sc) name (length s.concrete) s.handlers),
              ),
            ),
          )
        ]
  ]

  -- If some entry has no name, there is an error. Else there is one handler for each entry, in
  -- their order and with their settings, the stream is asked for their names in upper case, and
  -- the map gives for each name its last entry, and nothing for any other.
  pub build_symbol_handlers_lem :
      (cfgs : List SymbolConfig)
      → ((nameless cfgs ≡ true) × (build_symbol_handlers 𝒟 𝒫 O new_book publishes cfgs ≡ none))
        ⊎ ((nameless cfgs ≡ false)
            × ((s : Service 𝒟 𝒫 O) × (build_symbol_handlers 𝒟 𝒫 O new_book publishes cfgs ≡ some s)
                × (s.concrete ≡ map handler_of cfgs)
                × (s.symbol_names ≡ map name_of cfgs)
                × ((name : String) → lookup name s.handlers ≡ last_index name 0 none cfgs)))
  unfolding build_symbol_handlers lookup
  build_symbol_handlers_lem cfgs =
      elim (build_from_lem (record { concrete = []; handlers = []; symbol_names = [] }) cfgs) [
        | inl missing ↦ inl missing
        | inr (n, (s, f, (c, names, l))) ↦ inr (n, (s, f, c, names, l))
      ]
