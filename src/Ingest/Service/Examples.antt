-- ===== src/Ingest/Service/Examples.antt =====
-- A concrete ingest process (engine/cmd/erebor-ingest/main.go) with two symbols, one of them named
-- twice.
use erebor.Prelude.{
  get_elem?, arith, ℕ, Option, ◌≡◌, refl, true, false, ◌⊎◌, none, some, String, List, [], ◌∷◌, map,
}
use erebor.Prelude.Assoc.{lookup, insert}
use erebor.Decimal.Integers.{integers}
use erebor.Platform.Sample.{platform}
use erebor.Ingest.Handler.{start}
use erebor.Ingest.Service.{SymbolConfig, Service, build_symbol_handlers, start_all}
use erebor.Ingest.Service.Building.{
  nameless, handler_of, name_of, last_index, build_symbol_handlers_lem,
}
use erebor.Ingest.Service.Symbols.{Input, event, returned, on_inputs, own_inputs, handlers-isolated}
use erebor.Ingest.Examples.{books, empty_book, calm, raw}

abbrev named : String → SymbolConfig
named name = record {
  name = name;
  depth_limit = 2;
  checkpoint_interval = 0;
  checkpoint_diff_threshold = 0;
  max_buffer_size = 3;
}

abbrev entries : List SymbolConfig
entries = named "BTCUSDT" ∷ named "ETHUSDT" ∷ named "BTCUSDT" ∷ []

abbrev new_book : String → books.Self
new_book name = record empty_book { symbol = name }

build_symbol_handlers_lem_example :
    ((nameless integers platform books new_book true entries ≡ true)
      × (build_symbol_handlers integers platform books new_book true entries ≡ none))
    ⊎ ((nameless integers platform books new_book true entries ≡ false)
        × ((s : Service integers platform books) × (build_symbol_handlers integers platform books
                new_book true entries
              ≡ some s)
            × (s.concrete ≡ map (handler_of integers platform books new_book true) entries)
            × (s.symbol_names ≡ map (name_of integers platform books new_book true) entries)
            × ((name : String)
                → lookup name s.handlers
                  ≡ last_index integers platform books new_book true name 0 none entries)))
build_symbol_handlers_lem_example =
    build_symbol_handlers_lem integers platform books new_book true entries

abbrev built : Service integers platform books
built = record {
  concrete = map (handler_of integers platform books new_book true) entries;
  handlers = ("BTCUSDT", 2) ∷ ("ETHUSDT", 1) ∷ [];
  symbol_names = "BTCUSDT" ∷ "ETHUSDT" ∷ "BTCUSDT" ∷ [];
}

builds : build_symbol_handlers integers platform books new_book true entries ≡ some built
unfolding build_symbol_handlers insert
builds = refl

abbrev begun : Service integers platform books
begun = start_all integers platform books built

upper_twice : (s : String) → platform.to_upper (platform.to_upper s) ≡ platform.to_upper s
upper_twice s = ground arith

abbrev inputs : List (Input integers platform books)
inputs =
    event calm (raw "BTCUSDT")
    ∷ returned calm 2 none
    ∷ event calm (raw "ETHUSDT")
    ∷ event calm (raw "BTCUSDT")
    ∷ []

handlers-isolated_example :
    let route : String → Option ℕ =
      λ name. last_index integers platform books new_book true name 0 none entries in
    get_elem? (on_inputs integers platform books begun inputs).concrete 2
    ≡ some (
        own_inputs integers platform books route 2 inputs
          (start books (handler_of integers platform books new_book true (named "BTCUSDT"))))
handlers-isolated_example =
    handlers-isolated integers platform books upper_twice new_book true entries builds inputs 2
