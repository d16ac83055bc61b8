-- ===== src/Backtest/Cli/Validation.antt =====
-- What the validated flags of engine/backtest/cmd/erebor-backtest/main.go are.
use mathlib.Core.Path.{subst}
use text.Mathlib.Text.{◌==◌ as str_eq}
use text.Mathlib.TextEquality.{eq_iff}
use erebor.Prelude.{
  ◌↔◌, ℕ, ◌<◌, ◌≡◌, refl, sym, ap, ◌∙◌, Bool, true, false, not, ◌&&◌, ◌||◌, Option, none, some,
  String, List, [], ◌∷◌, map, ltb, lt→ltb, Bool-cases, inl, inr, arith,
}
use erebor.Backtest.Replay.{SpeedMode}
use erebor.Backtest.Cli.{
  Library, FlagError, symbols_required, from_required, to_required, no_symbol, bad_from, bad_to,
  not_after, bad_speed, bad_speed_factor, bad_strategy_config, ◌>>=◌, ◌>>◌, fail_if, or_fail,
  Checked, accepted, rejected, Flags, ParsedFlags, has, is_empty, is_nx, symbol_of, add_symbols,
  split_symbols, parse_speed_mode, validate_flags,
}

-- No string occurs twice.
abbrev pub Distinct : List String → Type 0
Distinct [] = Unit
Distinct (s ∷ ss) = (has s ss ≡ false) × Distinct ss

passed :
    {A : Type 0} (b : Bool) (e : FlagError) (k : Checked A) {a : A}
    → (fail_if b e >> k) ≡ accepted a
    → (b ≡ false) × (k ≡ accepted a)
passed true e k h = absurd (ground (arith, h))
passed false e k h = (refl, h)

parsed :
    {A B : Type 0} (o : Option A) (e : FlagError) (f : A → Checked B) {b : B}
    → (or_fail o e >>= f) ≡ accepted b
    → (a : A) × (o ≡ some a) × (f a ≡ accepted b)
parsed none e f h = absurd (ground (arith, h))
parsed (some a) e f h = (a, refl, h)

module _ (L : Library) where
  open L use {Float}

  abbrev pub named : List String → List String
  named parts = map (symbol_of L) parts

  -- The loop adds the named symbols that are neither empty nor seen.
  has-add_symbols :
      (seen parts : List String) (s : String)
      → has s (add_symbols L seen parts)
        ≡ (has s (named parts) && (not (str_eq s "") && not (has s seen)))
  unfolding add_symbols
  has-add_symbols seen [] s = refl
  has-add_symbols seen (part ∷ parts) s =
      let sym = symbol_of L part in
      elim (Bool-cases (str_eq sym "" || has sym seen)) [
        | inl e ↦ rw (e, has-add_symbols seen parts s) (skipped sym s seen (has s (named parts)) e)
        | inr e ↦
            rw (e, has-add_symbols (sym ∷ seen) parts s) (added sym s seen (has s (named parts)) e)
      ]
    where
      skipped :
          (sym s : String) (seen : List String) (later : Bool)
          → (str_eq sym "" || has sym seen) ≡ true
          → (later && (not (str_eq s "") && not (has s seen)))
            ≡ ((str_eq sym s || later) && (not (str_eq s "") && not (has s seen)))
      skipped sym s seen later e = ground (arith, e, eq_iff sym s)

      added :
          (sym s : String) (seen : List String) (later : Bool)
          → (str_eq sym "" || has sym seen) ≡ false
          → (str_eq sym s || (later && (not (str_eq s "") && not (str_eq sym s || has s seen))))
            ≡ ((str_eq sym s || later) && (not (str_eq s "") && not (has s seen)))
      added sym s seen later e = ground (arith, e, eq_iff sym s)

  add_symbols-Distinct : (seen parts : List String) → Distinct (add_symbols L seen parts)
  unfolding add_symbols
  add_symbols-Distinct seen [] = tt
  add_symbols-Distinct seen (part ∷ parts) =
      let sym = symbol_of L part in
      elim (Bool-cases (str_eq sym "" || has sym seen)) [
        | inl e ↦ rw e (add_symbols-Distinct seen parts)
        | inr e ↦ rw e (
          has-add_symbols (sym ∷ seen) parts sym ∙ fresh sym (has sym (named parts)) (has sym seen),
          add_symbols-Distinct (sym ∷ seen) parts,
        )
      ]
    where
      fresh :
          (sym : String) (later before : Bool)
          → (later && (not (str_eq sym "") && not (str_eq sym sym || before))) ≡ false
      fresh sym later before = ground (arith, eq_iff sym sym)

  -- The symbols of a run are those that the flag names between its commas, trimmed and in upper
  -- case, but for the empty one, and each of them once.
  pub split_symbols_lem :
      (flag : String)
      → Distinct (split_symbols L flag)
        × ((s : String)
            → has s (split_symbols L flag) ≡ (has s (named (L.split flag)) && not (str_eq s "")))
  unfolding split_symbols
  split_symbols_lem flag = (
    add_symbols-Distinct [] (L.split flag),
    λ s. ground (arith, has-add_symbols [] (L.split flag) s),
  )

  -- The flags that `validate_flags` is to accept, with their values.
  pub record IsValid (flags : Flags L) (pf : ParsedFlags L) : Type 0 where
    pub symbols_given : str_eq flags.symbols "" ≡ false
    pub from_given : str_eq flags.from "" ≡ false
    pub to_given : str_eq flags.to "" ≡ false
    pub symbols_split : pf.symbols ≡ split_symbols L flags.symbols
    pub some_symbol : is_empty pf.symbols ≡ false
    pub from_parsed : L.parse_rfc3339 flags.from ≡ some pf.from
    pub to_parsed : L.parse_rfc3339 flags.to ≡ some pf.to
    pub in_order : pf.from < pf.to
    pub speed_parsed : parse_speed_mode L flags.speed ≡ some pf.speed_mode
    pub factor_positive : (is_nx pf.speed_mode && not (L.is_positive pf.speed_factor)) ≡ false
    pub config_json : L.json_valid pf.strategy_config ≡ true
    pub same_factor : pf.speed_factor ≡ flags.speed_factor
    pub same_depth : pf.depth ≡ flags.depth
    pub same_config : pf.strategy_config ≡ flags.strategy_config

  -- What `validate_flags` still does, from its last checks on, from the speed mode on, from the
  -- times on.
  abbrev last_checks : Flags L → ℕ → ℕ → SpeedMode → Checked (ParsedFlags L)
  last_checks flags from to mode =
      fail_if (not (L.json_valid flags.strategy_config)) bad_strategy_config
      >> accepted (record {
        symbols = split_symbols L flags.symbols;
        from = from;
        to = to;
        speed_mode = mode;
        speed_factor = flags.speed_factor;
        depth = flags.depth;
        strategy_config = flags.strategy_config;
      })

  abbrev after_mode : Flags L → ℕ → ℕ → SpeedMode → Checked (ParsedFlags L)
  after_mode flags from to mode =
      fail_if (is_nx mode && not (L.is_positive flags.speed_factor)) bad_speed_factor
      >> last_checks flags from to mode

  abbrev after_times : Flags L → ℕ → ℕ → Checked (ParsedFlags L)
  after_times flags from to =
      or_fail (parse_speed_mode L flags.speed) bad_speed >>= after_mode flags from to

  abbrev after_to : Flags L → ℕ → ℕ → Checked (ParsedFlags L)
  after_to flags from to = fail_if (not (ltb from to)) not_after >> after_times flags from to

  abbrev after_from : Flags L → ℕ → Checked (ParsedFlags L)
  after_from flags from = or_fail (L.parse_rfc3339 flags.to) bad_to >>= after_to flags from

  abbrev after_symbols : Flags L → Checked (ParsedFlags L)
  after_symbols flags = or_fail (L.parse_rfc3339 flags.from) bad_from >>= after_from flags

  abbrev after_given : Flags L → Checked (ParsedFlags L)
  after_given flags =
      fail_if (is_empty (split_symbols L flags.symbols)) no_symbol >> after_symbols flags

  abbrev result_or : ParsedFlags L → Checked (ParsedFlags L) → ParsedFlags L
  result_or default (accepted pf) = pf
  result_or default (rejected e) = default

  -- The texts that are required are given.
  abbrev Given : Flags L → Type 0
  Given flags =
      (str_eq flags.symbols "" ≡ false)
      × (str_eq flags.from "" ≡ false)
      × (str_eq flags.to "" ≡ false)

  after_given-IsValid :
      (flags : Flags L) (pf : ParsedFlags L)
      → Given flags
      → after_given flags ≡ accepted pf
      → IsValid flags pf
  after_given-IsValid flags pf (s, f, t) h =
      let symbols = split_symbols L flags.symbols in
      let (some_symbol, h4) = passed (is_empty symbols) no_symbol (after_symbols flags) h in
      let (from, from_parsed, h5) =
        parsed (L.parse_rfc3339 flags.from) bad_from (after_from flags) h4 in
      let (to, to_parsed, h6) = parsed (L.parse_rfc3339 flags.to) bad_to (after_to flags from) h5 in
      let (in_order, h7) = passed (not (ltb from to)) not_after (after_times flags from to) h6 in
      let (mode, speed_parsed, h8) =
        parsed (parse_speed_mode L flags.speed) bad_speed (after_mode flags from to) h7 in
      let (factor_positive, h9) =
        passed (is_nx mode && not (L.is_positive flags.speed_factor)) bad_speed_factor
          (last_checks flags from to mode) h8 in
      let (config_json, h10) =
        passed (not (L.json_valid flags.strategy_config)) bad_strategy_config _ h9 in
      subst (IsValid flags) (ap (result_or pf) h10) (record {
        symbols_given = s;
        from_given = f;
        to_given = t;
        symbols_split = refl;
        some_symbol = some_symbol;
        from_parsed = from_parsed;
        to_parsed = to_parsed;
        in_order = ground (arith, in_order);
        speed_parsed = speed_parsed;
        factor_positive = factor_positive;
        config_json = ground (arith, config_json);
        same_factor = refl;
        same_depth = refl;
        same_config = refl;
      })

  after_given-accepts :
      (flags : Flags L) (pf : ParsedFlags L) → IsValid flags pf → after_given flags ≡ accepted pf
  after_given-accepts flags pf v =
      rw
        (
          ap is_empty (sym v.symbols_split) ∙ v.some_symbol,
          v.from_parsed,
          v.to_parsed,
          lt→ltb pf.from pf.to v.in_order,
          v.speed_parsed,
          ap (λ f. is_nx pf.speed_mode && not (L.is_positive f)) (sym v.same_factor)
              ∙ v.factor_positive,
          ap L.json_valid (sym v.same_config) ∙ v.config_json,
        )
        (cc (v.symbols_split, v.same_factor, v.same_depth, v.same_config))

  -- The flags are accepted exactly if they are valid, with the values that they give.
  pub validate_flags_lem :
      (flags : Flags L) (pf : ParsedFlags L)
      → (validate_flags L flags ≡ accepted pf) ↔ IsValid flags pf
  unfolding validate_flags
  validate_flags_lem flags pf =
      let no_to = fail_if (str_eq flags.to "") to_required in
      let no_from = fail_if (str_eq flags.from "") from_required in
      (
        (λ h.
            let (s, h1) =
              passed (str_eq flags.symbols "") symbols_required
                (no_from >> (no_to >> after_given flags)) h in
            let (f, h2) =
              passed (str_eq flags.from "") from_required (no_to >> after_given flags) h1 in
            let (t, h3) = passed (str_eq flags.to "") to_required (after_given flags) h2 in
            after_given-IsValid flags pf (s, f, t) h3),
        (λ v. rw (v.symbols_given, v.from_given, v.to_given) (after_given-accepts flags pf v)),
      )
