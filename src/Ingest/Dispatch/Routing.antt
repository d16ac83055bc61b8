-- ===== src/Ingest/Dispatch/Routing.antt =====
-- Which events reach which handler: `Run` of engine/dispatch/dispatcher.go.
use text.Mathlib.Text.{◌==◌ as str_eq}
use text.Mathlib.TextEquality.{eq_iff}
use mathlib.Core.Option
use erebor.Prelude.{
  ◌≡◌, refl, ap, ◌∙◌, Option, none, some, String, List, [], ◌∷◌, if◌then◌else◌, arith, Option-cases,
  inl, inr,
}
use erebor.Prelude.Assoc.{lookup, insert, lookup-insert}
use erebor.Decimal.{Decimal}
use erebor.Platform.{Platform}
use erebor.Ingest.Domain.{DiffEvent}
use erebor.Ingest.Dispatch.{RawDiffEvent, Result, ok, err, convert_raw, dispatch, run}

module _ (𝒟 : Decimal) (𝒫 : Platform) where
  open 𝒟 use {Amount}

  -- The diff of an event, if it converts and is for the symbol.
  abbrev if_for :
      String → Result (DiffEvent Amount) → List (DiffEvent Amount) → List (DiffEvent Amount)
  if_for s (err e) rest = rest
  if_for s (ok diff) rest = if str_eq diff.symbol s then diff ∷ rest else rest

  -- The diffs for a symbol, in the order of the stream.
  abbrev pub diffs_for : String → List RawDiffEvent → List (DiffEvent Amount)
  diffs_for s [] = []
  diffs_for s (ev ∷ events) = if_for s (convert_raw 𝒟 𝒫 ev) (diffs_for s events)

  module _ {H : Type 0} (handle_diff : H → DiffEvent Amount → H) where
    abbrev pub handle_all : H → List (DiffEvent Amount) → H
    handle_all h [] = h
    handle_all h (d ∷ ds) = handle_all (handle_diff h d) ds

    lookup-dispatch :
        (handlers : List (String × H)) (ev : RawDiffEvent) (s : String)
        → lookup s (dispatch 𝒟 𝒫 handle_diff handlers ev)
          ≡ Option.map (λ h. handle_all h (if_for s (convert_raw 𝒟 𝒫 ev) [])) (lookup s handlers)
    unfolding dispatch
    lookup-dispatch handlers ev s = go (convert_raw 𝒟 𝒫 ev) refl
      where
        go :
            (r : Result (DiffEvent Amount))
            → convert_raw 𝒟 𝒫 ev ≡ r
            → lookup s (elim r [
              | err e ↦ handlers
              | ok diff ↦ elim (lookup diff.symbol handlers) [
                | none ↦ handlers
                | some h ↦ insert diff.symbol (handle_diff h diff) handlers
              ]
            ])
              ≡ Option.map (λ h. handle_all h (if_for s r [])) (lookup s handlers)
        go (err e) q = ground arith
        go (ok diff) q = elim (Option-cases (lookup diff.symbol handlers)) [
          | inl missing ↦
              ground
                (arith, eq_iff diff.symbol s, ap (λ k. lookup k handlers) {x = diff.symbol} {y = s})
          | inr (h, found) ↦ ground (
            arith,
            eq_iff diff.symbol s,
            lookup-insert diff.symbol s (handle_diff h diff) handlers,
            ap (λ k. lookup k handlers) {x = diff.symbol} {y = s},
          )
        ]

    handle_all-if_for :
        (s : String) (r : Result (DiffEvent Amount)) (rest : List (DiffEvent Amount)) (o : Option H)
        → Option.map (λ h. handle_all h rest) (Option.map (λ h. handle_all h (if_for s r [])) o)
          ≡ Option.map (λ h. handle_all h (if_for s r rest)) o
    handle_all-if_for s r rest none = refl
    handle_all-if_for s (err e) rest (some h) = refl
    handle_all-if_for s (ok diff) rest (some h) = ground arith

    -- Every registered handler has seen exactly the diffs of its own symbol that convert, in the
    -- order of the stream, whatever else arrived; and no handler appears or goes.
    pub lookup-run :
        (handlers : List (String × H)) (events : List RawDiffEvent) (s : String)
        → lookup s (run 𝒟 𝒫 handle_diff handlers events)
          ≡ Option.map (λ h. handle_all h (diffs_for s events)) (lookup s handlers)
    unfolding run
    lookup-run handlers [] s = ground arith
    lookup-run handlers (ev ∷ events) s =
        lookup-run (dispatch 𝒟 𝒫 handle_diff handlers ev) events s
        ∙ ap (Option.map (λ h. handle_all h (diffs_for s events))) (lookup-dispatch handlers ev s)
        ∙ handle_all-if_for s (convert_raw 𝒟 𝒫 ev) (diffs_for s events) (lookup s handlers)
