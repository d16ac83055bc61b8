-- ===== src/Ingest/Book/Updates.antt =====
-- What an update of a side (`apply_level` in engine/book/book.go) does to every price.
use text.Mathlib.Text.{◌==◌ as str_eq}
use erebor.Prelude.{
  ◌≡◌, refl, sym, Option, none, some, String, List, [], ◌∷◌, if◌then◌else◌, arith, ◌∙◌, ap,
}
use erebor.Prelude.Assoc.{lookup, lookup-erase, lookup-insert}
use erebor.Decimal.{Decimal}
use erebor.Ingest.Domain.{PriceLevel, DiffEvent}
use erebor.Ingest.Book.{Book, apply_level, apply_levels, apply}

module _ (𝒟 : Decimal) where
  open 𝒟 use {Amount, is_zero, to_string}

  -- The quantity that the last level with this key announces, if any has it.
  abbrev pub announced : String → List (PriceLevel Amount) → Option Amount
  announced k [] = none
  announced k (l ∷ ls) = elim (announced k ls) [
    | some q ↦ some q
    | none ↦ if str_eq (to_string l.price) k then some l.quantity else none
  ]

  -- A quantity of zero deletes; no announcement leaves the older entry.
  abbrev pub updated : Option Amount → Option Amount → Option Amount
  updated old none = old
  updated old (some q) = if is_zero q then none else some q

  pub lookup-apply_level :
      (k : String) (side : List (String × Amount)) (l : PriceLevel Amount)
      → lookup k (apply_level 𝒟 side l)
        ≡ updated (lookup k side) (if str_eq (to_string l.price) k then some l.quantity else none)
  unfolding apply_level
  lookup-apply_level k side l = ground (
    arith,
    lookup-erase (to_string l.price) k side,
    lookup-insert (to_string l.price) k l.quantity side,
  )

  updated-updated :
      (old : Option Amount) (first last : Option Amount)
      → updated (updated old first) last
        ≡ updated old (elim last [ some q ↦ some q | none ↦ first ])
  updated-updated old first none = refl
  updated-updated old first (some q) = refl

  pub lookup-apply_levels :
      (k : String) (side : List (String × Amount)) (ls : List (PriceLevel Amount))
      → lookup k (apply_levels 𝒟 side ls) ≡ updated (lookup k side) (announced k ls)
  unfolding apply_levels
  lookup-apply_levels k side [] = refl
  lookup-apply_levels k side (l ∷ ls) =
      lookup-apply_levels k (apply_level 𝒟 side l) ls
      ∙ ap (λ o. updated o (announced k ls)) (lookup-apply_level k side l)
      ∙ updated-updated (lookup k side) _ (announced k ls)

  -- After `apply`, each price of each side holds what the diff announces for it last, and is
  -- absent if that is zero; a price that the diff does not name keeps its quantity; and the
  -- book's update id is the diff's final one.
  pub lookup-apply :
      (b : Book Amount) (d : DiffEvent Amount) (k : String)
      → (lookup k (apply 𝒟 b d).bids ≡ updated (lookup k b.bids) (announced k d.bids))
        × (lookup k (apply 𝒟 b d).asks ≡ updated (lookup k b.asks) (announced k d.asks))
        × ((apply 𝒟 b d).last_update_id ≡ d.final_update_id)
  unfolding apply
  lookup-apply b d k =
      (lookup-apply_levels k b.bids d.bids, lookup-apply_levels k b.asks d.asks, refl)

  updated_idem : (old new : Option Amount) → updated (updated old new) new ≡ updated old new
  updated_idem old none = refl
  updated_idem old (some q) = refl

  -- A diff that is delivered twice leaves every price as one delivery does.
  pub apply_twice :
      (b : Book Amount) (d : DiffEvent Amount) (k : String)
      → (lookup k (apply 𝒟 (apply 𝒟 b d) d).bids ≡ lookup k (apply 𝒟 b d).bids)
        × (lookup k (apply 𝒟 (apply 𝒟 b d) d).asks ≡ lookup k (apply 𝒟 b d).asks)
  apply_twice b d k =
      let once = lookup-apply b d k in
      let twice = lookup-apply (apply 𝒟 b d) d k in
      (
        twice.0
            ∙ ap (λ o. updated o (announced k d.bids)) once.0
            ∙ updated_idem (lookup k b.bids) (announced k d.bids)
            ∙ sym once.0,
        twice.1
            ∙ ap (λ o. updated o (announced k d.asks)) once.1
            ∙ updated_idem (lookup k b.asks) (announced k d.asks)
            ∙ sym once.1,
      )
