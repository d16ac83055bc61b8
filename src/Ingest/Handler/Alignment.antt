-- ===== src/Ingest/Handler/Alignment.antt =====
-- The bootstrap alignment: `discardPreSnapshot`, `findAlignmentIndex`, `tryAlignLocked` and
-- `replayAlignedBufferLocked` of engine/symbol/handler.go.
use mathlib.Core.Path.{subst}
use erebor.Prelude.{
  ℕ, suc, ◌≡◌, refl, sym, ap, ◌∙◌, Bool, true, false, Option, none, some, List, [], ◌∷◌, arith, ◌⊎◌,
  inl, inr, drop, take, All, keep_if, Bool-cases,
}
use erebor.Prelude.Int.{ℤ}
use erebor.Ingest.Domain.{DiffEvent, SnapshotEvent}
use erebor.Ingest.Handler.{
  synced, OrderBook, Env, Handler, aligns, discard_pre_snapshot, find_alignment_index, replay,
  deliver, replay_aligned_buffer, after_search, align, try_align, finish_replay,
}
use erebor.Ingest.Handler.Sequence.{written}

module _ {A : Type 0} where
  -- `i` is the place of the first event that meets the alignment condition.
  pub record IsFirstAligned (id : ℤ) (buf : List (DiffEvent A)) (i : ℕ) : Type 0 where
    pub event : DiffEvent A
    pub rest : List (DiffEvent A)
    pub at : drop i buf ≡ event ∷ rest
    pub meets : aligns id event ≡ true
    pub first : All (λ ev. aligns id ev ≡ false) (take i buf)

  later :
      (id : ℤ) (ev : DiffEvent A) (buf : List (DiffEvent A)) (i : ℕ)
      → aligns id ev ≡ false
      → IsFirstAligned id buf i
      → IsFirstAligned id (ev ∷ buf) (suc i)
  later id ev buf i miss f = record {
    event = f.event;
    rest = f.rest;
    at = f.at;
    meets = f.meets;
    first = (miss, f.first);
  }

  -- The search returns an index exactly if some event meets the alignment condition, and then
  -- that of the first one.
  pub find_alignment_index-cases :
      (buf : List (DiffEvent A)) (id : ℤ)
      → (find_alignment_index buf id ≡ none) × All (λ ev. aligns id ev ≡ false) buf
        ⊎ ((i : ℕ) × (find_alignment_index buf id ≡ some i) × IsFirstAligned id buf i)
  unfolding find_alignment_index
  find_alignment_index-cases [] id = inl (refl, tt)
  find_alignment_index-cases (ev ∷ buf) id = elim (Bool-cases (aligns id ev)) [
    | inl hit ↦
        inr (0, ground arith, record { event = ev; rest = buf; at = refl; meets = hit; first = tt })
    | inr miss ↦ elim (find_alignment_index-cases buf id) [
      | inl (not_found, all) ↦ inl (ground arith, (miss, all))
      | inr (i, found, f) ↦ inr (suc i, ground arith, later id ev buf i miss f)
    ]
  ]

  keep_if-All :
      (p : DiffEvent A → Bool) (buf : List (DiffEvent A)) → All (λ ev. p ev ≡ true) (keep_if p buf)
  keep_if-All p [] = tt
  keep_if-All p (ev ∷ buf) = ground (arith, keep_if-All p buf)

  -- The diffs in the order of the repository's calls, the newest first.
  abbrev pub store_all : List (DiffEvent A) → List (DiffEvent A) → List (DiffEvent A)
  store_all [] stored = stored
  store_all (ev ∷ evs) stored = store_all evs (ev ∷ stored)

  abbrev pub last_id : ℤ → List (DiffEvent A) → ℤ
  last_id id [] = id
  last_id id (ev ∷ evs) = last_id ev.final_update_id evs

module _ {A : Type 0} (O : OrderBook A) where
  abbrev pub apply_all : O.Self → List (DiffEvent A) → O.Self
  apply_all book [] = book
  apply_all book (ev ∷ evs) = apply_all (O.apply book ev).0 evs

  written-deliver :
      (env : Env) (h : Handler O) (book : O.Self) (ev : DiffEvent A)
      → (written (deliver O env h book ev).calls ≡ ev ∷ written h.calls)
        × ((deliver O env h book ev).book ≡ book)
        × ((deliver O env h book ev).last_final_update_id ≡ ev.final_update_id)
  unfolding deliver
  written-deliver env h book ev = ground arith

  -- What an attempt to align leaves behind: all as it was, or a synchronised handler.
  abbrev pub Outcome : SnapshotEvent A → Handler O → Handler O → Type 0
  Outcome snap h h' =
      let newer = discard_pre_snapshot h.buffer snap.last_update_id in
      (All (λ ev. aligns snap.last_update_id ev ≡ false) newer
        × ((h'.state ≡ h.state) × (h'.book ≡ h.book) × (written h'.calls ≡ written h.calls)))
      ⊎ ((i : ℕ) × IsFirstAligned snap.last_update_id newer i
          × ((h'.state ≡ synced)
              × (h'.book ≡ apply_all (O.load_snapshot (O.reset h.book) snap) (drop i newer))
              × (h'.last_final_update_id ≡ last_id snap.last_update_id (drop i newer))
              × (written h'.calls ≡ store_all (drop i newer) (written h.calls))))

  module _ (accepts : (book : O.Self) (ev : DiffEvent A) → (O.apply book ev).1 ≡ true) where
    replay-cons :
        (env : Env) (h : Handler O) (ev : DiffEvent A) (evs : List (DiffEvent A))
        → replay O env h (ev ∷ evs) ≡ replay O env (deliver O env h (O.apply h.book ev).0 ev) evs
    unfolding replay
    replay-cons env h ev evs = rw (accepts h.book ev)

    replay_all :
        (env : Env) (h : Handler O) (evs : List (DiffEvent A))
        → ((replay O env h evs).1 ≡ true)
          × ((replay O env h evs).0.book ≡ apply_all h.book evs)
          × ((replay O env h evs).0.last_final_update_id ≡ last_id h.last_final_update_id evs)
          × (written (replay O env h evs).0.calls ≡ store_all evs (written h.calls))
    replay_all env h [] = unfold replay in (refl, refl, refl, refl)
    replay_all env h (ev ∷ evs) =
        let next = deliver O env h (O.apply h.book ev).0 ev in
        let (stored, book, last) = written-deliver env h (O.apply h.book ev).0 ev in
        let (done, books, ids, calls) = replay_all env next evs in
        rw (replay-cons env h ev evs) (
          done,
          books ∙ ap (λ b. apply_all b evs) book,
          ids ∙ ap (λ n. last_id n evs) last,
          calls ∙ ap (store_all evs) stored,
        )

    finished :
        (env : Env) (r : Handler O × Bool)
        → r.1 ≡ true
        → let h' = finish_replay O env r in
          (h'.state ≡ synced)
          × (h'.book ≡ r.0.book)
          × (h'.last_final_update_id ≡ r.0.last_final_update_id)
          × (h'.calls ≡ r.0.calls)
    finished env (h, true) e = (refl, refl, refl, refl)
    finished env (h, false) e = cc

    unaligned :
        (env : Env) (h : Handler O) (snap : SnapshotEvent A)
        → (o : Option ℕ) → o ≡ none
        → let h' = after_search O env h snap o in
          (h'.state ≡ h.state) × (h'.book ≡ h.book) × (written h'.calls ≡ written h.calls)
    unfolding after_search
    unaligned env h snap none e = ground arith
    unaligned env h snap (some i) e = cc

    synchronised :
        (env : Env) (h : Handler O) (snap : SnapshotEvent A) (i : ℕ)
        → let h' = after_search O env h snap (some i) in
          (h'.state ≡ synced)
          × (h'.book ≡ apply_all (O.load_snapshot (O.reset h.book) snap) (drop i h.buffer))
          × (h'.last_final_update_id ≡ last_id snap.last_update_id (drop i h.buffer))
          × (written h'.calls ≡ store_all (drop i h.buffer) (written h.calls))
    unfolding replay_aligned_buffer after_search
    synchronised env h snap i =
        let loaded = record h {
          book = O.load_snapshot (O.reset h.book) snap;
          last_final_update_id = snap.last_update_id;
        } in
        let (done, book, last, stored) = replay_all env loaded (drop i h.buffer) in
        let (s, b, l, c) = finished env (replay O env loaded (drop i h.buffer)) done in
        (s, b ∙ book, l ∙ last, ap written c ∙ stored)

    -- With a snapshot at hand and a book that refuses no event: if no buffered event newer than
    -- the snapshot meets the alignment condition, nothing is applied or stored and the state
    -- stays. Otherwise the handler is synchronised, its book is the snapshot loaded into a reset
    -- book with every event from the first aligned one on applied in order, those events and no
    -- others are stored, and the last id is that of the last of them.
    pub try_align_lem :
        (env : Env) (h : Handler O) (snap : SnapshotEvent A)
        → h.snapshot ≡ some snap
        → Outcome snap h (try_align O env h)
    unfolding try_align
    try_align_lem env h snap here =
        let newer = discard_pre_snapshot h.buffer snap.last_update_id in
        let kept = record h { buffer = newer } in
        let searched : Outcome snap h (align O env h (some snap)) =
          elim (find_alignment_index-cases newer snap.last_update_id) [
            | inl (not_found, all) ↦ unfold align in inl (all, unaligned env kept snap _ not_found)
            | inr (i, found, f) ↦
                unfold align in
                subst (λ o. Outcome snap h (after_search O env kept snap o)) (sym found)
                  (inr (i, f, synchronised env kept snap i))
          ] in
        subst (λ o. Outcome snap h (align O env h o)) (sym here) searched
