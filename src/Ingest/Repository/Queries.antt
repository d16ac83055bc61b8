-- ===== src/Ingest/Repository/Queries.antt =====
-- What the queries of engine/repository/repository.go return of what was written.
use mathlib.Core.Path.{subst}
use text.Mathlib.Text.{◌==◌ as str_eq}
use erebor.Prelude.{
  ℕ, ◌≤◌, ◌≡◌, refl, sym, ap, ◌∙◌, Bool, true, false, ◌&&◌, Option, none, some, String, List, [],
  ◌∷◌, ◌++◌, if◌then◌else◌, leb, append_assoc, append_nil, ltb, keep_if, All, arith, if_cases,
}
use text.Mathlib.TextEquality.{eq_iff}
use erebor.Decimal.{Decimal, IsExact}
use erebor.Platform.{Platform, IsFaithful}
use erebor.Ingest.Domain.{DiffEvent}
use erebor.Wire.{◌>>=◌}
use erebor.Wire.RoundTrip.{decode_price_levels-levels_to_json}
use erebor.Ingest.Repository.{
  DiffRow, CheckpointRow, PgTables, has_diff, row_before, insert_row, in_range, select_diffs,
  nearest, levels_to_json, json_to_levels, diff_row, write_diff, read_diff, read_diffs, query_diffs,
}

-- The row comes behind every row of the list in the order of the query.
abbrev pub Newest : DiffRow → List DiffRow → Type 0
Newest row = All (λ r. row_before r row ≡ true)

has_diff-Newest :
    (row : DiffRow) (rows : List DiffRow) → Newest row rows → has_diff rows row ≡ false
unfolding has_diff
has_diff-Newest row [] n = refl
has_diff-Newest row (r ∷ rows) (b, n) = ground (arith, b, has_diff-Newest row rows n)

insert_row-Newest :
    (row : DiffRow) (rows : List DiffRow) → Newest row rows → insert_row row rows ≡ rows ++ row ∷ []
unfolding insert_row
insert_row-Newest row [] n = refl
insert_row-Newest row (r ∷ rows) (b, n) = ground (arith, b, insert_row-Newest row rows n)

Newest-insert_row :
    (row other : DiffRow) (rows : List DiffRow)
    → row_before other row ≡ true
    → Newest row rows
    → Newest row (insert_row other rows)
unfolding insert_row
Newest-insert_row row other [] b n = (b, tt)
Newest-insert_row row other (r ∷ rows) b (c, n) =
    if_cases (Newest row) (row_before other r) (λ e. (b, (c, n)))
      (λ e. (c, Newest-insert_row row other rows b n))

Newest-select_diffs :
    (symbol : String) (from to : ℕ) (row : DiffRow) (rows : List DiffRow)
    → Newest row rows
    → Newest row (select_diffs symbol from to rows)
unfolding select_diffs
Newest-select_diffs symbol from to row [] n = tt
Newest-select_diffs symbol from to row (r ∷ rows) (b, n) =
    let rest = select_diffs symbol from to rows in
    if_cases (Newest row) (in_range symbol from to r)
      (λ e. Newest-insert_row row r rest b (Newest-select_diffs symbol from to row rows n))
      (λ e. Newest-select_diffs symbol from to row rows n)

module _ (𝒟 : Decimal) (𝒫 : Platform) where
  open 𝒟 use {Amount}

  abbrev pub asked : String → ℕ → ℕ → DiffEvent Amount → Bool
  asked symbol from to event =
      str_eq event.symbol symbol && leb from event.event_time && leb event.event_time to

  abbrev pub write_diffs : PgTables → List (DiffEvent Amount) → PgTables
  write_diffs t [] = t
  write_diffs t (event ∷ events) = write_diffs (write_diff 𝒟 𝒫 t event) events

  -- Each event is later than those before it, or of the same time with a higher id.
  abbrev pub InOrder : List DiffRow → List (DiffEvent Amount) → Type 0
  InOrder rows [] = Unit
  InOrder rows (event ∷ events) =
      Newest (diff_row 𝒟 𝒫 event) rows × InOrder (diff_row 𝒟 𝒫 event ∷ rows) events

  step_append :
      (p : Option (DiffEvent Amount)) (o : Option (List (DiffEvent Amount)))
      (event : DiffEvent Amount)
      → (p >>= λ e. (o >>= λ ds. some (ds ++ event ∷ [])) >>= λ es. some (e ∷ es))
        ≡ ((p >>= λ e. o >>= λ es. some (e ∷ es)) >>= λ ds. some (ds ++ event ∷ []))
  step_append none o event = refl
  step_append (some e) none event = refl
  step_append (some e) (some es) event = refl

  read_diffs-append :
      (rows : List DiffRow) (row : DiffRow) (event : DiffEvent Amount)
      → read_diff 𝒟 𝒫 row ≡ some event
      → read_diffs 𝒟 𝒫 (rows ++ row ∷ []) ≡ (read_diffs 𝒟 𝒫 rows >>= λ ds. some (ds ++ event ∷ []))
  unfolding read_diffs
  read_diffs-append [] row event e = rw e refl
  read_diffs-append (r ∷ rows) row event e =
      ap (λ o. read_diff 𝒟 𝒫 r >>= λ a. o >>= λ es. some (a ∷ es))
        (read_diffs-append rows row event e)
      ∙ step_append (read_diff 𝒟 𝒫 r) (read_diffs 𝒟 𝒫 rows) event

  module _ (ℒ : IsExact 𝒟) (ℱ : IsFaithful 𝒫) where
    read_diff-diff_row :
        (event : DiffEvent Amount) → read_diff 𝒟 𝒫 (diff_row 𝒟 𝒫 event) ≡ some event
    unfolding read_diff diff_row json_to_levels levels_to_json
    read_diff-diff_row event =
        rw
          (
            decode_price_levels-levels_to_json 𝒟 ℒ 𝒫 ℱ event.bids,
            decode_price_levels-levels_to_json 𝒟 ℒ 𝒫 ℱ event.asks,
          )
          refl

    query_diffs-write_diff :
        (t : PgTables) (symbol : String) (from to : ℕ) (ds : List (DiffEvent Amount))
        (event : DiffEvent Amount)
        → query_diffs 𝒟 𝒫 t symbol from to ≡ some ds
        → Newest (diff_row 𝒟 𝒫 event) t.diffs
        → query_diffs 𝒟 𝒫 (write_diff 𝒟 𝒫 t event) symbol from to
          ≡ some (if asked symbol from to event then ds ++ event ∷ [] else ds)
    unfolding query_diffs write_diff
    query_diffs-write_diff t symbol from to ds event q n =
        rw (has_diff-Newest (diff_row 𝒟 𝒫 event) t.diffs n)
          (selected (in_range symbol from to (diff_row 𝒟 𝒫 event)) (unfold diff_row in refl))
      where
        rest : List DiffRow
        rest = select_diffs symbol from to t.diffs

        selected :
            (b : Bool)
            → b ≡ asked symbol from to event
            → read_diffs 𝒟 𝒫 (if b then insert_row (diff_row 𝒟 𝒫 event) rest else rest)
              ≡ some (if asked symbol from to event then ds ++ event ∷ [] else ds)
        selected true e =
            ap (read_diffs 𝒟 𝒫) (
              insert_row-Newest (diff_row 𝒟 𝒫 event) rest
                (Newest-select_diffs symbol from to (diff_row 𝒟 𝒫 event) t.diffs n))
            ∙ read_diffs-append rest (diff_row 𝒟 𝒫 event) event (read_diff-diff_row event)
            ∙ ap (λ o. o >>= λ es. some (es ++ event ∷ [])) q
            ∙ ap (λ c. some (if c then ds ++ event ∷ [] else ds)) e
        selected false e = q ∙ ap (λ c. some (if c then ds ++ event ∷ [] else ds)) e

    diffs-write_diff :
        (t : PgTables) (event : DiffEvent Amount)
        → Newest (diff_row 𝒟 𝒫 event) t.diffs
        → (write_diff 𝒟 𝒫 t event).diffs ≡ diff_row 𝒟 𝒫 event ∷ t.diffs
    unfolding write_diff
    diffs-write_diff t event n = rw (has_diff-Newest (diff_row 𝒟 𝒫 event) t.diffs n) refl

    kept_next :
        (b : Bool) (ds : List (DiffEvent Amount)) (event : DiffEvent Amount)
        (es : List (DiffEvent Amount))
        → (if b then ds ++ event ∷ [] else ds) ++ es ≡ ds ++ (if b then event ∷ es else es)
    kept_next true ds event es = append_assoc ds (event ∷ []) es
    kept_next false ds event es = refl

    -- Diffs that are written in the order of their times, ids in the case of a tie, and after all
    -- rows that are there, are what a query returns, behind those it returned before: the ones of
    -- its symbol and its range of times, both ends included, in that order and with all their
    -- price levels.
    pub query_diffs-write_diffs :
        (t : PgTables) (symbol : String) (from to : ℕ) (ds : List (DiffEvent Amount))
        (events : List (DiffEvent Amount))
        → query_diffs 𝒟 𝒫 t symbol from to ≡ some ds
        → InOrder t.diffs events
        → query_diffs 𝒟 𝒫 (write_diffs t events) symbol from to
          ≡ some (ds ++ keep_if (asked symbol from to) events)
    query_diffs-write_diffs t symbol from to ds [] q o = q ∙ ap some (sym (append_nil ds))
    query_diffs-write_diffs t symbol from to ds (event ∷ events) q (n, o) =
        query_diffs-write_diffs (write_diff 𝒟 𝒫 t event) symbol from to
          (if asked symbol from to event then ds ++ event ∷ [] else ds) events
          (query_diffs-write_diff t symbol from to ds event q n)
          (subst (λ rows. InOrder rows events) (sym (diffs-write_diff t event n)) o)
        ∙ ap some (
            kept_next (asked symbol from to event) ds event (keep_if (asked symbol from to) events))

-- A checkpoint row that the query may return.
abbrev pub IsCandidate : String → ℕ → CheckpointRow → Type 0
IsCandidate symbol at row = (row.symbol ≡ symbol) × (row.snapshot_time ≤ at)

abbrev pub IsNearest : String → ℕ → List CheckpointRow → Option CheckpointRow → Type 0
IsNearest symbol at rows none = All (λ r. ¬ (IsCandidate symbol at r)) rows
IsNearest symbol at rows (some best) =
    IsCandidate symbol at best
    × All (λ r. IsCandidate symbol at r → r.snapshot_time ≤ best.snapshot_time) rows

no_later :
    (symbol : String) (at : ℕ) (rows : List CheckpointRow) (n : ℕ)
    → All (λ r. ¬ (IsCandidate symbol at r)) rows
    → All (λ r. IsCandidate symbol at r → r.snapshot_time ≤ n) rows
no_later symbol at [] n a = tt
no_later symbol at (r ∷ rows) n (non, a) = ((λ c. absurd (non c)), no_later symbol at rows n a)

later_bound :
    (symbol : String) (at : ℕ) (rows : List CheckpointRow) (m n : ℕ)
    → m ≤ n
    → All (λ r. IsCandidate symbol at r → r.snapshot_time ≤ m) rows
    → All (λ r. IsCandidate symbol at r → r.snapshot_time ≤ n) rows
later_bound symbol at [] m n h a = tt
later_bound symbol at (r ∷ rows) m n h (le, a) =
    ((λ c. omega (arith, le c)), later_bound symbol at rows m n h a)

-- The nearest checkpoint is one of the symbol asked for, taken at or before the time, and no
-- other such checkpoint of the table is later; if there is no answer the table has none.
pub nearest-IsNearest :
    (symbol : String) (at : ℕ) (rows : List CheckpointRow)
    → IsNearest symbol at rows (nearest symbol at rows)
unfolding nearest
nearest-IsNearest symbol at [] = tt
nearest-IsNearest symbol at (row ∷ rows) =
    if_cases (IsNearest symbol at (row ∷ rows))
      (str_eq row.symbol symbol && leb row.snapshot_time at)
      (λ e.
        better (nearest symbol at rows) (ground (arith, e, eq_iff row.symbol symbol))
          (nearest-IsNearest symbol at rows))
      (λ e.
        other (nearest symbol at rows) (λ c. ground (arith, e, c.0, c.1, eq_iff row.symbol symbol))
          (nearest-IsNearest symbol at rows))
  where
    better :
        (o : Option CheckpointRow)
        → IsCandidate symbol at row
        → IsNearest symbol at rows o
        → IsNearest symbol at (row ∷ rows) (elim o [
          | some best ↦ some (if ltb row.snapshot_time best.snapshot_time then best else row)
          | none ↦ some row
        ])
    better none c a = (c, ((λ _. omega arith), no_later symbol at rows row.snapshot_time a))
    better (some best) c (d, a) =
        if_cases (λ r. IsNearest symbol at (row ∷ rows) (some r))
          (ltb row.snapshot_time best.snapshot_time) (λ e. (d, ((λ _. ground (arith, e)), a)))
          (λ e. (c, ((λ _. omega arith), later_bound symbol at rows _ _ (ground (arith, e)) a)))

    other :
        (o : Option CheckpointRow)
        → ¬ (IsCandidate symbol at row)
        → IsNearest symbol at rows o
        → IsNearest symbol at (row ∷ rows) o
    other none non a = (non, a)
    other (some best) non (d, a) = (d, ((λ c. absurd (non c)), a))
