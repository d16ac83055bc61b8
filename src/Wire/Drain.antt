-- ===== src/Wire/Drain.antt =====
-- A reader that is cancelled and then drains its stream: `drainL2` of engine/backtest/execution/executor.go and
-- `drainOrders` of engine/backtest/collector/collector.go, which read a stream to its end by
-- XRANGE in batches and differ in what they do with a message.
use text.Mathlib.Text.{◌==◌ as str_eq}
use erebor.Prelude.{
  ℕ, zero, suc, ◌<◌, ◌≡◌, refl, sym, ap, ◌∙◌, false, Option, none, some, String, List, [], ◌∷◌,
  ◌++◌, if◌then◌else◌, append_assoc, length, take, drop, take-append-drop, length-drop, All, arith,
}

-- What an XREAD gives: messages, an error or a timeout after which the loop goes on, or one after
-- the context was cancelled.
pub data Read (E : Type 0) : Type 0 where
  arrived : List E → Read E
  idle stopped : Read E

-- The messages that the reads bring before the context is cancelled.
abbrev pub delivered : {E : Type 0} → List (Read E) → List E
delivered [] = []
delivered (stopped ∷ reads) = []
delivered (idle ∷ reads) = delivered reads
delivered (arrived msgs ∷ reads) = msgs ++ delivered reads

-- The id of the last entry, or an earlier one if there is none.
abbrev pub last_id {ℓ} : {E : Type ℓ} → (E → String) → String → List E → String
last_id id before [] = before
last_id id before (e ∷ es) = last_id id (id e) es

-- The start of the first range: all of the stream, or what follows an id.
abbrev pub range_start : String → String
range_start id = if str_eq id "0-0" then "-" else String.◌∷◌ "(" id

abbrev pub handle_all {ℓ κ} : {E : Type ℓ} {St : Type κ} → (St → E → St) → St → List E → St
handle_all handle st [] = st
handle_all handle st (e ∷ es) = handle_all handle (handle st e) es

module _ {E St : Type 0} (id : E → String) (range : String → ℕ → Option (List E))
    (handle : St → E → St) (count : ℕ) where
  -- The rest of a round, by what XRANGE returned; an error ends the loop.
  abbrev pub after_range : (St → String → Option St) → St → Option (List E) → Option St
  after_range again st none = some st
  after_range again st (some []) = some st
  after_range again st (some (e ∷ es)) =
      again (handle_all handle st (e ∷ es)) (String.◌∷◌ "(" (last_id id (id e) es))

  -- `none` means that the fuel ran out.
  unfoldable pub drain : ℕ → St → String → Option St
  drain zero st start = none
  drain (suc fuel) st start = after_range (drain fuel) st (range start count)

-- Where a reader that has seen these entries goes on.
abbrev pub cursor {ℓ} : {E : Type ℓ} → (E → String) → List E → String
cursor id [] = "-"
cursor id (e ∷ es) = String.◌∷◌ "(" (last_id id (id e) es)

-- What Redis documents of XRANGE on a stream that no longer grows: from the start or from behind
-- an entry, it returns the following entries in order, up to the count.
pub record ReadsInOrder {E : Type 0} (id : E → String) (range : String → ℕ → Option (List E))
    (entries : List E) : Type 0 where
  pub range_lem :
      (seen left : List E) (n : ℕ)
      → seen ++ left ≡ entries
      → range (cursor id seen) n ≡ some (take n left)

pub last_id-append {ℓ} :
    {E : Type ℓ} (id : E → String) (before : String) (xs ys : List E)
    → last_id id before (xs ++ ys) ≡ last_id id (last_id id before xs) ys
last_id-append id before [] ys = refl
last_id-append id before (x ∷ xs) ys = last_id-append id (id x) xs ys

cursor-append {ℓ} :
    {E : Type ℓ} (id : E → String) (seen : List E) (e : E) (es : List E)
    → cursor id (seen ++ e ∷ es) ≡ String.◌∷◌ "(" (last_id id (id e) es)
cursor-append id [] e es = refl
cursor-append id (s ∷ seen) e es = ap (String.◌∷◌ "(") (last_id-append id (id s) seen (e ∷ es))

pub handle_all-append {ℓ κ} :
    {E : Type ℓ} {St : Type κ} (handle : St → E → St) (st : St) (xs ys : List E)
    → handle_all handle st (xs ++ ys) ≡ handle_all handle (handle_all handle st xs) ys
handle_all-append handle st [] ys = refl
handle_all-append handle st (x ∷ xs) ys = handle_all-append handle (handle st x) xs ys

module _ {E St : Type 0} (id : E → String) (range : String → ℕ → Option (List E))
    (handle : St → E → St) (k : ℕ) (entries : List E) (reads : ReadsInOrder id range entries) where
  drain-ends :
      (fuel : ℕ) (st : St) (seen left : List E)
      → seen ++ left ≡ entries
      → length left < fuel
      → drain id range handle (suc k) fuel st (cursor id seen) ≡ some (handle_all handle st left)
  unfolding drain
  drain-ends zero st seen left e h = absurd (omega arith)
  drain-ends (suc fuel) st seen [] e h =
      ap (after_range id range handle (suc k) (drain id range handle (suc k) fuel) st)
        (reads.range_lem seen [] (suc k) e)
  drain-ends (suc fuel) st seen (x ∷ left) e h =
      ap (after_range id range handle (suc k) (drain id range handle (suc k) fuel) st)
        (reads.range_lem seen (x ∷ left) (suc k) e)
      ∙ ap (drain id range handle (suc k) fuel (handle_all handle (handle st x) (take k left)))
          (sym (cursor-append id seen x (take k left)))
      ∙ drain-ends fuel (handle_all handle (handle st x) (take k left)) (seen ++ x ∷ take k left)
          (drop k left)
          (append_assoc seen (x ∷ take k left) (drop k left)
            ∙ ap (λ t. seen ++ x ∷ t) (take-append-drop k left)
            ∙ e)
          (omega (arith, length-drop k left))
      ∙ ap some (
          sym (handle_all-append handle (handle st x) (take k left) (drop k left))
          ∙ ap (handle_all handle (handle st x)) (take-append-drop k left))

  -- A reader that stopped after some entries, none with the id 0-0, drains the rest: with more
  -- fuel than entries are left, the loop ends, and each of those was handled once, in order.
  pub drain_lem :
      (fuel : ℕ) (st : St) (seen left : List E)
      → seen ++ left ≡ entries
      → All (λ e. str_eq (id e) "0-0" ≡ false) seen
      → length left < fuel
      → drain id range handle (suc k) fuel st (range_start (last_id id "0-0" seen))
        ≡ some (handle_all handle st left)
  drain_lem fuel st [] left e a h = drain-ends fuel st [] left e h
  drain_lem fuel st (s ∷ seen) left e a h =
      ap (drain id range handle (suc k) fuel st) (started (id s) seen a.0 a.1)
      ∙ drain-ends fuel st (s ∷ seen) left e h
    where
      started :
          (before : String) (es : List E)
          → str_eq before "0-0" ≡ false
          → All (λ e. str_eq (id e) "0-0" ≡ false) es
          → range_start (last_id id before es) ≡ String.◌∷◌ "(" (last_id id before es)
      started before [] n a = rw n refl
      started before (x ∷ es) n (m, a) = started (id x) es m a
