-- ===== src/Trading/Consumer/Loop/Distinct.antt =====
-- Messages with distinct ids, as Redis gives them, and the removal of one.
use text.Mathlib.TextEquality.{eq_iff}
use erebor.Prelude.{◌≡◌, refl, ◌≢◌, List, [], ◌∷◌, ◌++◌, All, arith}
use erebor.Wire.{Message}
use erebor.Trading.Consumer.Group.{without}

-- No two messages have the same id.
abbrev Others : Message → List Message → Type 0
Others m msgs = All (λ k. k.id ≢ m.id) msgs

abbrev pub DistinctIds : List Message → Type 0
DistinctIds [] = Unit
DistinctIds (m ∷ msgs) = Others m msgs × DistinctIds msgs

Others-drop :
    (k m : Message) (pre rest : List Message) → Others k (pre ++ m ∷ rest) → Others k (pre ++ rest)
Others-drop k m [] rest (n, o) = o
Others-drop k m (x ∷ pre) rest (n, o) = (n, Others-drop k m pre rest o)

Others-at : (k m : Message) (pre rest : List Message) → Others k (pre ++ m ∷ rest) → m.id ≢ k.id
Others-at k m [] rest (n, o) = n
Others-at k m (x ∷ pre) rest (n, o) = Others-at k m pre rest o

pub DistinctIds-drop :
    (m : Message) (pre rest : List Message)
    → DistinctIds (pre ++ m ∷ rest)
    → DistinctIds (pre ++ rest)
DistinctIds-drop m [] rest (o, d) = d
DistinctIds-drop m (k ∷ pre) rest (o, d) =
    (Others-drop k m pre rest o, DistinctIds-drop m pre rest d)

without-Others : (m : Message) (msgs : List Message) → Others m msgs → without m.id msgs ≡ msgs
without-Others m [] o = refl
without-Others m (k ∷ msgs) (n, o) = ground (arith, n, eq_iff k.id m.id, without-Others m msgs o)

pub without_lem :
    (m : Message) (pre rest : List Message)
    → DistinctIds (pre ++ m ∷ rest)
    → without m.id (pre ++ m ∷ rest) ≡ pre ++ rest
without_lem m [] rest (o, d) = ground (arith, eq_iff m.id m.id, without-Others m rest o)
without_lem m (k ∷ pre) rest (o, d) =
    ground (arith, Others-at k m pre rest o, eq_iff k.id m.id, without_lem m pre rest d)

Others-front : (m : Message) (xs ys : List Message) → Others m (xs ++ ys) → Others m xs
Others-front m [] ys o = tt
Others-front m (x ∷ xs) ys (n, o) = (n, Others-front m xs ys o)

pub DistinctIds-front : (xs ys : List Message) → DistinctIds (xs ++ ys) → DistinctIds xs
DistinctIds-front [] ys d = tt
DistinctIds-front (x ∷ xs) ys (o, d) = (Others-front x xs ys o, DistinctIds-front xs ys d)
