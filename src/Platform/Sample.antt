-- ===== src/Platform/Sample.antt =====
-- A platform to compute with: numbers are written in marks, and the strings of a list of pairs
-- are spelled out with a mark before each character and a stop after the last.
use Prim.Native.Char.{Char}
use text.Mathlib.Text.{◌==◌ as str_eq}
use erebor.Prelude.{
  ℕ, zero, suc, ◌≡◌, refl, ap, ◌∙◌, true, false, String, List, [], ◌∷◌, Option, none, some,
  if◌then◌else◌,
}
use erebor.Prelude.Text.{tally, cons_nonempty}
use erebor.Prelude.Int.{ℤ, pos, negsuc}
use erebor.Platform.{Platform, IsFaithful}

abbrev millis : ℤ → ℕ
millis (pos n) = n
millis (negsuc n) = 0

abbrev marks : ℕ → String
marks zero = String.[]
marks (suc n) = String.◌∷◌ "1" (marks n)

abbrev format_time : ℕ → String
format_time t = String.◌∷◌ "T" (marks t)

abbrev parse_time : String → Option ℕ
parse_time String.[] = none
parse_time (String.◌∷◌ c s) = some (tally s)

abbrev format_int : ℤ → String
format_int (pos n) = String.◌∷◌ "+" (marks n)
format_int (negsuc n) = String.◌∷◌ "-" (marks n)

abbrev parse_int : String → ℤ
parse_int String.[] = pos 0
parse_int (String.◌∷◌ c s) = elim (str_eq (String.◌∷◌ c "") "-") [
  | true ↦ negsuc (tally s)
  | false ↦ pos (tally s)
]

abbrev spell : String → String → String
spell String.[] rest = String.◌∷◌ "." rest
spell (String.◌∷◌ c s) rest = String.◌∷◌ "x" (String.◌∷◌ c (spell s rest))

abbrev spell_pairs : List (String × String) → String
spell_pairs [] = "."
spell_pairs ((a, b) ∷ ps) = spell a (spell b (spell_pairs ps))

-- Reads the rest of a list: `first` is the first string of a pair once it is read, and `begun`
-- puts what was read of a string before its rest.
abbrev read : Option String → (String → String) → String → List (String × String)
read first begun String.[] = []
read first begun (String.◌∷◌ c String.[]) = []
read none begun (String.◌∷◌ c (String.◌∷◌ d s)) = elim (str_eq (String.◌∷◌ c "") ".") [
  | true ↦ read (some (begun "")) (λ r. r) (String.◌∷◌ d s)
  | false ↦ read none (λ r. begun (String.◌∷◌ d r)) s
]
read (some first) begun (String.◌∷◌ c (String.◌∷◌ d s)) = elim (str_eq (String.◌∷◌ c "") ".") [
  | true ↦ (first, begun "") ∷ read none (λ r. r) (String.◌∷◌ d s)
  | false ↦ read (some first) (λ r. begun (String.◌∷◌ d r)) s
]

abbrev Nonempty : String → Type 0
Nonempty t = (c : Char) × (rest : String) × (t ≡ String.◌∷◌ c rest)

spell-Nonempty : (s t : String) → Nonempty (spell s t)
spell-Nonempty String.[] t = (".", t, refl)
spell-Nonempty (String.◌∷◌ c s) t = ("x", String.◌∷◌ c (spell s t), refl)

spell_pairs-Nonempty : (ps : List (String × String)) → Nonempty (spell_pairs ps)
spell_pairs-Nonempty [] = (".", "", refl)
spell_pairs-Nonempty ((a, b) ∷ ps) = spell-Nonempty a (spell b (spell_pairs ps))

read-spell_first :
    (s : String) (begun : String → String) (t : String)
    → Nonempty t
    → read none begun (spell s t) ≡ read (some (begun s)) (λ r. r) t
read-spell_first String.[] begun t (c, rest, e) = rw e refl
read-spell_first (String.◌∷◌ d s) begun t n = read-spell_first s (λ r. begun (String.◌∷◌ d r)) t n

read-spell_second :
    (first s : String) (begun : String → String) (t : String)
    → Nonempty t
    → read (some first) begun (spell s t) ≡ (first, begun s) ∷ read none (λ r. r) t
read-spell_second first String.[] begun t (c, rest, e) = rw e refl
read-spell_second first (String.◌∷◌ d s) begun t n =
    read-spell_second first s (λ r. begun (String.◌∷◌ d r)) t n

read-spell_pairs : (ps : List (String × String)) → read none (λ r. r) (spell_pairs ps) ≡ ps
read-spell_pairs [] = refl
read-spell_pairs ((a, b) ∷ ps) =
    read-spell_first a (λ r. r) (spell b (spell_pairs ps)) (spell-Nonempty b (spell_pairs ps))
    ∙ read-spell_second a b (λ r. r) (spell_pairs ps) (spell_pairs-Nonempty ps)
    ∙ ap (λ (rest : List (String × String)). (a, b) ∷ rest) (read-spell_pairs ps)

abbrev pub platform : Platform
platform = record {
  to_upper = λ s. if str_eq s "btcusdt" then "BTCUSDT" else s;
  unix_milli = millis;
  parse_time = parse_time;
  parse_time_z = parse_time;
  format_time = format_time;
  unmarshal_pairs = λ s. some (read none (λ r. r) s);
  marshal_pairs = spell_pairs;
  format_int = format_int;
  parse_int = parse_int;
}

tally-marks : (n : ℕ) → tally (marks n) ≡ n
tally-marks zero = refl
tally-marks (suc n) = ap suc (tally-marks n)

format_time_nonempty : (t : ℕ) → str_eq (format_time t) "" ≡ false
format_time_nonempty t = cons_nonempty "T" (marks t)

marshal_nonempty : (ps : List (String × String)) → str_eq (spell_pairs ps) "" ≡ false
marshal_nonempty ps = let (c, rest, e) = spell_pairs-Nonempty ps in rw e (cons_nonempty c rest)

parse-format_int : (n : ℤ) → parse_int (format_int n) ≡ n
parse-format_int (pos n) = ap pos (tally-marks n)
parse-format_int (negsuc n) = ap negsuc (tally-marks n)

format_int_nonempty : (n : ℤ) → str_eq (format_int n) "" ≡ false
format_int_nonempty (pos n) = cons_nonempty "+" (marks n)
format_int_nonempty (negsuc n) = cons_nonempty "-" (marks n)

pub platform-IsFaithful : IsFaithful platform
platform-IsFaithful = record {
  parse_time-format_time = λ t. ap some (tally-marks t);
  parse_time_z-format_time = λ t. ap some (tally-marks t);
  format_time_nonempty = format_time_nonempty;
  unmarshal-marshal = λ ps. ap some (read-spell_pairs ps);
  marshal_nonempty = marshal_nonempty;
  parse-format_int = λ n i. parse-format_int n;
  format_int_nonempty = format_int_nonempty;
}
