-- ===== src/Prelude/Text.antt =====
-- Texts with a first character.
use Prim.Native.Char.{Char}
use Prim.Native.Nat.{ℕ, suc}
use Prim.Native.String.{String}
use mathlib.Core.Path.{◌≡◌, ap}
use mathlib.Core.Bool.{false}
use mathlib.Core.Logic.{inl, inr}
use native.Mathlib.Omega.{arith}
use text.Mathlib.Text.{◌==◌ as str_eq}
use text.Mathlib.TextEquality.{eq_iff}
use package.erebor.Prelude.Tests.{Bool-cases}

-- The number of characters.
abbrev pub tally : String → ℕ
tally String.[] = 0
tally (String.◌∷◌ c s) = suc (tally s)

pub cons_nonempty : (c : Char) (s : String) → str_eq (String.◌∷◌ c s) "" ≡ false
cons_nonempty c s = elim (Bool-cases (str_eq (String.◌∷◌ c s) "")) [
  | inl e ↦ absurd (omega (arith, ap tally ((eq_iff (String.◌∷◌ c s) "").0 e)))
  | inr e ↦ e
]
