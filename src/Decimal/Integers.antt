-- ===== src/Decimal/Integers.antt =====
-- The integers meet the interface: the concrete decimals of the examples.

use native.Mathlib.Nat
use text.Mathlib.Text.{◌==◌ as str_eq}
use erebor.Prelude.{
  ℕ, zero, suc, ◌+◌, ◌*◌, ◌/◌, ◌%◌, ◌≤◌, ◌≡◌, refl, ap, true, false, Option, none, some, String,
  arith, if◌then◌else◌, ◌==◌,
}
use erebor.Prelude.Text.{cons_nonempty}
use erebor.Prelude.Int.{
  ℤ, pos, negsuc, pos_part, neg_part, ◌+ℤ◌, ◌-ℤ◌, ◌*ℤ◌, ltb_ℤ, eqb_ℤ, int_laws, +ℤ_parts, *ℤ_parts,
  eq_of_parts,
}
use erebor.Decimal.{Decimal, IsExact}

neg : ℤ → ℤ
unfolding ◌-ℤ◌
neg a = pos 0 -ℤ a

abs : ℤ → ℤ
unfolding neg
abs a = if ltb_ℤ a (pos 0) then neg a else a

-- Rounded towards zero, as Go divides integers; a zero divisor gives zero.
div : ℤ → ℤ → ℤ
unfolding neg
div (pos a) (pos b) = pos (a / b)
div (pos a) (negsuc b) = neg (pos (a / suc b))
div (negsuc a) (pos b) = neg (pos (suc a / b))
div (negsuc a) (negsuc b) = pos (suc a / suc b)

marks : ℕ → String
marks zero = String.[]
marks (suc n) = String.◌∷◌ "1" (marks n)

count_marks : String → ℕ
count_marks String.[] = 0
count_marks (String.◌∷◌ c s) = suc (count_marks s)

to_string : ℤ → String
unfolding marks
to_string (pos n) = marks (suc (2 * n))
to_string (negsuc n) = marks (suc (2 * n + 1))

of_marks : ℕ → Option ℤ
of_marks zero = none
of_marks (suc n) = some (if n % 2 == 0 then pos (n / 2) else negsuc (n / 2))

of_string : String → Option ℤ
unfolding count_marks of_marks
of_string s = of_marks (count_marks s)

count_marks-marks : (n : ℕ) → count_marks (marks n) ≡ n
unfolding count_marks marks
count_marks-marks zero = refl
count_marks-marks (suc n) = ap suc (count_marks-marks n)

of_string-to_string : (a : ℤ) → of_string (to_string a) ≡ some a
unfolding of_string to_string
of_string-to_string (pos n) = rw (count_marks-marks (2 * n)) (ground arith)
of_string-to_string (negsuc n) = rw (count_marks-marks (2 * n + 1)) (ground arith)

to_string_nonempty : (a : ℤ) → str_eq (to_string a) "" ≡ false
unfolding to_string
to_string_nonempty (pos n) = cons_nonempty "1" (marks (2 * n))
to_string_nonempty (negsuc n) = cons_nonempty "1" (marks (2 * n + 1))

unfoldable pub integers : Decimal
unfolding neg abs div to_string of_string ◌+ℤ◌ ◌-ℤ◌ ◌*ℤ◌
integers = record {
  Amount = ℤ;
  of_int = λ n. n;
  add = λ a b. a +ℤ b;
  sub = λ a b. a -ℤ b;
  mul = λ a b. a *ℤ b;
  div = div;
  neg = neg;
  abs = abs;
  is_zero = λ a. eqb_ℤ a (pos 0);
  is_positive = λ a. ltb_ℤ (pos 0) a;
  is_negative = λ a. ltb_ℤ a (pos 0);
  less_than = ltb_ℤ;
  greater_than = λ a b. ltb_ℤ b a;
  to_string = to_string;
  of_string = of_string;
}

mul-add : (a b c : ℤ) → a *ℤ (b +ℤ c) ≡ a *ℤ b +ℤ a *ℤ c
mul-add a b c = omega (
  int_laws,
  *ℤ_parts,
  ap (λ (t : ℕ). pos_part a * t) (+ℤ_parts b c),
  ap (λ (t : ℕ). neg_part a * t) (+ℤ_parts b c),
)

mul_comm : (a b : ℤ) → a *ℤ b ≡ b *ℤ a
mul_comm a b = omega (int_laws, *ℤ_parts)

lt-mul : (a b : ℤ) → ltb_ℤ (pos 0) a ≡ true → ltb_ℤ (pos 0) b ≡ true → ltb_ℤ (pos 0) (a *ℤ b) ≡ true
unfolding ◌*ℤ◌
lt-mul (pos (suc a)) (pos (suc b)) h k = ground arith
lt-mul (pos zero) b h k = cc
lt-mul (pos (suc a)) (pos zero) h k = cc
lt-mul (pos (suc a)) (negsuc b) h k = ground arith
lt-mul (negsuc a) b h k = ground arith

div_self_ℕ : (a : ℕ) → suc a / suc a ≡ 1
div_self_ℕ a = Nat.div_self (omega arith)

div_self : (a : ℤ) → eqb_ℤ a (pos 0) ≡ false → div a a ≡ pos 1
unfolding div
div_self (pos zero) h = cc
div_self (pos (suc a)) h = ap pos (div_self_ℕ a)
div_self (negsuc a) h = ap pos (div_self_ℕ a)

zero-div : (a : ℤ) → div (pos 0) a ≡ pos 0
unfolding div neg ◌-ℤ◌
zero-div (pos a) = ap pos (Nat.zero-div a)
zero-div (negsuc a) = ground (arith, Nat.zero-div (suc a))

div-neg : (a b : ℤ) → div (neg a) b ≡ neg (div a b)
unfolding div neg ◌-ℤ◌
div-neg (pos a) (pos b) = ground arith
div-neg (pos a) (negsuc b) = ground arith
div-neg (negsuc a) (pos b) = ground arith
div-neg (negsuc a) (negsuc b) = ground arith

div_mono_ℕ : (a b c : ℕ) → a ≤ b → a / suc c ≤ b / suc c
div_mono_ℕ a b c h = grind arith

div_mono :
    (a b c : ℤ) → ltb_ℤ (pos 0) c ≡ true → ltb_ℤ b a ≡ false → ltb_ℤ (div b c) (div a c) ≡ false
unfolding div neg ◌-ℤ◌
div_mono (pos a) (pos b) (pos (suc c)) h k = ground (arith, div_mono_ℕ a b c)
div_mono (pos a) (negsuc b) (pos (suc c)) h k = ground (arith, div_mono_ℕ a b c)
div_mono (negsuc a) (pos b) (pos (suc c)) h k = ground (arith, div_mono_ℕ a b c)
div_mono (negsuc a) (negsuc b) (pos (suc c)) h k = ground (arith, div_mono_ℕ (suc b) (suc a) c)
div_mono a b (pos zero) h k = cc
div_mono a b (negsuc c) h k = ground arith

pub integers-IsExact : IsExact integers
unfolding integers
integers-IsExact = record {
  add_comm = λ a b. omega int_laws;
  add_assoc = λ a b c. omega int_laws;
  add-zero = λ a. omega int_laws;
  add-neg = λ a. omega int_laws;
  sub_lem = λ a b. omega int_laws;
  mul_comm = mul_comm;
  mul-add = mul-add;
  lt_irrefl = λ a. ground arith;
  lt_trans = λ a b c h k. ground arith;
  lt_total = λ a b h k. ground (arith, eq_of_parts a b);
  lt-add = λ a b c h. ground (arith, +ℤ_parts a c, +ℤ_parts b c);
  lt-mul = lt-mul;
  greater_lem = λ a b. refl;
  positive_lem = λ a. refl;
  negative_lem = λ a. refl;
  zero_iff = λ a. ground arith;
  abs_lem = λ a. refl;
  of_int-lt = λ a b. refl;
  to_string_nonempty = to_string_nonempty;
  of_string-to_string = of_string-to_string;
  div_self = div_self;
  zero-div = zero-div;
  div-neg = div-neg;
  div_mono = div_mono;
}
