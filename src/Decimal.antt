-- ===== src/Decimal.antt =====
-- The decimal library that the engine calls (github.com/shopspring/decimal), as an interface:
-- the operations that the source uses, and the documented laws that proofs rely on. Sums,
-- products and comparisons of decimals are exact; a quotient is rounded, and only facts that
-- survive rounding are assumed of it.

pub mod Laws
pub mod Integers
use text.Mathlib.Text.{◌==◌ as str_eq}
use erebor.Prelude.{◌≡◌, ◌↔◌, Bool, true, false, Option, some, String, if◌then◌else◌}
use erebor.Prelude.Int.{ℤ, pos, ltb_ℤ}

pub record Decimal : Type 1 where
  pub Amount : Type 0
  pub of_int : ℤ → Amount
  pub add : Amount → Amount → Amount
  pub sub : Amount → Amount → Amount
  pub mul : Amount → Amount → Amount
  pub div : Amount → Amount → Amount
  pub neg : Amount → Amount
  pub abs : Amount → Amount
  pub is_zero : Amount → Bool
  pub is_positive : Amount → Bool
  pub is_negative : Amount → Bool
  pub less_than : Amount → Amount → Bool
  pub greater_than : Amount → Amount → Bool
  pub to_string : Amount → String
  pub of_string : String → Option Amount

-- `a ≤ b`, by the test that decides it.
abbrev pub Le : (𝒟 : Decimal) → 𝒟.Amount → 𝒟.Amount → Type 0
Le 𝒟 a b = 𝒟.less_than b a ≡ false

-- decimal.Zero.
abbrev pub zero_amount : (𝒟 : Decimal) → 𝒟.Amount
zero_amount 𝒟 = 𝒟.of_int (pos 0)

module _ (𝒟 : Decimal) where
  open 𝒟 use {
    Amount, of_int, add, sub, mul, div, neg, abs, is_zero, is_positive, is_negative, less_than,
    greater_than, to_string, of_string,
  }

  -- Values are compared as numbers (`1.0` and `1.00` are one amount), and printing is canonical.
  pub record IsExact : Type 0 where
    pub add_comm : (a b : Amount) → add a b ≡ add b a
    pub add_assoc : (a b c : Amount) → add (add a b) c ≡ add a (add b c)
    pub add-zero : (a : Amount) → add a (of_int (pos 0)) ≡ a
    pub add-neg : (a : Amount) → add a (neg a) ≡ of_int (pos 0)
    pub sub_lem : (a b : Amount) → sub a b ≡ add a (neg b)
    pub mul_comm : (a b : Amount) → mul a b ≡ mul b a
    pub mul-add : (a b c : Amount) → mul a (add b c) ≡ add (mul a b) (mul a c)
    pub lt_irrefl : (a : Amount) → less_than a a ≡ false
    pub lt_trans :
        (a b c : Amount) → less_than a b ≡ true → less_than b c ≡ true → less_than a c ≡ true
    pub lt_total : (a b : Amount) → less_than a b ≡ false → less_than b a ≡ false → a ≡ b
    pub lt-add : (a b c : Amount) → less_than a b ≡ true → less_than (add a c) (add b c) ≡ true
    pub lt-mul :
        (a b : Amount)
        → less_than (of_int (pos 0)) a ≡ true
        → less_than (of_int (pos 0)) b ≡ true
        → less_than (of_int (pos 0)) (mul a b) ≡ true
    pub greater_lem : (a b : Amount) → greater_than a b ≡ less_than b a
    pub positive_lem : (a : Amount) → is_positive a ≡ less_than (of_int (pos 0)) a
    pub negative_lem : (a : Amount) → is_negative a ≡ less_than a (of_int (pos 0))
    pub zero_iff : (a : Amount) → (is_zero a ≡ true) ↔ (a ≡ of_int (pos 0))
    pub abs_lem : (a : Amount) → abs a ≡ (if is_negative a then neg a else a)
    pub of_int-lt : (a b : ℤ) → less_than (of_int a) (of_int b) ≡ ltb_ℤ a b
    pub to_string_nonempty : (a : Amount) → str_eq (to_string a) "" ≡ false
    pub of_string-to_string : (a : Amount) → of_string (to_string a) ≡ some a
    pub div_self : (a : Amount) → is_zero a ≡ false → div a a ≡ of_int (pos 1)
    pub zero-div : (a : Amount) → div (of_int (pos 0)) a ≡ of_int (pos 0)
    pub div-neg : (a b : Amount) → div (neg a) b ≡ neg (div a b)
    pub div_mono :
        (a b c : Amount)
        → less_than (of_int (pos 0)) c ≡ true
        → less_than b a ≡ false
        → less_than (div b c) (div a c) ≡ false
