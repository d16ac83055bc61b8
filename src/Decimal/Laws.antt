-- ===== src/Decimal/Laws.antt =====
-- Consequences of the laws of exact decimals that the components share.
use erebor.Prelude.{◌≡◌, sym, ap, ◌∙◌, true, false, arith, Bool-cases}
use erebor.Prelude.Int.{pos}
use erebor.Decimal.{Decimal, IsExact, Le}

module _ (𝒟 : Decimal) (ℒ : IsExact 𝒟) where
  open 𝒟 use {
    Amount, of_int, add, sub, mul, div, neg, abs, is_negative, is_positive, is_zero, less_than,
  }

  abbrev nil : Amount
  nil = of_int (pos 0)

  pub zero-add : (a : Amount) → add nil a ≡ a
  zero-add a = ℒ.add_comm nil a ∙ ℒ.add-zero a

  pub neg-add : (a : Amount) → add (neg a) a ≡ nil
  neg-add a = ℒ.add_comm (neg a) a ∙ ℒ.add-neg a

  pub add-sub_cancel : (a b : Amount) → sub (add a b) b ≡ a
  add-sub_cancel a b =
      ℒ.sub_lem (add a b) b ∙ ℒ.add_assoc a b (neg b) ∙ ap (add a) (ℒ.add-neg b) ∙ ℒ.add-zero a

  pub sub-add_cancel : (a b : Amount) → add (sub a b) b ≡ a
  sub-add_cancel a b =
      ap (λ t. add t b) (ℒ.sub_lem a b)
      ∙ ℒ.add_assoc a (neg b) b
      ∙ ap (add a) (neg-add b)
      ∙ ℒ.add-zero a

  pub add_cancel_right : (a b c : Amount) → add a c ≡ add b c → a ≡ b
  add_cancel_right a b c e = sym (add-sub_cancel a c) ∙ ap (λ t. sub t c) e ∙ add-sub_cancel b c

  pub sub_self : (a : Amount) → sub a a ≡ nil
  sub_self a = ℒ.sub_lem a a ∙ ℒ.add-neg a

  pub neg_unique : (a b : Amount) → add a b ≡ nil → a ≡ neg b
  neg_unique a b e = add_cancel_right a (neg b) b (e ∙ sym (neg-add b))

  pub neg-neg : (a : Amount) → neg (neg a) ≡ a
  neg-neg a = sym (neg_unique a (neg a) (ℒ.add-neg a))

  pub neg-zero : neg nil ≡ nil
  neg-zero = sym (neg_unique nil nil (ℒ.add-zero nil))

  pub add_right_comm : (a b c : Amount) → add (add a b) c ≡ add (add a c) b
  add_right_comm a b c = ℒ.add_assoc a b c ∙ ap (add a) (ℒ.add_comm b c) ∙ sym (ℒ.add_assoc a c b)

  pub sub_right_comm : (a b c : Amount) → sub (sub a b) c ≡ sub (sub a c) b
  sub_right_comm a b c =
      ℒ.sub_lem (sub a b) c
      ∙ ap (λ t. add t (neg c)) (ℒ.sub_lem a b)
      ∙ add_right_comm a (neg b) (neg c)
      ∙ ap (λ t. add t (neg b)) (sym (ℒ.sub_lem a c))
      ∙ sym (ℒ.sub_lem (sub a c) b)

  pub add-sub_comm : (a b c : Amount) → sub (add a b) c ≡ add (sub a c) b
  add-sub_comm a b c =
      ℒ.sub_lem (add a b) c ∙ add_right_comm a b (neg c) ∙ ap (λ t. add t b) (sym (ℒ.sub_lem a c))

  pub mul-zero : (a : Amount) → mul a nil ≡ nil
  mul-zero a =
      add_cancel_right (mul a nil) nil (mul a nil)
        (sym (ℒ.mul-add a nil nil) ∙ ap (mul a) (ℒ.add-zero nil) ∙ sym (zero-add (mul a nil)))

  pub mul-neg : (a b : Amount) → mul a (neg b) ≡ neg (mul a b)
  mul-neg a b =
      neg_unique (mul a (neg b)) (mul a b)
        (sym (ℒ.mul-add a (neg b) b) ∙ ap (mul a) (neg-add b) ∙ mul-zero a)

  pub mul-sub : (a b c : Amount) → mul a (sub b c) ≡ sub (mul a b) (mul a c)
  mul-sub a b c =
      ap (mul a) (ℒ.sub_lem b c)
      ∙ ℒ.mul-add a b (neg c)
      ∙ ap (add (mul a b)) (mul-neg a c)
      ∙ sym (ℒ.sub_lem (mul a b) (mul a c))

  pub lt_asymm : (a b : Amount) → less_than a b ≡ true → less_than b a ≡ false
  lt_asymm a b h = ground (arith, ℒ.lt_trans a b a, ℒ.lt_irrefl a)

  pub Le_trans : (a b c : Amount) → Le 𝒟 a b → Le 𝒟 b c → Le 𝒟 a c
  Le_trans a b c h k = ground (arith, ℒ.lt_trans c a b, ℒ.lt_total a b, Bool-cases (less_than a b))

  pub Le-add : (a b c : Amount) → Le 𝒟 a b → Le 𝒟 (add a c) (add b c)
  Le-add a b c h =
      ground
        (arith, ℒ.lt_total a b, ℒ.lt-add a b c, lt_asymm (add a c) (add b c), ℒ.lt_irrefl (add a c))

  pub Le-mul : (a b : Amount) → Le 𝒟 nil a → Le 𝒟 nil b → Le 𝒟 nil (mul a b)
  Le-mul a b h k = ground (
    arith,
    ℒ.lt_total nil a,
    ℒ.lt_total nil b,
    ℒ.lt-mul a b,
    lt_asymm nil (mul a b),
    mul-zero a,
    mul-zero b,
    ℒ.mul_comm a b,
    ℒ.lt_irrefl nil,
  )

  pub le-add_nonneg : (a b : Amount) → Le 𝒟 nil b → Le 𝒟 a (add a b)
  le-add_nonneg a b h = ground (arith, Le-add nil b a h, zero-add a, ℒ.add_comm a b)

  pub sub-le_nonneg : (a b : Amount) → Le 𝒟 nil b → Le 𝒟 (sub a b) a
  sub-le_nonneg a b h = ground (arith, le-add_nonneg (sub a b) b h, sub-add_cancel a b)

  pub add-sub_assoc : (a b c : Amount) → add a (sub b c) ≡ sub (add a b) c
  add-sub_assoc a b c =
      ap (add a) (ℒ.sub_lem b c) ∙ sym (ℒ.add_assoc a b (neg c)) ∙ sym (ℒ.sub_lem (add a b) c)

  pub sub_swap : (a b : Amount) → sub b a ≡ neg (sub a b)
  sub_swap a b =
      neg_unique (sub b a) (sub a b)
        (add-sub_assoc (sub b a) a b ∙ ap (λ t. sub t b) (sub-add_cancel b a) ∙ sub_self b)

  pub Le_neg : (a b : Amount) → Le 𝒟 a b → Le 𝒟 (neg b) (neg a)
  Le_neg a b h =
      let left : add a (add (neg a) (neg b)) ≡ neg b =
        sym (ℒ.add_assoc a (neg a) (neg b))
        ∙ ap (λ t. add t (neg b)) (ℒ.add-neg a)
        ∙ zero-add (neg b) in
      let right : add b (add (neg a) (neg b)) ≡ neg a =
        ap (add b) (ℒ.add_comm (neg a) (neg b))
        ∙ sym (ℒ.add_assoc b (neg b) (neg a))
        ∙ ap (λ t. add t (neg a)) (ℒ.add-neg b)
        ∙ zero-add (neg a) in
      ground (arith, Le-add a b (add (neg a) (neg b)) h, left, right)
