-- ===== src/Algebra/Laws.antt =====
-- Equations that hold in every ring.
use stocas.Common.{◌≡◌, sym, ap, ap₂, ◌∙◌}
use stocas.Algebra.{Ring}

module _ {A : Type 0} (ring : Ring A) where
  open ring use {
    zero, one, add, mul, sub, neg, add_comm, add_assoc, zero-add, neg-add, sub_def, mul_comm,
    mul_assoc, one-mul, mul-add,
  }

  pub add-zero : (a : A) → add a zero ≡ a
  add-zero a = add_comm a zero ∙ zero-add a

  pub add_left_comm : (a b c : A) → add a (add b c) ≡ add b (add a c)
  add_left_comm a b c = sym (add_assoc a b c) ∙ ap (λ t. add t c) (add_comm a b) ∙ add_assoc b a c

  pub mul_left_comm : (a b c : A) → mul a (mul b c) ≡ mul b (mul a c)
  mul_left_comm a b c = sym (mul_assoc a b c) ∙ ap (λ t. mul t c) (mul_comm a b) ∙ mul_assoc b a c

  pub add-add_comm : (a b c d : A) → add (add a b) (add c d) ≡ add (add a c) (add b d)
  add-add_comm a b c d = simp (add_assoc, add_comm, add_left_comm)

  pub mul-mul_comm : (a b c d : A) → mul (mul a b) (mul c d) ≡ mul (mul a c) (mul b d)
  mul-mul_comm a b c d = simp (mul_assoc, mul_comm, mul_left_comm)

  pub add-mul : (a b c : A) → mul (add a b) c ≡ add (mul a c) (mul b c)
  add-mul a b c = mul_comm (add a b) c ∙ mul-add c a b ∙ ap₂ add (mul_comm c a) (mul_comm c b)

  pub add_cancel : (a b c : A) → add a b ≡ add a c → b ≡ c
  add_cancel a b c h = sym (from_sum b) ∙ ap (add (neg a)) h ∙ from_sum c
    where
      from_sum : (x : A) → add (neg a) (add a x) ≡ x
      from_sum x = sym (add_assoc (neg a) a x) ∙ ap (λ t. add t x) (neg-add a) ∙ zero-add x

  pub zero-mul : (a : A) → mul zero a ≡ zero
  zero-mul a =
      add_cancel (mul zero a) (mul zero a) zero (
        sym (add-mul zero zero a) ∙ ap (λ t. mul t a) (zero-add zero) ∙ sym (add-zero (mul zero a)))

  pub mul-zero : (a : A) → mul a zero ≡ zero
  mul-zero a = mul_comm a zero ∙ zero-mul a

  pub mul-one : (a : A) → mul a one ≡ a
  mul-one a = mul_comm a one ∙ one-mul a

  pub neg_unique : (a b : A) → add a b ≡ zero → b ≡ neg a
  neg_unique a b h = add_cancel a b (neg a) (h ∙ sym (add_comm a (neg a) ∙ neg-add a))

  pub neg-mul : (a b : A) → mul (neg a) b ≡ neg (mul a b)
  neg-mul a b =
      neg_unique (mul a b) (mul (neg a) b) (
        sym (add-mul a (neg a) b) ∙ ap (λ t. mul t b) (add_comm a (neg a) ∙ neg-add a) ∙ zero-mul b)

  pub neg_add : (a b : A) → neg (add a b) ≡ add (neg a) (neg b)
  neg_add a b = sym (
      neg_unique (add a b) (add (neg a) (neg b)) (
        add-add_comm a b (neg a) (neg b)
        ∙ ap₂ add (add_comm a (neg a) ∙ neg-add a) (add_comm b (neg b) ∙ neg-add b)
        ∙ zero-add zero))

  pub neg_zero : neg zero ≡ zero
  neg_zero = sym (neg_unique zero zero (zero-add zero))

  pub sub-mul : (a b c : A) → mul (sub a b) c ≡ sub (mul a c) (mul b c)
  sub-mul a b c =
      ap (λ t. mul t c) (sub_def a b)
      ∙ add-mul a (neg b) c
      ∙ ap (add (mul a c)) (neg-mul b c)
      ∙ sym (sub_def (mul a c) (mul b c))

  pub sub-add-add : (a b c d : A) → sub (add a b) (add c d) ≡ add (sub a c) (sub b d)
  sub-add-add a b c d =
      sub_def (add a b) (add c d)
      ∙ ap (add (add a b)) (neg_add c d)
      ∙ add-add_comm a b (neg c) (neg d)
      ∙ sym (ap₂ add (sub_def a c) (sub_def b d))

  pub sub-zero : (a : A) → sub a zero ≡ a
  sub-zero a = sub_def a zero ∙ ap (add a) neg_zero ∙ add-zero a

  pub add-sub_cancel : (a b : A) → sub (add a b) a ≡ b
  add-sub_cancel a b =
      sub_def (add a b) a
      ∙ ap (λ t. add t (neg a)) (add_comm a b)
      ∙ add_assoc b a (neg a)
      ∙ ap (add b) (add_comm a (neg a) ∙ neg-add a)
      ∙ add-zero b
