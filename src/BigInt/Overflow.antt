-- ===== src/BigInt/Overflow.antt =====
-- The overflow tests of numerica_core/big_int.cc against the range of int64_t.
use native.Mathlib.Nat.{le-div_iff_mul-le}
use stocas.Common.{
  ◌*◌, ◌-◌, ◌/◌, ◌^◌, ◌<◌, ◌≤◌, ◌≡◌, refl, ◌↔◌, ◌⊎◌, Bool, true, false, not, arith, Bool-cases, inl,
  inr, ltb, ◌||◌,
}
use stocas.Common.Int.{ℤ, pos, negsuc, ◌+ℤ◌, ◌-ℤ◌, ◌*ℤ◌, nat_abs, pos_part, neg_part, ltb_ℤ, ◌==ℤ◌}
use stocas.BigInt.{add_overflows, sub_overflows, mul_overflows, mul_overflows_portable}
use stocas.BigInt.Range.{InRange, int64_min, int64_max}

-- For two int64_t values add_overflows fails exactly when the sum is an int64_t.
pub add_overflows_iff :
    (a b : ℤ) → InRange a → InRange b → (add_overflows a b ≡ false) ↔ InRange (a +ℤ b)
unfolding add_overflows ◌+ℤ◌ ◌-ℤ◌
add_overflows_iff a b ha hb = (λ h. ground arith, λ h. ground arith)

-- For two int64_t values sub_overflows fails exactly when the difference is an int64_t.
pub sub_overflows_iff :
    (a b : ℤ) → InRange a → InRange b → (sub_overflows a b ≡ false) ↔ InRange (a -ℤ b)
unfolding sub_overflows ◌+ℤ◌ ◌-ℤ◌
sub_overflows_iff a b ha hb = (λ h. ground arith, λ h. ground arith)

outside_tests : (z : ℤ) → ((ltb_ℤ z int64_min || ltb_ℤ int64_max z) ≡ false) ↔ InRange z
outside_tests z = (λ h. ground arith, λ h. ground arith)

-- The parts of a product, at factors of either sign.
product_abs :
    (a b : ℤ)
    → (pos_part (a *ℤ b) ≤ nat_abs a * nat_abs b) × (neg_part (a *ℤ b) ≤ nat_abs a * nat_abs b)
unfolding ◌*ℤ◌
product_abs (pos m) (pos n) = ground arith
product_abs (pos m) (negsuc n) = ground arith
product_abs (negsuc m) (pos n) = ground arith
product_abs (negsuc m) (negsuc n) = ground arith

zero_abs : (a b : ℤ) → ((a ==ℤ pos 0) || (b ==ℤ pos 0)) ≡ true → nat_abs a * nat_abs b ≡ 0
zero_abs a b h = ground arith

small_product : (a b : ℤ) → nat_abs a * nat_abs b < 2 ^ 63 → InRange (a *ℤ b)
small_product a b h = let (p, q) = product_abs a b in (omega arith, omega arith)

-- The 128-bit mul_overflows fails exactly when the product is an int64_t.
pub mul_overflows_iff : (a b : ℤ) → (mul_overflows a b ≡ false) ↔ InRange (a *ℤ b)
unfolding mul_overflows
mul_overflows_iff a b = elim (Bool-cases ((a ==ℤ pos 0) || (b ==ℤ pos 0))) [
  | inl zero_factor ↦
      rw zero_factor
        (λ _. small_product a b (let e = zero_abs a b zero_factor in omega arith), λ _. refl)
  | inr others ↦ rw others (outside_tests (a *ℤ b))
]

min_times_one : (a b : ℤ) → InRange a → (b ==ℤ pos 1) ≡ true → InRange (a *ℤ b)
unfolding ◌*ℤ◌
min_times_one a b ha h = ground arith

one_times_min : (a b : ℤ) → InRange b → (a ==ℤ pos 1) ≡ true → InRange (a *ℤ b)
unfolding ◌*ℤ◌
one_times_min a b ha h = ground arith

abs_pos : (a b : ℤ) → ((a ==ℤ pos 0) || (b ==ℤ pos 0)) ≡ false → 0 < nat_abs b
abs_pos a b h = ground arith

not-false : (b : Bool) → not b ≡ false → b ≡ true
not-false true h = refl
not-false false h = cc

below :
    (a b : ℤ)
    → 0 < nat_abs b
    → ltb ((2 ^ 63 - 1) / nat_abs b) (nat_abs a) ≡ false
    → nat_abs a * nat_abs b < 2 ^ 63
below a b nonzero h =
    let le : nat_abs a ≤ (2 ^ 63 - 1) / nat_abs b = ground arith in
    let m = (le-div_iff_mul-le nonzero).0 le in omega arith

-- For two int64_t values, where the portable mul_overflows fails the product is an int64_t.
pub mul_overflows_portable_sound :
    (a b : ℤ) → InRange a → InRange b → mul_overflows_portable a b ≡ false → InRange (a *ℤ b)
unfolding mul_overflows_portable
mul_overflows_portable_sound a b ha hb h = elim (Bool-cases ((a ==ℤ pos 0) || (b ==ℤ pos 0))) [
  | inl zero_factor ↦ small_product a b (let e = zero_abs a b zero_factor in omega arith)
  | inr others ↦ elim (Bool-cases (a ==ℤ int64_min)) [
    | inl least ↦ min_times_one a b ha (not-false _ (rw (others, least) at h))
    | inr a_above ↦ elim (Bool-cases (b ==ℤ int64_min)) [
      | inl least ↦ one_times_min a b hb (not-false _ (rw (others, a_above, least) at h))
      | inr b_above ↦
          small_product a b (below a b (abs_pos a b others) (rw (others, a_above, b_above) at h))
    ]
  ]
]

-- For two int64_t values, add_overflows, sub_overflows and the 128-bit mul_overflows fail
-- exactly when the sum, the difference and the product are int64_t values; where the portable
-- mul_overflows does not report an overflow, the product is an int64_t value.
pub overflow_tests_sound :
    (a b : ℤ)
    → InRange a
    → InRange b
    → ((add_overflows a b ≡ false) ↔ InRange (a +ℤ b))
      × ((sub_overflows a b ≡ false) ↔ InRange (a -ℤ b))
      × ((mul_overflows a b ≡ false) ↔ InRange (a *ℤ b))
      × ((mul_overflows_portable a b ≡ true) ⊎ InRange (a *ℤ b))
overflow_tests_sound a b ha hb = (
  add_overflows_iff a b ha hb,
  sub_overflows_iff a b ha hb,
  mul_overflows_iff a b,
  elim (Bool-cases (mul_overflows_portable a b)) [
    | inl over ↦ inl over
    | inr fine ↦ inr (mul_overflows_portable_sound a b ha hb fine)
  ],
)
