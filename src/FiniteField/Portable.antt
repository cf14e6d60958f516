-- ===== src/FiniteField/Portable.antt =====
-- The portable `mul_mod_u64` of numerica_core/include/numerica_core/finite_field.hh against the
-- 128-bit one.
use native.Mathlib.Nat.{mod-eq_of_lt, mod-lt, pow-zero, pow-suc, le_trans}
use stocas.FiniteField.Ring.{product-lt}
use stocas.Common.{
  ℕ, zero, suc, ◌+◌, ◌-◌, ◌*◌, ◌/◌, ◌%◌, ◌^◌, ◌<◌, ◌≡◌, ap, ◌∙◌, sym, Bool-cases, inl, inr, arith,
  some, ltb, ◌==◌, if◌then◌else◌,
}
use stocas.Common.Mod.{mod_once, mod-mul, mod-add-mod-mul}
use stocas.FiniteField.{add_mod, mul_mod_loop, mul_mod_portable, mul_mod_wide}

add_mod_value : (m x y : ℕ) → m < 2 ^ 64 → x < m → y < m → add_mod m x y ≡ (x + y) % m
unfolding add_mod
add_mod_value m x y hm hx hy =
    ground
      (arith, mod_once (x + y) m (omega arith), mod_once (m + 2 ^ 64 - y) (2 ^ 64) (omega arith))

-- What a round adds for the lowest digit of `b`.
round_value :
    (m result a b : ℕ)
    → m < 2 ^ 64
    → result < m
    → a < m
    → (if b % 2 == 1 then add_mod m result a else result) ≡ (result + b % 2 * a) % m
round_value m result a b hm hr ha = elim (Bool-cases (b % 2 == 1)) [
  | inl odd ↦
      let e : b % 2 ≡ 1 = ground arith in
      rw (odd, e) (add_mod_value m result a hm hr ha ∙ ap (λ t. (result + t) % m) (omega arith))
  | inr even ↦
      let e : b % 2 ≡ 0 = ground arith in
      let same : result + 0 * a ≡ result = omega arith in rw (even, e, same) (sym (mod-eq_of_lt hr))
]

round_sum : (result a b : ℕ) → (result + b % 2 * a) + (a + a) * (b / 2) ≡ result + a * b
round_sum result a b =
    let split : b % 2 + 2 * (b / 2) ≡ b = omega arith in omega (arith, ap (λ (t : ℕ). t * a) split)

mul_mod_loop_value :
    (k m result a b : ℕ)
    → m < 2 ^ 64
    → result < m
    → a < m
    → b < 2 ^ k
    → mul_mod_loop (suc k) m result a b ≡ some ((result + a * b) % m)
unfolding mul_mod_loop
mul_mod_loop_value zero m result a b hm hr ha hb =
    let none_left : b ≡ 0 = omega (arith, pow-zero 2) in
    rw none_left (ap some (sym (ap (λ t. t % m) (unchanged result a) ∙ mod-eq_of_lt hr)))
  where
    unchanged : (r c : ℕ) → r + c * 0 ≡ r
    unchanged r c = omega arith
mul_mod_loop_value (suc k) m result a b hm hr ha hb = elim (Bool-cases (ltb 0 b)) [
  | inl more ↦
      rw (more, round_value m result a b hm hr ha, add_mod_value m a a hm ha ha)
        (mul_mod_loop_value k m _ _ (b / 2) hm (mod-lt _ (omega arith)) (mod-lt _ (omega arith))
            (let p = pow-suc 2 k in omega arith)
          ∙ ap some (
              mod-add-mod-mul (result + b % 2 * a) (a + a) (b / 2) m
              ∙ ap (λ t. t % m) (round_sum result a b)))
  | inr over ↦
      let none_left : b ≡ 0 = ground arith in
      let unchanged : result + a * b ≡ result = rw none_left (omega arith) in
      rw (over, unchanged) (ap some (sym (mod-eq_of_lt hr)))
]

-- For every 64-bit modulus and multiplier the portable loop ends within its rounds, and agrees
-- with the product modulo the modulus.
pub mul_mod_portable_value :
    (a b m : ℕ) → 0 < m → m < 2 ^ 64 → b < 2 ^ 64 → mul_mod_portable a b m ≡ some (a * b % m)
unfolding mul_mod_portable
mul_mod_portable_value a b m hp hm hb =
    mul_mod_loop_value 64 m 0 (a % m) b hm hp (mod-lt a hp) hb
    ∙ ap some (ap (λ t. t % m) (omega arith) ∙ mod-mul a b m)

-- For a positive 64-bit modulus and 64-bit operands the portable loop of mul_mod_u64 ends within
-- its rounds, with the result of the 128-bit body.
pub mul_mod_portable-eq-wide :
    (a b m : ℕ)
    → 0 < m
    → m < 2 ^ 64
    → a < 2 ^ 64
    → b < 2 ^ 64
    → mul_mod_portable a b m ≡ some (mul_mod_wide a b m)
unfolding mul_mod_wide
mul_mod_portable-eq-wide a b m hp hm ha hb =
    mul_mod_portable_value a b m hp hm hb
    ∙ ap some (
        sym (
          mod-eq_of_lt (le_trans (mod-lt (a * b % 2 ^ 128) hp) (omega arith))
          ∙ ap (λ t. t % m) (mod-eq_of_lt (product-lt a b (2 ^ 64) ha hb))))
