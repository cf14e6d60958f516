-- ===== src/Algebra.antt =====
-- The concepts of algebra_core/include/algebra_core/concepts.hh, as interfaces: a record of the
-- operations that a ring struct has and the laws that the generic algorithms rely on.
pub mod Laws
pub mod Integers
pub mod Euclid
mod Examples
use stocas.Common.{◌≡◌, ◌≢◌, ◌↔◌, ◌<◌, ℕ, Bool, true, ◌+◌}

-- `Semiring` and `Ring`; `eq` is `operator==` of the elements.
pub record Ring (A : Type 0) : Type 0 where
  pub zero : A
  pub one : A
  pub add : A → A → A
  pub mul : A → A → A
  pub sub : A → A → A
  pub neg : A → A
  pub eq : A → A → Bool
  pub eq_iff : (a b : A) → (eq a b ≡ true) ↔ (a ≡ b)
  pub add_comm : (a b : A) → add a b ≡ add b a
  pub add_assoc : (a b c : A) → add (add a b) c ≡ add a (add b c)
  pub zero-add : (a : A) → add zero a ≡ a
  pub neg-add : (a : A) → add (neg a) a ≡ zero
  pub sub_def : (a b : A) → sub a b ≡ add a (neg b)
  pub mul_comm : (a b : A) → mul a b ≡ mul b a
  pub mul_assoc : (a b c : A) → mul (mul a b) c ≡ mul a (mul b c)
  pub one-mul : (a : A) → mul one a ≡ a
  pub mul-add : (a b c : A) → mul a (add b c) ≡ add (mul a b) (mul a c)

-- `EuclideanDomain`: quotient and remainder of a division, the remainder smaller than a divisor
-- that is not zero. The size is what makes the loops end; the code has no function for it.
pub record EuclideanDomain (A : Type 0) : Type 0 where
  pub ring : Ring A
  pub div_rem : A → A → A × A
  pub size : A → ℕ
  pub div_rem_lem :
      (a b : A)
      → b ≢ ring.zero
      → (a ≡ ring.add (ring.mul (div_rem a b).0 b) (div_rem a b).1)
        × (size (div_rem a b).1 < size b)
