-- ===== src/HyperDual/Recurrences.antt =====
-- hyper_dual.hh: the coefficients of quotients, exp, log, sin and cos, read from the finished arrays.
use stocas.Common.{ℕ, suc, ◌-◌, ◌≡◌, ◌≤◌}
use stocas.HyperDual.{DualScalar, HyperDual, sum_to, difference_to, coefficient, exp, log, sin, cos}

module _ {F : Type 0} (scalar : DualScalar F) (order : ℕ) where
  abbrev at : HyperDual F → ℕ → F
  at f k = coefficient scalar f k

  -- `1 * a_1 * b_(k-1) + ... + n * a_n * b_(k-n)`, from the left.
  abbrev pub chained : HyperDual F → HyperDual F → ℕ → ℕ → F
  chained a b k n =
      sum_to scalar (scalar.number 0)
        (λ i. scalar.mul (scalar.mul (scalar.number (suc i)) (at a (suc i))) (at b (k - suc i))) n

  abbrev pub IsQuotient : HyperDual F → HyperDual F → HyperDual F → Type 0
  IsQuotient f g q =
      (at q 0 ≡ scalar.divide (at f 0) (at g 0))
      × ((k : ℕ)
          → suc k ≤ order
          → at q (suc k)
            ≡ scalar.divide
                (difference_to scalar (at f (suc k)) (λ i. scalar.mul (at q i) (at g (suc k - i)))
                  (suc k))
                (at g 0))

  abbrev pub IsLogarithm : HyperDual F → HyperDual F → Type 0
  IsLogarithm x c =
      (at c 0 ≡ scalar.log (at x 0))
      × ((k : ℕ)
          → suc k ≤ order
          → at c (suc k)
            ≡ scalar.divide
                (scalar.sub (at x (suc k))
                  (scalar.divide (chained c x (suc k) k) (scalar.number (suc k))))
                (at x 0))

  abbrev pub IsExponential : HyperDual F → HyperDual F → Type 0
  IsExponential x c =
      (at c 0 ≡ scalar.exp (at x 0))
      × ((k : ℕ)
          → suc k ≤ order
          → at c (suc k) ≡ scalar.divide (chained x c (suc k) (suc k)) (scalar.number (suc k)))

  abbrev pub IsJoint : HyperDual F → HyperDual F → HyperDual F → Type 0
  IsJoint x s c =
      (at s 0 ≡ scalar.sin (at x 0))
      × (at c 0 ≡ scalar.cos (at x 0))
      × ((k : ℕ)
          → suc k ≤ order
          → (at s (suc k) ≡ scalar.divide (chained x c (suc k) (suc k)) (scalar.number (suc k)))
            × (at c (suc k)
                ≡ scalar.neg (scalar.divide (chained x s (suc k) (suc k)) (scalar.number (suc k)))))
