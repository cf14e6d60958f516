-- ===== src/HyperDual.antt =====
-- src/numerica_core/include/numerica_core/hyper_dual.hh: truncated Taylor series of a fixed order. The
-- scalar type is a parameter without laws, as floating point has none of exact numbers; an array is a
-- list, and `none` stands for the thrown `std::domain_error`.
pub mod Arrays
pub mod Order
pub mod Recurrences
pub mod Whole
mod Examples
use stocas.Common.{
  ℕ, zero, suc, ◌+◌, ◌-◌, ◌≡◌, ◌≢◌, Bool, true, List, [], ◌∷◌, ◌++◌, Option, none, some, ◌==◌,
  if◌then◌else◌,
}

-- `TrigDualScalar` of dual.hh, with the comparisons and the sign that the operations use too: any
-- operations, floating point among them. `number k` is `F(static_cast<double>(k))`, `eq` is `==`,
-- and `positive a` is `a > F(0.0)`.
pub record DualScalar (F : Type 0) : Type 0 where
  pub add : F → F → F
  pub sub : F → F → F
  pub mul : F → F → F
  pub divide : F → F → F
  pub neg : F → F
  pub number : ℕ → F
  pub eq : F → F → Bool
  pub positive : F → Bool
  pub exp : F → F
  pub log : F → F
  pub sin : F → F
  pub cos : F → F

abbrev pub HyperDual : Type 0 → Type 0
HyperDual F = List F

module _ {F : Type 0} (scalar : DualScalar F) where
  -- A loop's variable `sum` after n rounds; `term i` is the term of round i.
  unfoldable pub sum_to : F → (ℕ → F) → ℕ → F
  sum_to sum term zero = sum
  sum_to sum term (suc n) = scalar.add (sum_to sum term n) (term n)

  unfoldable pub difference_to : F → (ℕ → F) → ℕ → F
  difference_to sum term zero = sum
  difference_to sum term (suc n) = scalar.sub (difference_to sum term n) (term n)

  unfoldable pub product_to : F → (ℕ → F) → ℕ → F
  product_to result term zero = result
  product_to result term (suc n) = scalar.mul (product_to result term n) (term n)

  -- Coefficients past the order are not read.
  unfoldable pub coefficient : HyperDual F → ℕ → F
  coefficient [] k = (scalar.number 0)
  coefficient (c ∷ cs) zero = c
  coefficient (c ∷ cs) (suc k) = coefficient cs k

  -- An array that a loop fills from index 1 on, each element from those before it.
  unfoldable pub fill : (List F → ℕ → F) → F → ℕ → List F
  fill next first zero = first ∷ []
  fill next first (suc n) = let c = fill next first n in c ++ (next c (suc n) ∷ [])

  unfoldable pub derivative : HyperDual F → ℕ → F
  unfolding coefficient product_to
  derivative f k = product_to (coefficient f k) (λ i. scalar.number (i + 2)) (k - 1)

  unfoldable pub mul_coefficient : HyperDual F → HyperDual F → ℕ → F
  unfolding coefficient sum_to
  mul_coefficient f g k =
      sum_to (scalar.mul (coefficient f 0) (coefficient g k))
        (λ i. scalar.mul (coefficient f (suc i)) (coefficient g (k - suc i))) k

  unfoldable pub quotient_coefficient : HyperDual F → HyperDual F → List F → ℕ → F
  unfolding coefficient difference_to
  quotient_coefficient f g q k =
      scalar.divide
        (difference_to (coefficient f k) (λ i. scalar.mul (coefficient q i) (coefficient g (k - i)))
          k)
        (coefficient g 0)

  -- `sum` of exp, and of sin_cos with its two arrays, after n rounds.
  unfoldable pub chain_sum : HyperDual F → List F → ℕ → ℕ → F
  unfolding coefficient sum_to
  chain_sum x c k n =
      sum_to (scalar.number 0)
        (λ i.
          scalar.mul (scalar.mul (scalar.number (suc i)) (coefficient x (suc i)))
            (coefficient c (k - suc i)))
        n

  unfoldable pub exp_coefficient : HyperDual F → List F → ℕ → F
  unfolding chain_sum
  exp_coefficient x c k = scalar.divide (chain_sum x c k k) (scalar.number k)

  unfoldable pub log_coefficient : HyperDual F → List F → ℕ → F
  unfolding coefficient chain_sum
  log_coefficient x c k =
      scalar.divide
        (scalar.sub (coefficient x k) (scalar.divide (chain_sum c x k (k - 1)) (scalar.number k)))
        (coefficient x 0)

  -- The arrays of sin_cos after n rounds.
  unfoldable pub sin_cos_to : HyperDual F → ℕ → List F × List F
  unfolding coefficient chain_sum
  sin_cos_to x zero = (scalar.sin (coefficient x 0) ∷ [], scalar.cos (coefficient x 0) ∷ [])
  sin_cos_to x (suc n) =
      let (s, c) = sin_cos_to x n in
      (
        s ++ (scalar.divide (chain_sum x c (suc n) (suc n)) (scalar.number (suc n)) ∷ []),
        c
            ++ (scalar.neg (scalar.divide (chain_sum x s (suc n) (suc n)) (scalar.number (suc n)))
                ∷ []),
      )

  module _ (order : ℕ) where
    unfoldable pub tabulate : (ℕ → F) → HyperDual F
    unfolding fill
    tabulate element = fill (λ c k. element k) (element 0) order

    unfoldable pub variable : F → HyperDual F
    unfolding fill
    variable value =
        fill (λ c k. if k == 1 then (scalar.number 1) else (scalar.number 0)) value order

    unfoldable pub constant : F → HyperDual F
    unfolding fill
    constant value = fill (λ c k. (scalar.number 0)) value order

    unfoldable pub add : HyperDual F → HyperDual F → HyperDual F
    unfolding tabulate coefficient
    add f g = tabulate (λ k. scalar.add (coefficient f k) (coefficient g k))

    unfoldable pub sub : HyperDual F → HyperDual F → HyperDual F
    unfolding tabulate coefficient
    sub f g = tabulate (λ k. scalar.sub (coefficient f k) (coefficient g k))

    unfoldable pub mul : HyperDual F → HyperDual F → HyperDual F
    unfolding tabulate mul_coefficient
    mul f g = tabulate (mul_coefficient f g)

    unfoldable pub quotient : HyperDual F → HyperDual F → HyperDual F
    unfolding fill quotient_coefficient
    quotient f g =
        fill (quotient_coefficient f g) (scalar.divide (coefficient f 0) (coefficient g 0)) order

    unfoldable pub div : HyperDual F → HyperDual F → Option (HyperDual F)
    unfolding quotient
    div f g = if scalar.eq (coefficient g 0) (scalar.number 0) then none else some (quotient f g)

    unfoldable pub exp : HyperDual F → HyperDual F
    unfolding fill exp_coefficient
    exp x = fill (exp_coefficient x) (scalar.exp (coefficient x 0)) order

    unfoldable pub log : HyperDual F → Option (HyperDual F)
    unfolding fill log_coefficient
    log x =
        if scalar.positive (coefficient x 0)
        then some (fill (log_coefficient x) (scalar.log (coefficient x 0)) order)
        else none

    unfoldable pub sin : HyperDual F → HyperDual F
    unfolding sin_cos_to
    sin x = (sin_cos_to x order).0

    unfoldable pub cos : HyperDual F → HyperDual F
    unfolding sin_cos_to
    cos x = (sin_cos_to x order).1
