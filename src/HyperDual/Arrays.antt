-- ===== src/HyperDual/Arrays.antt =====
-- Arrays of hyper_dual.hh that a loop fills, and its sums.
use stocas.Common.{
  ℕ, zero, suc, ◌≡◌, ◌≤◌, ◌<◌, ◌-◌, refl, sym, ap, ap₂, ◌∙◌, List, [], ◌∷◌, ◌++◌, ◌⊎◌, inl, inr,
  length, length-append, arith,
}
use stocas.HyperDual.{
  DualScalar, HyperDual, sum_to, difference_to, coefficient, fill, chain_sum, sin_cos_to,
}

pub le_cases : (n m : ℕ) → n ≤ suc m → (n ≡ suc m) ⊎ (n ≤ m)
le_cases n m h = ground arith

module _ {F : Type 0} (scalar : DualScalar F) where
  coefficient-append :
      (c : List F) (d : F) (k : ℕ)
      → k < length c
      → coefficient scalar (c ++ (d ∷ [])) k ≡ coefficient scalar c k
  unfolding coefficient
  coefficient-append [] d k h = absurd (omega arith)
  coefficient-append (x ∷ c) d zero h = refl
  coefficient-append (x ∷ c) d (suc k) h = coefficient-append c d k (omega arith)

  coefficient_last : (c : List F) (d : F) → coefficient scalar (c ++ (d ∷ [])) (length c) ≡ d
  unfolding coefficient
  coefficient_last [] d = refl
  coefficient_last (x ∷ c) d = coefficient_last c d

  -- Arrays that have an element more in each round.
  module _ (arrays : ℕ → List F) (added : ℕ → F) (one : length (arrays 0) ≡ 1)
      (grows : (n : ℕ) → arrays (suc n) ≡ arrays n ++ (added n ∷ [])) where
    length_grown : (n : ℕ) → length (arrays n) ≡ suc n
    length_grown zero = one
    length_grown (suc n) =
        ap length (grows n)
        ∙ length-append (arrays n) (added n ∷ [])
        ∙ omega (arith, length_grown n)

    grown_kept :
        (k n : ℕ) → k ≤ n → coefficient scalar (arrays (suc n)) k ≡ coefficient scalar (arrays n) k
    grown_kept k n h =
        let bound : k < length (arrays n) = omega (arith, length_grown n) in
        ap (λ c. coefficient scalar c k) (grows n) ∙ coefficient-append (arrays n) (added n) k bound

    -- Later rounds keep an element.
    pub grown_prefix :
        (k n m : ℕ)
        → k ≤ n
        → n ≤ m
        → coefficient scalar (arrays m) k ≡ coefficient scalar (arrays n) k
    grown_prefix k n zero h l = ap (λ i. coefficient scalar (arrays i) k) (omega arith)
    grown_prefix k n (suc m) h l = elim (le_cases n m l) [
      | inl e ↦ ap (λ i. coefficient scalar (arrays i) k) (sym e)
      | inr below ↦ grown_kept k m (omega arith) ∙ grown_prefix k n m h below
    ]

    pub grown_next : (k n : ℕ) → suc k ≤ n → coefficient scalar (arrays n) (suc k) ≡ added k
    grown_next k n h =
        grown_prefix (suc k) (suc k) n (omega arith) h
        ∙ ap (λ c. coefficient scalar c (suc k)) (grows k)
        ∙ ap (coefficient scalar (arrays k ++ (added k ∷ []))) (sym (length_grown k))
        ∙ coefficient_last (arrays k) (added k)

  module _ (next : List F → ℕ → F) (first : F) where
    abbrev new_element : ℕ → F
    new_element n = next (fill scalar next first n) (suc n)

    pub fill_start : (n : ℕ) → coefficient scalar (fill scalar next first n) 0 ≡ first
    unfolding fill coefficient
    fill_start n =
        grown_prefix (fill scalar next first) new_element refl (λ i. refl) 0 0 n (omega arith)
          (omega arith)

    pub fill_prefix :
        (k n m : ℕ)
        → k ≤ n
        → n ≤ m
        → coefficient scalar (fill scalar next first m) k
          ≡ coefficient scalar (fill scalar next first n) k
    unfolding fill
    fill_prefix = grown_prefix (fill scalar next first) new_element refl (λ i. refl)

    pub fill_next :
        (k n : ℕ)
        → suc k ≤ n
        → coefficient scalar (fill scalar next first n) (suc k)
          ≡ next (fill scalar next first k) (suc k)
    unfolding fill
    fill_next = grown_next (fill scalar next first) new_element refl (λ i. refl)

  pub sum_congruence :
      (s r : F) (t u : ℕ → F) (n : ℕ)
      → s ≡ r
      → ((i : ℕ) → i < n → t i ≡ u i)
      → sum_to scalar s t n ≡ sum_to scalar r u n
  unfolding sum_to
  sum_congruence s r t u zero e h = e
  sum_congruence s r t u (suc n) e h =
      ap₂ scalar.add (sum_congruence s r t u n e (λ i l. h i (omega arith))) (h n (omega arith))

  pub difference_congruence :
      (s r : F) (t u : ℕ → F) (n : ℕ)
      → s ≡ r
      → ((i : ℕ) → i < n → t i ≡ u i)
      → difference_to scalar s t n ≡ difference_to scalar r u n
  unfolding difference_to
  difference_congruence s r t u zero e h = e
  difference_congruence s r t u (suc n) e h =
      ap₂ scalar.sub (difference_congruence s r t u n e (λ i l. h i (omega arith)))
        (h n (omega arith))

  pub chain_sum_congruence :
      (x x' c c' : HyperDual F) (k n : ℕ)
      → n ≤ k
      → ((i : ℕ) → 1 ≤ i → i ≤ n → coefficient scalar x i ≡ coefficient scalar x' i)
      → ((i : ℕ) → i < k → coefficient scalar c i ≡ coefficient scalar c' i)
      → chain_sum scalar x c k n ≡ chain_sum scalar x' c' k n
  unfolding chain_sum
  chain_sum_congruence x x' c c' k n l h g = sum_congruence _ _ _ _ n refl (λ i b.
      ap₂ scalar.mul
        (ap (scalar.mul (scalar.number (suc i))) (h (suc i) (omega arith) (omega arith)))
        (g (k - suc i) (omega arith)))

  -- The arrays of sin_cos keep their elements.
  pub sin_prefix :
      (x : HyperDual F) (k n m : ℕ)
      → k ≤ n
      → n ≤ m
      → coefficient scalar (sin_cos_to scalar x m).0 k
        ≡ coefficient scalar (sin_cos_to scalar x n).0 k
  unfolding sin_cos_to
  sin_prefix x = grown_prefix (λ i. (sin_cos_to scalar x i).0) _ refl (λ i. refl)

  pub cos_prefix :
      (x : HyperDual F) (k n m : ℕ)
      → k ≤ n
      → n ≤ m
      → coefficient scalar (sin_cos_to scalar x m).1 k
        ≡ coefficient scalar (sin_cos_to scalar x n).1 k
  unfolding sin_cos_to
  cos_prefix x = grown_prefix (λ i. (sin_cos_to scalar x i).1) _ refl (λ i. refl)

  pub sin_next :
      (x : HyperDual F) (k n : ℕ)
      → suc k ≤ n
      → coefficient scalar (sin_cos_to scalar x n).0 (suc k)
        ≡ scalar.divide
            (chain_sum scalar x (sin_cos_to scalar x k).1 (suc k) (suc k))
            (scalar.number (suc k))
  unfolding sin_cos_to
  sin_next x = grown_next (λ i. (sin_cos_to scalar x i).0) _ refl (λ i. refl)

  pub cos_next :
      (x : HyperDual F) (k n : ℕ)
      → suc k ≤ n
      → coefficient scalar (sin_cos_to scalar x n).1 (suc k)
        ≡ scalar.neg (
            scalar.divide
              (chain_sum scalar x (sin_cos_to scalar x k).0 (suc k) (suc k))
              (scalar.number (suc k)))
  unfolding sin_cos_to
  cos_next x = grown_next (λ i. (sin_cos_to scalar x i).1) _ refl (λ i. refl)
