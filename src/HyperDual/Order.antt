-- ===== src/HyperDual/Order.antt =====
-- hyper_dual.hh at two orders: a coefficient does not depend on the order.
use stocas.Common.{
  ℕ, zero, suc, ◌-◌, ◌≡◌, ◌≤◌, refl, sym, ap, ap₂, ◌∙◌, List, [], ◌∷◌, ◌++◌, Option, none, some,
  ◌==◌, if◌then◌else◌, inl, inr, Bool-cases, arith,
}
use stocas.HyperDual.{
  DualScalar, HyperDual, coefficient, fill, mul_coefficient, quotient_coefficient, chain_sum,
  exp_coefficient, log_coefficient, sin_cos_to, tabulate, variable, constant, add, mul, quotient,
  div, exp, log, sin, cos,
}
use stocas.HyperDual.Arrays.{
  sum_congruence, difference_congruence, chain_sum_congruence, fill_prefix, sin_prefix, cos_prefix,
}

module _ {F : Type 0} (scalar : DualScalar F) (m n : ℕ) (shorter : m ≤ n) where
  -- The coefficients up to m are the same.
  abbrev pub Agree : HyperDual F → HyperDual F → Type 0
  Agree f g = (k : ℕ) → k ≤ m → coefficient scalar f k ≡ coefficient scalar g k

  -- Loops with the same rounds up to m.
  fill_congruence :
      (next next' : List F → ℕ → F) (a b : F) (k : ℕ)
      → a ≡ b
      → ((c : List F) (i : ℕ) → i ≤ k → next c i ≡ next' c i)
      → fill scalar next a k ≡ fill scalar next' b k
  unfolding fill
  fill_congruence next next' a b zero e h = ap (λ c. c ∷ []) e
  fill_congruence next next' a b (suc k) e h =
      let same : fill scalar next a k ≡ fill scalar next' b k =
        fill_congruence next next' a b k e (λ c i l. h c i (omega arith)) in
      ap₂ (λ c d. c ++ (d ∷ [])) same
        (h (fill scalar next a k) (suc k) (omega arith) ∙ ap (λ c. next' c (suc k)) same)

  fill-Agree :
      (next next' : List F → ℕ → F) (a b : F)
      → a ≡ b
      → ((c : List F) (i : ℕ) → i ≤ m → next c i ≡ next' c i)
      → Agree (fill scalar next a m) (fill scalar next' b n)
  fill-Agree next next' a b e h k l =
      ap (λ c. coefficient scalar c k) (fill_congruence next next' a b m e h)
      ∙ sym (fill_prefix scalar next' b k m n l shorter)

  pub constant-Agree : (v : F) → Agree (constant scalar m v) (constant scalar n v)
  unfolding constant
  constant-Agree v =
      fill-Agree (λ c k. scalar.number 0) (λ c k. scalar.number 0) v v refl (λ c i l. refl)

  pub variable-Agree : (v : F) → Agree (variable scalar m v) (variable scalar n v)
  unfolding variable
  variable-Agree v =
      let next : List F → ℕ → F = λ c k. if k == 1 then scalar.number 1 else scalar.number 0 in
      fill-Agree next next v v refl (λ c i l. refl)

  pub add-Agree :
      (f f' g g' : HyperDual F)
      → Agree f f'
      → Agree g g'
      → Agree (add scalar m f g) (add scalar n f' g')
  unfolding add tabulate
  add-Agree f f' g g' h k =
      fill-Agree _ _ _ _ (ap₂ scalar.add (h 0 (omega arith)) (k 0 (omega arith)))
        (λ c i l. ap₂ scalar.add (h i l) (k i l))

  mul_coefficient_congruence :
      (f f' g g' : HyperDual F) (i : ℕ)
      → Agree f f'
      → Agree g g'
      → i ≤ m
      → mul_coefficient scalar f g i ≡ mul_coefficient scalar f' g' i
  unfolding mul_coefficient
  mul_coefficient_congruence f f' g g' i h k l =
      sum_congruence scalar _ _ _ _ i (ap₂ scalar.mul (h 0 (omega arith)) (k i l))
        (λ j b. ap₂ scalar.mul (h (suc j) (omega arith)) (k (i - suc j) (omega arith)))

  pub mul-Agree :
      (f f' g g' : HyperDual F)
      → Agree f f'
      → Agree g g'
      → Agree (mul scalar m f g) (mul scalar n f' g')
  unfolding mul tabulate
  mul-Agree f f' g g' h k =
      fill-Agree _ _ _ _ (mul_coefficient_congruence f f' g g' 0 h k (omega arith))
        (λ c i l. mul_coefficient_congruence f f' g g' i h k l)

  -- Both throw, or both give series that agree.
  abbrev pub SameOutcome : Option (HyperDual F) → Option (HyperDual F) → Type 0
  SameOutcome none none = Unit
  SameOutcome (some f) (some g) = Agree f g
  SameOutcome r s = ⊥

  quotient-Agree :
      (f f' g g' : HyperDual F)
      → Agree f f'
      → Agree g g'
      → Agree (quotient scalar m f g) (quotient scalar n f' g')
  unfolding quotient quotient_coefficient
  quotient-Agree f f' g g' h k =
      fill-Agree _ _ _ _ (ap₂ scalar.divide (h 0 (omega arith)) (k 0 (omega arith))) (λ c i l.
        ap₂ scalar.divide
          (difference_congruence scalar _ _ _ _ i (h i l)
            (λ j b. ap (scalar.mul (coefficient scalar c j)) (k (i - j) (omega arith))))
          (k 0 (omega arith)))

  pub div-SameOutcome :
      (f f' g g' : HyperDual F)
      → Agree f f'
      → Agree g g'
      → SameOutcome (div scalar m f g) (div scalar n f' g')
  unfolding div
  div-SameOutcome f f' g g' h k =
      let same : scalar.eq (coefficient scalar g 0) (scalar.number 0)
          ≡ scalar.eq (coefficient scalar g' 0) (scalar.number 0) =
        ap (λ t. scalar.eq t (scalar.number 0)) (k 0 (omega arith)) in
      elim (Bool-cases (scalar.eq (coefficient scalar g 0) (scalar.number 0))) [
        | inl e ↦ rw (e, sym same ∙ e) tt
        | inr e ↦ rw (e, sym same ∙ e) (quotient-Agree f f' g g' h k)
      ]

  pub exp-Agree : (x x' : HyperDual F) → Agree x x' → Agree (exp scalar m x) (exp scalar n x')
  unfolding exp exp_coefficient
  exp-Agree x x' h = fill-Agree _ _ _ _ (ap scalar.exp (h 0 (omega arith))) (λ c i l.
      ap (λ t. scalar.divide t (scalar.number i))
        (chain_sum_congruence scalar x x' c c i i (omega arith) (λ j b d. h j (omega arith))
          (λ j b. refl)))

  pub log-SameOutcome :
      (x x' : HyperDual F) → Agree x x' → SameOutcome (log scalar m x) (log scalar n x')
  unfolding log log_coefficient
  log-SameOutcome x x' h =
      let start : coefficient scalar x 0 ≡ coefficient scalar x' 0 = h 0 (omega arith) in
      elim (Bool-cases (scalar.positive (coefficient scalar x 0))) [
        | inl e ↦
            rw (e, sym (ap scalar.positive start) ∙ e)
              (fill-Agree _ _ _ _ (ap scalar.log start) (λ c i l.
                ap₂ scalar.divide
                  (ap₂ scalar.sub (h i l) (
                    ap (λ t. scalar.divide t (scalar.number i))
                      (chain_sum_congruence scalar c c x x' i (i - 1) (omega arith) (λ j b d. refl)
                        (λ j b. h j (omega arith)))))
                  start))
        | inr e ↦ rw (e, sym (ap scalar.positive start) ∙ e) tt
      ]

  sin_cos_congruence :
      (x x' : HyperDual F) (k : ℕ)
      → Agree x x'
      → k ≤ m
      → sin_cos_to scalar x k ≡ sin_cos_to scalar x' k
  unfolding sin_cos_to
  sin_cos_congruence x x' zero h l =
      ap (λ b. (scalar.sin b ∷ [], scalar.cos b ∷ [])) (h 0 (omega arith))
  sin_cos_congruence x x' (suc k) h l =
      let added : List F → F =
        λ c. scalar.divide (chain_sum scalar x' c (suc k) (suc k)) (scalar.number (suc k)) in
      let term : (c : List F)
          → scalar.divide (chain_sum scalar x c (suc k) (suc k)) (scalar.number (suc k)) ≡ added c =
        λ c.
          ap (λ t. scalar.divide t (scalar.number (suc k)))
            (chain_sum_congruence scalar x x' c c (suc k) (suc k) (omega arith)
              (λ j b d. h j (omega arith)) (λ j b. refl)) in
      let (s, c) = sin_cos_to scalar x k in
      ap₂ (λ a b. (s ++ (a ∷ []), c ++ (scalar.neg b ∷ []))) (term c) (term s)
      ∙ ap
          (λ (p : List F × List F). (p.0 ++ (added p.1 ∷ []), p.1 ++ (scalar.neg (added p.0) ∷ [])))
          (sin_cos_congruence x x' k h (omega arith))

  pub sin-Agree : (x x' : HyperDual F) → Agree x x' → Agree (sin scalar m x) (sin scalar n x')
  unfolding sin
  sin-Agree x x' h k l =
      ap (λ (p : List F × List F). coefficient scalar p.0 k)
        (sin_cos_congruence x x' m h (omega arith))
      ∙ sym (sin_prefix scalar x' k m n l shorter)

  pub cos-Agree : (x x' : HyperDual F) → Agree x x' → Agree (cos scalar m x) (cos scalar n x')
  unfolding cos
  cos-Agree x x' h k l =
      ap (λ (p : List F × List F). coefficient scalar p.1 k)
        (sin_cos_congruence x x' m h (omega arith))
      ∙ sym (cos_prefix scalar x' k m n l shorter)
