-- ===== src/Series/Power.antt =====
-- series.hh: integer_power multiplies as many copies of the base as the exponent says.
use stocas.Common.{
  ℕ, zero, suc, ◌+◌, ◌*◌, ◌/◌, ◌%◌, ◌≡◌, ◌≤◌, refl, sym, ap, subst, ◌∙◌, true, some, ◌==◌,
  if◌then◌else◌, Bool-cases, ◌⊎◌, inl, inr, arith,
}
use stocas.Common.Int.{ℤ, pos, negsuc}
use stocas.Polynomial.{ok, err, domain_error}
use stocas.HyperDual.{DualScalar, HyperDual, coefficient, constant, mul, div, quotient}
use stocas.Series.{power_loop, integer_power}

no_rounds : (i p : ℕ) → i + 0 * p ≡ i
no_rounds i p = omega arith

odd_count : (i p q : ℕ) → i + p + q * (p + p) ≡ i + (q + q + 1) * p
odd_count i p q = grind arith

even_count : (i p q : ℕ) → i + q * (p + p) ≡ i + (q + q) * p
even_count i p q = grind arith

one_each : (n : ℕ) → 0 + n * 1 ≡ n
one_each n = omega arith

module _ {F : Type 0} (scalar : DualScalar F) (order : ℕ) where
  abbrev pub one : HyperDual F
  one = constant scalar order (scalar.number 1)

  -- Products of a number of copies of a series, in any grouping, and of ones.
  pub data IsProduct (base : HyperDual F) : ℕ → HyperDual F → Type 0 where
    no_copy : IsProduct base 0 one
    single_copy : IsProduct base 1 base
    times :
        (m n : ℕ) (f g : HyperDual F)
        → IsProduct base m f
        → IsProduct base n g
        → IsProduct base (m + n) (mul scalar order f g)

  recount : (base f : HyperDual F) (m n : ℕ) → m ≡ n → IsProduct base m f → IsProduct base n f
  recount base f m n e p = subst (λ k. IsProduct base k f) e p

  -- The result has i copies, and the power p copies.
  power_loop-IsProduct :
      (base : HyperDual F) (rounds : ℕ) (r power : HyperDual F) (i p m : ℕ)
      → m ≤ rounds
      → IsProduct base i r
      → IsProduct base p power
      → IsProduct base (i + m * p) (power_loop scalar order rounds r power m)
  unfolding power_loop
  power_loop-IsProduct base zero r power i p m h hr hp =
      let ended : m ≡ 0 = omega arith in
      recount base r i (i + m * p) (sym (ap (λ (k : ℕ). i + k * p) ended ∙ no_rounds i p)) hr
  power_loop-IsProduct base (suc rounds) r power i p m h hr hp =
      let by : HyperDual F → HyperDual F → HyperDual F = mul scalar order in
      let rest : HyperDual F → HyperDual F =
        λ r'. power_loop scalar order rounds r' (by power power) (m / 2) in
      let r' : HyperDual F = if m % 2 == 1 then by r power else r in
      let square : IsProduct base (p + p) (by power power) = times p p power power hp hp in
      elim (Bool-cases (m == 0)) [
        | inl e ↦
            let ended : m ≡ 0 = ground arith in
            rw e (
              recount base r i (i + m * p) (sym (ap (λ (k : ℕ). i + k * p) ended ∙ no_rounds i p))
                hr)
        | inr e ↦ rw e (elim (Bool-cases (m % 2 == 1)) [
          | inl odd ↦
              let whole : m / 2 + m / 2 + 1 ≡ m = ground arith in
              rw odd (
                recount base (rest (by r power)) (i + p + m / 2 * (p + p)) (i + m * p)
                  (odd_count i p (m / 2) ∙ ap (λ (k : ℕ). i + k * p) whole)
                  (power_loop-IsProduct base rounds (by r power) (by power power) (i + p) (p + p)
                    (m / 2) (omega arith) (times i p r power hr hp) square))
          | inr even ↦
              let whole : m / 2 + m / 2 ≡ m = ground arith in
              let smaller : m / 2 ≤ rounds = ground arith in
              rw even (
                recount base (rest r) (i + m / 2 * (p + p)) (i + m * p)
                  (even_count i p (m / 2) ∙ ap (λ (k : ℕ). i + k * p) whole)
                  (power_loop-IsProduct base rounds r (by power power) i (p + p) (m / 2) smaller hr
                    square))
        ])
      ]

  abbrev pub PowerOutcome : HyperDual F → ℤ → Type 0
  PowerOutcome base (pos n) =
      (r : HyperDual F) × (integer_power scalar order base (pos n) ≡ ok r) × IsProduct base n r
  PowerOutcome base (negsuc n) =
      (r : HyperDual F) × IsProduct base (suc n) r
      × (((scalar.eq (coefficient scalar r 0) (scalar.number 0) ≡ true)
            × (integer_power scalar order base (negsuc n) ≡ err domain_error))
          ⊎ ((q : HyperDual F) × (div scalar order one r ≡ some q)
              × (integer_power scalar order base (negsuc n) ≡ ok q)))

  -- For an exponent that is not negative, integer_power returns a product of as many copies of
  -- the base, in some grouping, and of ones. For a negative one such a product r of as many
  -- copies as the magnitude decides: where its constant term equals zero integer_power throws,
  -- and elsewhere it returns what the division of one by r gives. Nothing is assumed of the
  -- scalars.
  pub integer_power-IsProduct : (base : HyperDual F) (exponent : ℤ) → PowerOutcome base exponent
  unfolding integer_power div
  integer_power-IsProduct base (pos n) = (
    power_loop scalar order n one base n,
    refl,
    recount base (power_loop scalar order n one base n) (0 + n * 1) n (one_each n)
        (power_loop-IsProduct base n one base 0 1 n (omega arith) no_copy single_copy),
  )
  integer_power-IsProduct base (negsuc n) =
      let r : HyperDual F = power_loop scalar order (suc n) one base (suc n) in
      let product : IsProduct base (suc n) r =
        recount base r (0 + suc n * 1) (suc n) (one_each (suc n)) (
          power_loop-IsProduct base (suc n) one base 0 1 (suc n) (omega arith) no_copy
            single_copy) in
      (
        r,
        product,
        elim (Bool-cases (scalar.eq (coefficient scalar r 0) (scalar.number 0))) [
          | inl pole ↦ inl (pole, rw pole)
          | inr regular ↦ inr (quotient scalar order one r, rw regular, rw regular)
        ],
      )
