-- ===== src/Polynomial/Substitute/Evaluate.antt =====
-- Substituting a constant for a variable, poly_core/include/poly_core/polynomial.hh.
use native.Mathlib.Nat.{pow-zero, pow-suc}
use stocas.Common.{
  ℕ, zero, suc, ◌+◌, ◌/◌, ◌%◌, ◌^◌, ◌<◌, ◌≡◌, refl, sym, ap, ap₂, ◌∙◌, List, [], ◌∷◌, length, inl,
  inr, Bool-cases, if◌then◌else◌, ltb, lt→ltb, ◌==◌, set, arith,
}
use stocas.Algebra.{Ring}
use stocas.Algebra.Laws.{mul-one, mul_left_comm}
use stocas.Monomial.{Monomial}
use stocas.Monomial.Division.{Fits}
use stocas.Polynomial.{Term, Polynomial, ok, exponent, sort_terms, collect, erase_zeros}
use stocas.Polynomial.Value.{pow, value, monomial_value}
use stocas.Polynomial.Product.{value-sort, value-collect, value-erase}
use stocas.Polynomial.Canonical.{HasArity}
use stocas.Polynomial.Substitute.{pow_loop, coeff_pow, evaluate_terms, evaluate}

-- Exponents that their word holds.
abbrev pub HasWordExponents : {A : Type 0} → List (Term A) → Type 0
HasWordExponents [] = Unit
HasWordExponents ((m, a) ∷ ts) = Fits m × HasWordExponents ts

module _ {A : Type 0} (ring : Ring A) where
  open ring use {one, add as plus, mul as times}

  pow-square : (x : A) (h : ℕ) → pow ring (times x x) h ≡ pow ring x (h + h)
  pow-square x zero = ap (pow ring x) {x = zero} {y = zero + zero} (omega arith)
  pow-square x (suc h) =
      ap (times (times x x)) (pow-square x h)
      ∙ ring.mul_assoc x x (pow ring x (h + h))
      ∙ ap (pow ring x) {x = suc (suc (h + h))} {y = suc h + suc h} (omega arith)

  -- One round: the lowest digit of the exponent.
  pow-digit :
      (result power : A) (n : ℕ)
      → times
          (if n % 2 == 1 then times result power else result)
          (pow ring (times power power) (n / 2))
        ≡ times result (pow ring power n)
  pow-digit result power n = elim (Bool-cases (n % 2 == 1)) [
    | inl odd ↦
        let digits : suc (n / 2 + n / 2) ≡ n = ground arith in
        rw odd (
          ring.mul_assoc result power _
          ∙ ap (times result)
              (ap (times power) (pow-square power (n / 2)) ∙ ap (pow ring power) digits))
    | inr even ↦
        let digits : n / 2 + n / 2 ≡ n = ground arith in
        rw even (ap (times result) (pow-square power (n / 2) ∙ ap (pow ring power) digits))
  ]

  pow_loop-eq-pow :
      (rounds : ℕ) (result power : A) (n : ℕ)
      → n < 2 ^ rounds
      → pow_loop ring rounds result power n ≡ times result (pow ring power n)
  unfolding pow_loop
  pow_loop-eq-pow zero result power n h =
      let none_left : n ≡ 0 = omega (arith, pow-zero 2) in rw none_left (sym (mul-one ring result))
  pow_loop-eq-pow (suc rounds) result power n h = elim (Bool-cases (ltb 0 n)) [
    | inl more ↦ rw more (
        pow_loop-eq-pow rounds _ (times power power) (n / 2) (omega (arith, pow-suc 2 rounds))
        ∙ pow-digit result power n)
    | inr last ↦
        let none_left : n ≡ 0 = ground arith in rw (last, none_left) (sym (mul-one ring result))
  ]

  coeff_pow-eq-pow : (x : A) (n : ℕ) → n < 2 ^ 33 → coeff_pow ring x n ≡ pow ring x n
  unfolding coeff_pow
  coeff_pow-eq-pow x n h = pow_loop-eq-pow 33 one x n h ∙ ring.one-mul (pow ring x n)

  monomial_value-set :
      (point : List A) (m : Monomial) (i : ℕ) (v : A)
      → length m ≡ length point
      → i < length point
      → times (pow ring v (exponent m i)) (monomial_value ring point (set m i 0))
        ≡ monomial_value ring (set point i v) m
  unfolding exponent
  monomial_value-set [] m i v len h = absurd (omega arith)
  monomial_value-set (x ∷ point) [] i v len h = absurd (omega arith)
  monomial_value-set (x ∷ point) (e ∷ m) zero v len h =
      ap (times (pow ring v e)) (ring.one-mul (monomial_value ring point m))
  monomial_value-set (x ∷ point) (e ∷ m) (suc i) v len h =
      mul_left_comm ring (pow ring v (exponent m i)) (pow ring x e) _
      ∙ ap (times (pow ring x e)) (monomial_value-set point m i v (omega arith) (omega arith))

  exponent-Fits : (m : Monomial) (i : ℕ) → Fits m → exponent m i < 2 ^ 33
  unfolding exponent
  exponent-Fits [] i f = omega arith
  exponent-Fits (e ∷ m) zero (h, f) = omega arith
  exponent-Fits (e ∷ m) (suc i) (h, f) = exponent-Fits m i f

  value-evaluate_terms :
      (point : List A) (i : ℕ) (v : A) (ts : List (Term A))
      → i < length point
      → HasArity (length point) ts
      → HasWordExponents ts
      → value ring point (evaluate_terms ring i v ts) ≡ value ring (set point i v) ts
  unfolding evaluate_terms
  value-evaluate_terms point i v [] h ar f = refl
  value-evaluate_terms point i v ((m, a) ∷ ts) h (len, ar) (fits, f) =
      ap₂ plus
        (ap (λ t. times (times a t) (monomial_value ring point (set m i 0)))
            (coeff_pow-eq-pow v (exponent m i) (exponent-Fits m i fits))
          ∙ ring.mul_assoc a (pow ring v (exponent m i)) (monomial_value ring point (set m i 0))
          ∙ ap (times a) (monomial_value-set point m i v len h))
        (value-evaluate_terms point i v ts h ar f)

  -- For a variable in range, a polynomial with one 32-bit exponent for each variable and a point
  -- with an element for each variable, evaluate gives a polynomial over the same variables whose
  -- value at the point is the value of the operand where the constant stands at the place of the
  -- variable.
  pub value-evaluate :
      (point : List A) (i : ℕ) (v : A) (p : Polynomial A)
      → i < length p.variables
      → length point ≡ length p.variables
      → HasArity (length p.variables) p.terms
      → HasWordExponents p.terms
      → (r : Polynomial A) × (evaluate ring i v p ≡ ok r)
        × (r.variables ≡ p.variables)
        × (value ring point r.terms ≡ value ring (set point i v) p.terms)
  unfolding evaluate
  value-evaluate point i v p h len ar f =
      let raw = evaluate_terms ring i v p.terms in
      (
        record p { terms = erase_zeros ring (collect ring (sort_terms ring raw)) },
        rw (lt→ltb _ _ h),
        refl,
        value-erase ring point (collect ring (sort_terms ring raw))
            ∙ value-collect ring point (sort_terms ring raw)
            ∙ value-sort ring point raw
            ∙ value-evaluate_terms point i v p.terms (rw len h) (rw len ar) f,
      )
