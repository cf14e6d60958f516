-- ===== src/Polynomial/Examples.antt =====
-- Runs of poly_core/include/poly_core/polynomial.hh over the integers, in x and y, the symbols 0
-- and 1.
use stocas.Common.{◌≡◌, refl, true, List, [], ◌∷◌, set, arith}
use stocas.Common.Int.{ℤ, pos, negsuc, ◌+ℤ◌, ◌-ℤ◌, ◌*ℤ◌, neg_ℤ}
use stocas.Algebra.Integers.{integer_ring}
use stocas.Polynomial.{Polynomial, ok, add, sub, neg, mul, equal_vectors, above}
use stocas.Polynomial.Value.{value}
use stocas.Polynomial.Sum.{value-add-sub-neg}
use stocas.Polynomial.Product.{value-mul}
use stocas.Polynomial.Canonical.{IsCanonical}
use stocas.Polynomial.Invariant.{operations-IsCanonical}
use stocas.Polynomial.Substitute.{evaluate}
use stocas.Polynomial.Substitute.Evaluate.{value-evaluate}

-- 2 x^2 y - 3 y + 1.
abbrev first : Polynomial ℤ
first = record {
  variables = 0 ∷ 1 ∷ [];
  terms = (2 ∷ 1 ∷ [], pos 2) ∷ (0 ∷ 1 ∷ [], negsuc 2) ∷ (0 ∷ 0 ∷ [], pos 1) ∷ [];
}

-- x + 3 y.
abbrev second : Polynomial ℤ
second = record { variables = 0 ∷ 1 ∷ []; terms = (1 ∷ 0 ∷ [], pos 1) ∷ (0 ∷ 1 ∷ [], pos 3) ∷ [] }

abbrev at_two_five : List ℤ
at_two_five = pos 2 ∷ pos 5 ∷ []

first-IsCanonical : IsCanonical integer_ring first
unfolding above
first-IsCanonical = (
  (refl, (refl, (refl, tt))),
  ((refl, (refl, tt)), ((refl, tt), (tt, tt))),
  (λ e. cc, (λ e. cc, (λ e. cc, tt))),
)

second-IsCanonical : IsCanonical integer_ring second
unfolding above
second-IsCanonical = ((refl, (refl, tt)), ((refl, tt), (tt, tt)), (λ e. cc, (λ e. cc, tt)))

same_variables : equal_vectors first.variables second.variables ≡ true
unfolding equal_vectors
same_variables = refl

value-add-sub-neg_example :
    ((r : Polynomial ℤ) × (add integer_ring first second ≡ ok r)
      × (r.variables ≡ first.variables)
      × (value integer_ring at_two_five r.terms
          ≡ value integer_ring at_two_five first.terms
            +ℤ value integer_ring at_two_five second.terms))
    × ((r : Polynomial ℤ) × (sub integer_ring first second ≡ ok r)
        × (r.variables ≡ first.variables)
        × (value integer_ring at_two_five r.terms
            ≡ value integer_ring at_two_five first.terms
              -ℤ value integer_ring at_two_five second.terms))
    × (value integer_ring at_two_five (neg integer_ring second).terms
        ≡ neg_ℤ (value integer_ring at_two_five second.terms))
value-add-sub-neg_example = value-add-sub-neg integer_ring at_two_five first second same_variables

value-mul_example :
    (r : Polynomial ℤ) × (mul integer_ring first second ≡ ok r)
    × (r.variables ≡ first.variables)
    × (value integer_ring at_two_five r.terms
        ≡ value integer_ring at_two_five first.terms *ℤ value integer_ring at_two_five second.terms)
value-mul_example = value-mul integer_ring at_two_five first second same_variables (omega arith)

operations-IsCanonical_example :
    ((r : Polynomial ℤ) × (add integer_ring first second ≡ ok r) × IsCanonical integer_ring r)
    × ((r : Polynomial ℤ) × (sub integer_ring first second ≡ ok r) × IsCanonical integer_ring r)
    × ((r : Polynomial ℤ) × (mul integer_ring first second ≡ ok r) × IsCanonical integer_ring r)
    × IsCanonical integer_ring (neg integer_ring first)
operations-IsCanonical_example =
    operations-IsCanonical integer_ring first second same_variables first-IsCanonical
      second-IsCanonical

-- In x alone.
abbrev line : Polynomial ℤ
line = record { variables = 0 ∷ []; terms = (1 ∷ [], pos 7) ∷ (0 ∷ [], pos 1) ∷ [] }

value-evaluate_example :
    (r : Polynomial ℤ) × (evaluate integer_ring 0 (pos 3) first ≡ ok r)
    × (r.variables ≡ first.variables)
    × (value integer_ring at_two_five r.terms
        ≡ value integer_ring (set at_two_five 0 (pos 3)) first.terms)
value-evaluate_example =
    value-evaluate integer_ring at_two_five 0 (pos 3) first (omega arith) refl (omega arith)
      (omega arith)
