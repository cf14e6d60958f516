-- ===== src/Monomial/Examples.antt =====
-- Runs of poly_core/monomial.cc.
use stocas.Common.{◌≡◌, refl, arith, true, [], ◌∷◌}
use stocas.Monomial.{Monomial, ok, compare_monomials, mul, divides, div, total_degree}
use stocas.Monomial.Order.{compare_monomials-mul}

-- x^2 y, x y^3 and y.
abbrev xxy : Monomial
xxy = 2 ∷ 1 ∷ []

abbrev xyyy : Monomial
xyyy = 1 ∷ 3 ∷ []

abbrev y : Monomial
y = 0 ∷ 1 ∷ []

xyyy_multiple : divides y xyyy ≡ ok true
unfolding divides
xyyy_multiple = refl

xyyy_quotient : div xyyy y ≡ ok (1 ∷ 2 ∷ [])
unfolding div
xyyy_quotient = refl

compare_monomials-mul_example :
    (p q : Monomial) × (mul xxy y ≡ ok p)
    × (mul xyyy y ≡ ok q)
    × (compare_monomials p q ≡ compare_monomials xxy xyyy)
compare_monomials-mul_example =
    compare_monomials-mul xxy xyyy y refl refl (omega arith) (omega arith)

degree : total_degree xyyy ≡ 4
unfolding total_degree
degree = refl

-- The monomial 1.
abbrev one : Monomial
one = 0 ∷ 0 ∷ []
