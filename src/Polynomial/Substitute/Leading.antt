-- ===== src/Polynomial/Substitute/Leading.antt =====
-- Leading coefficients in one variable, poly_core/include/poly_core/polynomial.hh.
use native.Mathlib.Nat.{le-max_left, le-max_right, le_trans}
use stocas.Common.{
  ℕ, zero, suc, ◌≤◌, ◌<◌, ◌≡◌, refl, sym, ap, ap₂, ◌∙◌, not, List, [], ◌∷◌, length, inl, inr,
  Bool-cases, if◌then◌else◌, lt→ltb, ◌==◌, ==_iff, get_elem?, some, max, arith,
}
use stocas.Algebra.{Ring}
use stocas.Algebra.Laws.{mul-zero, mul_left_comm, add_left_comm}
use stocas.Monomial.{Monomial}
use stocas.Polynomial.{Term, Polynomial, ok, exponent, remove_at}
use stocas.Polynomial.Value.{pow, value, monomial_value}
use stocas.Polynomial.Canonical.{HasArity}
use stocas.Polynomial.Substitute.{max_exponent, degree_in, leading_terms, leading_coefficient_in}

-- The exponents of one variable are below a bound.
abbrev pub DegreesBelow : {A : Type 0} → ℕ → ℕ → List (Term A) → Type 0
DegreesBelow i d [] = Unit
DegreesBelow i d ((m, a) ∷ ts) = (exponent m i < d) × DegreesBelow i d ts

abbrev DegreesUpTo : {A : Type 0} → ℕ → ℕ → List (Term A) → Type 0
DegreesUpTo i d [] = Unit
DegreesUpTo i d ((m, a) ∷ ts) = (exponent m i ≤ d) × DegreesUpTo i d ts

best-le-max_exponent :
    {A : Type 0} (i best : ℕ) (ts : List (Term A)) → best ≤ max_exponent i best ts
unfolding max_exponent
best-le-max_exponent i best [] = omega arith
best-le-max_exponent i best ((m, a) ∷ ts) =
    le_trans (le-max_left best (exponent m i)) (best-le-max_exponent i (max best (exponent m i)) ts)

max_exponent_bound :
    {A : Type 0} (i best : ℕ) (ts : List (Term A)) → DegreesUpTo i (max_exponent i best ts) ts
unfolding max_exponent
max_exponent_bound i best [] = tt
max_exponent_bound i best ((m, a) ∷ ts) = (
  le_trans (le-max_right best (exponent m i)) (best-le-max_exponent i (max best (exponent m i)) ts),
  max_exponent_bound i (max best (exponent m i)) ts,
)

-- The terms that leading_coefficient_in passes over.
lower_terms : {A : Type 0} → ℕ → ℕ → List (Term A) → List (Term A)
lower_terms i d [] = []
lower_terms i d ((m, a) ∷ ts) =
    let rest = lower_terms i d ts in if not (exponent m i == d) then (m, a) ∷ rest else rest

lower_terms-DegreesBelow :
    {A : Type 0} (i d : ℕ) (ts : List (Term A))
    → DegreesUpTo i d ts
    → DegreesBelow i d (lower_terms i d ts)
unfolding lower_terms
lower_terms-DegreesBelow i d [] h = tt
lower_terms-DegreesBelow i d ((m, a) ∷ ts) (h, hs) = elim (Bool-cases (exponent m i == d)) [
  | inl leading ↦ rw leading (lower_terms-DegreesBelow i d ts hs)
  | inr lower ↦ rw lower (ground arith, lower_terms-DegreesBelow i d ts hs)
]

module _ {A : Type 0} (ring : Ring A) where
  open ring use {one, add as plus, mul as times}

  monomial_value-remove :
      (point : List A) (m : Monomial) (i : ℕ) (x : A)
      → length m ≡ length point
      → get_elem? point i ≡ some x
      → monomial_value ring point m
        ≡ times
            (pow ring x (exponent m i))
            (monomial_value ring (remove_at i point) (remove_at i m))
  unfolding exponent remove_at
  monomial_value-remove [] m i x len h = cc
  monomial_value-remove (y ∷ point) [] i x len h = absurd (omega arith)
  monomial_value-remove (y ∷ point) (e ∷ m) zero x len h =
      let same : y ≡ x = cc in ap (λ t. times (pow ring t e) (monomial_value ring point m)) same
  monomial_value-remove (y ∷ point) (e ∷ m) (suc i) x len h =
      ap (times (pow ring y e)) (monomial_value-remove point m i x (omega arith) h)
      ∙ mul_left_comm ring (pow ring y e) (pow ring x (exponent m i)) _

  value-leading :
      (point : List A) (i d : ℕ) (x : A) (ts : List (Term A))
      → get_elem? point i ≡ some x
      → HasArity (length point) ts
      → value ring point ts
        ≡ plus
            (times (pow ring x d) (value ring (remove_at i point) (leading_terms i d ts)))
            (value ring point (lower_terms i d ts))
  unfolding leading_terms lower_terms
  value-leading point i d x [] h ar =
      sym (ap (λ t. plus t ring.zero) (mul-zero ring (pow ring x d)) ∙ ring.zero-add ring.zero)
  value-leading point i d x ((m, a) ∷ ts) h (len, ar) =
      let top = value ring (remove_at i point) (leading_terms i d ts) in
      let low = value ring point (lower_terms i d ts) in
      let v = monomial_value ring (remove_at i point) (remove_at i m) in
      let rest = value-leading point i d x ts h ar in
      elim (Bool-cases (exponent m i == d)) [
        | inl leading ↦
            let degree = (==_iff (exponent m i) d).0 leading in
            let term =
              ap (times a)
                (monomial_value-remove point m i x len h ∙ ap (λ e. times (pow ring x e) v) degree)
              ∙ mul_left_comm ring a (pow ring x d) v in
            rw leading (
              ap₂ plus term rest
              ∙ sym
                  (ring.add_assoc (times (pow ring x d) (times a v)) (times (pow ring x d) top) low)
              ∙ ap (λ t. plus t low) (sym (ring.mul-add (pow ring x d) (times a v) top)))
        | inr lower ↦ rw lower (
            ap (plus (times a (monomial_value ring point m))) rest
            ∙ add_left_comm ring (times a (monomial_value ring point m)) (times (pow ring x d) top)
                low)
      ]

  -- For a variable in range and a polynomial with one exponent for each variable, degree_in
  -- gives a degree and leading_coefficient_in a polynomial without the variable, such that the
  -- value of the polynomial is the value of that coefficient times the variable to the degree,
  -- plus the value of terms of lower degree in the variable.
  pub value-leading_coefficient_in :
      (point : List A) (i : ℕ) (x : A) (p : Polynomial A)
      → i < length p.variables
      → length point ≡ length p.variables
      → get_elem? point i ≡ some x
      → HasArity (length p.variables) p.terms
      → (d : ℕ) × (c : Polynomial A) × (rest : List (Term A)) × (degree_in i p ≡ ok d)
        × (leading_coefficient_in i p ≡ ok c)
        × (c.variables ≡ remove_at i p.variables)
        × DegreesBelow i d rest
        × (value ring point p.terms
            ≡ plus
                (times (pow ring x d) (value ring (remove_at i point) c.terms))
                (value ring point rest))
  unfolding degree_in leading_coefficient_in
  value-leading_coefficient_in point i x p h len at ar =
      let d = max_exponent i 0 p.terms in
      (
        d,
        record { variables = remove_at i p.variables; terms = leading_terms i d p.terms },
        lower_terms i d p.terms,
        rw (lt→ltb _ _ h),
        rw (lt→ltb _ _ h),
        refl,
        lower_terms-DegreesBelow i d p.terms (max_exponent_bound i 0 p.terms),
        value-leading point i d x p.terms at (rw len ar),
      )
