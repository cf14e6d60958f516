-- ===== src/Polynomial/Substitute/Univariate.antt =====
-- Polynomials in one of several variables, poly_core/include/poly_core/polynomial.hh.
use stocas.Common.{
  ℕ, zero, suc, ◌<◌, ◌≡◌, refl, ap, ap₂, ◌∙◌, true, List, [], ◌∷◌, length, lt→ltb, ==_iff, set,
  replicate, get_elem?, some, arith,
}
use stocas.Algebra.{Ring}
use stocas.Monomial.{Monomial, is_one}
use stocas.Polynomial.{Term, Polynomial, ok, exponent}
use stocas.Polynomial.Value.{pow, value, monomial_value}
use stocas.Polynomial.Canonical.{HasArity}
use stocas.Polynomial.Substitute.{
  only_at, project_terms, to_univariate, embed_terms, embed_univariate,
}

is_one-replicate : (n : ℕ) → is_one (replicate n 0) ≡ true
unfolding is_one
is_one-replicate zero = refl
is_one-replicate (suc n) = is_one-replicate n

only_at-set : (n i e : ℕ) → i < n → only_at i (set (replicate n 0) i e) ≡ true
unfolding only_at
only_at-set zero i e h = refl
only_at-set (suc n) zero e h = is_one-replicate n
only_at-set (suc n) (suc i) e h = only_at-set n i e (omega arith)

exponent-set : (n i e : ℕ) → i < n → exponent (set (replicate n 0) i e) i ≡ e
unfolding exponent
exponent-set zero i e h = absurd (omega arith)
exponent-set (suc n) zero e h = refl
exponent-set (suc n) (suc i) e h = exponent-set n i e (omega arith)

single_exponent : (m : Monomial) → length m ≡ 1 → (exponent m 0 ∷ []) ≡ m
unfolding exponent
single_exponent [] h = absurd (omega arith)
single_exponent (e ∷ []) h = refl
single_exponent (e ∷ d ∷ m) h = absurd (omega arith)

project-embed :
    {A : Type 0} (n i : ℕ) (ts : List (Term A))
    → i < n
    → HasArity 1 ts
    → project_terms i (embed_terms n i ts) ≡ ok ts
unfolding project_terms embed_terms
project-embed n i [] h ar = refl
project-embed n i ((m, a) ∷ ts) h (len, ar) = rw (
  only_at-set n i (exponent m 0) h,
  project-embed n i ts h ar,
  exponent-set n i (exponent m 0) h,
  single_exponent m len,
)

module _ {A : Type 0} (ring : Ring A) where
  open ring use {one, add as plus, mul as times}

  monomial_value-zeros : (point : List A) (n : ℕ) → monomial_value ring point (replicate n 0) ≡ one
  monomial_value-zeros [] n = refl
  monomial_value-zeros (x ∷ point) zero = refl
  monomial_value-zeros (x ∷ point) (suc n) =
      ring.one-mul (monomial_value ring point (replicate n 0)) ∙ monomial_value-zeros point n

  monomial_value-embed :
      (point : List A) (i e : ℕ) (x : A)
      → get_elem? point i ≡ some x
      → monomial_value ring point (set (replicate (length point) 0) i e) ≡ times (pow ring x e) one
  monomial_value-embed [] i e x h = cc
  monomial_value-embed (y ∷ point) zero e x h =
      let same : y ≡ x = cc in
      ap₂ times (ap (λ t. pow ring t e) same) (monomial_value-zeros point (length point))
  monomial_value-embed (y ∷ point) (suc i) e x h =
      ring.one-mul _ ∙ monomial_value-embed point i e x h

  value-embed :
      (point : List A) (i : ℕ) (x : A) (ts : List (Term A))
      → get_elem? point i ≡ some x
      → HasArity 1 ts
      → value ring point (embed_terms (length point) i ts) ≡ value ring (x ∷ []) ts
  unfolding embed_terms
  value-embed point i x [] h ar = refl
  value-embed point i x ((m, a) ∷ ts) h (len, ar) =
      ap₂ plus
        (ap (times a) (
          monomial_value-embed point i (exponent m 0) x h
          ∙ ap (monomial_value ring (x ∷ [])) (single_exponent m len)))
        (value-embed point i x ts h ar)

  get_elem?_of_lt :
      {B : Type 0} (xs : List B) (i : ℕ) → i < length xs → (x : B) × (get_elem? xs i ≡ some x)
  get_elem?_of_lt [] i h = absurd (omega arith)
  get_elem?_of_lt (x ∷ xs) zero h = (x, refl)
  get_elem?_of_lt (x ∷ xs) (suc i) h = get_elem?_of_lt xs i (omega arith)

  -- A polynomial in one variable, embedded by embed_univariate at a place in range, has as its
  -- value at a point the value at the element of the point at that place; to_univariate of it at
  -- the same place gives the terms back.
  pub to_univariate-embed_univariate :
      (variables : List ℕ) (i : ℕ) (u : Polynomial A) (point : List A) (x : A)
      → i < length variables
      → length u.variables ≡ 1
      → HasArity 1 u.terms
      → length point ≡ length variables
      → get_elem? point i ≡ some x
      → (p r : Polynomial A) × (embed_univariate variables i u ≡ ok p)
        × (to_univariate i p ≡ ok r)
        × (r.terms ≡ u.terms)
        × (value ring point p.terms ≡ value ring (x ∷ []) u.terms)
  unfolding embed_univariate to_univariate
  to_univariate-embed_univariate variables i u point x h single ar len at =
      let (name, found) = get_elem?_of_lt variables i h in
      (
        record { variables = variables; terms = embed_terms (length variables) i u.terms },
        record { variables = name ∷ []; terms = u.terms },
        rw (lt→ltb _ _ h, (==_iff (length u.variables) 1).1 single),
        rw (found, to_univariate, project-embed (length variables) i u.terms h ar),
        refl,
        rw (← len) (value-embed point i x u.terms at ar),
      )
