-- ===== src/Polynomial/Substitute.antt =====
-- Degrees, substitution and changes of the variable list of
-- poly_core/include/poly_core/polynomial.hh.
pub mod Evaluate
pub mod Univariate
pub mod Leading
use stocas.Common.{
  ℕ, zero, suc, ◌+◌, ◌/◌, ◌%◌, Bool, true, false, not, ◌&&◌, List, [], ◌∷◌, map, length, replicate,
  set, get_elem?, Option, none, some, ltb, ◌==◌, if◌then◌else◌, max,
}
use stocas.Algebra.{Ring}
use stocas.Monomial.{Monomial, is_one}
use stocas.Polynomial.{
  Term, Polynomial, Result, ok, err, Failure, out_of_range, logic_error, invalid_argument, exponent,
  remove_at, sort_terms, collect, erase_zeros,
}

-- The loop of degree_in.
unfoldable pub max_exponent : {A : Type 0} → ℕ → ℕ → List (Term A) → ℕ
unfolding exponent
max_exponent i best [] = best
max_exponent i best ((m, a) ∷ ts) = max_exponent i (max best (exponent m i)) ts

unfoldable pub degree_in : {A : Type 0} → ℕ → Polynomial A → Result ℕ
unfolding max_exponent
degree_in i p =
    if ltb i (length p.variables) then ok (max_exponent i 0 p.terms) else err out_of_range

-- The terms of one degree, without the exponent that they share.
unfoldable pub leading_terms : {A : Type 0} → ℕ → ℕ → List (Term A) → List (Term A)
unfolding exponent remove_at
leading_terms i target [] = []
leading_terms i target ((m, a) ∷ ts) =
    let rest = leading_terms i target ts in
    if not (exponent m i == target) then rest else (remove_at i m, a) ∷ rest

unfoldable pub leading_coefficient_in : {A : Type 0} → ℕ → Polynomial A → Result (Polynomial A)
unfolding leading_terms max_exponent
leading_coefficient_in i p =
    if ltb i (length p.variables)
    then ok (record {
      variables = remove_at i p.variables;
      terms = leading_terms i (max_exponent i 0 p.terms) p.terms;
    })
    else err out_of_range

-- The test that only one variable has an exponent that is not zero, at the place `i`.
unfoldable pub only_at : ℕ → Monomial → Bool
unfolding is_one
only_at i [] = true
only_at zero (e ∷ es) = is_one es
only_at (suc i) (e ∷ es) = (e == 0) && only_at i es

unfoldable pub project_terms : {A : Type 0} → ℕ → List (Term A) → Result (List (Term A))
unfolding only_at exponent
project_terms i [] = ok []
project_terms i ((m, a) ∷ ts) =
    if only_at i m
    then elim (project_terms i ts) [ err f ↦ err f | ok rest ↦ ok ((exponent m i ∷ [], a) ∷ rest) ]
    else err logic_error

unfoldable pub to_univariate : {A : Type 0} → ℕ → Polynomial A → Result (Polynomial A)
unfolding project_terms
to_univariate i p = elim (get_elem? p.variables i) [
  | none ↦ err out_of_range
  | some x ↦ elim (project_terms i p.terms) [
    | err f ↦ err f
    | ok ts ↦ ok (record { variables = x ∷ []; terms = ts })
  ]
]

unfoldable pub embed_terms : {A : Type 0} → ℕ → ℕ → List (Term A) → List (Term A)
unfolding exponent
embed_terms n i [] = []
embed_terms n i ((m, a) ∷ ts) = (set (replicate n 0) i (exponent m 0), a) ∷ embed_terms n i ts

unfoldable pub embed_univariate : {A : Type 0} → List ℕ → ℕ → Polynomial A → Result (Polynomial A)
unfolding embed_terms
embed_univariate full_variables i univariate =
    if ltb i (length full_variables)
    then if length univariate.variables == 1
      then ok (record {
        variables = full_variables;
        terms = embed_terms (length full_variables) i univariate.terms;
      })
      else err invalid_argument
    else err out_of_range

module _ {A : Type 0} (ring : Ring A) where
  open ring use {one, mul as times}

  -- The loop of coeff_pow; 33 rounds empty a 32-bit exponent.
  unfoldable pub pow_loop : ℕ → A → A → ℕ → A
  pow_loop zero result power remaining = result
  pow_loop (suc rounds) result power remaining =
      let rest =
        pow_loop rounds (if remaining % 2 == 1 then times result power else result)
          (times power power) (remaining / 2) in
      if ltb 0 remaining then rest else result

  unfoldable pub coeff_pow : A → ℕ → A
  unfolding pow_loop
  coeff_pow base exponent = pow_loop 33 one base exponent

  -- The raw terms of evaluate, one exponent replaced by 0.
  unfoldable pub evaluate_terms : ℕ → A → List (Term A) → List (Term A)
  unfolding exponent coeff_pow
  evaluate_terms i value [] = []
  evaluate_terms i value ((m, a) ∷ ts) =
      (set m i 0, times a (coeff_pow value (exponent m i))) ∷ evaluate_terms i value ts

  unfoldable pub evaluate : ℕ → A → Polynomial A → Result (Polynomial A)
  unfolding evaluate_terms sort_terms collect erase_zeros
  evaluate i value p =
      if ltb i (length p.variables)
      then ok (record p {
        terms = erase_zeros ring (collect ring (sort_terms ring (evaluate_terms i value p.terms)));
      })
      else err out_of_range
