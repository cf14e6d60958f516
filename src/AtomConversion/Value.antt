-- ===== src/AtomConversion/Value.antt =====
-- poly_core/atom_conversion.cc: the expression of a polynomial has the value of the polynomial.
use stocas.Common.{
  ℕ, zero, suc, ◌≡◌, refl, sym, ap, ap₂, ◌∙◌, false, List, [], ◌∷◌, map, ◌==◌, inl, inr, Bool-cases,
  arith,
}
use stocas.Algebra.{Ring}
use stocas.Algebra.Laws.{mul-one}
use stocas.Monomial.{Monomial}
use stocas.Polynomial.{Term, Polynomial}
use stocas.Polynomial.Value.{pow as power, monomial_value, value as polynomial_value}
use stocas.Atom.{Numbers, Atom, Atoms, nil, cons}
use stocas.Derivative.{Functions}
use stocas.Atom.Builders.Folds.{fold}
use stocas.Derivative.Value.{Meaning, value, values, value-single_or_add, value-single_or_mul}
use stocas.AtomConversion.{
  factor, factors_of, with_coefficient, term_atom, term_atoms, atom_of_terms, polynomial_to_atom,
}

module _ {N V : Type 0} (numbers : Numbers N) (scalars : Ring N) (from_exponent : ℕ → N)
    (functions : Functions) (ring : Ring V) (meaning : Meaning N V scalars ring) (env : ℕ → V) where
  open ring use {mul as times}

  abbrev means : Atom N → V
  means t = value numbers scalars functions ring meaning env t

  abbrev means_all : Atoms N → List V
  means_all ts = values numbers scalars functions ring meaning env ts

  abbrev multiplied : Atoms N → V
  multiplied ts = fold times ring.one (means_all ts)

  abbrev added : Atoms N → V
  added ts = fold ring.add ring.zero (means_all ts)

  -- The coefficients as values.
  abbrev pub as_values : List (Term N) → List (Term V)
  as_values [] = []
  as_values ((m, c) ∷ ts) = (m, meaning.constant c) ∷ as_values ts

  -- Powers of the variables with an exponent from 2 on are repeated products.
  abbrev pub RaisesVariables : Type 0
  RaisesVariables =
      (symbol e : ℕ)
      → meaning.raise (env symbol) (meaning.constant (from_exponent (suc (suc e))))
        ≡ power ring (env symbol) (suc (suc e))

  value-factors_of :
      (variables : List ℕ) (m : Monomial)
      → RaisesVariables
      → multiplied (factors_of numbers scalars from_exponent variables m)
        ≡ monomial_value ring (map env variables) m
  unfolding factors_of factor
  value-factors_of [] m raises = refl
  value-factors_of (s ∷ vs) [] raises = refl
  value-factors_of (s ∷ vs) (zero ∷ es) raises =
      value-factors_of vs es raises ∙ sym (ring.one-mul _)
  value-factors_of (s ∷ vs) (suc zero ∷ es) raises =
      ap₂ times (sym (mul-one ring (env s))) (value-factors_of vs es raises)
  value-factors_of (s ∷ vs) (suc (suc e) ∷ es) raises =
      let present : (suc (suc e) == 0) ≡ false = ground arith in
      let above_one : (suc (suc e) == 1) ≡ false = ground arith in
      rw (present, above_one) (ap₂ times (raises s e) (value-factors_of vs es raises))

  value-with_coefficient :
      (c : N) (fs : Atoms N)
      → multiplied (with_coefficient numbers scalars from_exponent c fs)
        ≡ times (meaning.constant c) (multiplied fs)
  unfolding with_coefficient
  value-with_coefficient c nil = refl
  value-with_coefficient c (cons f fs) = elim (Bool-cases (numbers.equal_numbers c scalars.one)) [
    | inl unit ↦
        rw (unit, (numbers.equal_iff c scalars.one).0 unit, meaning.constant_one)
          (sym (ring.one-mul _))
    | inr other ↦ rw other
  ]

  value-term_atoms :
      (variables : List ℕ) (ts : List (Term N))
      → RaisesVariables
      → added (term_atoms numbers scalars from_exponent variables ts)
        ≡ polynomial_value ring (map env variables) (as_values ts)
  unfolding term_atoms term_atom
  value-term_atoms variables [] raises = refl
  value-term_atoms variables ((m, c) ∷ ts) raises =
      let fs = factors_of numbers scalars from_exponent variables m in
      ap₂ ring.add
        (value-single_or_mul numbers scalars functions ring meaning env
            (with_coefficient numbers scalars from_exponent c fs)
          ∙ value-with_coefficient c fs
          ∙ ap (times (meaning.constant c)) (value-factors_of variables m raises))
        (value-term_atoms variables ts raises)

  value-atom_of_terms :
      (variables : List ℕ) (ts : List (Term N))
      → RaisesVariables
      → means (atom_of_terms numbers scalars from_exponent variables ts)
        ≡ polynomial_value ring (map env variables) (as_values ts)
  unfolding atom_of_terms
  value-atom_of_terms variables [] raises = meaning.constant_zero
  value-atom_of_terms variables (t ∷ ts) raises =
      value-single_or_add numbers scalars functions ring meaning env
        (term_atoms numbers scalars from_exponent variables (t ∷ ts))
      ∙ value-term_atoms variables (t ∷ ts) raises

  -- Where raising a variable to the number of an exponent from 2 on is the repeated product, the
  -- expression that polynomial_to_atom gives has the value of the polynomial at the values of
  -- its variables, the coefficients taken as values.
  pub value-polynomial_to_atom :
      (p : Polynomial N)
      → RaisesVariables
      → means (polynomial_to_atom numbers scalars from_exponent p)
        ≡ polynomial_value ring (map env p.variables) (as_values p.terms)
  unfolding polynomial_to_atom
  value-polynomial_to_atom p = value-atom_of_terms p.variables p.terms
