-- ===== src/AtomConversion.antt =====
-- poly_core/atom_conversion.cc, the way from polynomials to expressions. The number of an exponent,
-- `Rational(BigInt(e))`, is a parameter, as numbers are an interface here.
pub mod Value
pub mod Reader
pub mod Steps
pub mod Loops
pub mod Lookup
pub mod Reading
pub mod Written
pub mod RoundTrip
mod Examples
use stocas.Common.{ℕ, Bool, List, [], ◌∷◌, ◌==◌, if◌then◌else◌}
use stocas.Algebra.{Ring}
use stocas.Monomial.{Monomial}
use stocas.Polynomial.{Term, Polynomial}
use stocas.Atom.{Numbers, Kind, num, var, add, mul, pow, Atom, node, Atoms, nil, cons}
use stocas.Atom.Builders.{single_or}

module _ {N : Type 0} (numbers : Numbers N) (scalars : Ring N) (from_exponent : ℕ → N) where
  unfoldable pub factor : ℕ → ℕ → Atom N
  factor symbol e =
      if e == 1
      then node (var symbol) nil
      else node pow (cons (node (var symbol) nil) (cons (node (num (from_exponent e)) nil) nil))

  -- The loop over the variables, with the exponents of a monomial.
  unfoldable pub factors_of : List ℕ → Monomial → Atoms N
  unfolding factor
  factors_of (symbol ∷ variables) (e ∷ es) =
      let rest = factors_of variables es in if e == 0 then rest else cons (factor symbol e) rest
  factors_of variables es = nil

  unfoldable pub with_coefficient : N → Atoms N → Atoms N
  with_coefficient c nil = cons (node (num c) nil) nil
  with_coefficient c (cons f fs) =
      if numbers.equal_numbers c scalars.one then cons f fs else cons (node (num c) nil) (cons f fs)

  unfoldable pub term_atom : List ℕ → Term N → Atom N
  unfolding factors_of with_coefficient single_or
  term_atom variables (m, c) = single_or numbers mul (with_coefficient c (factors_of variables m))

  unfoldable pub term_atoms : List ℕ → List (Term N) → Atoms N
  unfolding term_atom
  term_atoms variables [] = nil
  term_atoms variables (t ∷ ts) = cons (term_atom variables t) (term_atoms variables ts)

  unfoldable pub atom_of_terms : List ℕ → List (Term N) → Atom N
  unfolding term_atoms single_or
  atom_of_terms variables [] = node (num scalars.zero) nil
  atom_of_terms variables (t ∷ ts) = single_or numbers add (term_atoms variables (t ∷ ts))

  unfoldable pub polynomial_to_atom : Polynomial N → Atom N
  unfolding atom_of_terms
  polynomial_to_atom p = atom_of_terms p.variables p.terms
