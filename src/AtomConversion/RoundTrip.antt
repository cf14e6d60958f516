-- ===== src/AtomConversion/RoundTrip.antt =====
-- poly_core/atom_conversion.cc: a polynomial read back from its expression.
use stocas.Common.{ℕ, suc, ◌≡◌, ◌<◌, refl, ap, ◌∙◌, List, [], ◌∷◌, map, Option, some}
use stocas.Common.Int.{ℤ, pos}
use stocas.Algebra.{Ring}
use stocas.Monomial.{exponent_mod}
use stocas.Polynomial.{Term, Polynomial, ok}
use stocas.Polynomial.Value.{pow as power, value as polynomial_value}
use stocas.Polynomial.Terms.{AllTerms}
use stocas.Atom.{Numbers}
use stocas.Derivative.{Functions}
use stocas.Derivative.Value.{Meaning}
use stocas.AtomConversion.{polynomial_to_atom}
use stocas.AtomConversion.Steps.{total}
use stocas.AtomConversion.Reader.{atom_to_polynomial}
use stocas.AtomConversion.Value.{as_values, value-polynomial_to_atom}
use stocas.AtomConversion.Reading.{exponent_of, value-atom_to_polynomial}
use stocas.AtomConversion.Written.{atom_of_terms-Readable}

module _ {N : Type 0} (scalars : Ring N) (integer_of : N → Option ℤ) where
  -- Repeated products for powers, and 0 for every call.
  abbrev raising : Meaning N N scalars scalars
  raising = record {
    constant = λ c. c;
    raise = λ a b. power scalars a (exponent_of (integer_of b));
    apply = λ h vs. scalars.zero;
    slopes = λ h vs. vs;
    constant_zero = refl;
    constant_one = refl;
    constant_add = λ c d. refl;
    constant_mul = λ c d. refl;
    constant_neg = λ c. refl;
  }

abbrev no_functions : Functions
no_functions = record { sin = 0; cos = 1; exp = 2; ln = 3 }

module _ {N : Type 0} (numbers : Numbers N) (scalars : Ring N) (from_exponent : ℕ → N)
    (integer_of : N → Option ℤ) where
  as_values_self :
      (env : ℕ → N) (ts : List (Term N))
      → as_values numbers scalars from_exponent no_functions scalars
          (raising scalars integer_of)
          env
          ts
        ≡ ts
  as_values_self env [] = refl
  as_values_self env ((m, c) ∷ ts) = ap (λ us. (m, c) ∷ us) (as_values_self env ts)

  read_back :
      (p : Polynomial N)
      → ((e : ℕ) → integer_of (from_exponent e) ≡ some (pos e))
      → AllTerms (λ m. total m < exponent_mod) p.terms
      → (env : ℕ → N)
      → (q : Polynomial N) × (atom_to_polynomial scalars p.variables integer_of
            (polynomial_to_atom numbers scalars from_exponent p)
          ≡ ok q)
        × (q.variables ≡ p.variables)
        × (polynomial_value scalars (map env p.variables) q.terms
            ≡ polynomial_value scalars (map env p.variables) p.terms)
  unfolding polynomial_to_atom
  read_back p exponents fit env =
      let whole : Meaning N N scalars scalars = raising scalars integer_of in
      let (readable, below) =
        atom_of_terms-Readable numbers scalars from_exponent integer_of no_functions whole env
          p.variables exponents p.terms fit in
      let (q, made, vs, val) =
        value-atom_to_polynomial numbers scalars no_functions whole env integer_of p.variables
          (polynomial_to_atom numbers scalars from_exponent p)
          (λ c. refl, λ x c n e. ap (λ o. power scalars x (exponent_of o)) e) readable below in
      let written =
        value-polynomial_to_atom numbers scalars from_exponent no_functions scalars whole env p
          (λ s e. ap (λ o. power scalars (env s) (exponent_of o)) (exponents (suc (suc e)))) in
      (
        q,
        made,
        vs,
        val
            ∙ written
            ∙ ap (polynomial_value scalars (map env p.variables)) (as_values_self env p.terms),
      )

  -- Where the number of an exponent is read as that exponent, and the exponents of each term add
  -- up to less than 2^32, the expression that polynomial_to_atom gives is read back by
  -- atom_to_polynomial, over the same variables, as a polynomial that has the value of the first
  -- whatever the variables stand for.
  pub atom_to_polynomial-polynomial_to_atom :
      (p : Polynomial N)
      → ((e : ℕ) → integer_of (from_exponent e) ≡ some (pos e))
      → AllTerms (λ m. total m < exponent_mod) p.terms
      → (q : Polynomial N) × (atom_to_polynomial scalars p.variables integer_of
            (polynomial_to_atom numbers scalars from_exponent p)
          ≡ ok q)
        × (q.variables ≡ p.variables)
        × ((env : ℕ → N)
            → polynomial_value scalars (map env p.variables) q.terms
              ≡ polynomial_value scalars (map env p.variables) p.terms)
  atom_to_polynomial-polynomial_to_atom p exponents fit =
      let (q, made, vs, val) = read_back p exponents fit (λ s. scalars.zero) in
      (
        q,
        made,
        vs,
        λ env.
            let (r, made_again, vs_again, same) = read_back p exponents fit env in
            let one_result : q ≡ r = cc in
            ap (λ t. polynomial_value scalars (map env p.variables) t.terms) one_result ∙ same,
      )
