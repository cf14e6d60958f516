-- ===== src/AtomConversion/Examples.antt =====
-- Runs of poly_core/atom_conversion.cc over the integers, in x and y, the symbols 0 and 1.
use stocas.Common.{
  ℕ, ◌^◌, ◌%◌, ◌≡◌, refl, ap, [], ◌∷◌, ◌==◌, if◌then◌else◌, map, Option, none, some, inl, inr,
  arith,
}
use stocas.Common.Int.{ℤ, pos, negsuc, nat_abs, ◌*ℤ◌, ◌+ℤ◌}
use stocas.Algebra.Integers.{integer_ring}
use stocas.Monomial.{exponent_mod}
use stocas.Polynomial.{Polynomial, ok, err, invalid_argument}
use stocas.Atom.{num, var, add, mul, pow, fun, Atom, node, nil, cons}
use stocas.Polynomial.Value.{pow as power, value as polynomial_value}
use stocas.Derivative.Value.{value}
use stocas.Derivative.IntegerMeaning.{integers, meaning, functions}
use stocas.AtomConversion.{polynomial_to_atom}
use stocas.AtomConversion.Reader.{atom_to_polynomial}
use stocas.AtomConversion.Reading.{
  RaisesIntegers, IsReadable, value-atom_to_polynomial, truncated_exponent,
}
use stocas.AtomConversion.RoundTrip.{atom_to_polynomial-polynomial_to_atom}
use stocas.AtomConversion.Value.{RaisesVariables, as_values, value-polynomial_to_atom}

-- x is 2, everything else is 5.
abbrev env : ℕ → ℤ
env s = if s == 0 then pos 2 else pos 5

-- 2 x^2 y + x - 3.
abbrev polynomial : Polynomial ℤ
polynomial = record {
  variables = 0 ∷ 1 ∷ [];
  terms = (2 ∷ 1 ∷ [], pos 2) ∷ (1 ∷ 0 ∷ [], pos 1) ∷ (0 ∷ 0 ∷ [], negsuc 2) ∷ [];
}

env-RaisesVariables : RaisesVariables integers integer_ring pos functions integer_ring meaning env
env-RaisesVariables s e = refl

value-polynomial_to_atom_example :
    value integers integer_ring functions integer_ring meaning env
      (polynomial_to_atom integers integer_ring pos polynomial)
    ≡ polynomial_value integer_ring
        (map env (0 ∷ 1 ∷ []))
        (as_values integers integer_ring pos functions integer_ring meaning env polynomial.terms)
value-polynomial_to_atom_example =
    value-polynomial_to_atom integers integer_ring pos functions integer_ring meaning env polynomial
      env-RaisesVariables

abbrev whole_number : ℤ → Option ℤ
whole_number n = some n

abbrev from_some : Option ℤ → ℕ
from_some none = 0
from_some (some n) = nat_abs n

integers-RaisesIntegers :
    RaisesIntegers integers integer_ring functions meaning env whole_number (0 ∷ 1 ∷ [])
integers-RaisesIntegers = (λ c. refl, λ x c n e. ap (power integer_ring x) (ap from_some e))

abbrev number : ℤ → Atom ℤ
number c = node (num c) nil

abbrev x : Atom ℤ
x = node (var 0) nil

abbrev y : Atom ℤ
y = node (var 1) nil

-- (x + y)^2 * y - 3.
abbrev expression : Atom ℤ
expression = node add (
    cons
      (node mul (
        cons (node pow (cons (node add (cons x (cons y nil))) (cons (number (pos 2)) nil)))
          (cons y nil)))
      (cons (number (negsuc 2)) nil))

expression-IsReadable :
    IsReadable integers integer_ring functions meaning env whole_number (0 ∷ 1 ∷ []) expression
expression-IsReadable =
    let x_read : IsReadable integers integer_ring functions meaning env whole_number (0 ∷ 1 ∷ [])
        x =
      (inl refl, tt) in
    let y_read : IsReadable integers integer_ring functions meaning env whole_number (0 ∷ 1 ∷ [])
        y =
      (inr (inl refl), tt) in
    (
      tt,
      (
        (
          tt,
          (((2, refl, omega arith), ((tt, (x_read, (y_read, tt))), ((tt, tt), tt))), (y_read, tt)),
        ),
        ((tt, tt), tt),
      ),
    )

value-atom_to_polynomial_example :
    (p : Polynomial ℤ) × (atom_to_polynomial integer_ring (0 ∷ 1 ∷ []) whole_number expression
      ≡ ok p)
    × (p.variables ≡ 0 ∷ 1 ∷ [])
    × (polynomial_value integer_ring (map env (0 ∷ 1 ∷ [])) p.terms
        ≡ value integers integer_ring functions integer_ring meaning env expression)
value-atom_to_polynomial_example =
    value-atom_to_polynomial integers integer_ring functions meaning env whole_number (0 ∷ 1 ∷ [])
      expression integers-RaisesIntegers expression-IsReadable (omega arith)

atom_to_polynomial-polynomial_to_atom_example :
    (q : Polynomial ℤ) × (atom_to_polynomial integer_ring
        (0 ∷ 1 ∷ [])
        whole_number
        (polynomial_to_atom integers integer_ring pos polynomial)
      ≡ ok q)
    × (q.variables ≡ 0 ∷ 1 ∷ [])
    × ((env : ℕ → ℤ)
        → polynomial_value integer_ring (map env (0 ∷ 1 ∷ [])) q.terms
          ≡ polynomial_value integer_ring (map env (0 ∷ 1 ∷ [])) polynomial.terms)
atom_to_polynomial-polynomial_to_atom_example =
    atom_to_polynomial-polynomial_to_atom integers integer_ring pos whole_number polynomial
      (λ e. refl) (omega arith, (omega arith, (omega arith, tt)))

back_run :
    atom_to_polynomial integer_ring
      (0 ∷ 1 ∷ [])
      whole_number
      (polynomial_to_atom integers integer_ring pos polynomial)
    ≡ ok polynomial
unfolding atom_to_polynomial polynomial_to_atom ◌*ℤ◌ ◌+ℤ◌
back_run = refl

-- x^(2^32) is read as x^0.
truncated_exponent_example :
    (p : Polynomial ℤ) × (atom_to_polynomial integer_ring
        (0 ∷ 1 ∷ [])
        whole_number
        (node pow (cons x (cons (number (pos (2 ^ 32))) nil)))
      ≡ ok p)
    × (polynomial_value integer_ring (map env (0 ∷ 1 ∷ [])) p.terms
        ≡ power integer_ring
            (value integers integer_ring functions integer_ring meaning env x)
            (2 ^ 32 % exponent_mod))
truncated_exponent_example =
    truncated_exponent integers integer_ring functions meaning env whole_number (0 ∷ 1 ∷ []) x
      (pos (2 ^ 32)) nil (2 ^ 32) integers-RaisesIntegers (inl refl, tt) refl (omega arith)
      (omega arith)

read_run :
    atom_to_polynomial integer_ring
      (0 ∷ 1 ∷ [])
      whole_number
      (node pow (cons x (cons (number (pos (2 ^ 32))) nil)))
    ≡ ok (record { variables = 0 ∷ 1 ∷ []; terms = (0 ∷ 0 ∷ [], pos 1) ∷ [] })
unfolding atom_to_polynomial
read_run = refl

call_run :
    atom_to_polynomial integer_ring (0 ∷ []) whole_number (node (fun 7) (cons x nil))
    ≡ err invalid_argument
unfolding atom_to_polynomial
call_run = refl

missing_variable_run :
    atom_to_polynomial integer_ring (0 ∷ []) whole_number y ≡ err invalid_argument
unfolding atom_to_polynomial
missing_variable_run = refl

negative_exponent_run :
    atom_to_polynomial integer_ring
      (0 ∷ [])
      whole_number
      (node pow (cons x (cons (number (negsuc 0)) nil)))
    ≡ err invalid_argument
unfolding atom_to_polynomial
negative_exponent_run = refl
