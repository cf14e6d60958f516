-- ===== src/AtomConversion/Reader.antt =====
-- poly_core/atom_conversion.cc, the way from expressions to polynomials. `integer_of` gives the
-- numerator of a number whose denominator is 1.
use stocas.Common.{
  ℕ, zero, suc, ◌%◌, ◌^◌, List, [], ◌∷◌, replicate, set, length, Option, none, some, ◌==◌, ltb,
  if◌then◌else◌,
}
use stocas.Common.Int.{ℤ, pos, negsuc}
use stocas.Algebra.{Ring}
use stocas.Monomial.{exponent_mod}
use stocas.Polynomial
use stocas.Polynomial.{
  Polynomial, Result, ok, err, and_then, invalid_argument, out_of_range, zero_polynomial, from_term,
  constant,
}
use stocas.Atom.{Kind, num, var, add, mul, pow, fun, Atom, node, Atoms, nil, cons}

-- The index goes up where the loop goes on.
unfoldable pub find_variable : ℕ → List ℕ → Result ℕ
find_variable s [] = err invalid_argument
find_variable s (v ∷ vs) = if v == s then ok 0 else and_then (find_variable s vs) (λ i. ok (suc i))

-- `std::stoul` throws past the range of an unsigned long, of 64 bits; the cast keeps 32 bits.
unfoldable pub bigint_to_exponent : ℕ → Result ℕ
bigint_to_exponent n = if ltb n (2 ^ 64) then ok (n % exponent_mod) else err out_of_range

module _ {N : Type 0} (scalars : Ring N) where
  unfoldable pub add_all : Polynomial N → List (Result (Polynomial N)) → Result (Polynomial N)
  unfolding Polynomial.add
  add_all result [] = ok result
  add_all result (child ∷ rest) =
      and_then child (λ p. and_then (Polynomial.add scalars result p) (λ sum. add_all sum rest))

  unfoldable pub mul_all : Polynomial N → List (Result (Polynomial N)) → Result (Polynomial N)
  unfolding Polynomial.mul
  mul_all result [] = ok result
  mul_all result (child ∷ rest) =
      and_then child
        (λ p. and_then (Polynomial.mul scalars result p) (λ product. mul_all product rest))

  -- `result = result * base`, n times.
  unfoldable pub mul_times : Polynomial N → ℕ → Polynomial N → Result (Polynomial N)
  unfolding Polynomial.mul
  mul_times base zero result = ok result
  mul_times base (suc n) result = and_then (Polynomial.mul scalars result base) (mul_times base n)

  module _ (variables : List ℕ) where
    unfoldable pub variable_polynomial : ℕ → Result (Polynomial N)
    unfolding from_term
    variable_polynomial i =
        from_term scalars variables (set (replicate (length variables) 0) i 1) scalars.one

    unfoldable pub power_of : Polynomial N → Option ℤ → Result (Polynomial N)
    unfolding bigint_to_exponent mul_times constant
    power_of base none = err invalid_argument
    power_of base (some (negsuc n)) = err invalid_argument
    power_of base (some (pos n)) =
        and_then (bigint_to_exponent n)
          (λ e. and_then (constant scalars variables scalars.one) (mul_times base e))

    module _ (integer_of : N → Option ℤ) where
      unfoldable pub power_by : Atom N → Polynomial N → Result (Polynomial N)
      unfolding power_of
      power_by (node (num c) ts) base = power_of base (integer_of c)
      power_by (node k ts) base = err invalid_argument

      -- The switch, with the conversions of the children; child(i) throws where there is none.
      unfoldable pub convert_kind :
          Kind N → Atoms N → List (Result (Polynomial N)) → Result (Polynomial N)
      unfolding constant find_variable variable_polynomial add_all zero_polynomial mul_all power_by
      convert_kind (num c) ts rs = constant scalars variables c
      convert_kind (var s) ts rs = and_then (find_variable s variables) variable_polynomial
      convert_kind add ts rs = add_all (zero_polynomial scalars variables) rs
      convert_kind mul ts rs =
          and_then (constant scalars variables scalars.one) (λ result. mul_all result rs)
      convert_kind pow (cons b (cons e ts)) (base ∷ rs) = and_then base (power_by e)
      convert_kind pow (cons b nil) (base ∷ rs) = and_then base (λ p. err out_of_range)
      convert_kind pow ts rs = err out_of_range
      convert_kind (fun head) ts rs = err invalid_argument

      unfoldable mutual
        unfolding convert_kind

        pub convert_polynomial : Atom N → Result (Polynomial N)
        convert_polynomial (node k ts) = convert_kind k ts (convert_children ts)

        pub convert_children : Atoms N → List (Result (Polynomial N))
        convert_children nil = []
        convert_children (cons t ts) = convert_polynomial t ∷ convert_children ts

      unfoldable pub atom_to_polynomial : Atom N → Result (Polynomial N)
      unfolding convert_polynomial
      atom_to_polynomial t = convert_polynomial t
