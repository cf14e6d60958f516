-- ===== src/Rewrite/Examples.antt =====
-- Runs of substitution in pattern_core/rewrite.cc over the integers. The symbols 0 and 1 are x and y,
-- 3 is a_ and 4 is b__.
use stocas.Common.{ℕ, ◌≡◌, refl, some, List, [], ◌∷◌, ◌==◌, if◌then◌else◌}
use stocas.Common.Int.{ℤ, pos}
use stocas.Algebra.Integers.{integer_ring}
use stocas.Polynomial.{ok}
use stocas.Atom.{num, var, add, mul, pow, fun, Atom, node, nil, cons}
use stocas.Derivative.IntegerMeaning.{integers, meaning, functions}
use stocas.Derivative.Value.{value}
use stocas.Rewrite.{
  BoundValue, atom, sequence, find_binding, elements, sequence_of, is_wildcard, wildcard_kind,
  single, any_count, substitute_impl,
}
use stocas.Rewrite.Value.{IsBound, bound_value, value-substitute_impl}

abbrev name_of : ℕ → List ℕ
name_of s = if s == 3 then 97 ∷ 95 ∷ [] else if s == 4 then 98 ∷ 95 ∷ 95 ∷ [] else 120 ∷ []

abbrev x : Atom ℤ
x = node (var 0) nil

abbrev y : Atom ℤ
y = node (var 1) nil

abbrev number : ℕ → Atom ℤ
number n = node (num (pos n)) nil

-- a_ is x + 1, and b__ is y, 7.
abbrev bindings : List (ℕ × BoundValue ℤ)
bindings =
    (3, atom (node add (cons (number 1) (cons x nil))))
    ∷ (4, sequence (cons y (cons (number 7) nil)))
    ∷ []

-- 2 a_ + a_ ^ 3 + f(b__) + y.
abbrev replacement : Atom ℤ
replacement = node add (
    cons (node mul (cons (node (var 3) nil) (cons (number 2) nil))) (
      cons (node pow (cons (node (var 3) nil) (cons (number 3) nil)))
        (cons (node (fun 20) (cons (node (var 4) nil) nil)) (cons y nil))))

abbrev env : ℕ → ℤ
env s = pos s

-- One trailing underscore, and three.
wildcard_kinds :
    (wildcard_kind (97 ∷ 95 ∷ []) ≡ some single)
    × (wildcard_kind (97 ∷ 95 ∷ 95 ∷ 95 ∷ []) ≡ some any_count)
unfolding wildcard_kind
wildcard_kinds = (refl, refl)

replacement-IsBound :
    IsBound integers integer_ring name_of bindings functions integer_ring meaning env replacement
unfolding find_binding elements sequence_of is_wildcard wildcard_kind
replacement-IsBound = ((tt, (tt, tt)), ((refl, (tt, (tt, tt))), ((tt, tt), (refl, tt))))

value-substitute_impl_example :
    (r : Atom ℤ) × (substitute_impl integers integer_ring name_of bindings replacement ≡ ok r)
    × (value integers integer_ring functions integer_ring meaning env r
        ≡ bound_value integers integer_ring name_of bindings functions integer_ring meaning env
            replacement)
value-substitute_impl_example =
    value-substitute_impl integers integer_ring name_of bindings functions integer_ring meaning env
      replacement replacement-IsBound
