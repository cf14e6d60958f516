-- ===== src/Matcher/Examples.antt =====
-- Runs of pattern_core/matcher.cc over the integers. The symbols 0 and 1 are x and y, 3 is a_, 4 is b__,
-- 20 is a function, and 21 one with the attribute `Symmetric`.
use stocas.Common.{arith, ℕ, ◌≡◌, refl, List, [], ◌∷◌, some, ◌==◌, if◌then◌else◌}
use stocas.Common.Int.{ℤ, pos}
use stocas.SymbolTable.Attributes.{SymbolAttribute}
use stocas.Algebra.Integers.{integer_ring}
use stocas.Polynomial.{ok, err, invalid_argument}
use stocas.Atom.{num, var, add, mul, pow, fun, Atom, node, nil, cons, compare_atoms}
use stocas.Atom.Builders.{sort_atoms}
use stocas.Derivative.IntegerMeaning.{integers, meaning, functions}
use stocas.Derivative.Value.{value}
use stocas.Rewrite.{atom, sequence, wildcard_kind, find_binding}
use stocas.Rewrite.Value.{bound_value}
use stocas.Matcher.{MatchBindings, max_attempts}
use stocas.Matcher.Impl.{match_impl}
use stocas.Matcher.Sound.{match_impl-bound_value}
use stocas.Matcher.Reflexive.{IsGround, match_impl_self}

abbrev name_of : ℕ → List ℕ
name_of s = if s == 3 then 97 ∷ 95 ∷ [] else if s == 4 then 98 ∷ 95 ∷ 95 ∷ [] else 120 ∷ []

abbrev attributes : ℕ → List SymbolAttribute
attributes s = if s == 21 then SymbolAttribute.symmetric ∷ [] else []

abbrev x : Atom ℤ
x = node (var 0) nil

abbrev y : Atom ℤ
y = node (var 1) nil

abbrev a_ : Atom ℤ
a_ = node (var 3) nil

abbrev b__ : Atom ℤ
b__ = node (var 4) nil

abbrev number : ℕ → Atom ℤ
number n = node (num (pos n)) nil

-- b__ + a_ ^ 2.
abbrev square_and_rest : Atom ℤ
square_and_rest = node add (cons b__ (cons (node pow (cons a_ (cons (number 2) nil))) nil))

-- 7 + y + x ^ 2.
abbrev target : Atom ℤ
target = node add (cons (number 7) (cons y (cons (node pow (cons x (cons (number 2) nil))) nil)))

abbrev found : MatchBindings ℤ
found = (4, sequence (cons (number 7) (cons y nil))) ∷ (3, atom x) ∷ []

target_matches : match_impl integers name_of attributes square_and_rest target [] ≡ ok (some found)
unfolding match_impl wildcard_kind find_binding compare_atoms max_attempts
target_matches = refl

-- A sequence wildcard is no pattern of its own.
lone_sequence : match_impl integers name_of attributes b__ target [] ≡ err invalid_argument
unfolding match_impl wildcard_kind find_binding
lone_sequence = refl

-- f(b__) * (f(b__) ^ 2) matches f(1, 2) * f(2, 1) ^ 2, though f depends on the order.
order_ignored :
    match_impl integers name_of attributes
      (node mul (
        cons
          (node (fun 20) (cons b__ nil))
          (cons (node pow (cons (node (fun 20) (cons b__ nil)) (cons (number 2) nil))) nil)))
      (node mul (
        cons (node (fun 20) (cons (number 1) (cons (number 2) nil))) (
          cons
            (node pow
              (cons (node (fun 20) (cons (number 2) (cons (number 1) nil))) (cons (number 2) nil)))
            nil)))
      []
    ≡ ok (some ((4, sequence (cons (number 1) (cons (number 2) nil))) ∷ []))
unfolding match_impl wildcard_kind find_binding compare_atoms sort_atoms max_attempts
order_ignored = refl

abbrev env : ℕ → ℤ
env s = pos s

match_impl-bound_value_example :
    bound_value integers integer_ring name_of found functions integer_ring meaning env
      square_and_rest
    ≡ value integers integer_ring functions integer_ring meaning env target
match_impl-bound_value_example =
    match_impl-bound_value integers integer_ring name_of attributes functions integer_ring meaning
      env square_and_rest target found (λ h vs ws e p. refl)
      (tt, ((tt, tt), ((tt, ((tt, tt), ((tt, tt), tt))), tt))) target_matches

target-IsGround : IsGround integers name_of attributes target
unfolding wildcard_kind max_attempts
target-IsGround =
    (omega arith, ((tt, tt), ((refl, tt), ((refl, ((refl, tt), ((tt, tt), tt))), tt))))

match_impl_self_example :
    match_impl integers name_of attributes target target found ≡ ok (some found)
match_impl_self_example = match_impl_self integers name_of attributes target found target-IsGround
