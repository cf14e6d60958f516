-- ===== src/Normalize/Examples.antt =====
-- Runs of atom_core/normalize.cc over the integers, in x and y, the symbols 0 and 1.
use stocas.Common.{ℕ, zero, suc, ◌≡◌, refl, sym, ap₂, ◌∙◌}
use stocas.Common.Int.{ℤ, pos, nat_abs, ◌+ℤ◌, ◌*ℤ◌}
use stocas.Algebra.Integers.{integer_ring, one-mul, mul_comm}
use stocas.Polynomial.Value.{pow as power}
use stocas.Atom.{num, var, add, mul, pow, Atom, node, nil, cons, compare_atoms}
use stocas.Derivative.IntegerMeaning.{integers, meaning, functions, raise}
use stocas.Derivative.Value.{value}
use stocas.Normalize.{normalize}
use stocas.Normalize.Products.{PowerLaws, AddsExponents}
use stocas.Normalize.Value.{CombinesPowers, value-normalize}

raise_one : (v : ℤ) → raise v (pos 1) ≡ v
raise_one v = mul_comm v (pos 1) ∙ one-mul v

laws : PowerLaws meaning
laws = record { raise_zero = λ v. refl; raise_one = raise_one }

power_one : (n : ℕ) → power integer_ring (pos 1) n ≡ pos 1
unfolding ◌*ℤ◌
power_one zero = refl
power_one (suc n) = rw (power_one n)

abbrev x : Atom ℤ
x = node (var 0) nil

abbrev number : ℕ → Atom ℤ
number n = node (num (pos n)) nil

-- 2 x + x * x ^ 2 * 3 + x + 5.
abbrev expr : Atom ℤ
expr = node add (
    cons (node mul (cons (number 2) (cons x nil))) (
      cons
        (node mul (cons x (cons (node pow (cons x (cons (number 2) nil))) (cons (number 3) nil))))
        (cons x (cons (number 5) nil))))

-- 5 + 3 x + 3 x ^ 3, in the order of expressions.
expr_normalized :
    normalize integers integer_ring expr
    ≡ node add (
        cons (number 5) (
          cons (node mul (cons (number 3) (cons x nil))) (
            cons
              (node mul (cons (number 3) (cons (node pow (cons x (cons (number 3) nil))) nil)))
              nil)))
unfolding normalize compare_atoms ◌+ℤ◌ ◌*ℤ◌
expr_normalized = refl

abbrev env : ℕ → ℤ
env s = pos 1

one_adds : AddsExponents integers integer_ring functions integer_ring meaning env (pos 1)
unfolding ◌*ℤ◌
one_adds c d =
    power_one (nat_abs (c +ℤ d)) ∙ sym (ap₂ ◌*ℤ◌ (power_one (nat_abs c)) (power_one (nat_abs d)))

expr-CombinesPowers : CombinesPowers integers integer_ring functions integer_ring meaning env expr
unfolding normalize
expr-CombinesPowers = (
  tt,
  (
    ((one_adds, tt), ((tt, tt), ((tt, tt), tt))),
    (
      ((one_adds, (one_adds, tt)), ((tt, tt), ((tt, ((tt, tt), ((tt, tt), tt))), ((tt, tt), tt)))),
      ((tt, tt), ((tt, tt), tt)),
    ),
  ),
)

value-normalize_example :
    value integers integer_ring functions integer_ring meaning env
      (normalize integers integer_ring expr)
    ≡ value integers integer_ring functions integer_ring meaning env expr
value-normalize_example =
    value-normalize integers integer_ring functions integer_ring meaning env laws expr
      expr-CombinesPowers
