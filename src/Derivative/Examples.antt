-- ===== src/Derivative/Examples.antt =====
-- Runs of calculus_core/derivative.cc over the integers.
use stocas.Common.{ℕ, ◌≡◌, refl, false, [], some, if◌then◌else◌, ◌==◌}
use stocas.Common.Int.{ℤ, pos, ◌*ℤ◌, ◌-ℤ◌, neg_ℤ}
use stocas.Algebra.Integers.{integer_ring}
use stocas.Polynomial.{ok, err, invalid_argument}
use stocas.Atom.{num, var, add, mul, pow, fun, Atom, node, nil, cons}
use stocas.Derivative.{
  DerivativeHook, HookRegistry, derivative, ensure_builtin_hooks_registered, get_hook,
  register_derivative_hook, one_argument, call,
}
use stocas.Derivative.IntegerMeaning.{integers, meaning, functions}
use stocas.Derivative.Value.{value, tangent, IsDifferentiable}
use stocas.Derivative.Correct.{derivative-tangent}
use stocas.Derivative.Registry.{early_hook_lost}

abbrev fresh : HookRegistry ℤ
fresh = record { hooks = []; registered = false }

abbrev x : Atom ℤ
x = node (var 0) nil

abbrev y : Atom ℤ
y = node (var 1) nil

-- x * x * y + x ^ 3 + sin(x).
abbrev expr : Atom ℤ
expr = node add (
    cons (node mul (cons x (cons x (cons y nil)))) (
      cons (node pow (cons x (cons (node (num (pos 3)) nil) nil)))
        (cons (node (fun 10) (cons x nil)) nil)))

abbrev env : ℕ → ℤ
env s = if s == 0 then pos 1 else pos 5

expr-IsDifferentiable :
    IsDifferentiable integers integer_ring functions integer_ring meaning env
      (ensure_builtin_hooks_registered integers integer_ring functions fresh).hooks
      expr
unfolding ensure_builtin_hooks_registered get_hook ◌*ℤ◌ ◌-ℤ◌ neg_ℤ
expr-IsDifferentiable = (
  tt,
  (
    (tt, ((tt, tt), ((tt, tt), ((tt, tt), tt)))),
    ((refl, ((tt, tt), ((tt, tt), tt))), (((_, _, refl, refl, refl, refl), ((tt, tt), tt)), tt)),
  ),
)

derivative-tangent_example :
    (r : Atom ℤ) × ((derivative integers integer_ring functions fresh expr 0).1 ≡ ok r)
    × (value integers integer_ring functions integer_ring meaning env r
        ≡ tangent integers integer_ring functions integer_ring meaning env 0 expr)
derivative-tangent_example =
    derivative-tangent integers integer_ring functions integer_ring meaning env fresh expr 0
      expr-IsDifferentiable

-- A hook that always throws.
abbrev refuses : DerivativeHook ℤ
refuses args = err invalid_argument

early_hook_lost_example :
    get_hook 10
      (ensure_builtin_hooks_registered integers integer_ring functions
        (register_derivative_hook fresh 10 refuses)).hooks
    ≡ some (
        one_argument integers integer_ring functions
          (λ t. call integers integer_ring functions 11 t))
early_hook_lost_example =
    early_hook_lost integers integer_ring functions fresh refuses refl (λ e. cc) (λ e. cc) (λ e. cc)
