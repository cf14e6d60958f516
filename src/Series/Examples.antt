-- ===== src/Series/Examples.antt =====
-- Runs of series.hh.
use stocas.Common.{◌≡◌, refl, Option, some, [], ◌∷◌, arith}
use stocas.Common.Int.{ℤ, pos, negsuc, ◌+ℤ◌, ◌-ℤ◌, ◌*ℤ◌, tdiv}
use stocas.Polynomial.{Result, ok, err, invalid_argument, domain_error}
use stocas.Atom.{num, var, add, mul, pow, fun, Atom, node, nil, cons}
use stocas.Derivative.{Functions}
use stocas.HyperDual.{HyperDual}
use stocas.HyperDual.Whole.{whole}
use stocas.Series.{Series, integer_power, taylor_series, evaluate}
use stocas.Series.Power.{PowerOutcome, integer_power-IsProduct}
use stocas.Series.Order.{SameSeries, taylor_series-orders}

-- 1 + x + 2x^2.
abbrev base : HyperDual ℤ
base = pos 1 ∷ pos 1 ∷ pos 2 ∷ []

integer_power-IsProduct_example : PowerOutcome whole 2 base (negsuc 2)
integer_power-IsProduct_example = integer_power-IsProduct whole 2 base (negsuc 2)

cube_run : integer_power whole 2 base (pos 3) ≡ ok (pos 1 ∷ pos 3 ∷ pos 9 ∷ [])
unfolding integer_power ◌+ℤ◌ ◌*ℤ◌
cube_run = refl

inverse_run : integer_power whole 2 base (negsuc 0) ≡ ok (pos 1 ∷ negsuc 0 ∷ negsuc 0 ∷ [])
unfolding integer_power ◌+ℤ◌ ◌-ℤ◌ ◌*ℤ◌ tdiv
inverse_run = refl

abbrev functions : Functions
functions = record { sin = 10; cos = 11; exp = 12; ln = 13 }

abbrev integer : ℤ → Option ℤ
integer n = some n

abbrev series_of : Atom ℤ → ℤ → Result (Series ℤ)
series_of expr point = taylor_series whole 2 (λ n. n) integer functions expr 0 point

abbrev x : Atom ℤ
x = node (var 0) nil

-- x^2 * sin x + 3.
abbrev expression : Atom ℤ
expression = node add (
    cons
      (node mul (
        cons (node pow (cons x (cons (node (num (pos 2)) nil) nil)))
          (cons (node (fun 10) (cons x nil)) nil)))
      (cons (node (num (pos 3)) nil) nil))

taylor_series-orders_example :
    SameSeries whole 2 5
      (omega arith)
      (λ n. n)
      integer
      functions
      (taylor_series whole 2 (λ n. n) integer functions expression 0 (pos 1))
      (taylor_series whole 5 (λ n. n) integer functions expression 0 (pos 1))
taylor_series-orders_example =
    taylor_series-orders whole 2 5 (omega arith) (λ n. n) integer functions expression 0 (pos 1)

-- x^2 at 3.
square_run :
    series_of (node pow (cons x (cons (node (num (pos 2)) nil) nil))) (pos 3)
    ≡ ok (record { point = pos 3; coefficients = pos 9 ∷ pos 6 ∷ pos 1 ∷ [] })
unfolding taylor_series ◌+ℤ◌ ◌*ℤ◌
square_run = refl

other_variable_run :
    series_of (node add (cons x (cons (node (var 1) nil) nil))) (pos 3) ≡ err invalid_argument
unfolding taylor_series
other_variable_run = refl

logarithm_run : series_of (node (fun 13) (cons x nil)) (negsuc 0) ≡ err domain_error
unfolding taylor_series
logarithm_run = refl

-- 9 + 6 (x - 3) + (x - 3)^2 at 5.
evaluate_run :
    evaluate whole 2 (record { point = pos 3; coefficients = pos 9 ∷ pos 6 ∷ pos 1 ∷ [] }) (pos 5)
    ≡ pos 25
unfolding evaluate ◌+ℤ◌ ◌-ℤ◌ ◌*ℤ◌
evaluate_run = refl
