-- ===== src/Series.antt =====
-- src/calculus_core/include/calculus_core/series.hh: Taylor series of expressions, over the series of
-- HyperDual. An exponent of a power is an integer where `integer_exponent` gives one.
pub mod Power
pub mod Order
mod Examples
use stocas.Common.{
  ℕ, zero, suc, ◌-◌, ◌/◌, ◌%◌, Bool, true, false, List, [], ◌∷◌, Option, none, some, ◌==◌, leb,
  if◌then◌else◌,
}
use stocas.Common.Int.{ℤ, pos, negsuc}
use stocas.Polynomial.{Result, ok, err, and_then, invalid_argument, out_of_range, domain_error}
use stocas.Atom.{Kind, num, var, add, mul, pow, fun, Atom, node, Atoms, nil, cons}
use stocas.Derivative.{Functions}
use stocas.HyperDual
use stocas.HyperDual.{DualScalar, HyperDual, coefficient, constant, variable}

pub record Series (F : Type 0) : Type 0 where
  pub point : F
  pub coefficients : List F

-- What HyperDual throws.
abbrev pub or_domain_error : {A : Type 0} → Option A → Result A
or_domain_error none = err domain_error
or_domain_error (some a) = ok a

module _ {F : Type 0} (scalar : DualScalar F) (order : ℕ) where
  -- Series.coefficient, which checks its index.
  unfoldable pub series_coefficient : Series F → ℕ → Result F
  unfolding coefficient
  series_coefficient s k =
      if leb k order then ok (coefficient scalar s.coefficients k) else err out_of_range

  -- The loop of evaluate, with the rounds that are left.
  unfoldable pub horner : List F → F → F → ℕ → F
  unfolding coefficient
  horner coefficients delta result zero = result
  horner coefficients delta result (suc k) =
      horner coefficients delta
        (scalar.add (scalar.mul result delta) (coefficient scalar coefficients k)) k

  unfoldable pub evaluate : Series F → F → F
  unfolding horner
  evaluate s x =
      horner s.coefficients (scalar.sub x s.point) (coefficient scalar s.coefficients order) order

  -- The loop of integer_power; the magnitude is at most the rounds that are left.
  unfoldable pub power_loop : ℕ → HyperDual F → HyperDual F → ℕ → HyperDual F
  unfolding HyperDual.mul
  power_loop zero result power magnitude = result
  power_loop (suc rounds) result power magnitude =
      let result' : HyperDual F =
        if magnitude % 2 == 1 then HyperDual.mul scalar order result power else result in
      let rest : HyperDual F =
        power_loop rounds result' (HyperDual.mul scalar order power power) (magnitude / 2) in
      if magnitude == 0 then result else rest

  unfoldable pub integer_power : HyperDual F → ℤ → Result (HyperDual F)
  unfolding power_loop HyperDual.div constant
  integer_power base (pos n) = ok (power_loop n (constant scalar order (scalar.number 1)) base n)
  integer_power base (negsuc n) =
      let one : HyperDual F = constant scalar order (scalar.number 1) in
      or_domain_error (HyperDual.div scalar order one (power_loop (suc n) one base (suc n)))

  unfoldable pub accumulate :
      (HyperDual F → HyperDual F → HyperDual F)
      → HyperDual F
      → List (Result (HyperDual F))
      → Result (HyperDual F)
  accumulate op total [] = ok total
  accumulate op total (err e ∷ rest) = err e
  accumulate op total (ok h ∷ rest) = accumulate op (op total h) rest

  module _ {N : Type 0} (from_number : N → F) (integer_exponent : N → Option ℤ)
      (functions : Functions) where
    unfoldable pub general_power : HyperDual F → Result (HyperDual F) → Result (HyperDual F)
    unfolding HyperDual.exp HyperDual.mul HyperDual.log
    general_power base exponent = and_then exponent (λ e.
        and_then (or_domain_error (HyperDual.log scalar order base))
          (λ l. ok (HyperDual.exp scalar order (HyperDual.mul scalar order e l))))

    unfoldable pub number_power :
        HyperDual F → Result (HyperDual F) → Option ℤ → Result (HyperDual F)
    unfolding integer_power general_power
    number_power base exponent none = general_power base exponent
    number_power base exponent (some n) = integer_power base n

    unfoldable pub power_of : Atom N → Result (HyperDual F) → HyperDual F → Result (HyperDual F)
    unfolding number_power
    power_of (node (num c) ts) exponent base = number_power base exponent (integer_exponent c)
    power_of (node k ts) exponent base = general_power base exponent

    unfoldable pub apply_function : ℕ → HyperDual F → Result (HyperDual F)
    unfolding HyperDual.sin HyperDual.cos HyperDual.exp HyperDual.log
    apply_function head arg =
        if head == functions.sin
        then ok (HyperDual.sin scalar order arg)
        else if head == functions.cos
        then ok (HyperDual.cos scalar order arg)
        else if head == functions.exp
        then ok (HyperDual.exp scalar order arg)
        else if head == functions.ln
        then or_domain_error (HyperDual.log scalar order arg)
        else err invalid_argument

    -- The switch, with the children's results; a power has two children.
    unfoldable pub evaluate_kind :
        ℕ → HyperDual F → Kind N → Atoms N → List (Result (HyperDual F)) → Result (HyperDual F)
    unfolding accumulate power_of apply_function HyperDual.add HyperDual.mul constant
    evaluate_kind v x (num c) ts rs = ok (constant scalar order (from_number c))
    evaluate_kind v x (var s) ts rs = if s == v then ok x else err invalid_argument
    evaluate_kind v x add ts rs =
        accumulate (HyperDual.add scalar order) (constant scalar order (scalar.number 0)) rs
    evaluate_kind v x mul ts rs =
        accumulate (HyperDual.mul scalar order) (constant scalar order (scalar.number 1)) rs
    evaluate_kind v x pow (cons b (cons e ts)) (base ∷ exponent ∷ rs) =
        and_then base (power_of e exponent)
    evaluate_kind v x pow ts rs = err out_of_range
    evaluate_kind v x (fun head) ts (arg ∷ []) = and_then arg (apply_function head)
    evaluate_kind v x (fun head) ts rs = err invalid_argument

    unfoldable mutual
      unfolding evaluate_kind

      pub evaluate_hyper_dual : ℕ → HyperDual F → Atom N → Result (HyperDual F)
      evaluate_hyper_dual v x (node k ts) = evaluate_kind v x k ts (evaluate_children v x ts)

      pub evaluate_children : ℕ → HyperDual F → Atoms N → List (Result (HyperDual F))
      evaluate_children v x nil = []
      evaluate_children v x (cons t ts) = evaluate_hyper_dual v x t ∷ evaluate_children v x ts

    unfoldable pub taylor_series : Atom N → ℕ → F → Result (Series F)
    unfolding evaluate_hyper_dual variable
    taylor_series expr v point =
        and_then (evaluate_hyper_dual v (variable scalar order point) expr)
          (λ h. ok (record { point = point; coefficients = h }))
