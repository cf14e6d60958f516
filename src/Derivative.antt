-- ===== src/Derivative.antt =====
-- calculus_core/derivative.cc: symbolic differentiation of expressions, with a registry of hooks
-- that give the partial derivatives of functions. The builders of the store are those of
-- expressions, as atom_core/atom.cc implements them; a symbol is its id.
pub mod Value
pub mod Rules
pub mod Correct
pub mod Registry
pub mod IntegerMeaning
mod Examples
use stocas.Common.{
  ℕ, zero, suc, Bool, true, false, not, ◌&&◌, List, [], ◌∷◌, Option, none, some, ◌==◌,
  if◌then◌else◌,
}
use stocas.Algebra.{Ring}
use stocas.Polynomial.{Result, ok, err, invalid_argument, logic_error, out_of_range}
use stocas.Atom.{Numbers, Kind, num, var, add, mul, pow, fun, Atom, node, Atoms, nil, cons}
use stocas.Atom.Builders.{canonical, append_atoms}
use stocas.Atom.Builders.Views.{count_atoms}

-- The ids of sin_symbol(), cos_symbol(), exp_symbol() and ln_symbol().
pub record Functions : Type 0 where
  pub sin : ℕ
  pub cos : ℕ
  pub exp : ℕ
  pub ln : ℕ

-- A hook gives the partial derivatives in its arguments, or throws.
abbrev pub DerivativeHook : Type 0 → Type 0
DerivativeHook N = Atoms N → Result (Atoms N)

-- `hooks_`, a map from heads, with the flag of ensure_builtin_hooks_registered.
pub record HookRegistry (N : Type 0) : Type 0 where
  pub hooks : List (ℕ × DerivativeHook N)
  pub registered : Bool

unfoldable pub get_hook : {N : Type 0} → ℕ → List (ℕ × DerivativeHook N) → Option (DerivativeHook N)
get_hook head [] = none
get_hook head ((h, hook) ∷ rest) = if h == head then some hook else get_hook head rest

unfoldable pub set_hook :
    {N : Type 0} → ℕ → DerivativeHook N → List (ℕ × DerivativeHook N) → List (ℕ × DerivativeHook N)
set_hook head hook [] = (head, hook) ∷ []
set_hook head hook ((h, old) ∷ rest) =
    if h == head then (head, hook) ∷ rest else (h, old) ∷ set_hook head hook rest

unfoldable pub register_derivative_hook :
    {N : Type 0} → HookRegistry N → ℕ → DerivativeHook N → HookRegistry N
unfolding set_hook
register_derivative_hook registry head hook = record registry {
  hooks = set_hook head hook registry.hooks;
}

module _ {N : Type 0} (numbers : Numbers N) (scalars : Ring N) (functions : Functions) where
  open numbers use {equal_numbers}

  abbrev pub number : N → Atom N
  number c = node (num c) nil

  abbrev pub sum : Atoms N → Atom N
  sum ts = canonical numbers add ts

  abbrev pub product : Atoms N → Atom N
  product ts = canonical numbers mul ts

  abbrev pub power : Atom N → Atom N → Atom N
  power base exponent = node pow (cons base (cons exponent nil))

  abbrev pub call : ℕ → Atom N → Atom N
  call head arg = node (fun head) (cons arg nil)

  abbrev pub minus_one : Atom N
  minus_one = number (scalars.neg scalars.one)

  unfoldable pub is_zero : Atom N → Bool
  is_zero (node (num c) ts) = equal_numbers c scalars.zero
  is_zero (node k ts) = false

  -- The hooks of register_builtin_hooks.
  unfoldable pub one_argument : (Atom N → Atom N) → DerivativeHook N
  one_argument partial (cons arg nil) = ok (cons (partial arg) nil)
  one_argument partial args = err invalid_argument

  unfoldable pub register_builtin_hooks : List (ℕ × DerivativeHook N) → List (ℕ × DerivativeHook N)
  unfolding one_argument set_hook
  register_builtin_hooks hooks = set_hook functions.ln (one_argument (λ x. power x minus_one)) (
      set_hook functions.exp (one_argument (λ x. call functions.exp x)) (
        set_hook functions.cos
          (one_argument (λ x. product (cons minus_one (cons (call functions.sin x) nil))))
          (set_hook functions.sin (one_argument (λ x. call functions.cos x)) hooks)))

  unfoldable pub ensure_builtin_hooks_registered : HookRegistry N → HookRegistry N
  unfolding register_builtin_hooks
  ensure_builtin_hooks_registered registry =
      if registry.registered
      then registry
      else record { hooks = register_builtin_hooks registry.hooks; registered = true }

  -- The product rule: for each factor its derivative with the other factors, in order.
  unfoldable pub product_terms : Atoms N → Atoms N → Atoms N → Atoms N
  product_terms before (cons t ts) (cons d ds) =
      cons (product (cons d (append_atoms before ts)))
        (product_terms (append_atoms before (cons t nil)) ts ds)
  product_terms before ts ds = nil

  -- `exponent - 1`, folded for a number.
  unfoldable pub minus_one_from : Atom N → Atom N
  minus_one_from (node (num e) ts) = number (scalars.sub e scalars.one)
  minus_one_from (node k ts) = sum (cons (node k ts) (cons minus_one nil))

  unfoldable pub derivative_pow : Atom N → Atom N → Atom N → Atom N → Atom N
  unfolding is_zero minus_one_from
  derivative_pow base exponent base_derivative exponent_derivative =
      if is_zero base_derivative && is_zero exponent_derivative
      then number scalars.zero
      else if is_zero exponent_derivative
      then product
          (cons exponent (cons (power base (minus_one_from exponent)) (cons base_derivative nil)))
      else if is_zero base_derivative
      then product (
          cons (power base exponent) (cons (call functions.ln base) (cons exponent_derivative nil)))
      else product (
          cons (power base exponent) (
            cons
              (sum (
                cons (product (cons exponent_derivative (cons (call functions.ln base) nil))) (
                  cons
                    (product
                      (cons exponent (cons base_derivative (cons (power base minus_one) nil))))
                    nil)))
              nil))

  -- The chain rule's terms.
  unfoldable pub chain_terms : Atoms N → Atoms N → Atoms N
  chain_terms (cons p ps) (cons d ds) = cons (product (cons p (cons d nil))) (chain_terms ps ds)
  chain_terms ps ds = nil

  -- After the hook has run, and with the derivatives of the arguments.
  unfoldable pub chain_rule : Atoms N → Atoms N → Result (Atoms N) → Result (Atom N)
  unfolding chain_terms
  chain_rule args partials derivatives =
      if count_atoms partials == count_atoms args
      then elim args [
        | nil ↦ ok (number scalars.zero)
        | cons a as_rest ↦ elim derivatives [
          | err e ↦ err e
          | ok ds ↦ ok (sum (chain_terms partials ds))
        ]
      ]
      else err logic_error

  unfoldable pub derivative_fun :
      List (ℕ × DerivativeHook N) → ℕ → Atoms N → Result (Atoms N) → Result (Atom N)
  unfolding get_hook chain_rule
  derivative_fun hooks head args derivatives = elim (get_hook head hooks) [
    | none ↦ err invalid_argument
    | some hook ↦ elim (hook args) [
      | err e ↦ err e
      | ok partials ↦ chain_rule args partials derivatives
    ]
  ]

  -- The rules, with the derivatives of the children, which are taken in order.
  unfoldable pub by_kind :
      List (ℕ × DerivativeHook N) → ℕ → Kind N → Atoms N → Result (Atoms N) → Result (Atom N)
  unfolding product_terms derivative_pow derivative_fun
  by_kind hooks variable (num c) ts derivatives = ok (number scalars.zero)
  by_kind hooks variable (var s) ts derivatives =
      ok (number (if s == variable then scalars.one else scalars.zero))
  by_kind hooks variable add ts (err e) = err e
  by_kind hooks variable add ts (ok ds) = ok (sum ds)
  by_kind hooks variable mul ts (err e) = err e
  by_kind hooks variable mul ts (ok ds) = ok (sum (product_terms nil ts ds))
  by_kind hooks variable pow (cons base (cons exponent ts)) (ok (cons d (cons e ds))) =
      ok (derivative_pow base exponent d e)
  by_kind hooks variable pow (cons base (cons exponent ts)) (err e) = err e
  by_kind hooks variable pow ts derivatives = err out_of_range
  by_kind hooks variable (fun head) ts derivatives = derivative_fun hooks head ts derivatives

  -- The first failure decides.
  abbrev pub prepend : Result (Atom N) → Result (Atoms N) → Result (Atoms N)
  prepend (err e) ds = err e
  prepend (ok d) (err e) = err e
  prepend (ok d) (ok ds) = ok (cons d ds)

  unfoldable mutual
    unfolding by_kind

    pub derivative_impl : List (ℕ × DerivativeHook N) → ℕ → Atom N → Result (Atom N)
    derivative_impl hooks variable (node k ts) =
        by_kind hooks variable k ts (derivative_all hooks variable ts)

    pub derivative_all : List (ℕ × DerivativeHook N) → ℕ → Atoms N → Result (Atoms N)
    derivative_all hooks variable nil = ok nil
    derivative_all hooks variable (cons t ts) =
        prepend (derivative_impl hooks variable t) (derivative_all hooks variable ts)

  unfoldable pub derivative : HookRegistry N → Atom N → ℕ → HookRegistry N × Result (Atom N)
  unfolding ensure_builtin_hooks_registered derivative_impl
  derivative registry expr variable =
      let registry' = ensure_builtin_hooks_registered registry in
      (registry', derivative_impl registry'.hooks variable expr)
