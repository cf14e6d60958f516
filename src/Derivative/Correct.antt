-- ===== src/Derivative/Correct.antt =====
-- calculus_core/derivative.cc returns a derivative, and it stands for the forward-mode derivative.
use stocas.Common.{
  ℕ, suc, ◌≡◌, refl, ap, ap₂, ◌∙◌, List, ◌∷◌, ◌==◌, ==_iff, inl, inr, Bool-cases, arith,
}
use stocas.Algebra.{Ring}
use stocas.Polynomial.{Result, ok}
use stocas.Atom.{Numbers, Kind, num, var, add, mul, pow, fun, Atom, node, Atoms, nil, cons}
use stocas.Atom.Builders.Views.{count_atoms}
use stocas.Derivative.{
  Functions, DerivativeHook, product_terms, chain_terms, chain_rule, derivative_fun, by_kind,
  derivative_impl, derivative_all, sum, number, prepend, HookRegistry,
  ensure_builtin_hooks_registered, derivative,
}
use stocas.Derivative.Value.{
  Meaning, value, dot, tangent, tangents, tangent_kind, Allowed, IsDifferentiable,
  AllDifferentiable, value-sum,
}
use stocas.Derivative.Rules.{
  meant, meant_all, added, value-product_terms, value-derivative_pow, product_two,
}

module _ {N V : Type 0} (numbers : Numbers N) (scalars : Ring N) (functions : Functions)
    (ring : Ring V) (meaning : Meaning N V scalars ring) (env : ℕ → V) where
  abbrev means : Atom N → V
  means t = meant numbers scalars functions ring meaning env t

  abbrev means_all : Atoms N → List V
  means_all ts = meant_all numbers scalars functions ring meaning env ts

  value-chain_terms :
      (ps ds : Atoms N)
      → added numbers scalars functions ring meaning env
          (means_all (chain_terms numbers scalars functions ps ds))
        ≡ dot numbers scalars functions ring meaning env (means_all ps) (means_all ds)
  unfolding chain_terms
  value-chain_terms nil ds = refl
  value-chain_terms (cons p ps) nil = refl
  value-chain_terms (cons p ps) (cons d ds) =
      ap₂ ring.add (product_two numbers scalars functions ring meaning env p d)
        (value-chain_terms ps ds)

  no_partials : (ps : Atoms N) → count_atoms ps ≡ 0 → ps ≡ nil
  no_partials nil h = refl
  no_partials (cons p ps) h = absurd (omega arith)

  module _ (hooks : List (ℕ × DerivativeHook N)) (variable : ℕ) where
    -- A derivative that exists and stands for a value.
    abbrev Gives : Result (Atom N) → V → Type 0
    Gives result v = (r : Atom N) × (result ≡ ok r) × (means r ≡ v)

    chain_rule-Gives :
        (args ps ds : Atoms N)
        → count_atoms ps ≡ count_atoms args
        → Gives
            (chain_rule numbers scalars functions args ps (ok ds))
            (dot numbers scalars functions ring meaning env (means_all ps) (means_all ds))
    unfolding chain_rule
    chain_rule-Gives nil ps ds count =
        let empty = no_partials ps count in
        (
          number numbers scalars functions scalars.zero,
          rw ((==_iff (count_atoms ps) 0).1 count),
          rw empty meaning.constant_zero,
        )
    chain_rule-Gives (cons a args) ps ds count = (
      sum numbers scalars functions (chain_terms numbers scalars functions ps ds),
      rw ((==_iff (count_atoms ps) (suc (count_atoms args))).1 count),
      value-sum numbers scalars functions ring meaning env
            (chain_terms numbers scalars functions ps ds)
          ∙ value-chain_terms ps ds,
    )

    by_kind-Gives :
        (k : Kind N) (ts ds : Atoms N)
        → Allowed numbers scalars functions ring meaning env hooks k ts
        → count_atoms ds ≡ count_atoms ts
        → Gives (by_kind numbers scalars functions hooks variable k ts (ok ds)) (
            tangent_kind numbers scalars functions ring meaning env variable k
              (means_all ts)
              (means_all ds))
    unfolding by_kind
    by_kind-Gives (num c) ts ds allowed count = (_, refl, meaning.constant_zero)
    by_kind-Gives (var s) ts ds allowed count = elim (Bool-cases (s == variable)) [
      | inl same ↦ (_, refl, rw same meaning.constant_one)
      | inr other ↦ (_, refl, rw other meaning.constant_zero)
    ]
    by_kind-Gives add ts ds allowed count =
        (_, refl, value-sum numbers scalars functions ring meaning env ds)
    by_kind-Gives mul ts ds allowed count = (
      _,
      refl,
      value-sum numbers scalars functions ring meaning env
            (product_terms numbers scalars functions nil ts ds)
          ∙ value-product_terms numbers scalars functions ring meaning env nil ts ds
          ∙ ring.one-mul _,
    )
    by_kind-Gives pow nil ds allowed count = absurd allowed
    by_kind-Gives pow (cons b nil) ds allowed count = absurd allowed
    by_kind-Gives pow (cons b (cons e nil)) nil allowed count = absurd (omega arith)
    by_kind-Gives pow (cons b (cons e nil)) (cons b' nil) allowed count = absurd (omega arith)
    by_kind-Gives pow (cons b (cons e nil)) (cons b' (cons e' nil)) allowed count =
        (_, refl, value-derivative_pow numbers scalars functions ring meaning env b e b' e' allowed)
    by_kind-Gives pow (cons b (cons e nil)) (cons b' (cons e' (cons d ds))) allowed count =
        absurd (omega arith)
    by_kind-Gives pow (cons b (cons e (cons t ts))) ds allowed count = absurd allowed
    by_kind-Gives (fun h) ts ds (hook, ps, found, given, enough, slopes) count =
        let (r, made, right) = chain_rule-Gives ts ps ds enough in
        (
          r,
          rw (found, derivative_fun, given) made,
          right
              ∙ ap (λ vs. dot numbers scalars functions ring meaning env vs (means_all ds)) slopes,
        )

    mutual
      unfolding derivative_impl derivative_all

      impl-Gives :
          (e : Atom N)
          → IsDifferentiable numbers scalars functions ring meaning env hooks e
          → Gives
              (derivative_impl numbers scalars functions hooks variable e)
              (tangent numbers scalars functions ring meaning env variable e)
      impl-Gives (node k ts) (allowed, all) =
          let (ds, found, count, same) = all-Gives ts all in
          let (r, made, right) = by_kind-Gives k ts ds allowed count in
          (
            r,
            ap (by_kind numbers scalars functions hooks variable k ts) found ∙ made,
            right
                ∙ ap
                    (tangent_kind numbers scalars functions ring meaning env variable k
                      (means_all ts))
                    same,
          )

      all-Gives :
          (ts : Atoms N)
          → AllDifferentiable numbers scalars functions ring meaning env hooks ts
          → (ds : Atoms N) × (derivative_all numbers scalars functions hooks variable ts ≡ ok ds)
            × (count_atoms ds ≡ count_atoms ts)
            × (means_all ds ≡ tangents numbers scalars functions ring meaning env variable ts)
      all-Gives nil h = (nil, refl, refl, refl)
      all-Gives (cons t ts) (h, hs) =
          let (d, found, right) = impl-Gives t h in
          let (ds, found', count, same) = all-Gives ts hs in
          (
            cons d ds,
            ap₂ (prepend numbers scalars functions) found found',
            ap suc count,
            ap₂ (λ v vs. v ∷ vs) right same,
          )

  -- For an expression whose powers have a base and an exponent, and for each of whose calls the
  -- registry, with the builtin hooks, has a hook whose partial derivatives are one for each
  -- argument and stand for the slopes of the function, derivative returns an expression, and its
  -- value is the forward-mode derivative of the value of the expression. The value is taken in a
  -- ring with constants, powers and functions where, for the base a and exponent b of each
  -- power, a to the b - 1 is a to the b times a to the -1.
  pub derivative-tangent :
      (registry : HookRegistry N) (e : Atom N) (variable : ℕ)
      → IsDifferentiable numbers scalars functions ring meaning env
          (ensure_builtin_hooks_registered numbers scalars functions registry).hooks
          e
      → (r : Atom N) × ((derivative numbers scalars functions registry e variable).1 ≡ ok r)
        × (value numbers scalars functions ring meaning env r
            ≡ tangent numbers scalars functions ring meaning env variable e)
  unfolding derivative
  derivative-tangent registry e variable h =
      impl-Gives (ensure_builtin_hooks_registered numbers scalars functions registry).hooks variable
        e h
