-- ===== src/Derivative/Rules.antt =====
-- The rules of calculus_core/derivative.cc against forward-mode derivatives.
use stocas.Common.{ℕ, ◌≡◌, sym, ap, ap₂, ◌∙◌, true, List, [], ◌∷◌, inl, inr, Bool-cases}
use stocas.Algebra.{Ring}
use stocas.Algebra.Laws.{add-zero, zero-mul, mul-zero, mul-one, mul_left_comm}
use stocas.Atom.{Numbers, num, var, add, mul, pow, fun, Atom, node, Atoms, nil, cons}
use stocas.Atom.Builders.{canonical, append_atoms}
use stocas.Derivative.{
  Functions, is_zero, product_terms, minus_one_from, minus_one, derivative_pow, power, call,
}
use stocas.Atom.Builders.Folds.{fold}
use stocas.Derivative.Value.{
  Meaning, value, values, leibniz, raise_slope, LowersPower, value-sum, value-product,
  multiply-append,
}

module _ {N V : Type 0} (numbers : Numbers N) (scalars : Ring N) (functions : Functions)
    (ring : Ring V) (meaning : Meaning N V scalars ring) (env : ℕ → V) where
  open meaning use {constant, raise, apply, slopes}
  open ring use {add as plus, mul as times}

  abbrev pub meant : Atom N → V
  meant t = value numbers scalars functions ring meaning env t

  abbrev pub meant_all : Atoms N → List V
  meant_all ts = values numbers scalars functions ring meaning env ts

  abbrev pub multiplied : List V → V
  multiplied vs = fold times ring.one vs

  abbrev pub added : List V → V
  added vs = fold plus ring.zero vs

  pub product_two :
      (a b : Atom N)
      → meant (canonical numbers mul (cons a (cons b nil))) ≡ times (meant a) (meant b)
  product_two a b =
      value-product numbers scalars functions ring meaning env (cons a (cons b nil))
      ∙ ap (times (meant a)) (mul-one ring (meant b))

  product_three :
      (a b c : Atom N)
      → meant (canonical numbers mul (cons a (cons b (cons c nil))))
        ≡ times (meant a) (times (meant b) (meant c))
  product_three a b c =
      value-product numbers scalars functions ring meaning env (cons a (cons b (cons c nil)))
      ∙ ap (λ t. times (meant a) (times (meant b) t)) (mul-one ring (meant c))

  sum_two :
      (a b : Atom N)
      → meant (canonical numbers add (cons a (cons b nil))) ≡ plus (meant a) (meant b)
  sum_two a b =
      value-sum numbers scalars functions ring meaning env (cons a (cons b nil))
      ∙ ap (plus (meant a)) (add-zero ring (meant b))

  value-is_zero : (t : Atom N) → is_zero numbers scalars functions t ≡ true → meant t ≡ ring.zero
  unfolding is_zero
  value-is_zero (node (num c) ts) h =
      ap constant ((numbers.equal_iff c scalars.zero).0 h) ∙ meaning.constant_zero
  value-is_zero (node (var s) ts) h = cc
  value-is_zero (node add ts) h = cc
  value-is_zero (node mul ts) h = cc
  value-is_zero (node pow ts) h = cc
  value-is_zero (node (fun s) ts) h = cc

  pub value-product_terms :
      (before ts ds : Atoms N)
      → added (meant_all (product_terms numbers scalars functions before ts ds))
        ≡ times
            (multiplied (meant_all before))
            (leibniz numbers scalars functions ring meaning env (meant_all ts) (meant_all ds))
  unfolding product_terms
  value-product_terms before nil ds = sym (mul-zero ring _)
  value-product_terms before (cons t ts) nil = sym (mul-zero ring _)
  value-product_terms before (cons t ts) (cons d ds) =
      let done = multiplied (meant_all before) in
      let rest = multiplied (meant_all ts) in
      let later =
        leibniz numbers scalars functions ring meaning env (meant_all ts) (meant_all ds) in
      let first =
        value-product numbers scalars functions ring meaning env (cons d (append_atoms before ts))
        ∙ ap (times (meant d))
            (multiply-append numbers scalars functions ring meaning env before ts)
        ∙ mul_left_comm ring (meant d) done rest in
      let grown =
        multiply-append numbers scalars functions ring meaning env before (cons t nil)
        ∙ ap (times done) (mul-one ring (meant t)) in
      ap₂ plus first (
        value-product_terms (append_atoms before (cons t nil)) ts ds
        ∙ ap (λ x. times x later) grown
        ∙ ring.mul_assoc done (meant t) later)
      ∙ sym (ring.mul-add done (times (meant d) rest) (times (meant t) later))

  constant_neg_one : constant (scalars.neg scalars.one) ≡ ring.neg ring.one
  constant_neg_one = meaning.constant_neg scalars.one ∙ ap ring.neg meaning.constant_one

  constant_sub_one : (c : N) → constant (scalars.sub c scalars.one) ≡ ring.sub (constant c) ring.one
  constant_sub_one c =
      ap constant (scalars.sub_def c scalars.one)
      ∙ meaning.constant_add c (scalars.neg scalars.one)
      ∙ ap (plus (constant c)) constant_neg_one
      ∙ sym (ring.sub_def (constant c) ring.one)

  less_one :
      (e : Atom N)
      → meant (canonical numbers add (cons e (cons (minus_one numbers scalars functions) nil)))
        ≡ ring.sub (meant e) ring.one
  less_one e =
      sum_two e (minus_one numbers scalars functions)
      ∙ ap (plus (meant e)) constant_neg_one
      ∙ sym (ring.sub_def (meant e) ring.one)

  value-minus_one_from :
      (e : Atom N)
      → meant (minus_one_from numbers scalars functions e) ≡ ring.sub (meant e) ring.one
  unfolding minus_one_from
  value-minus_one_from (node (num c) ts) = constant_sub_one c
  value-minus_one_from (node (var s) ts) = less_one (node (var s) ts)
  value-minus_one_from (node add ts) = less_one (node add ts)
  value-minus_one_from (node mul ts) = less_one (node mul ts)
  value-minus_one_from (node pow ts) = less_one (node pow ts)
  value-minus_one_from (node (fun s) ts) = less_one (node (fun s) ts)

  -- The general case of the power rule, where one of the derivatives may be zero.
  abbrev pub slope : V → V → V → V → V
  slope a b a' b' = raise_slope numbers scalars functions ring meaning env a b a' b'

  slope-right_zero :
      (a b a' : V)
      → LowersPower numbers scalars functions ring meaning env a b
      → slope a b a' ring.zero ≡ times b (times (raise a (ring.sub b ring.one)) a')
  slope-right_zero a b a' lowers =
      let p = raise a b in
      let i = raise a (ring.neg ring.one) in
      ap (times p) (
        ap (λ t. plus t (times b (times a' i))) (zero-mul ring (apply functions.ln (a ∷ [])))
        ∙ ring.zero-add (times b (times a' i)))
      ∙ mul_left_comm ring p b (times a' i)
      ∙ ap (times b) (
          mul_left_comm ring p a' i
          ∙ ring.mul_comm a' (times p i)
          ∙ ap (λ t. times t a') (sym lowers))

  slope-left_zero :
      (a b b' : V)
      → slope a b ring.zero b' ≡ times (raise a b) (times (apply functions.ln (a ∷ [])) b')
  slope-left_zero a b b' = ap (times (raise a b)) (
      ap (plus (times b' (apply functions.ln (a ∷ []))))
        (ap (times b) (zero-mul ring (raise a (ring.neg ring.one))) ∙ mul-zero ring b)
      ∙ add-zero ring (times b' (apply functions.ln (a ∷ [])))
      ∙ ring.mul_comm b' (apply functions.ln (a ∷ [])))

  pub value-derivative_pow :
      (base exponent d e : Atom N)
      → LowersPower numbers scalars functions ring meaning env (meant base) (meant exponent)
      → meant (derivative_pow numbers scalars functions base exponent d e)
        ≡ slope (meant base) (meant exponent) (meant d) (meant e)
  unfolding derivative_pow
  value-derivative_pow base exponent d e lowers =
      let a = meant base in
      let b = meant exponent in
      elim (Bool-cases (is_zero numbers scalars functions e)) [
        | inl exponent_constant ↦
            let e_zero = value-is_zero e exponent_constant in
            elim (Bool-cases (is_zero numbers scalars functions d)) [
              | inl base_constant ↦
                  let d_zero = value-is_zero d base_constant in
                  rw (exponent_constant, base_constant)
                    (meaning.constant_zero
                      ∙ sym (
                          ap₂ (slope a b) d_zero e_zero
                          ∙ slope-right_zero a b ring.zero lowers
                          ∙ ap (times b) (mul-zero ring _)
                          ∙ mul-zero ring b))
              | inr base_depends ↦
                  rw (exponent_constant, base_depends)
                    (product_three exponent
                        (power numbers scalars functions base
                          (minus_one_from numbers scalars functions exponent))
                        d
                      ∙ ap (λ t. times b (times (raise a t) (meant d)))
                          (value-minus_one_from exponent)
                      ∙ sym
                          (ap (slope a b (meant d)) e_zero ∙ slope-right_zero a b (meant d) lowers))
            ]
        | inr exponent_depends ↦ elim (Bool-cases (is_zero numbers scalars functions d)) [
          | inl base_constant ↦
              let d_zero = value-is_zero d base_constant in
              rw (exponent_depends, base_constant)
                (product_three (power numbers scalars functions base exponent)
                    (call numbers scalars functions functions.ln base) e
                  ∙ sym (ap (λ t. slope a b t (meant e)) d_zero ∙ slope-left_zero a b (meant e)))
          | inr base_depends ↦
              rw (exponent_depends, base_depends)
                (product_two (power numbers scalars functions base exponent) _
                  ∙ ap (times (raise a b)) (
                      sum_two _ _
                      ∙ ap₂ plus (product_two e (call numbers scalars functions functions.ln base))
                          (product_three exponent d (
                              power numbers scalars functions base
                                (minus_one numbers scalars functions))
                            ∙ ap (λ t. times b (times (meant d) (raise a t))) constant_neg_one)))
        ]
      ]
