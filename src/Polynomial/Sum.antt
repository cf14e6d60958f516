-- ===== src/Polynomial/Sum.antt =====
-- Sums, differences and negations of poly_core/include/poly_core/polynomial.hh.
use stocas.Common.{◌≡◌, refl, sym, ap, ap₂, ◌∙◌, true, List, [], ◌∷◌, inl, inr, Bool-cases}
use stocas.Algebra.{Ring}
use stocas.Algebra.Laws.{
  add-zero, add-mul, add-add_comm, sub-mul, sub-add-add, sub-zero, neg-mul, neg_add, neg_zero,
  zero-mul,
}
use stocas.Monomial.{Monomial}
use stocas.Polynomial.{
  Term, Polynomial, ok, equal_vectors, above, combine_rest, merge_terms, merged, add, sub, neg,
  negate_terms,
}
use stocas.Polynomial.Value.{value, monomial_value, value-push, equal_vectors→eq}

module _ {A : Type 0} (ring : Ring A) (point : List A) where
  open ring use {zero as nought, add as plus, mul as times, sub as minus, neg as negate}

  -- What `merge_terms` needs of the operation that it is given.
  record IsAdditive (combine : A → A → A) : Type 0 where
    scaled : (a b c : A) → times (combine a b) c ≡ combine (times a c) (times b c)
    summed : (a b c d : A) → combine (plus a b) (plus c d) ≡ plus (combine a c) (combine b d)
    right_unit : (a : A) → combine a nought ≡ a

  module _ (combine : A → A → A) (additive : IsAdditive combine) where
    open additive use {scaled, summed, right_unit}

    -- The terms of the right operand, alone.
    right_term :
        (m : Monomial) (b x y : A)
        → plus (times (combine nought b) (monomial_value ring point m)) (combine x y)
          ≡ combine x (plus (times b (monomial_value ring point m)) y)
    right_term m b x y =
        let v = monomial_value ring point m in
        ap (λ t. plus t (combine x y))
          (scaled nought b v ∙ ap (λ t. combine t (times b v)) (zero-mul ring v))
        ∙ sym (summed nought x (times b v) y)
        ∙ ap (λ t. combine t (plus (times b v) y)) (ring.zero-add x)

    left_term :
        (m : Monomial) (a x y : A)
        → plus (times a (monomial_value ring point m)) (combine x y)
          ≡ combine (plus (times a (monomial_value ring point m)) x) y
    left_term m a x y =
        let v = monomial_value ring point m in
        ap (λ t. plus t (combine x y)) (sym (right_unit (times a v)))
        ∙ sym (summed (times a v) x nought y)
        ∙ ap (combine (plus (times a v) x)) (ring.zero-add y)

    both_terms :
        (m : Monomial) (a b x y : A)
        → plus (times (combine a b) (monomial_value ring point m)) (combine x y)
          ≡ combine
              (plus (times a (monomial_value ring point m)) x)
              (plus (times b (monomial_value ring point m)) y)
    both_terms m a b x y =
        let v = monomial_value ring point m in
        ap (λ t. plus t (combine x y)) (scaled a b v) ∙ sym (summed (times a v) x (times b v) y)

    value-rest :
        (ys : List (Term A))
        → value ring point (combine_rest ring combine ys) ≡ combine nought (value ring point ys)
    unfolding combine_rest
    value-rest [] = sym (right_unit nought)
    value-rest ((n, b) ∷ ys) =
        ap (plus (times (combine nought b) (monomial_value ring point n))) (value-rest ys)
        ∙ right_term n b nought (value ring point ys)

    value-merge :
        (xs ys : List (Term A))
        → value ring point (merge_terms ring combine xs ys)
          ≡ combine (value ring point xs) (value ring point ys)
    unfolding merge_terms
    value-merge [] ys = value-rest ys
    value-merge (x ∷ xs) [] = sym (right_unit (value ring point (x ∷ xs)))
    value-merge ((m, a) ∷ xs) ((n, b) ∷ ys) = elim (Bool-cases (equal_vectors m n)) [
      | inl same ↦
          rw (same, value-push, value-merge xs ys, ← (equal_vectors→eq m n same))
            (both_terms m a b (value ring point xs) (value ring point ys))
      | inr other ↦ elim (Bool-cases (above m n)) [
        | inl first ↦
            rw (other, first, value-merge xs ((n, b) ∷ ys))
              (left_term m a (value ring point xs) (value ring point ((n, b) ∷ ys)))
        | inr second ↦
            rw (other, second, value-merge ((m, a) ∷ xs) ys)
              (right_term n b (value ring point ((m, a) ∷ xs)) (value ring point ys))
      ]
    ]

    value-merged :
        (p q : Polynomial A)
        → equal_vectors p.variables q.variables ≡ true
        → (r : Polynomial A) × (merged ring combine p q ≡ ok r)
          × (r.variables ≡ p.variables)
          × (value ring point r.terms
              ≡ combine (value ring point p.terms) (value ring point q.terms))
    unfolding merged
    value-merged p q h = (
      record { variables = p.variables; terms = merge_terms ring combine p.terms q.terms },
      rw h,
      refl,
      value-merge p.terms q.terms,
    )

  plus-IsAdditive : IsAdditive plus
  plus-IsAdditive = record {
    scaled = add-mul ring;
    summed = λ a b c d. add-add_comm ring a b c d;
    right_unit = add-zero ring;
  }

  minus-IsAdditive : IsAdditive minus
  minus-IsAdditive = record {
    scaled = sub-mul ring;
    summed = λ a b c d. sub-add-add ring a b c d;
    right_unit = sub-zero ring;
  }

  value-negate :
      (xs : List (Term A)) → value ring point (negate_terms ring xs) ≡ negate (value ring point xs)
  unfolding negate_terms
  value-negate [] = sym (neg_zero ring)
  value-negate ((m, a) ∷ xs) =
      ap₂ plus (neg-mul ring a (monomial_value ring point m)) (value-negate xs)
      ∙ sym (neg_add ring (times a (monomial_value ring point m)) (value ring point xs))

  -- Over one list of variables, operator+ and operator- give polynomials over these variables
  -- whose value at every point is the sum and the difference of the values of the operands; the
  -- value of unary minus is the negated value.
  pub value-add-sub-neg :
      (p q : Polynomial A)
      → equal_vectors p.variables q.variables ≡ true
      → ((r : Polynomial A) × (add ring p q ≡ ok r)
          × (r.variables ≡ p.variables)
          × (value ring point r.terms ≡ plus (value ring point p.terms) (value ring point q.terms)))
        × ((r : Polynomial A) × (sub ring p q ≡ ok r)
            × (r.variables ≡ p.variables)
            × (value ring point r.terms
                ≡ minus (value ring point p.terms) (value ring point q.terms)))
        × (value ring point (neg ring q).terms ≡ negate (value ring point q.terms))
  unfolding add sub neg
  value-add-sub-neg p q h = (
    value-merged plus plus-IsAdditive p q h,
    value-merged minus minus-IsAdditive p q h,
    value-negate q.terms,
  )
