-- ===== src/Polynomial/Value.antt =====
-- The function that a polynomial of poly_core/include/poly_core/polynomial.hh stands for: its
-- value at a point that has a ring element for each variable.
use stocas.Common.{
  ℕ, zero, suc, ◌≡◌, refl, sym, ap, ◌∙◌, true, List, [], ◌∷◌, ◌++◌, inl, inr, Bool-cases, arith,
}
use stocas.Algebra.{Ring}
use stocas.Algebra.Laws.{zero-mul}
use stocas.Monomial.{Monomial}
use stocas.Polynomial.{Term, equal_vectors, push_nonzero}

pub equal_vectors→eq : (a b : List ℕ) → equal_vectors a b ≡ true → a ≡ b
unfolding equal_vectors
equal_vectors→eq [] [] h = refl
equal_vectors→eq [] (y ∷ b) h = cc
equal_vectors→eq (x ∷ a) [] h = cc
equal_vectors→eq (x ∷ a) (y ∷ b) h = ground (arith, equal_vectors→eq a b)

pub equal_vectors_self : (a : List ℕ) → equal_vectors a a ≡ true
unfolding equal_vectors
equal_vectors_self [] = refl
equal_vectors_self (x ∷ a) = ground (arith, equal_vectors_self a)

module _ {A : Type 0} (ring : Ring A) where
  open ring use {zero as nought, one, add as plus, mul as times}

  abbrev pub pow : A → ℕ → A
  pow x zero = one
  pow x (suc n) = times x (pow x n)

  abbrev pub monomial_value : List A → Monomial → A
  monomial_value [] es = one
  monomial_value (x ∷ xs) [] = one
  monomial_value (x ∷ xs) (e ∷ es) = times (pow x e) (monomial_value xs es)

  abbrev pub value : List A → List (Term A) → A
  value point [] = nought
  value point ((m, a) ∷ ts) = plus (times a (monomial_value point m)) (value point ts)

  pub value-push :
      (point : List A) (m : Monomial) (a : A) (ts : List (Term A))
      → value point (push_nonzero ring m a ts)
        ≡ plus (times a (monomial_value point m)) (value point ts)
  unfolding push_nonzero
  value-push point m a ts = elim (Bool-cases (ring.eq a nought)) [
    | inl none_left ↦
        rw (none_left, (ring.eq_iff a nought).0 none_left, zero-mul ring (monomial_value point m))
          (sym (ring.zero-add (value point ts)))
    | inr some_left ↦ rw some_left
  ]

  pub value-append :
      (point : List A) (xs ys : List (Term A))
      → value point (xs ++ ys) ≡ plus (value point xs) (value point ys)
  value-append point [] ys = sym (ring.zero-add (value point ys))
  value-append point ((m, a) ∷ xs) ys =
      ap (plus (times a (monomial_value point m))) (value-append point xs ys)
      ∙ sym (ring.add_assoc _ (value point xs) (value point ys))
