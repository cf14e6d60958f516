-- ===== src/Polynomial/Product.antt =====
-- Products of poly_core/include/poly_core/polynomial.hh.
use native.Mathlib.Nat.{mod-eq_of_lt}
use stocas.Common.{
  ℕ, zero, suc, ◌+◌, ◌≡◌, refl, sym, ap, ap₂, ◌∙◌, true, false, ◌||◌, List, [], ◌∷◌, length, inl,
  inr, Bool-cases, arith,
}
use stocas.Algebra.{Ring}
use stocas.Algebra.Laws.{add-mul, add_left_comm, mul-mul_comm, mul-zero, zero-mul}
use stocas.Monomial.{Monomial, add_exponents}
use stocas.Monomial.Division.{FitsSum}
use stocas.Polynomial.{
  Term, Polynomial, ok, equal_vectors, above, scaled_terms, raw_product, insert_term, sort_terms,
  collect_from, collect, erase_zeros, mul, is_zero, zero_polynomial,
}
use stocas.Polynomial.Value.{pow, value, monomial_value, value-push, value-append, equal_vectors→eq}

-- One monomial has exponents like each of the terms', and no sum with one of them overflows.
abbrev pub FitsEach : {A : Type 0} → Monomial → List (Term A) → Type 0
FitsEach m [] = Unit
FitsEach m ((n, b) ∷ ys) = (length m ≡ length n) × FitsSum m n × FitsEach m ys

abbrev pub FitsProduct : {A : Type 0} → List (Term A) → List (Term A) → Type 0
FitsProduct [] ys = Unit
FitsProduct ((m, a) ∷ xs) ys = FitsEach m ys × FitsProduct xs ys

module _ {A : Type 0} (ring : Ring A) where
  open ring use {zero as nought, one, add as plus, mul as times}

  pow-add : (x : A) (m n : ℕ) → pow ring x (m + n) ≡ times (pow ring x m) (pow ring x n)
  pow-add x zero n =
      ap (pow ring x) {x = zero + n} {y = n} (omega arith) ∙ sym (ring.one-mul (pow ring x n))
  pow-add x (suc m) n =
      ap (pow ring x) {x = suc m + n} {y = suc (m + n)} (omega arith)
      ∙ ap (times x) (pow-add x m n)
      ∙ sym (ring.mul_assoc x (pow ring x m) (pow ring x n))

  module _ (point : List A) where
    monomial_value-add :
        (m n : Monomial)
        → length m ≡ length n
        → FitsSum m n
        → monomial_value ring point (add_exponents m n)
          ≡ times (monomial_value ring point m) (monomial_value ring point n)
    unfolding add_exponents
    monomial_value-add = all point
      where
        all :
            (xs : List A) (m n : Monomial)
            → length m ≡ length n
            → FitsSum m n
            → monomial_value ring xs (add_exponents m n)
              ≡ times (monomial_value ring xs m) (monomial_value ring xs n)
        all [] m n len f = sym (ring.one-mul one)
        all (x ∷ xs) [] [] len f = sym (ring.one-mul one)
        all (x ∷ xs) [] (e ∷ n) len f = absurd (omega arith)
        all (x ∷ xs) (d ∷ m) [] len f = absurd (omega arith)
        all (x ∷ xs) (d ∷ m) (e ∷ n) len (fits, f) =
            ap₂ times (ap (pow ring x) (mod-eq_of_lt fits) ∙ pow-add x d e)
              (all xs m n (omega arith) f)
            ∙ mul-mul_comm ring (pow ring x d) (pow ring x e) (monomial_value ring xs m)
                (monomial_value ring xs n)

    value-scaled :
        (m : Monomial) (a : A) (ys : List (Term A))
        → FitsEach m ys
        → value ring point (scaled_terms ring m a ys)
          ≡ times (times a (monomial_value ring point m)) (value ring point ys)
    unfolding scaled_terms
    value-scaled m a [] f = sym (mul-zero ring _)
    value-scaled m a ((n, b) ∷ ys) (len, fits, f) =
        let v = monomial_value ring point m in
        let w = monomial_value ring point n in
        ap₂ plus
          (ap (times (times a b)) (monomial_value-add m n len fits) ∙ mul-mul_comm ring a b v w)
          (value-scaled m a ys f)
        ∙ sym (ring.mul-add (times a v) (times b w) (value ring point ys))

    value-raw_product :
        (xs ys : List (Term A))
        → FitsProduct xs ys
        → value ring point (raw_product ring xs ys)
          ≡ times (value ring point xs) (value ring point ys)
    unfolding raw_product
    value-raw_product [] ys f = sym (zero-mul ring _)
    value-raw_product ((m, a) ∷ xs) ys (f, g) =
        value-append ring point (scaled_terms ring m a ys) (raw_product ring xs ys)
        ∙ ap₂ plus (value-scaled m a ys f) (value-raw_product xs ys g)
        ∙ sym (
            add-mul ring (times a (monomial_value ring point m)) (value ring point xs)
              (value ring point ys))

    value-insert :
        (m : Monomial) (a : A) (ys : List (Term A))
        → value ring point (insert_term ring (m, a) ys) ≡ value ring point ((m, a) ∷ ys)
    unfolding insert_term
    value-insert m a [] = refl
    value-insert m a ((n, b) ∷ ys) = elim (Bool-cases (above n m)) [
      | inl later ↦ rw (later, value-insert m a ys) (add_left_comm ring _ _ (value ring point ys))
      | inr here ↦ rw here
    ]

    pub value-sort :
        (xs : List (Term A)) → value ring point (sort_terms ring xs) ≡ value ring point xs
    unfolding sort_terms
    value-sort [] = refl
    value-sort ((m, a) ∷ xs) =
        value-insert m a (sort_terms ring xs)
        ∙ ap (plus (times a (monomial_value ring point m))) (value-sort xs)

    value-collect_from :
        (m : Monomial) (a : A) (ys : List (Term A))
        → value ring point (collect_from ring m a ys) ≡ value ring point ((m, a) ∷ ys)
    unfolding collect_from
    value-collect_from m a [] = refl
    value-collect_from m a ((n, b) ∷ ys) = elim (Bool-cases (equal_vectors m n)) [
      | inl same ↦
          let v = monomial_value ring point m in
          rw (same, value-collect_from m (plus a b) ys, ← (equal_vectors→eq m n same))
            (ap (λ t. plus t (value ring point ys)) (add-mul ring a b v)
              ∙ ring.add_assoc (times a v) (times b v) (value ring point ys))
      | inr other ↦ rw (other, value-collect_from n b ys)
    ]

    pub value-collect :
        (xs : List (Term A)) → value ring point (collect ring xs) ≡ value ring point xs
    unfolding collect
    value-collect [] = refl
    value-collect ((m, a) ∷ xs) = value-collect_from m a xs

    pub value-erase :
        (xs : List (Term A)) → value ring point (erase_zeros ring xs) ≡ value ring point xs
    unfolding erase_zeros
    value-erase [] = refl
    value-erase ((m, a) ∷ xs) =
        value-push ring point m a (erase_zeros ring xs)
        ∙ ap (plus (times a (monomial_value ring point m))) (value-erase xs)

    product_of_empty :
        (p q : Polynomial A)
        → (is_zero ring p || is_zero ring q) ≡ true
        → times (value ring point p.terms) (value ring point q.terms) ≡ nought
    unfolding is_zero
    product_of_empty p q h = either p.terms q.terms h
      where
        either :
            (xs ys : List (Term A))
            → (elim xs [ [] ↦ true | _ ∷ _ ↦ false ] || elim ys [ [] ↦ true | _ ∷ _ ↦ false ])
              ≡ true
            → times (value ring point xs) (value ring point ys) ≡ nought
        either [] ys k = zero-mul ring _
        either (x ∷ xs) [] k = mul-zero ring _
        either (x ∷ xs) (y ∷ ys) k = cc

    -- Over one list of variables, where corresponding exponents exist and no sum of them
    -- overflows its word, operator* gives a polynomial over these variables whose value at every
    -- point is the product of the values of the operands.
    pub value-mul :
        (p q : Polynomial A)
        → equal_vectors p.variables q.variables ≡ true
        → FitsProduct p.terms q.terms
        → (r : Polynomial A) × (mul ring p q ≡ ok r)
          × (r.variables ≡ p.variables)
          × (value ring point r.terms ≡ times (value ring point p.terms) (value ring point q.terms))
    unfolding mul
    value-mul p q same f = elim (Bool-cases (is_zero ring p || is_zero ring q)) [
      | inl empty ↦ (
        zero_polynomial ring p.variables,
        rw (same, empty),
        refl,
        sym (product_of_empty p q empty),
      )
      | inr filled ↦
          let raw = raw_product ring p.terms q.terms in
          (
            record p { terms = erase_zeros ring (collect ring (sort_terms ring raw)) },
            rw (same, filled),
            refl,
            value-erase (collect ring (sort_terms ring raw))
                ∙ value-collect (sort_terms ring raw)
                ∙ value-sort raw
                ∙ value-raw_product p.terms q.terms f,
          )
    ]
