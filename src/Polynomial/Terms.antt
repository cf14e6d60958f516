-- ===== src/Polynomial/Terms.antt =====
-- What the loops of poly_core/include/poly_core/polynomial.hh keep of the monomials.
use stocas.Common.{List, [], ◌∷◌, ◌++◌, inl, inr, Bool-cases}
use stocas.Algebra.{Ring}
use stocas.Monomial.{Monomial, add_exponents}
use stocas.Polynomial.{
  Term, equal_vectors, above, push_nonzero, combine_rest, merge_terms, scaled_terms, raw_product,
  insert_term, sort_terms, collect_from, collect, erase_zeros, negate_terms,
}

abbrev pub AllTerms : {A : Type 0} → (Monomial → Type 0) → List (Term A) → Type 0
AllTerms P [] = Unit
AllTerms P ((m, a) ∷ ts) = P m × AllTerms P ts

module _ {A : Type 0} (ring : Ring A) where
  pub AllTerms-push :
      (P : Monomial → Type 0) (m : Monomial) (a : A) (ts : List (Term A))
      → P m
      → AllTerms P ts
      → AllTerms P (push_nonzero ring m a ts)
  unfolding push_nonzero
  AllTerms-push P m a ts p h = elim (Bool-cases (ring.eq a ring.zero)) [
    | inl gone ↦ rw gone h
    | inr kept ↦ rw kept (p, h)
  ]

  pub AllTerms-rest :
      (P : Monomial → Type 0) (combine : A → A → A) (ts : List (Term A))
      → AllTerms P ts
      → AllTerms P (combine_rest ring combine ts)
  unfolding combine_rest
  AllTerms-rest P combine [] h = tt
  AllTerms-rest P combine ((m, a) ∷ ts) (p, h) = (p, AllTerms-rest P combine ts h)

  pub AllTerms-merge :
      (P : Monomial → Type 0) (combine : A → A → A) (xs ys : List (Term A))
      → AllTerms P xs
      → AllTerms P ys
      → AllTerms P (merge_terms ring combine xs ys)
  unfolding merge_terms
  AllTerms-merge P combine [] ys h g = AllTerms-rest P combine ys g
  AllTerms-merge P combine (x ∷ xs) [] h g = h
  AllTerms-merge P combine ((m, a) ∷ xs) ((n, b) ∷ ys) (p, h) (q, g) =
      elim (Bool-cases (equal_vectors m n)) [
        | inl same ↦ rw same (
            AllTerms-push P m (combine a b) (merge_terms ring combine xs ys) p
              (AllTerms-merge P combine xs ys h g))
        | inr other ↦ elim (Bool-cases (above m n)) [
          | inl first ↦ rw (other, first) (p, AllTerms-merge P combine xs ((n, b) ∷ ys) h (q, g))
          | inr second ↦ rw (other, second) (q, AllTerms-merge P combine ((m, a) ∷ xs) ys (p, h) g)
        ]
      ]

  AllTerms-append :
      (P : Monomial → Type 0) (xs ys : List (Term A))
      → AllTerms P xs
      → AllTerms P ys
      → AllTerms P (xs ++ ys)
  AllTerms-append P [] ys h g = g
  AllTerms-append P ((m, a) ∷ xs) ys (p, h) g = (p, AllTerms-append P xs ys h g)

  pub AllTerms-insert :
      (P : Monomial → Type 0) (m : Monomial) (a : A) (ts : List (Term A))
      → P m
      → AllTerms P ts
      → AllTerms P (insert_term ring (m, a) ts)
  unfolding insert_term
  AllTerms-insert P m a [] p h = (p, tt)
  AllTerms-insert P m a ((n, b) ∷ ts) p (q, h) = elim (Bool-cases (above n m)) [
    | inl later ↦ rw later (q, AllTerms-insert P m a ts p h)
    | inr here ↦ rw here (p, (q, h))
  ]

  pub AllTerms-sort :
      (P : Monomial → Type 0) (ts : List (Term A)) → AllTerms P ts → AllTerms P (sort_terms ring ts)
  unfolding sort_terms
  AllTerms-sort P [] h = tt
  AllTerms-sort P ((m, a) ∷ ts) (p, h) =
      AllTerms-insert P m a (sort_terms ring ts) p (AllTerms-sort P ts h)

  pub AllTerms-collect_from :
      (P : Monomial → Type 0) (m : Monomial) (a : A) (ts : List (Term A))
      → P m
      → AllTerms P ts
      → AllTerms P (collect_from ring m a ts)
  unfolding collect_from
  AllTerms-collect_from P m a [] p h = (p, tt)
  AllTerms-collect_from P m a ((n, b) ∷ ts) p (q, h) = elim (Bool-cases (equal_vectors m n)) [
    | inl same ↦ rw same (AllTerms-collect_from P m (ring.add a b) ts p h)
    | inr other ↦ rw other (p, AllTerms-collect_from P n b ts q h)
  ]

  pub AllTerms-collect :
      (P : Monomial → Type 0) (ts : List (Term A)) → AllTerms P ts → AllTerms P (collect ring ts)
  unfolding collect
  AllTerms-collect P [] h = tt
  AllTerms-collect P ((m, a) ∷ ts) (p, h) = AllTerms-collect_from P m a ts p h

  pub AllTerms-erase :
      (P : Monomial → Type 0) (ts : List (Term A))
      → AllTerms P ts
      → AllTerms P (erase_zeros ring ts)
  unfolding erase_zeros
  AllTerms-erase P [] h = tt
  AllTerms-erase P ((m, a) ∷ ts) (p, h) =
      AllTerms-push P m a (erase_zeros ring ts) p (AllTerms-erase P ts h)

  pub AllTerms-negate :
      (P : Monomial → Type 0) (ts : List (Term A))
      → AllTerms P ts
      → AllTerms P (negate_terms ring ts)
  unfolding negate_terms
  AllTerms-negate P [] h = tt
  AllTerms-negate P ((m, a) ∷ ts) (p, h) = (p, AllTerms-negate P ts h)

  module _ (P Q R : Monomial → Type 0)
      (sums : (m n : Monomial) → P m → Q n → R (add_exponents m n)) where
    AllTerms-scaled :
        (m : Monomial) (a : A) (ys : List (Term A))
        → P m
        → AllTerms Q ys
        → AllTerms R (scaled_terms ring m a ys)
    unfolding scaled_terms
    AllTerms-scaled m a [] p h = tt
    AllTerms-scaled m a ((n, b) ∷ ys) p (q, h) = (sums m n p q, AllTerms-scaled m a ys p h)

    pub AllTerms-raw :
        (xs ys : List (Term A))
        → AllTerms P xs
        → AllTerms Q ys
        → AllTerms R (raw_product ring xs ys)
    unfolding raw_product
    AllTerms-raw [] ys h g = tt
    AllTerms-raw ((m, a) ∷ xs) ys (p, h) g =
        AllTerms-append R (scaled_terms ring m a ys) (raw_product ring xs ys)
          (AllTerms-scaled m a ys p g) (AllTerms-raw xs ys h g)

    pub AllTerms-product :
        (xs ys : List (Term A))
        → AllTerms P xs
        → AllTerms Q ys
        → AllTerms R (erase_zeros ring (collect ring (sort_terms ring (raw_product ring xs ys))))
    AllTerms-product xs ys h g =
        AllTerms-erase R _
          (AllTerms-collect R _ (AllTerms-sort R (raw_product ring xs ys) (AllTerms-raw xs ys h g)))

pub AllTerms-weaken :
    {A : Type 0} (P Q : Monomial → Type 0) (ts : List (Term A))
    → ((m : Monomial) → P m → Q m)
    → AllTerms P ts
    → AllTerms Q ts
AllTerms-weaken P Q [] f h = tt
AllTerms-weaken P Q ((m, a) ∷ ts) f (p, h) = (f m p, AllTerms-weaken P Q ts f h)
