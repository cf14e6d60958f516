-- ===== src/Polynomial/Sorting.antt =====
-- Sorting and collecting the raw terms of a product, poly_core/include/poly_core/polynomial.hh.
use stocas.Common.{ℕ, ◌≡◌, sym, ◌∙◌, true, false, List, [], ◌∷◌, length, inl, inr, Bool-cases}
use stocas.Algebra.{Ring}
use stocas.Monomial.{Monomial}
use stocas.Monomial.Division.{length-add}
use stocas.Polynomial.{
  Term, equal_vectors, above, insert_term, sort_terms, raw_product, collect_from, collect,
  erase_zeros,
}
use stocas.Polynomial.Terms.{
  AllTerms, AllTerms-insert, AllTerms-sort, AllTerms-collect_from, AllTerms-erase, AllTerms-raw,
}
use stocas.Polynomial.Order.{above_asymm, above_total, above_not_above, not_above_trans}
use stocas.Polynomial.Canonical.{
  HasArity, AllBelow, IsDescending, IsCanonicalTerms, IsCanonical-push,
}

-- No term of the list stands above the monomial.
abbrev NoneAbove : {A : Type 0} → Monomial → List (Term A) → Type 0
NoneAbove m ts = AllTerms (λ n. above n m ≡ false) ts

-- The order after sorting, where a monomial may stand twice.
abbrev IsSorted : {A : Type 0} → List (Term A) → Type 0
IsSorted [] = Unit
IsSorted ((m, a) ∷ ts) = NoneAbove m ts × IsSorted ts

NoneAbove-trans :
    {A : Type 0} (m n : Monomial) (ts : List (Term A))
    → length m ≡ length n
    → HasArity (length n) ts
    → above n m ≡ false
    → NoneAbove n ts
    → NoneAbove m ts
NoneAbove-trans m n [] len ar h b = tt
NoneAbove-trans m n ((k, c) ∷ ts) len (lk, ar) h (hk, b) =
    (not_above_trans m n k len (sym lk) h hk, NoneAbove-trans m n ts len ar h b)

AllBelow-NoneAbove :
    {A : Type 0} (m n : Monomial) (ts : List (Term A))
    → length m ≡ length n
    → HasArity (length n) ts
    → above m n ≡ true
    → NoneAbove n ts
    → AllBelow m ts
AllBelow-NoneAbove m n [] len ar h b = tt
AllBelow-NoneAbove m n ((k, c) ∷ ts) len (lk, ar) h (hk, b) =
    (above_not_above m n k len (sym lk) h hk, AllBelow-NoneAbove m n ts len ar h b)

module _ {A : Type 0} (ring : Ring A) (n : ℕ) where
  open ring use {zero as nought, add as plus, mul as times, sub as minus, neg as negate}

  IsSorted-insert :
      (m : Monomial) (a : A) (ts : List (Term A))
      → length m ≡ n
      → HasArity n ts
      → IsSorted ts
      → IsSorted (insert_term ring (m, a) ts)
  unfolding insert_term
  IsSorted-insert m a [] len ar s = (tt, tt)
  IsSorted-insert m a ((k, b) ∷ ts) len (lk, ar) (below, s) = elim (Bool-cases (above k m)) [
    | inl later ↦ rw later (
      AllTerms-insert ring (λ j. above j k ≡ false) m a ts (above_asymm k m (lk ∙ sym len) later)
          below,
      IsSorted-insert m a ts len ar s,
    )
    | inr here ↦
        rw here ((here, NoneAbove-trans m k ts (len ∙ sym lk) (rw lk ar) here below), (below, s))
  ]

  sort-IsSorted : (ts : List (Term A)) → HasArity n ts → IsSorted (sort_terms ring ts)
  unfolding sort_terms
  sort-IsSorted [] ar = tt
  sort-IsSorted ((m, a) ∷ ts) (len, ar) =
      IsSorted-insert m a (sort_terms ring ts) len (AllTerms-sort ring (λ k. length k ≡ n) ts ar)
        (sort-IsSorted ts ar)

  collect_from-IsDescending :
      (m : Monomial) (a : A) (ts : List (Term A))
      → length m ≡ n
      → HasArity n ts
      → NoneAbove m ts
      → IsSorted ts
      → HasArity n (collect_from ring m a ts) × IsDescending (collect_from ring m a ts)
  unfolding collect_from
  collect_from-IsDescending m a [] len ar h s = ((len, tt), (tt, tt))
  collect_from-IsDescending m a ((k, b) ∷ ts) len (lk, ar) (hk, h) (below, s) =
      elim (Bool-cases (equal_vectors m k)) [
        | inl same ↦ rw same (collect_from-IsDescending m (plus a b) ts len ar h s)
        | inr other ↦
            let (ar', ds) = collect_from-IsDescending k b ts lk ar below s in
            let first = above_total' other in
            let rest = AllBelow-NoneAbove m k ts (len ∙ sym lk) (rw lk ar) first below in
            rw other (
              (len, ar'),
              (AllTerms-collect_from ring (λ j. above m j ≡ true) k b ts first rest, ds),
            )
      ]
    where
      above_total' : equal_vectors m k ≡ false → above m k ≡ true
      above_total' other = elim (Bool-cases (above m k)) [
        | inl it ↦ it
        | inr not_it ↦ let back = above_total m k (len ∙ sym lk) other not_it in cc
      ]

  collect-IsDescending :
      (ts : List (Term A))
      → HasArity n ts
      → IsSorted ts
      → HasArity n (collect ring ts) × IsDescending (collect ring ts)
  unfolding collect
  collect-IsDescending [] ar s = (tt, tt)
  collect-IsDescending ((m, a) ∷ ts) (len, ar) (below, s) =
      collect_from-IsDescending m a ts len ar below s

  IsCanonical-erase :
      (ts : List (Term A))
      → HasArity n ts
      → IsDescending ts
      → IsCanonicalTerms ring n (erase_zeros ring ts)
  unfolding erase_zeros
  IsCanonical-erase [] ar ds = (tt, tt, tt)
  IsCanonical-erase ((m, a) ∷ ts) (len, ar) (below, ds) =
      IsCanonical-push ring n m a (erase_zeros ring ts) len
        (AllTerms-erase ring (λ k. above m k ≡ true) ts below) (IsCanonical-erase ts ar ds)

  pub product_terms-IsCanonical :
      (xs ys : List (Term A))
      → HasArity n xs
      → HasArity n ys
      → IsCanonicalTerms ring n
          (erase_zeros ring (collect ring (sort_terms ring (raw_product ring xs ys))))
  product_terms-IsCanonical xs ys h g =
      let raw = raw_product ring xs ys in
      let arity : HasArity n raw =
        AllTerms-raw ring (λ k. length k ≡ n) (λ k. length k ≡ n) (λ k. length k ≡ n)
          (λ k m p q. length-add k m (p ∙ sym q) ∙ q) xs ys h g in
      let (ar, ds) =
        collect-IsDescending (sort_terms ring raw)
          (AllTerms-sort ring (λ k. length k ≡ n) raw arity) (sort-IsSorted raw arity) in
      IsCanonical-erase (collect ring (sort_terms ring raw)) ar ds
