-- ===== src/Polynomial/Canonical.antt =====
-- The invariant that poly_core/include/poly_core/polynomial.hh states for its terms.
use stocas.Common.{ℕ, ◌≡◌, ◌≢◌, sym, ◌∙◌, true, false, List, [], ◌∷◌, length, inl, inr, Bool-cases}
use stocas.Algebra.{Ring}
use stocas.Monomial.{Monomial}
use stocas.Polynomial.{
  Term, Polynomial, equal_vectors, above, push_nonzero, combine_rest, merge_terms,
}
use stocas.Polynomial.Terms.{AllTerms, AllTerms-push, AllTerms-rest, AllTerms-merge}
use stocas.Polynomial.Value.{equal_vectors→eq}
use stocas.Polynomial.Order.{above_trans, above_total}

-- Each monomial has one exponent for each variable.
abbrev pub HasArity : {A : Type 0} → ℕ → List (Term A) → Type 0
HasArity n ts = AllTerms (λ m. length m ≡ n) ts

abbrev pub AllBelow : {A : Type 0} → Monomial → List (Term A) → Type 0
AllBelow m ts = AllTerms (λ n. above m n ≡ true) ts

-- Terms in descending order, no monomial twice.
abbrev pub IsDescending : {A : Type 0} → List (Term A) → Type 0
IsDescending [] = Unit
IsDescending ((m, a) ∷ ts) = AllBelow m ts × IsDescending ts

abbrev pub IsNonZero : {A : Type 0} → Ring A → List (Term A) → Type 0
IsNonZero ring [] = Unit
IsNonZero ring ((m, a) ∷ ts) = (a ≢ ring.zero) × IsNonZero ring ts

abbrev pub IsCanonicalTerms : {A : Type 0} → Ring A → ℕ → List (Term A) → Type 0
IsCanonicalTerms ring n ts = HasArity n ts × IsDescending ts × IsNonZero ring ts

abbrev pub IsCanonical : {A : Type 0} → Ring A → Polynomial A → Type 0
IsCanonical ring p = IsCanonicalTerms ring (length p.variables) p.terms

AllBelow-trans :
    {A : Type 0} (m n : Monomial) (ts : List (Term A))
    → length m ≡ length n
    → HasArity (length n) ts
    → above m n ≡ true
    → AllBelow n ts
    → AllBelow m ts
AllBelow-trans m n [] len ar h b = tt
AllBelow-trans m n ((k, c) ∷ ts) len (lk, ar) h (hk, b) =
    (above_trans m n k len (sym lk) h hk, AllBelow-trans m n ts len ar h b)

module _ {A : Type 0} (ring : Ring A) where
  open ring use {zero as nought}

  pub ne_of_eq_false : (a : A) → ring.eq a nought ≡ false → a ≢ nought
  ne_of_eq_false a h e = cc ((ring.eq_iff a nought).1 e)

  module _ (n : ℕ) (m : Monomial) (a : A) (ts : List (Term A)) where
    IsDescending-push : AllBelow m ts → IsDescending ts → IsDescending (push_nonzero ring m a ts)
    unfolding push_nonzero
    IsDescending-push b h = elim (Bool-cases (ring.eq a nought)) [
      | inl gone ↦ rw gone h
      | inr kept ↦ rw kept (b, h)
    ]

    pub IsNonZero-push : IsNonZero ring ts → IsNonZero ring (push_nonzero ring m a ts)
    unfolding push_nonzero
    IsNonZero-push h = elim (Bool-cases (ring.eq a nought)) [
      | inl gone ↦ rw gone h
      | inr kept ↦ rw kept (ne_of_eq_false a kept, h)
    ]

    pub IsCanonical-push :
        length m ≡ n
        → AllBelow m ts
        → IsCanonicalTerms ring n ts
        → IsCanonicalTerms ring n (push_nonzero ring m a ts)
    IsCanonical-push len b (ar, ds, nz) = (
      AllTerms-push ring (λ k. length k ≡ n) m a ts len ar,
      IsDescending-push b ds,
      IsNonZero-push nz,
    )

  module _ (combine : A → A → A) (keeps : (b : A) → b ≢ nought → combine nought b ≢ nought) where
    IsCanonical-rest :
        (n : ℕ) (ys : List (Term A))
        → IsCanonicalTerms ring n ys
        → IsCanonicalTerms ring n (combine_rest ring combine ys)
    unfolding combine_rest
    IsCanonical-rest n [] h = (tt, tt, tt)
    IsCanonical-rest n ((m, b) ∷ ys) ((len, ar), (below, ds), (nz, nzs)) =
        let (ar', ds', nz') = IsCanonical-rest n ys (ar, ds, nzs) in
        (
          (len, ar'),
          (AllTerms-rest ring (λ k. above m k ≡ true) combine ys below, ds'),
          (keeps b nz, nz'),
        )

    pub IsCanonical-merge :
        (n : ℕ) (xs ys : List (Term A))
        → IsCanonicalTerms ring n xs
        → IsCanonicalTerms ring n ys
        → IsCanonicalTerms ring n (merge_terms ring combine xs ys)
    unfolding merge_terms
    IsCanonical-merge n [] ys h g = IsCanonical-rest n ys g
    IsCanonical-merge n (x ∷ xs) [] h g = h
    IsCanonical-merge n ((m, a) ∷ xs) ((k, b) ∷ ys) ((lm, ar), (bm, ds), (za, nz))
          ((lk, ar'), (bk, ds'), (zb, nz')) =
        elim (Bool-cases (equal_vectors m k)) [
          | inl same ↦
              let e = equal_vectors→eq m k same in
              rw same (
                IsCanonical-push n m (combine a b) (merge_terms ring combine xs ys) lm
                  (AllTerms-merge ring (λ j. above m j ≡ true) combine xs ys bm (rw e bk))
                  (IsCanonical-merge n xs ys (ar, ds, nz) (ar', ds', nz')))
          | inr other ↦ elim (Bool-cases (above m k)) [
            | inl first ↦
                let rest =
                  IsCanonical-merge n xs ((k, b) ∷ ys) (ar, ds, nz)
                    ((lk, ar'), (bk, ds'), (zb, nz')) in
                let below = AllBelow-trans m k ys (lm ∙ sym lk) (rw lk ar') first bk in
                rw (other, first)
                  (
                    (lm, rest.0),
                    (
                      AllTerms-merge ring (λ j. above m j ≡ true) combine xs ((k, b) ∷ ys) bm
                          (first, below),
                      rest.1,
                    ),
                    (za, rest.2),
                  )
            | inr second ↦
                let rest =
                  IsCanonical-merge n ((m, a) ∷ xs) ys ((lm, ar), (bm, ds), (za, nz))
                    (ar', ds', nz') in
                let first = above_total m k (lm ∙ sym lk) other second in
                let below = AllBelow-trans k m xs (lk ∙ sym lm) (rw lm ar) first bm in
                rw (other, second)
                  (
                    (lk, rest.0),
                    (
                      AllTerms-merge ring (λ j. above k j ≡ true) combine ((m, a) ∷ xs) ys
                          (first, below) bk,
                      rest.1,
                    ),
                    (keeps b zb, rest.2),
                  )
          ]
        ]
