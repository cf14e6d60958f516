-- ===== src/Polynomial/Invariant.antt =====
-- The operators of poly_core/include/poly_core/polynomial.hh keep the invariant of its terms.
use stocas.Common.{
  ℕ, ◌≡◌, ◌≢◌, sym, ap, ◌∙◌, true, ◌||◌, List, [], ◌∷◌, length, inl, inr, Bool-cases, ==_iff,
}
use stocas.Algebra.{Ring}
use stocas.Algebra.Laws.{add-zero}
use stocas.Monomial.{Monomial}
use stocas.Polynomial.{
  Term, Polynomial, ok, equal_vectors, is_zero, zero_polynomial, negate_terms, from_term, above,
  add, sub, neg, mul, merged,
}
use stocas.Polynomial.Terms.{AllTerms-negate}
use stocas.Polynomial.Value.{equal_vectors→eq}
use stocas.Polynomial.Canonical.{IsCanonicalTerms, IsCanonical, IsCanonical-merge, ne_of_eq_false}
use stocas.Polynomial.Sorting.{product_terms-IsCanonical}

module _ {A : Type 0} (ring : Ring A) where
  open ring use {zero as nought, add as plus, mul as times, sub as minus, neg as negate}

  negate_nonzero : (a : A) → a ≢ nought → negate a ≢ nought
  negate_nonzero a h e =
      h (sym (add-zero ring a) ∙ ap (plus a) (sym e) ∙ ring.add_comm a (negate a) ∙ ring.neg-add a)

  IsCanonical-negate :
      (n : ℕ) (ts : List (Term A))
      → IsCanonicalTerms ring n ts
      → IsCanonicalTerms ring n (negate_terms ring ts)
  unfolding negate_terms
  IsCanonical-negate n [] h = (tt, tt, tt)
  IsCanonical-negate n ((m, a) ∷ ts) ((len, ar), (below, ds), (nz, nzs)) =
      let (ar', ds', nz') = IsCanonical-negate n ts (ar, ds, nzs) in
      (
        (len, ar'),
        (AllTerms-negate ring (λ k. above m k ≡ true) ts below, ds'),
        (negate_nonzero a nz, nz'),
      )

  merged-IsCanonical :
      (combine : A → A → A)
      → ((b : A) → b ≢ nought → combine nought b ≢ nought)
      → (p q : Polynomial A) → equal_vectors p.variables q.variables ≡ true
      → IsCanonical ring p
      → IsCanonical ring q
      → (r : Polynomial A) × (merged ring combine p q ≡ ok r) × IsCanonical ring r
  unfolding merged
  merged-IsCanonical combine keeps p q same hp hq =
      let e = equal_vectors→eq p.variables q.variables same in
      (
        record { variables = p.variables; terms = _ },
        rw same,
        IsCanonical-merge ring combine keeps (length p.variables) p.terms q.terms hp (rw e hq),
      )

  from_term-IsCanonical :
      (variables : List ℕ) (m : Monomial) (a : A)
      → length m ≡ length variables
      → (r : Polynomial A) × (from_term ring variables m a ≡ ok r) × IsCanonical ring r
  unfolding from_term
  from_term-IsCanonical variables m a len = elim (Bool-cases (ring.eq a nought)) [
    | inl gone ↦ (zero_polynomial ring variables, rw ((==_iff _ _).1 len, gone), (tt, tt, tt))
    | inr kept ↦ (
      record { variables = variables; terms = (m, a) ∷ [] },
      rw ((==_iff _ _).1 len, kept),
      ((len, tt), (tt, tt), (ne_of_eq_false ring a kept, tt)),
    )
  ]

  mul-IsCanonical :
      (p q : Polynomial A)
      → equal_vectors p.variables q.variables ≡ true
      → IsCanonical ring p
      → IsCanonical ring q
      → (r : Polynomial A) × (mul ring p q ≡ ok r) × IsCanonical ring r
  unfolding mul
  mul-IsCanonical p q same hp hq = elim (Bool-cases (is_zero ring p || is_zero ring q)) [
    | inl empty ↦ (zero_polynomial ring p.variables, rw (same, empty), (tt, tt, tt))
    | inr filled ↦
        let e = equal_vectors→eq p.variables q.variables same in
        (
          record p { terms = _ },
          rw (same, filled),
          product_terms-IsCanonical ring (length p.variables) p.terms q.terms hp.0 (rw e hq.0),
        )
  ]

  -- On two polynomials over one list of variables whose terms are canonical (one exponent for
  -- each variable, in descending order with no monomial twice, no zero coefficient), operator+,
  -- operator-, operator* and unary minus give polynomials whose terms are canonical.
  pub operations-IsCanonical :
      (p q : Polynomial A)
      → equal_vectors p.variables q.variables ≡ true
      → IsCanonical ring p
      → IsCanonical ring q
      → ((r : Polynomial A) × (add ring p q ≡ ok r) × IsCanonical ring r)
        × ((r : Polynomial A) × (sub ring p q ≡ ok r) × IsCanonical ring r)
        × ((r : Polynomial A) × (mul ring p q ≡ ok r) × IsCanonical ring r)
        × IsCanonical ring (neg ring p)
  unfolding add sub neg
  operations-IsCanonical p q same hp hq = (
    merged-IsCanonical plus (λ b nz e. nz (sym (ring.zero-add b) ∙ e)) p q same hp hq,
    merged-IsCanonical minus
        (λ b nz e.
          negate_nonzero b nz (sym (ring.zero-add (negate b)) ∙ sym (ring.sub_def nought b) ∙ e))
        p q same hp hq,
    mul-IsCanonical p q same hp hq,
    IsCanonical-negate (length p.variables) p.terms hp,
  )
