-- ===== src/AtomConversion/Steps.antt =====
-- poly_core/atom_conversion.cc: values and bounds of exponents, through the loops that read an expression.
use stocas.Common.{
  ℕ, zero, suc, ◌+◌, ◌≡◌, ◌≤◌, ◌<◌, refl, sym, ap, ap₂, subst, ◌∙◌, true, List, [], ◌∷◌, length,
  replicate, ◌==◌, max, inl, inr, Bool-cases, arith, ==_iff,
}
use stocas.Algebra.{Ring}
use stocas.Algebra.Laws.{add-zero, mul-one, zero-mul}
use stocas.Monomial.{Monomial, exponent_mod}
use stocas.Polynomial
use stocas.Polynomial.{
  Term, Polynomial, Result, ok, and_then, zero_polynomial, from_term, constant, equal_vectors,
}
use stocas.Polynomial.Value.{value as polynomial_value, monomial_value, equal_vectors_self}
use stocas.Polynomial.Sum.{value-add-sub-neg}
use stocas.Polynomial.Product.{value-mul}
use stocas.Polynomial.Terms.{AllTerms, AllTerms-weaken}
use stocas.Polynomial.Bounds.{
  Bounded, Bounded-weaken, Bounded-add, FitsProduct-Bounded, add-AllTerms, mul-AllTerms,
}
use stocas.Atom.Builders.Folds.{fold}

-- The greatest bound, and their sum.
abbrev pub greatest : List ℕ → ℕ
greatest bs = fold max 0 bs

abbrev pub total : List ℕ → ℕ
total bs = fold ◌+◌ 0 bs

pub zeros-Bounded : (n b : ℕ) → Bounded n b (replicate n 0)
zeros-Bounded zero b = (refl, tt)
zeros-Bounded (suc n) b = let (len, h) = zeros-Bounded n b in (ap suc len, (omega arith, h))

pub value-zeros :
    {N : Type 0} (scalars : Ring N) (n : ℕ) (xs : List N)
    → monomial_value scalars xs (replicate n 0) ≡ scalars.one
value-zeros scalars zero [] = refl
value-zeros scalars zero (x ∷ xs) = refl
value-zeros scalars (suc n) [] = refl
value-zeros scalars (suc n) (x ∷ xs) = scalars.one-mul _ ∙ value-zeros scalars n xs

module _ {N : Type 0} (scalars : Ring N) (variables : List ℕ) (point : List N) where
  abbrev pub IsReading : Polynomial N → ℕ → N → Type 0
  IsReading p b v =
      (p.variables ≡ variables)
      × AllTerms (Bounded (length variables) b) p.terms
      × (polynomial_value scalars point p.terms ≡ v)

  -- A conversion that gives a polynomial in the variables, with exponents up to b, and value v.
  abbrev pub Reads : Result (Polynomial N) → ℕ → N → Type 0
  Reads r b v = (p : Polynomial N) × (r ≡ ok p) × IsReading p b v

  same_variables :
      (p q : Polynomial N)
      → p.variables ≡ variables
      → q.variables ≡ variables
      → equal_vectors p.variables q.variables ≡ true
  same_variables p q e e' = ap₂ equal_vectors e e' ∙ equal_vectors_self variables

  pub IsReading-weaken :
      (p : Polynomial N) (b c : ℕ) (v : N) → b ≤ c → IsReading p b v → IsReading p c v
  IsReading-weaken p b c v l (vs, bounded, e) = (
    vs,
    AllTerms-weaken (Bounded (length variables) b) (Bounded (length variables) c) p.terms
        (λ m. Bounded-weaken (length variables) b c m l) bounded,
    e,
  )

  pub Reads-weaken :
      (r : Result (Polynomial N)) (b c : ℕ) (v w : N) → b ≤ c → v ≡ w → Reads r b v → Reads r c w
  Reads-weaken r b c v w l f (p, made, h) =
      (p, made, subst (IsReading p c) f (IsReading-weaken p b c v l h))

  pub bind-Reads :
      (r : Result (Polynomial N)) (f : Polynomial N → Result (Polynomial N)) (b c : ℕ) (v w : N)
      → Reads r b v
      → ((p : Polynomial N) → IsReading p b v → Reads (f p) c w)
      → Reads (and_then r f) c w
  bind-Reads r f b c v w (p, made, h) next =
      let (q, found, k) = next p h in (q, ap (λ t. and_then t f) made ∙ found, k)

  pub add-Reads :
      (p q : Polynomial N) (b : ℕ) (v w : N)
      → IsReading p b v
      → IsReading q b w
      → Reads (Polynomial.add scalars p q) b (scalars.add v w)
  add-Reads p q b v w (vs, h, e) (vs', h', e') =
      let (r, made, same, val) =
        (value-add-sub-neg scalars point p q (same_variables p q vs vs')).0 in
      (
        r,
        made,
        (
          same ∙ vs,
          add-AllTerms scalars (Bounded (length variables) b) p q r made h h',
          val ∙ ap₂ scalars.add e e',
        ),
      )

  pub mul-Reads :
      (p q : Polynomial N) (b c : ℕ) (v w : N)
      → b + c < exponent_mod
      → IsReading p b v
      → IsReading q c w
      → Reads (Polynomial.mul scalars p q) (b + c) (scalars.mul v w)
  mul-Reads p q b c v w l (vs, h, e) (vs', h', e') =
      let n : ℕ = length variables in
      let (r, made, same, val) =
        value-mul scalars point p q (same_variables p q vs vs')
          (FitsProduct-Bounded n b c p.terms q.terms l h h') in
      (
        r,
        made,
        (
          same ∙ vs,
          mul-AllTerms scalars (Bounded n b) (Bounded n c) (Bounded n (b + c))
              (λ k m. Bounded-add n b c k m l) p q r made h h',
          val ∙ ap₂ scalars.mul e e',
        ),
      )

  pub from_term-Reads :
      (m : Monomial) (c : N) (b : ℕ)
      → Bounded (length variables) b m
      → Reads (from_term scalars variables m c) b (scalars.mul c (monomial_value scalars point m))
  unfolding from_term zero_polynomial
  from_term-Reads m c b (len, h) =
      let sized : (length m == length variables) ≡ true = (==_iff _ _).1 len in
      elim (Bool-cases (scalars.eq c scalars.zero)) [
        | inl gone ↦ (
          zero_polynomial scalars variables,
          rw (sized, gone),
          (
            refl,
            tt,
            sym (
                ap (λ t. scalars.mul t (monomial_value scalars point m))
                  ((scalars.eq_iff c scalars.zero).0 gone)
                ∙ zero-mul scalars _),
          ),
        )
        | inr kept ↦ (
          record { variables = variables; terms = (m, c) ∷ [] },
          rw (sized, kept),
          (refl, ((len, h), tt), add-zero scalars _),
        )
      ]

  pub constant-Reads : (c : N) (b : ℕ) → Reads (constant scalars variables c) b c
  unfolding constant
  constant-Reads c b =
      let (p, made, (vs, h, e)) =
        from_term-Reads (replicate (length variables) 0) c b (zeros-Bounded (length variables) b) in
      (
        p,
        made,
        (
          vs,
          h,
          e ∙ ap (scalars.mul c) (value-zeros scalars (length variables) point) ∙ mul-one scalars c,
        ),
      )
