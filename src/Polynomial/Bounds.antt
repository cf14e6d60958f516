-- ===== src/Polynomial/Bounds.antt =====
-- Bounds on the exponents of poly_core/include/poly_core/polynomial.hh, under which no sum of them
-- overflows.
use stocas.Common.{
  ℕ, zero, suc, ◌+◌, ◌≡◌, ◌≤◌, ◌<◌, sym, ap, subst, ◌∙◌, Bool, true, false, ◌||◌, if◌then◌else◌,
  List, [], ◌∷◌, length, arith,
}
use stocas.Algebra.{Ring}
use stocas.Monomial.{Monomial, exponent_mod, add_exponents}
use stocas.Monomial.Division.{FitsSum}
use stocas.Polynomial.{
  Term, equal_vectors, raw_product, sort_terms, collect, erase_zeros, Polynomial, Result, Failure,
  ok, err, invalid_argument, merged, add, mul, is_zero, zero_polynomial,
}
use stocas.Polynomial.Terms.{AllTerms, AllTerms-merge, AllTerms-product}
use stocas.Polynomial.Product.{FitsEach, FitsProduct}

abbrev from_ok : {A : Type 0} → A → Result A → A
from_ok default (ok a) = a
from_ok default (err e) = default

-- The polynomial of a test that guards a result.
guarded :
    {A : Type 0} (test : Bool) (p r : A) (e : Failure)
    → (if test then ok p else err e) ≡ ok r
    → p ≡ r
guarded true p r e h = ap (from_ok p) h
guarded false p r e h = cc

module _ {A : Type 0} (ring : Ring A) where
  pub add-AllTerms :
      (P : Monomial → Type 0) (p q r : Polynomial A)
      → add ring p q ≡ ok r
      → AllTerms P p.terms
      → AllTerms P q.terms
      → AllTerms P r.terms
  unfolding add merged
  add-AllTerms P p q r e h g =
      subst (λ t. AllTerms P t.terms)
        (guarded (equal_vectors p.variables q.variables) _ r invalid_argument e)
        (AllTerms-merge ring P ring.add p.terms q.terms h g)

  pub mul-AllTerms :
      (P Q R : Monomial → Type 0)
      → ((m n : Monomial) → P m → Q n → R (add_exponents m n))
      → (p q r : Polynomial A) → mul ring p q ≡ ok r
      → AllTerms P p.terms
      → AllTerms Q q.terms
      → AllTerms R r.terms
  unfolding mul zero_polynomial
  mul-AllTerms P Q R sums p q r e h g =
      subst (λ t. AllTerms R t.terms)
        (guarded (equal_vectors p.variables q.variables) _ r invalid_argument e)
        (branches (is_zero ring p || is_zero ring q))
    where
      product : Polynomial A
      product = record p {
        terms =
            erase_zeros ring (collect ring (sort_terms ring (raw_product ring p.terms q.terms)));
      }

      branches :
          (test : Bool)
          → AllTerms R (if test then zero_polynomial ring p.variables else product).terms
      branches true = tt
      branches false = AllTerms-product ring P Q R sums p.terms q.terms h g

abbrev pub UpTo : ℕ → Monomial → Type 0
UpTo b [] = Unit
UpTo b (e ∷ es) = (e ≤ b) × UpTo b es

-- A monomial with n exponents, each at most b.
abbrev pub Bounded : ℕ → ℕ → Monomial → Type 0
Bounded n b m = (length m ≡ n) × UpTo b m

UpTo-weaken : (b c : ℕ) (m : Monomial) → b ≤ c → UpTo b m → UpTo c m
UpTo-weaken b c [] l h = tt
UpTo-weaken b c (e ∷ es) l (h, hs) = (omega arith, UpTo-weaken b c es l hs)

pub Bounded-weaken : (n b c : ℕ) (m : Monomial) → b ≤ c → Bounded n b m → Bounded n c m
Bounded-weaken n b c m l (len, h) = (len, UpTo-weaken b c m l h)

pub Bounded-add :
    (n b c : ℕ) (k m : Monomial)
    → b + c < exponent_mod
    → Bounded n b k
    → Bounded n c m
    → Bounded n (b + c) (add_exponents k m)
unfolding add_exponents
Bounded-add n b c [] [] l h g = (h.0, tt)
Bounded-add n b c [] (e ∷ es) l (len, h) (len', g) = absurd (omega arith)
Bounded-add n b c (d ∷ ds) [] l (len, h) (len', g) = absurd (omega arith)
Bounded-add zero b c (d ∷ ds) (e ∷ es) l (len, h) (len', g) = absurd (omega arith)
Bounded-add (suc n) b c (d ∷ ds) (e ∷ es) l (len, (h, hs)) (len', (g, gs)) =
    let (len'', all) = Bounded-add n b c ds es l (omega arith, hs) (omega arith, gs) in
    (ap suc len'', (omega arith, all))

FitsSum-Bounded :
    (n b c : ℕ) (k m : Monomial)
    → b + c < exponent_mod
    → Bounded n b k
    → Bounded n c m
    → (length k ≡ length m) × FitsSum k m
FitsSum-Bounded n b c k m l (len, h) (len', g) = (len ∙ sym len', sums k m h g)
  where
    sums : (k m : Monomial) → UpTo b k → UpTo c m → FitsSum k m
    sums [] m h g = tt
    sums (d ∷ ds) [] h g = tt
    sums (d ∷ ds) (e ∷ es) (h, hs) (g, gs) = (omega (arith, l), sums ds es hs gs)

FitsEach-Bounded :
    {A : Type 0} (n b c : ℕ) (k : Monomial) (ys : List (Term A))
    → b + c < exponent_mod
    → Bounded n b k
    → AllTerms (Bounded n c) ys
    → FitsEach k ys
FitsEach-Bounded n b c k [] l h g = tt
FitsEach-Bounded n b c k ((m, a) ∷ ys) l h (g, gs) =
    let (len, fits) = FitsSum-Bounded n b c k m l h g in
    (len, fits, FitsEach-Bounded n b c k ys l h gs)

pub FitsProduct-Bounded :
    {A : Type 0} (n b c : ℕ) (xs ys : List (Term A))
    → b + c < exponent_mod
    → AllTerms (Bounded n b) xs
    → AllTerms (Bounded n c) ys
    → FitsProduct xs ys
FitsProduct-Bounded n b c [] ys l h g = tt
FitsProduct-Bounded n b c ((m, a) ∷ xs) ys l (h, hs) g =
    (FitsEach-Bounded n b c m ys l h g, FitsProduct-Bounded n b c xs ys l hs g)
