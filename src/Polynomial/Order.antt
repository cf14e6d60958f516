-- ===== src/Polynomial/Order.antt =====
-- The order in which poly_core/include/poly_core/polynomial.hh keeps its terms.
use Prim.Native.Nat.{Ordering}
use stocas.Common.{◌≡◌, refl, sym, ap, ◌∙◌, true, false, length, inl, inr, Bool-cases, ◌⊎◌, arith}
use stocas.Monomial.{Monomial, compare_exponents}
use stocas.Monomial.Order.{swap, exponents-swap, exponents_eq, exponents_trans}
use stocas.Polynomial.{above, equal_vectors}
use stocas.Polynomial.Value.{equal_vectors_self, equal_vectors→eq}

above→gt : (a b : Monomial) → above a b ≡ true → compare_exponents a b ≡ Ordering.gt
unfolding above
above→gt a b h = ground arith

gt→above : (a b : Monomial) → compare_exponents a b ≡ Ordering.gt → above a b ≡ true
unfolding above
gt→above a b h = ground arith

lt→above :
    (a b : Monomial) → length a ≡ length b → compare_exponents a b ≡ Ordering.lt → above b a ≡ true
lt→above a b len h = gt→above b a (exponents-swap a b len ∙ ap swap h)

pub above_trans :
    (a b c : Monomial)
    → length a ≡ length b
    → length b ≡ length c
    → above a b ≡ true
    → above b c ≡ true
    → above a c ≡ true
above_trans a b c p q h k = lt→above c a (sym (p ∙ q)) (
    exponents_trans c b a (sym q) (sym p) (exponents-swap b c q ∙ ap swap (above→gt b c k))
      (exponents-swap a b p ∙ ap swap (above→gt a b h)))

pub above_asymm : (a b : Monomial) → length a ≡ length b → above a b ≡ true → above b a ≡ false
unfolding above
above_asymm a b len h = rw (exponents-swap a b len, above→gt a b h, above)

Ordering-cases : (o : Ordering) → (o ≡ Ordering.lt) ⊎ ((o ≡ Ordering.eq) ⊎ (o ≡ Ordering.gt))
Ordering-cases Ordering.lt = inl refl
Ordering-cases Ordering.eq = inr (inl refl)
Ordering-cases Ordering.gt = inr (inr refl)

pub above_total :
    (a b : Monomial)
    → length a ≡ length b
    → equal_vectors a b ≡ false
    → above a b ≡ false
    → above b a ≡ true
above_total a b len other h = elim (Ordering-cases (compare_exponents a b)) [
  | inl lt ↦ lt→above a b len lt
  | inr (inl eq) ↦
      let same = equal_vectors_self a in let e = exponents_eq a b len eq in cc (rw e at same)
  | inr (inr gt) ↦ let h' = gt→above a b gt in cc
]

-- From `b` not above `a` and `c` not above `b`.
pub not_above_trans :
    (a b c : Monomial)
    → length a ≡ length b
    → length b ≡ length c
    → above b a ≡ false
    → above c b ≡ false
    → above c a ≡ false
not_above_trans a b c p q h k = elim (Bool-cases (above c a)) [
  | inr no_more ↦ no_more
  | inl more ↦ elim (Bool-cases (equal_vectors a b)) [
    | inl same ↦ let e = equal_vectors→eq a b same in cc (rw e at more)
    | inr other ↦ let first = above_trans c a b (sym (p ∙ q)) p more (above_total' other) in cc
  ]
]
  where
    above_total' : equal_vectors a b ≡ false → above a b ≡ true
    above_total' other = elim (Bool-cases (above a b)) [
      | inl it ↦ it
      | inr not_it ↦ let back = above_total a b p other not_it in cc
    ]

-- From `a` above `b` and `c` not above `b`.
pub above_not_above :
    (a b c : Monomial)
    → length a ≡ length b
    → length b ≡ length c
    → above a b ≡ true
    → above c b ≡ false
    → above a c ≡ true
above_not_above a b c p q h k = elim (Bool-cases (equal_vectors c b)) [
  | inl same ↦ let e = equal_vectors→eq c b same in rw e h
  | inr other ↦ above_trans a b c p q h (above_total c b (sym q) other k)
]
