-- ===== src/Monomial/Order.antt =====
-- The lexicographic order of poly_core/monomial.cc is a monomial order.
use Prim.Native.Nat.{Ordering, compare}
use native.Mathlib.Nat.{mod-eq_of_lt}
use stocas.Common.{ℕ, ◌+◌, ◌%◌, ◌≡◌, ◌↔◌, refl, sym, ap, ◌∙◌, [], ◌∷◌, length, arith, ==_iff}
use stocas.Monomial.{
  Monomial, exponent_mod, ok, then_by, compare_exponents, add_exponents, compare_monomials, mul,
}
use stocas.Monomial.Division.{FitsSum, mul_ok, length-add}

abbrev pub swap : Ordering → Ordering
swap Ordering.lt = Ordering.gt
swap Ordering.eq = Ordering.eq
swap Ordering.gt = Ordering.lt

pub compare-swap : (x y : ℕ) → compare y x ≡ swap (compare x y)
compare-swap x y = ground arith

compare-add : (x y z : ℕ) → compare (x + z) (y + z) ≡ compare x y
compare-add x y z = ground arith

pub compare_self : (x : ℕ) → compare x x ≡ Ordering.eq
compare_self x = ground arith

pub then_by-swap : (o p : Ordering) → swap (then_by o p) ≡ then_by (swap o) (swap p)
then_by-swap Ordering.lt p = refl
then_by-swap Ordering.eq p = refl
then_by-swap Ordering.gt p = refl

pub exponents-swap :
    (a b : Monomial) → length a ≡ length b → compare_exponents b a ≡ swap (compare_exponents a b)
unfolding compare_exponents
exponents-swap [] [] len = refl
exponents-swap [] (y ∷ bs) len = refl
exponents-swap (x ∷ es) [] len = refl
exponents-swap (x ∷ es) (y ∷ bs) len =
    rw (compare-swap x y, exponents-swap es bs (omega arith)) (sym (then_by-swap (compare x y) _))

pub exponents_eq :
    (a b : Monomial) → length a ≡ length b → compare_exponents a b ≡ Ordering.eq → a ≡ b
unfolding compare_exponents
exponents_eq [] [] len h = refl
exponents_eq [] (y ∷ bs) len h = absurd (omega arith)
exponents_eq (x ∷ es) [] len h = absurd (omega arith)
exponents_eq (x ∷ es) (y ∷ bs) len h = ground (arith, exponents_eq es bs)

pub exponents_self : (a : Monomial) → compare_exponents a a ≡ Ordering.eq
unfolding compare_exponents
exponents_self [] = refl
exponents_self (x ∷ es) = rw (compare_self x) (exponents_self es)

pub exponents_trans :
    (a b c : Monomial)
    → length a ≡ length b
    → length b ≡ length c
    → compare_exponents a b ≡ Ordering.lt
    → compare_exponents b c ≡ Ordering.lt
    → compare_exponents a c ≡ Ordering.lt
unfolding compare_exponents
exponents_trans [] b c p q h k = cc
exponents_trans (x ∷ es) [] c p q h k = absurd (omega arith)
exponents_trans (x ∷ es) (y ∷ bs) [] p q h k = absurd (omega arith)
exponents_trans (x ∷ es) (y ∷ bs) (z ∷ cs) p q h k = ground (arith, exponents_trans es bs cs)

exponents-add :
    (a b c : Monomial)
    → length a ≡ length c
    → length b ≡ length c
    → FitsSum a c
    → FitsSum b c
    → compare_exponents (add_exponents a c) (add_exponents b c) ≡ compare_exponents a b
unfolding compare_exponents add_exponents
exponents-add [] b c p q f g = refl
exponents-add (x ∷ es) b [] p q f g = absurd (omega arith)
exponents-add (x ∷ es) [] (z ∷ cs) p q f g = refl
exponents-add (x ∷ es) (y ∷ bs) (z ∷ cs) p q (hx, f) (hy, g) =
    let left : (x + z) % exponent_mod ≡ x + z = mod-eq_of_lt hx in
    let right : (y + z) % exponent_mod ≡ y + z = mod-eq_of_lt hy in
    rw (left, right, compare-add x y z, exponents-add es bs cs (omega arith) (omega arith) f g)

compare_ok :
    (a b : Monomial) → length a ≡ length b → compare_monomials a b ≡ ok (compare_exponents a b)
unfolding compare_monomials
compare_ok a b len = rw ((==_iff _ _).1 len)

-- Two monomials over one number of variables compare, the other way round with the opposite
-- outcome, and as equal exactly where they are equal.
pub compare_monomials_total :
    (a b : Monomial)
    → length a ≡ length b
    → (o : Ordering) × (compare_monomials a b ≡ ok o)
      × (compare_monomials b a ≡ ok (swap o))
      × ((o ≡ Ordering.eq) ↔ (a ≡ b))
compare_monomials_total a b len = (
  compare_exponents a b,
  compare_ok a b len,
  compare_ok b a (sym len) ∙ ap ok (exponents-swap a b len),
  (exponents_eq a b len, λ e. rw (← e) (exponents_self a)),
)

ok-injective : (o p : Ordering) → ok o ≡ ok p → o ≡ p
ok-injective o p h = cc

-- Over one number of variables, a monomial below a second that is below a third is below the
-- third.
pub compare_monomials_trans :
    (a b c : Monomial)
    → length a ≡ length b
    → length b ≡ length c
    → compare_monomials a b ≡ ok Ordering.lt
    → compare_monomials b c ≡ ok Ordering.lt
    → compare_monomials a c ≡ ok Ordering.lt
compare_monomials_trans a b c p q h k =
    compare_ok a c (p ∙ q)
    ∙ ap ok (
        exponents_trans a b c p q (ok-injective _ _ (sym (compare_ok a b p) ∙ h))
          (ok-injective _ _ (sym (compare_ok b c q) ∙ k)))

-- Multiplying two monomials by a third over the same number of variables, where no sum of
-- exponents overflows, gives products that compare as the two monomials do.
pub compare_monomials-mul :
    (a b c : Monomial)
    → length a ≡ length c
    → length b ≡ length c
    → FitsSum a c
    → FitsSum b c
    → (p q : Monomial) × (mul a c ≡ ok p)
      × (mul b c ≡ ok q)
      × (compare_monomials p q ≡ compare_monomials a b)
compare_monomials-mul a b c la lb f g = (
  add_exponents a c,
  add_exponents b c,
  mul_ok a c la,
  mul_ok b c lb,
  compare_ok _ _ (length-add a c la ∙ sym (length-add b c lb))
      ∙ ap ok (exponents-add a b c la lb f g)
      ∙ sym (compare_ok a b (la ∙ sym lb)),
)
