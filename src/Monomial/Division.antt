-- ===== src/Monomial/Division.antt =====
-- Products and quotients of poly_core/monomial.cc.
use native.Mathlib.Nat.{mod-eq_of_lt, mod-eq-sub-mod}
use stocas.Common.{
  ◌+◌, ◌-◌, ◌%◌, ◌≤◌, ◌<◌, ◌≡◌, refl, sym, ap, ◌∙◌, true, [], ◌∷◌, length, ◌==◌, arith, Bool-cases,
  inl, inr, ==_iff,
}
use stocas.Monomial.{
  Monomial, exponent_mod, ok, add_exponents, sub_exponents, divides_exponents, mul, divides, div,
}

-- Exponents that the word holds.
abbrev pub Fits : Monomial → Type 0
Fits [] = Unit
Fits (e ∷ es) = (e < exponent_mod) × Fits es

-- Sums of exponents that it holds.
abbrev pub FitsSum : Monomial → Monomial → Type 0
FitsSum [] bs = Unit
FitsSum (a ∷ es) [] = Unit
FitsSum (a ∷ es) (b ∷ bs) = (a + b < exponent_mod) × FitsSum es bs

sub-add :
    (a b : Monomial)
    → length a ≡ length b
    → Fits a
    → Fits b
    → divides_exponents b a ≡ true
    → add_exponents (sub_exponents a b) b ≡ a
unfolding add_exponents sub_exponents divides_exponents
sub-add [] bs len fa fb h = refl
sub-add (x ∷ es) [] len fa fb h = absurd (omega arith)
sub-add (x ∷ es) (y ∷ bs) len (hx, fa) (hy, fb) h =
    let le : y ≤ x = ground arith in
    let rest : divides_exponents bs es ≡ true = ground arith in
    let diff : (x + exponent_mod - y) % exponent_mod ≡ x - y =
      mod-eq-sub-mod {n = x + exponent_mod - y} {m = exponent_mod} (omega arith)
      ∙ mod-eq_of_lt {n = x + exponent_mod - y - exponent_mod} (omega arith)
      ∙ omega arith in
    let back : (x - y + y) % exponent_mod ≡ x =
      mod-eq_of_lt {n = x - y + y} {m = exponent_mod} (omega arith) ∙ omega arith in
    rw (diff, back) (ap (λ t. x ∷ t) (sub-add es bs (omega arith) fa fb rest))

add-sub :
    (a b : Monomial) → length a ≡ length b → FitsSum a b → sub_exponents (add_exponents a b) b ≡ a
unfolding add_exponents sub_exponents
add-sub [] bs len f = refl
add-sub (x ∷ es) [] len f = absurd (omega arith)
add-sub (x ∷ es) (y ∷ bs) len (hx, f) =
    let sum : (x + y) % exponent_mod ≡ x + y = mod-eq_of_lt hx in
    let diff : (x + y + exponent_mod - y) % exponent_mod ≡ x =
      mod-eq-sub-mod {n = x + y + exponent_mod - y} {m = exponent_mod} (omega arith)
      ∙ mod-eq_of_lt {n = x + y + exponent_mod - y - exponent_mod} (omega arith)
      ∙ omega arith in
    rw (sum, diff) (ap (λ t. x ∷ t) (add-sub es bs (omega arith) f))

add-divides :
    (a b : Monomial)
    → length a ≡ length b
    → FitsSum a b
    → divides_exponents b (add_exponents a b) ≡ true
unfolding add_exponents divides_exponents
add-divides [] [] len f = refl
add-divides [] (y ∷ bs) len f = absurd (omega arith)
add-divides (x ∷ es) [] len f = refl
add-divides (x ∷ es) (y ∷ bs) len (hx, f) =
    let sum : (x + y) % exponent_mod ≡ x + y = mod-eq_of_lt hx in
    rw sum (ground (arith, add-divides es bs (omega arith) f))

pub length-add : (a b : Monomial) → length a ≡ length b → length (add_exponents a b) ≡ length b
unfolding add_exponents
length-add [] bs len = len
length-add (x ∷ es) [] len = absurd (omega arith)
length-add (x ∷ es) (y ∷ bs) len = omega (arith, length-add es bs (omega arith))

length-sub : (a b : Monomial) → length a ≡ length b → length (sub_exponents a b) ≡ length b
unfolding sub_exponents
length-sub [] bs len = len
length-sub (x ∷ es) [] len = absurd (omega arith)
length-sub (x ∷ es) (y ∷ bs) len = omega (arith, length-sub es bs (omega arith))

pub mul_ok : (a b : Monomial) → length a ≡ length b → mul a b ≡ ok (add_exponents a b)
unfolding mul
mul_ok a b len = rw ((==_iff _ _).1 len)

div_ok :
    (a b : Monomial)
    → length a ≡ length b
    → divides_exponents b a ≡ true
    → div a b ≡ ok (sub_exponents a b)
unfolding div
div_ok a b len h = rw ((==_iff _ _).1 len, (==_iff _ _).1 (sym len), h, div, divides)

divides-true :
    (a b : Monomial)
    → divides b a ≡ ok true
    → (length a ≡ length b) × (divides_exponents b a ≡ true)
unfolding divides
divides-true a b h = elim (Bool-cases (length b == length a)) [
  | inl same ↦ (sym ((==_iff _ _).0 same), cc (rw (same, divides) at h))
  | inr other ↦ cc (rw (other, divides) at h)
]

-- Where two monomials have one number of variables and no sum of their exponents overflows,
-- their product exists and dividing it by the second gives the first.
pub div-mul :
    (a b : Monomial)
    → length a ≡ length b
    → FitsSum a b
    → (p : Monomial) × (mul a b ≡ ok p) × (div p b ≡ ok a)
div-mul a b len f = (
  add_exponents a b,
  mul_ok a b len,
  div_ok (add_exponents a b) b (length-add a b len) (add-divides a b len f)
      ∙ ap ok (add-sub a b len f),
)

-- Where the exponents of two monomials fit their word and `divides` says that one divides the
-- other, `operator/` gives a quotient, and the product of that quotient and the divisor is the
-- dividend.
pub mul-div :
    (a b : Monomial)
    → Fits a
    → Fits b
    → divides b a ≡ ok true
    → (q : Monomial) × (div a b ≡ ok q) × (mul q b ≡ ok a)
mul-div a b fa fb h =
    let (len, yes_it_does) = divides-true a b h in
    (
      sub_exponents a b,
      div_ok a b len yes_it_does,
      mul_ok (sub_exponents a b) b (length-sub a b len) ∙ ap ok (sub-add a b len fa fb yes_it_does),
    )
