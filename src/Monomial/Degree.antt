-- ===== src/Monomial/Degree.antt =====
-- Degrees and the unit of poly_core/monomial.cc.
use native.Mathlib.Nat.{mod-eq_of_lt, add-mod}
use stocas.Common.{
  ℕ, ◌+◌, ◌-◌, ◌%◌, ◌<◌, ◌≡◌, ◌↔◌, refl, sym, ap, ap₂, ◌∙◌, true, [], ◌∷◌, length, if◌then◌else◌,
  arith, leb,
}
use stocas.Common.Mod.{mod_once}
use stocas.Monomial.{
  Monomial, exponent_mod, ok, accumulate, total_degree, is_one, add_exponents, mul,
}
use stocas.Monomial.Division.{Fits, mul_ok}

accumulate-add :
    (s t : ℕ) (a b : Monomial)
    → length a ≡ length b
    → accumulate ((s + t) % exponent_mod) (add_exponents a b)
      ≡ (accumulate s a + accumulate t b) % exponent_mod
unfolding accumulate add_exponents
accumulate-add s t [] [] len = refl
accumulate-add s t [] (y ∷ bs) len = absurd (omega arith)
accumulate-add s t (x ∷ es) [] len = absurd (omega arith)
accumulate-add s t (x ∷ es) (y ∷ bs) len =
    let M : ℕ = exponent_mod in
    let start : ((s + t) % M + (x + y) % M) % M ≡ ((s + x) % M + (t + y) % M) % M =
      sym (add-mod (s + t) (x + y) M) ∙ ap (λ n. n % M) (omega arith) ∙ add-mod (s + x) (t + y) M in
    ap (λ n. accumulate n (add_exponents es bs)) start
    ∙ accumulate-add ((s + x) % M) ((t + y) % M) es bs (omega arith)

-- Two monomials over one number of variables have a product, and its total degree is the sum of
-- theirs modulo 2 ^ 32, also where exponents or degrees wrap around.
pub total_degree-mul :
    (a b : Monomial)
    → length a ≡ length b
    → (p : Monomial) × (mul a b ≡ ok p)
      × (total_degree p ≡ (total_degree a + total_degree b) % exponent_mod)
unfolding total_degree
total_degree-mul a b len = (add_exponents a b, mul_ok a b len, accumulate-add 0 0 a b len)

one-add : (a b : Monomial) → length a ≡ length b → Fits b → is_one a ≡ true → add_exponents a b ≡ b
unfolding is_one add_exponents
one-add [] [] len f h = refl
one-add [] (y ∷ bs) len f h = absurd (omega arith)
one-add (x ∷ es) [] len f h = absurd (omega arith)
one-add (x ∷ es) (y ∷ bs) len (hy, f) h =
    let unit : x ≡ 0 = ground arith in
    let rest : is_one es ≡ true = ground arith in
    let sum : x + y ≡ y = omega arith in
    let same : (x + y) % exponent_mod ≡ y =
      ap (λ n. n % exponent_mod) sum ∙ mod-eq_of_lt {n = y} {m = exponent_mod} hy in
    ap₂ (λ n ns. n ∷ ns) same (one-add es bs (omega arith) f rest)

zero_of_sum : (x y m : ℕ) → x < m → y < m → (x + y) % m ≡ y → x ≡ 0
zero_of_sum x y m hx hy h =
    let once : (x + y) % m ≡ (if leb m (x + y) then x + y - m else x + y) =
      mod_once (x + y) m (omega arith) in
    ground arith

head_eq : (x y : ℕ) (es bs : Monomial) → (x ∷ es) ≡ (y ∷ bs) → (x ≡ y) × (es ≡ bs)
head_eq x y es bs h = (cc, cc)

add-one :
    (a b : Monomial)
    → length a ≡ length b
    → Fits a
    → Fits b
    → add_exponents a b ≡ b
    → is_one a ≡ true
unfolding is_one add_exponents
add-one [] b len fa fb h = refl
add-one (x ∷ es) [] len fa fb h = absurd (omega arith)
add-one (x ∷ es) (y ∷ bs) len (hx, fa) (hy, fb) h =
    let (first, others) = head_eq ((x + y) % exponent_mod) y (add_exponents es bs) bs h in
    let unit : x ≡ 0 = zero_of_sum x y exponent_mod hx hy first in
    let rest : is_one es ≡ true = add-one es bs (omega arith) fa fb others in ground arith

ok_eq : (p q : Monomial) → ok p ≡ ok q → p ≡ q
ok_eq p q h = cc

-- For two monomials over one number of variables whose exponents fit their word, `is_one` holds
-- of the first exactly where its product with the second is the second.
pub is_one-mul :
    (a b : Monomial) → length a ≡ length b → Fits a → Fits b → (is_one a ≡ true) ↔ (mul a b ≡ ok b)
is_one-mul a b len fa fb = (
  λ one. mul_ok a b len ∙ ap ok (one-add a b len fb one),
  λ same. add-one a b len fa fb (ok_eq _ _ (sym (mul_ok a b len) ∙ same)),
)
