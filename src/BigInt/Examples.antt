-- ===== src/BigInt/Examples.antt =====
-- GMP stood for by the integers themselves, and runs of numerica_core/big_int.cc over it.
use stocas.Common.{
  ℕ, ◌*◌, ◌%◌, suc, ◌≤◌, ◌-◌, ◌^◌, ◌≡◌, ◌↔◌, ◌⊎◌, refl, arith, Bool, true, false, none, some,
  Option, ap, ap₂, ◌∙◌, sym, if◌then◌else◌, Bool-cases, inl, inr, ◌&&◌, leb, ltb,
}
use stocas.Common.Int.{
  ℤ, pos, negsuc, ◌+ℤ◌, ◌-ℤ◌, ◌*ℤ◌, neg_ℤ, tdiv, tmod, pos_part, neg_part, ltb_ℤ, leb_ℤ, nat_abs,
  int_laws,
}
use stocas.BigInt.{
  Gmp, BigInt, small, big, add, sub, mul, mul_by, neg, div, rem, mul_overflows_portable,
  mul_overflows, add_overflows, sub_overflows, domain_error, quotient,
}
use stocas.Algebra.Integers.{integer_ring, integer_domain, mul_comm}
use stocas.Algebra.Laws.{neg-mul, neg_add}
use stocas.Algebra.Euclid
use stocas.Algebra.Euclid.{
  Divides, CommonDivisor, ExtendedGcdResult, gcd-CommonDivisor, extended_gcd-combination,
}
use stocas.BigInt.Gcd
use stocas.BigInt.Gcd.{GmpGcd, gcds-Represents}
use stocas.BigInt.Range.{InRange, FitsLong, int64_min, int64_max}
use stocas.BigInt.Refinement.{meaning, Represents, operations-Represents}
use stocas.BigInt.LongWidth.{promoted_product}
use stocas.BigInt.Overflow.{overflow_tests_sound}
use stocas.BigInt.Order.{div-rem-Represents}

abbrev fits : ℕ → ℤ → Bool
fits w z = ltb (pos_part z) (2 ^ (w - 1)) && leb (neg_part z) (2 ^ (w - 1))

fits_true : (w : ℕ) (z : ℤ) → fits w z ≡ true → FitsLong w z
fits_true w z h = ground arith

fits_false : (w : ℕ) (z : ℤ) → fits w z ≡ false → ¬ FitsLong w z
fits_false w z h r = ground arith

sub-negative : (a b : ℤ) → ltb_ℤ (a -ℤ b) (pos 0) ≡ ltb_ℤ a b
unfolding ◌-ℤ◌
sub-negative a b = ground arith

sub-positive : (a b : ℤ) → ltb_ℤ (pos 0) (a -ℤ b) ≡ ltb_ℤ b a
unfolding ◌-ℤ◌
sub-positive a b = ground arith

-- Every integer is its own mpz_t; long has w bits.
abbrev ideal_of : ℕ → Gmp
ideal_of w = record {
  Mpz = ℤ;
  value = λ z. z;
  long_bits = w;
  set_ui = pos;
  set_si = λ z. z;
  set_str = λ _. none;
  fits_slong = fits w;
  get_si = λ z. z;
  mpz_add = ◌+ℤ◌;
  mpz_sub = ◌-ℤ◌;
  mpz_mul = ◌*ℤ◌;
  mpz_tdiv_q = tdiv;
  mpz_tdiv_r = tmod;
  mpz_neg = neg_ℤ;
  cmp = ◌-ℤ◌;
  set_ui_value = λ n _. refl;
  set_si_value = λ z _. refl;
  fits_slong_true = fits_true w;
  fits_slong_false = fits_false w;
  get_si_value = λ m _. refl;
  add_value = λ a b. refl;
  sub_value = λ a b. refl;
  mul_value = λ a b. refl;
  tdiv_q_value = λ a b _. refl;
  tdiv_r_value = λ a b _. refl;
  neg_value = λ a. refl;
  cmp_negative = sub-negative;
  cmp_positive = sub-positive;
}

abbrev ideal : Gmp
ideal = ideal_of 64

abbrev max_int : BigInt ideal
max_int = small int64_max

abbrev min_int : BigInt ideal
min_int = small int64_min

max_int-Represents : Represents ideal max_int int64_max
unfolding meaning
max_int-Represents = (omega arith, refl)

min_int-Represents : Represents ideal min_int int64_min
unfolding meaning
min_int-Represents = (omega arith, refl)

minus_one-Represents : Represents ideal (small (negsuc 0)) (negsuc 0)
unfolding meaning
minus_one-Represents = (omega arith, refl)

-- INT64_MAX + INT64_MAX is promoted.
promoted_sum : add ideal max_int max_int ≡ big (pos (2 ^ 64 - 2))
unfolding add ◌+ℤ◌ ◌-ℤ◌
promoted_sum = refl

overflow_tests_sound_example :
    ((add_overflows int64_min (negsuc 0) ≡ false) ↔ InRange (int64_min +ℤ negsuc 0))
    × ((sub_overflows int64_min (negsuc 0) ≡ false) ↔ InRange (int64_min -ℤ negsuc 0))
    × ((mul_overflows int64_min (negsuc 0) ≡ false) ↔ InRange (int64_min *ℤ negsuc 0))
    × ((mul_overflows_portable int64_min (negsuc 0) ≡ true) ⊎ InRange (int64_min *ℤ negsuc 0))
overflow_tests_sound_example = overflow_tests_sound int64_min (negsuc 0) (omega arith) (omega arith)

operations-Represents_example :
    Represents ideal (add ideal min_int max_int) (int64_min +ℤ int64_max)
    × Represents ideal (sub ideal min_int max_int) (int64_min -ℤ int64_max)
    × Represents ideal (mul ideal min_int max_int) (int64_min *ℤ int64_max)
    × Represents ideal (neg ideal min_int) (neg_ℤ int64_min)
operations-Represents_example =
    operations-Represents ideal refl min_int max_int int64_min int64_max min_int-Represents
      max_int-Represents

div-rem-Represents_example :
    ((negsuc 0 ≡ pos 0)
      × (div ideal min_int (small (negsuc 0)) ≡ domain_error)
      × (rem ideal min_int (small (negsuc 0)) ≡ domain_error))
    ⊎ ((q r : ℤ) × (c d : BigInt ideal) × (div ideal min_int (small (negsuc 0)) ≡ quotient c)
        × (rem ideal min_int (small (negsuc 0)) ≡ quotient d)
        × Represents ideal c q
        × Represents ideal d r
        × (q *ℤ negsuc 0 +ℤ r ≡ int64_min)
        × (suc (nat_abs r) ≤ 1))
div-rem-Represents_example =
    div-rem-Represents ideal refl min_int (small (negsuc 0)) int64_min (negsuc 0) min_int-Represents
      minus_one-Represents

-- The loops' results, with the sign that GMP gives them.
abbrev positive : Option (ExtendedGcdResult ℤ) → ℤ × ℤ × ℤ
positive none = (pos 0, pos 0, pos 0)
positive (some e) =
    if leb_ℤ (pos 0) e.gcd then (e.gcd, e.x, e.y) else (neg_ℤ e.gcd, neg_ℤ e.x, neg_ℤ e.y)

abbrev ideal_gcdext : ℤ → ℤ → ℤ × ℤ × ℤ
ideal_gcdext a b = positive (Euclid.extended_gcd integer_domain (suc (nat_abs b)) a b)

neg-below : (z : ℤ) → leb_ℤ (pos 0) z ≡ false → leb_ℤ (pos 0) (neg_ℤ z) ≡ true
unfolding neg_ℤ
neg-below z h = ground arith

neg-neg : (z : ℤ) → neg_ℤ (neg_ℤ z) ≡ z
neg-neg z = omega int_laws

mul-neg : (a b : ℤ) → a *ℤ neg_ℤ b ≡ neg_ℤ (a *ℤ b)
mul-neg a b = mul_comm a (neg_ℤ b) ∙ neg-mul integer_ring b a ∙ ap neg_ℤ (mul_comm b a)

Divides-neg : (d a : ℤ) → Divides integer_domain d a ↔ Divides integer_domain d (neg_ℤ a)
Divides-neg d a = (
  λ (q, e). (neg_ℤ q, ap neg_ℤ e ∙ sym (neg-mul integer_ring q d)),
  λ (q, e). (neg_ℤ q, sym (neg-neg a) ∙ ap neg_ℤ e ∙ sym (neg-mul integer_ring q d)),
)

abbrev IsGcdext : ℤ → ℤ → ℤ × ℤ × ℤ → Type 0
IsGcdext a b (d, x, y) =
    (leb_ℤ (pos 0) d ≡ true)
    × ((e : ℤ) → CommonDivisor integer_domain e a b ↔ Divides integer_domain e d)
    × (a *ℤ x +ℤ b *ℤ y ≡ d)

positive-IsGcdext :
    (a b : ℤ) (e : ExtendedGcdResult ℤ)
    → ((d : ℤ) → CommonDivisor integer_domain d a b ↔ Divides integer_domain d e.gcd)
    → a *ℤ e.x +ℤ b *ℤ e.y ≡ e.gcd
    → IsGcdext a b (positive (some e))
positive-IsGcdext a b e divisors combined = elim (Bool-cases (leb_ℤ (pos 0) e.gcd)) [
  | inl above ↦ rw above (above, divisors, combined)
  | inr below ↦ rw below (
    neg-below e.gcd below,
    λ d. (
      λ h. (Divides-neg d e.gcd).0 ((divisors d).0 h),
      λ h. (divisors d).1 ((Divides-neg d e.gcd).1 h),
    ),
    ap₂ ◌+ℤ◌ (mul-neg a e.x) (mul-neg b e.y)
        ∙ sym (neg_add integer_ring (a *ℤ e.x) (b *ℤ e.y))
        ∙ ap neg_ℤ combined,
  )
]

ideal_gcdext-IsGcdext : (a b : ℤ) → IsGcdext a b (ideal_gcdext a b)
ideal_gcdext-IsGcdext a b =
    let rounds = suc (nat_abs b) in
    let (e, found, plain, value) =
      extended_gcd-combination integer_domain rounds a b (omega arith) in
    let (r, found', divisors) = gcd-CommonDivisor integer_domain rounds a b (omega arith) in
    let same : r ≡ e.gcd = cc in
    rw found (
      positive-IsGcdext a b e (λ d. rw (← same) (divisors d))
        (ap₂ ◌+ℤ◌ (mul_comm a e.x) (mul_comm b e.y) ∙ value))

abbrev ideal_gcds : GmpGcd ideal
ideal_gcds = record {
  mpz_gcd = λ a b. (ideal_gcdext a b).0;
  mpz_gcdext = ideal_gcdext;
  gcd_nonneg = λ a b. (ideal_gcdext-IsGcdext a b).0;
  gcd_divisors = λ a b d. (ideal_gcdext-IsGcdext a b).1 d;
  gcdext_gcd = λ a b. refl;
  gcdext_coefficients = λ a b. (ideal_gcdext-IsGcdext a b).2;
}

twelve-Represents : Represents ideal (small (pos 12)) (pos 12)
unfolding meaning
twelve-Represents = (omega arith, refl)

minus_eighteen-Represents : Represents ideal (small (negsuc 17)) (negsuc 17)
unfolding meaning
minus_eighteen-Represents = (omega arith, refl)

gcds-Represents_example :
    (d r u v : ℤ) × (c c' s t : BigInt ideal) × (Gcd.gcd ideal ideal_gcds
        (small (pos 12))
        (small (negsuc 17))
      ≡ c)
    × (Gcd.extended_gcd ideal ideal_gcds (small (pos 12)) (small (negsuc 17)) ≡ (c', s, t))
    × Represents ideal c d
    × Represents ideal c' d
    × Represents ideal s u
    × Represents ideal t v
    × (leb_ℤ (pos 0) d ≡ true)
    × ((e : ℤ) → CommonDivisor integer_domain e (pos 12) (negsuc 17) ↔ Divides integer_domain e d)
    × (pos 12 *ℤ u +ℤ negsuc 17 *ℤ v ≡ d)
    × (Euclid.gcd integer_domain 19 (pos 12) (negsuc 17) ≡ some r)
    × (nat_abs r ≡ nat_abs d)
gcds-Represents_example =
    gcds-Represents ideal ideal_gcds refl (small (pos 12)) (small (negsuc 17)) (pos 12) (negsuc 17)
      19 twelve-Represents minus_eighteen-Represents (omega arith)

-- The gcd of 12 and -18 is 6, and of -2^63 with itself 2^63, which is not inline.
gcd_run : Gcd.gcd ideal ideal_gcds (small (pos 12)) (small (negsuc 17)) ≡ small (pos 6)
unfolding Gcd.gcd Euclid.extended_gcd tmod neg_ℤ
gcd_run = refl

wide_gcd_run : Gcd.gcd ideal ideal_gcds min_int min_int ≡ big (pos (2 ^ 63))
unfolding Gcd.gcd Euclid.extended_gcd tmod neg_ℤ
wide_gcd_run = refl

-- 2^40 times 2^40 where long has 32 bits and there is no 128-bit product.
overflow_40 : mul_overflows_portable (pos (2 ^ 40)) (pos (2 ^ 40)) ≡ true
unfolding mul_overflows_portable
overflow_40 = refl

promoted_product_example :
    meaning
      (ideal_of 32)
      (mul_by (ideal_of 32) mul_overflows_portable (small (pos (2 ^ 40))) (small (pos (2 ^ 40))))
    ≡ pos ((2 ^ 40 % 2 ^ 32) * (2 ^ 40 % 2 ^ 32))
promoted_product_example =
    promoted_product (ideal_of 32) mul_overflows_portable (2 ^ 40) (2 ^ 40) overflow_40

lost_product_run :
    mul_by (ideal_of 32) mul_overflows_portable (small (pos (2 ^ 40))) (small (pos (2 ^ 40)))
    ≡ small (pos 0)
unfolding mul_by mul_overflows_portable ◌*ℤ◌
lost_product_run = refl
