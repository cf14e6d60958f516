-- ===== src/Derivative/IntegerMeaning.antt =====
-- Integers as the numbers of expressions, and a meaning for expressions over them.
use Prim.Native.Nat.{Ordering, compare}
use stocas.Common.{◌+◌, ◌≡◌, ◌↔◌, refl, map, arith}
use stocas.Common.Int.{ℤ, pos, pos_part, neg_part, nat_abs, ◌==ℤ◌}
use stocas.Algebra.Integers.{integer_ring, eq_iff}
use stocas.Monomial.Order.{swap}
use stocas.Polynomial.Value.{pow as power}
use stocas.Atom.{Numbers}
use stocas.Derivative.{Functions}
use stocas.Derivative.Value.{Meaning}

abbrev pub compare_ℤ : ℤ → ℤ → Ordering
compare_ℤ a b = compare (pos_part a + neg_part b) (pos_part b + neg_part a)

pub compare_iff : (a b : ℤ) → (compare_ℤ a b ≡ Ordering.eq) ↔ (a ≡ b)
compare_iff a b = ground arith

pub compare_swap : (a b : ℤ) → compare_ℤ b a ≡ swap (compare_ℤ a b)
compare_swap a b = ground arith

pub compare_trans :
    (a b c : ℤ)
    → compare_ℤ a b ≡ Ordering.lt
    → compare_ℤ b c ≡ Ordering.lt
    → compare_ℤ a c ≡ Ordering.lt
compare_trans a b c h g = ground arith

abbrev pub integers : Numbers ℤ
integers = record {
  compare_numbers = compare_ℤ;
  equal_numbers = ◌==ℤ◌;
  hash_number = nat_abs;
  equal_iff = eq_iff;
  compare_iff = compare_iff;
  compare_swap = compare_swap;
  compare_trans = compare_trans;
}

-- Functions that are zero everywhere, and powers by the size of the exponent, which is right for
-- exponents from 0 on, and for the bases 1 and -1.
abbrev pub raise : ℤ → ℤ → ℤ
raise a b = power integer_ring a (nat_abs b)

abbrev pub meaning : Meaning ℤ ℤ integer_ring integer_ring
meaning = record {
  constant = λ c. c;
  raise = raise;
  apply = λ h vs. pos 0;
  slopes = λ h vs. map (λ v. pos 0) vs;
  constant_zero = refl;
  constant_one = refl;
  constant_add = λ c d. refl;
  constant_mul = λ c d. refl;
  constant_neg = λ c. refl;
}

abbrev pub functions : Functions
functions = record { sin = 10; cos = 11; exp = 12; ln = 13 }
