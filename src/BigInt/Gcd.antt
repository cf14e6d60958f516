-- ===== src/BigInt/Gcd.antt =====
-- The gcds of numerica_core/big_int.cc, next to the loops of
-- algebra_core/include/algebra_core/generic_algorithms.hh over the integers.
use Prim.Native.Nat.{◌∣◌}
use native.Mathlib.Nat.{dvd_antisymm}
use stocas.Common.{ℕ, ◌*◌, ◌<◌, ◌≡◌, ◌↔◌, refl, sym, ap, ◌∙◌, true, some, arith}
use stocas.Common.Int.{ℤ, pos, negsuc, ◌+ℤ◌, ◌*ℤ◌, leb_ℤ, nat_abs}
use stocas.Algebra.Integers.{integer_domain, mul_comm, one-mul}
use stocas.Algebra.Euclid
use stocas.Algebra.Euclid.{
  Divides, CommonDivisor, ExtendedGcdResult, gcd-CommonDivisor, extended_gcd-combination,
}
use stocas.BigInt.{Gmp, BigInt, promote, shrink}
use stocas.BigInt.Refinement.{Represents, shrink-Represents, promote_value}

-- What GMP's manual says of its gcds: mpz_gcd is not negative, also for negative operands, and
-- mpz_gcdext gives it with the coefficients.
pub record GmpGcd (g : Gmp) : Type 0 where
  pub mpz_gcd : g.Mpz → g.Mpz → g.Mpz
  pub mpz_gcdext : g.Mpz → g.Mpz → g.Mpz × g.Mpz × g.Mpz
  pub gcd_nonneg : (a b : g.Mpz) → leb_ℤ (pos 0) (g.value (mpz_gcd a b)) ≡ true
  pub gcd_divisors :
      (a b : g.Mpz) (d : ℤ)
      → CommonDivisor integer_domain d (g.value a) (g.value b)
        ↔ Divides integer_domain d (g.value (mpz_gcd a b))
  pub gcdext_gcd : (a b : g.Mpz) → g.value (mpz_gcdext a b).0 ≡ g.value (mpz_gcd a b)
  pub gcdext_coefficients :
      (a b : g.Mpz)
      → g.value a *ℤ g.value (mpz_gcdext a b).1 +ℤ g.value b *ℤ g.value (mpz_gcdext a b).2
        ≡ g.value (mpz_gcdext a b).0

nat_abs-mul : (x y : ℤ) → nat_abs (x *ℤ y) ≡ nat_abs x * nat_abs y
unfolding ◌*ℤ◌
nat_abs-mul (pos m) (pos n) = ground arith
nat_abs-mul (pos m) (negsuc n) = ground arith
nat_abs-mul (negsuc m) (pos n) = ground arith
nat_abs-mul (negsuc m) (negsuc n) = ground arith

size_of_divisor : (d a : ℤ) → Divides integer_domain d a → nat_abs d ∣ nat_abs a
size_of_divisor d a (q, e) = ∣ (nat_abs q, ap nat_abs (e ∙ mul_comm q d) ∙ nat_abs-mul d q) ∣₁

-- Two integers that divide each other have the same size.
same_size :
    (a b : ℤ) → Divides integer_domain a b → Divides integer_domain b a → nat_abs a ≡ nat_abs b
same_size a b h k = dvd_antisymm (size_of_divisor a b h) (size_of_divisor b a k)

one_multiple : (a : ℤ) → Divides integer_domain a a
one_multiple a = (pos 1, sym (one-mul a))

module _ (g : Gmp) (gcds : GmpGcd g) where
  open g use {value}
  open gcds use {mpz_gcd, mpz_gcdext}

  unfoldable pub gcd : BigInt g → BigInt g → BigInt g
  unfolding promote shrink
  gcd a b = shrink g (mpz_gcd (promote g a) (promote g b))

  unfoldable pub extended_gcd : BigInt g → BigInt g → BigInt g × BigInt g × BigInt g
  unfolding promote shrink
  extended_gcd a b =
      let (d, x, y) = mpz_gcdext (promote g a) (promote g b) in (shrink g d, shrink g x, shrink g y)

module _ (g : Gmp) (gcds : GmpGcd g) (lp64 : g.long_bits ≡ 64) where
  open g use {value}
  open gcds use {mpz_gcd, mpz_gcdext}

  -- The gcd of GMP has the size of that of the loop.
  loop_size :
      (x y d r : ℤ)
      → ((e : ℤ) → CommonDivisor integer_domain e x y ↔ Divides integer_domain e d)
      → ((e : ℤ) → CommonDivisor integer_domain e x y ↔ Divides integer_domain e r)
      → nat_abs r ≡ nat_abs d
  loop_size x y d r h k =
      same_size r d ((h r).0 ((k r).1 (one_multiple r))) ((k d).0 ((h d).1 (one_multiple d)))

  -- Where long has 64 bits, on representations of two integers x and y, gcd and extended_gcd
  -- give canonical representations: gcd that of an integer d that is not negative, whose
  -- divisors are the common divisors of x and y, and whose size is that of the result of the
  -- generic gcd, given more rounds than the size of y; and extended_gcd those of d and of
  -- coefficients u and v with x * u + y * v equal to d.
  pub gcds-Represents :
      (a b : BigInt g) (x y : ℤ) (rounds : ℕ)
      → Represents g a x
      → Represents g b y
      → nat_abs y < rounds
      → (d r u v : ℤ) × (c c' s t : BigInt g) × (gcd g gcds a b ≡ c)
        × (extended_gcd g gcds a b ≡ (c', s, t))
        × Represents g c d
        × Represents g c' d
        × Represents g s u
        × Represents g t v
        × (leb_ℤ (pos 0) d ≡ true)
        × ((e : ℤ) → CommonDivisor integer_domain e x y ↔ Divides integer_domain e d)
        × (x *ℤ u +ℤ y *ℤ v ≡ d)
        × (Euclid.gcd integer_domain rounds x y ≡ some r)
        × (nat_abs r ≡ nat_abs d)
  unfolding gcd extended_gcd
  gcds-Represents a b x y rounds (ca, ea) (cb, eb) enough =
      let m = promote g a in
      let n = promote g b in
      let ex : value m ≡ x = promote_value g lp64 a ca ∙ ea in
      let ey : value n ≡ y = promote_value g lp64 b cb ∙ eb in
      let (d, s, t) = mpz_gcdext m n in
      let divisors : (e : ℤ)
          → CommonDivisor integer_domain e x y ↔ Divides integer_domain e (value (mpz_gcd m n)) =
        λ e. rw (← ex, ← ey) (gcds.gcd_divisors m n e) in
      let (r, found, same) = gcd-CommonDivisor integer_domain rounds x y enough in
      let (canonical, e) = shrink-Represents g lp64 d in
      (
        value (mpz_gcd m n),
        r,
        value s,
        value t,
        shrink g (mpz_gcd m n),
        shrink g d,
        shrink g s,
        shrink g t,
        refl,
        refl,
        shrink-Represents g lp64 (mpz_gcd m n),
        (canonical, e ∙ gcds.gcdext_gcd m n),
        shrink-Represents g lp64 s,
        shrink-Represents g lp64 t,
        gcds.gcd_nonneg m n,
        divisors,
        rw (← ex, ← ey) (gcds.gcdext_coefficients m n) ∙ gcds.gcdext_gcd m n,
        found,
        loop_size x y (value (mpz_gcd m n)) r divisors same,
      )
