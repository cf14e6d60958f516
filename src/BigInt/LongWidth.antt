-- ===== src/BigInt/LongWidth.antt =====
-- numerica_core/big_int.cc for any width of long: what promotion keeps of an int64_t.
use native.Mathlib.Nat.{mod-lt, one-le-pow}
use stocas.Common.{ℕ, ◌*◌, ◌%◌, ◌^◌, ◌≡◌, ap₂, ◌∙◌, Bool, true, Bool-cases, inl, inr, arith}
use stocas.Common.Int.{ℤ, pos, ◌*ℤ◌, leb_ℤ}
use stocas.BigInt.{Gmp, small, from_int64, shrink, mul_by}
use stocas.BigInt.Refinement.{meaning}

module _ (g : Gmp) where
  open g use {Mpz, value, fits_slong, long_bits, mpz_mul}

  meaning-shrink : (m : Mpz) → meaning g (shrink g m) ≡ value m
  unfolding shrink meaning
  meaning-shrink m = elim (Bool-cases (fits_slong m)) [
    | inl fits ↦ rw (fits, g.get_si_value m (g.fits_slong_true m fits))
    | inr large ↦ rw large
  ]

  from_int64_low : (n : ℕ) → value (from_int64 g (pos n)) ≡ pos (n % 2 ^ long_bits)
  unfolding from_int64
  from_int64_low n =
      let test : leb_ℤ (pos 0) (pos n) ≡ true = ground arith in
      rw test (g.set_ui_value (n % 2 ^ long_bits) (mod-lt n (one-le-pow long_bits 2 (omega arith))))

  pos-mul : (m n : ℕ) → pos m *ℤ pos n ≡ pos (m * n)
  unfolding ◌*ℤ◌
  pos-mul m n = ground arith

  -- Where long has w bits and the overflow test says yes for two inline numbers that are not
  -- negative, operator* gives the product of their remainders modulo 2^w.
  pub promoted_product :
      (overflows : ℤ → ℤ → Bool) (x y : ℕ)
      → overflows (pos x) (pos y) ≡ true
      → meaning g (mul_by g overflows (small (pos x)) (small (pos y)))
        ≡ pos ((x % 2 ^ long_bits) * (y % 2 ^ long_bits))
  unfolding mul_by
  promoted_product overflows x y wide = rw wide (
      meaning-shrink (mpz_mul (from_int64 g (pos x)) (from_int64 g (pos y)))
      ∙ g.mul_value (from_int64 g (pos x)) (from_int64 g (pos y))
      ∙ ap₂ ◌*ℤ◌ (from_int64_low x) (from_int64_low y)
      ∙ pos-mul (x % 2 ^ long_bits) (y % 2 ^ long_bits))
