-- ===== src/BigInt/Order.antt =====
-- Comparison and division of numerica_core/big_int.cc against the integers.
use native.Mathlib.Nat.{mod-lt, div-add-mod', div-le_self, mod-le, div-one, div-lt_self}
use stocas.Common.{
  zero, suc, ◌<◌, ◌≡◌, ◌≢◌, ◌↔◌, ◌⊎◌, refl, sym, ap, ◌∙◌, true, false, arith, Bool-cases, inl, inr,
  if◌then◌else◌,
}
use stocas.Common.Int.{ℤ, pos, negsuc, ◌+ℤ◌, ◌*ℤ◌, tdiv, tmod, ltb_ℤ, ◌==ℤ◌, nat_abs, eq_of_parts}
use stocas.BigInt.{
  Gmp, BigInt, small, big, promote, binary, div, rem, compare_big, equals, order_of, is_eq,
  divides_inline, domain_error, quotient,
}
use stocas.BigInt.Range.{InRange}
use stocas.BigInt.Refinement.{meaning, IsCanonical, Represents, promote_value, binary-Represents}

-- A quotient of int64_t values is one, but for INT64_MIN / -1; a remainder always is.
tdiv_range :
    (x y : ℤ)
    → InRange x
    → InRange y
    → (y ==ℤ pos 0) ≡ false
    → divides_inline x y ≡ true
    → InRange (tdiv x y)
unfolding tdiv
tdiv_range (pos m) (pos n) hx hy nonzero h = (omega (arith, div-le_self m n), omega arith)
tdiv_range (pos m) (negsuc n) hx hy nonzero h = ground (arith, div-le_self m (suc n))
tdiv_range (negsuc m) (pos n) hx hy nonzero h = ground (arith, div-le_self (suc m) n)
tdiv_range (negsuc m) (negsuc zero) hx hy nonzero h = rw div-one (ground arith)
tdiv_range (negsuc m) (negsuc (suc n)) hx hy nonzero h = (
  omega (arith, div-lt_self {n = suc m} {k = suc (suc n)} (omega arith) (omega arith)),
  omega arith,
)

tmod_range : (x y : ℤ) → InRange x → InRange (tmod x y)
unfolding tmod
tmod_range (pos m) y hx = (omega (arith, mod-le m (nat_abs y)), omega arith)
tmod_range (negsuc m) y hx = ground (arith, mod-le (suc m) (nat_abs y))

-- Quotient and remainder give the dividend back, and the remainder is below the divisor.
pub tdiv-tmod : (x y : ℤ) → tdiv x y *ℤ y +ℤ tmod x y ≡ x
unfolding tdiv tmod ◌*ℤ◌ ◌+ℤ◌
tdiv-tmod (pos m) (pos n) = ground (arith, div-add-mod' m n)
tdiv-tmod (pos m) (negsuc n) = ground (arith, div-add-mod' m (suc n))
tdiv-tmod (negsuc m) (pos n) = ground (arith, div-add-mod' (suc m) n)
tdiv-tmod (negsuc m) (negsuc n) = ground (arith, div-add-mod' (suc m) (suc n))

abs_pos : (y : ℤ) → y ≢ pos 0 → 0 < nat_abs y
abs_pos (pos zero) h = absurd (h refl)
abs_pos (pos (suc n)) h = omega arith
abs_pos (negsuc n) h = omega arith

-- So that `==ℤ` is read as an equation.
==ℤ_iff : (x y : ℤ) → ((x ==ℤ y) ≡ true) ↔ (x ≡ y)
==ℤ_iff x y = (λ h. eq_of_parts x y (ground arith), λ e. rw e (ground arith))

==ℤ-false : (y : ℤ) → y ≢ pos 0 → (y ==ℤ pos 0) ≡ false
==ℤ-false y h = elim (Bool-cases (y ==ℤ pos 0)) [
  | inl e ↦ absurd (h ((==ℤ_iff _ _).0 e))
  | inr e ↦ e
]

pub tmod_below : (x y : ℤ) → y ≢ pos 0 → nat_abs (tmod x y) < nat_abs y
unfolding tmod
tmod_below (pos m) y h = mod-lt m (abs_pos y h)
tmod_below (negsuc m) y h = ground (arith, mod-lt (suc m) (abs_pos y h))

module _ (g : Gmp) (lp64 : g.long_bits ≡ 64) where
  open g use {Mpz, value, cmp}

  compare_wide :
      (a b : BigInt g)
      → IsCanonical g a
      → IsCanonical g b
      → order_of
          (ltb_ℤ (cmp (promote g a) (promote g b)) (pos 0))
          (ltb_ℤ (pos 0) (cmp (promote g a) (promote g b)))
        ≡ order_of (ltb_ℤ (meaning g a) (meaning g b)) (ltb_ℤ (meaning g b) (meaning g a))
  compare_wide a b ca cb =
      rw (g.cmp_negative, g.cmp_positive, promote_value g lp64 a ca, promote_value g lp64 b cb)

  -- Where long has 64 bits, operator<=> on representations of two integers is the three-way order of the integers,
  -- whichever representations they have.
  pub compare_big_value :
      (a b : BigInt g) (x y : ℤ)
      → Represents g a x
      → Represents g b y
      → compare_big g a b ≡ order_of (ltb_ℤ x y) (ltb_ℤ y x)
  unfolding compare_big meaning
  compare_big_value (small u) (small v) x y (ca, ea) (cb, eb) = rw (ea, eb)
  compare_big_value (small u) (big n) x y (ca, ea) (cb, eb) =
      compare_wide (small u) (big n) ca cb ∙ (rw (ea, eb))
  compare_big_value (big m) (small v) x y (ca, ea) (cb, eb) =
      compare_wide (big m) (small v) ca cb ∙ (rw (ea, eb))
  compare_big_value (big m) (big n) x y (ca, ea) (cb, eb) =
      compare_wide (big m) (big n) ca cb ∙ (rw (ea, eb))

  order-eq_iff : (x y : ℤ) → is_eq (order_of (ltb_ℤ x y) (ltb_ℤ y x)) ≡ (x ==ℤ y)
  order-eq_iff x y = ground arith

  pub equals_value :
      (a b : BigInt g) (x y : ℤ) → Represents g a x → Represents g b y → equals g a b ≡ (x ==ℤ y)
  unfolding equals
  equals_value a b x y ra rb = ap is_eq (compare_big_value a b x y ra rb) ∙ order-eq_iff x y

  zero-Represents : Represents g (small (pos 0)) (pos 0)
  unfolding meaning
  zero-Represents = (omega arith, refl)

  -- The guard of both operators.
  div_lem :
      (a b : BigInt g)
      → div g a b ≡ (
          if equals g b (small (pos 0))
          then domain_error
          else quotient (binary g divides_inline tdiv (g.mpz_tdiv_q) a b))
  unfolding div
  div_lem a b = refl

  rem_lem :
      (a b : BigInt g)
      → rem g a b ≡ (
          if equals g b (small (pos 0))
          then domain_error
          else quotient (binary g divides_inline tmod (g.mpz_tdiv_r) a b))
  unfolding rem
  rem_lem a b = refl

  divided :
      (a b : BigInt g) (x y : ℤ)
      → Represents g a x
      → Represents g b y
      → y ≢ pos 0
      → Represents g (binary g divides_inline tdiv (g.mpz_tdiv_q) a b) (tdiv x y)
        × Represents g (binary g divides_inline tmod (g.mpz_tdiv_r) a b) (tmod x y)
  divided a b x y (ca, ea) (cb, eb) nonzero =
      let other : (y ==ℤ pos 0) ≡ false = ==ℤ-false y nonzero in
      rw (← ea, ← eb)
        (
          binary-Represents g lp64 _ _ _ a b ca cb
              (λ u v hu hv e h. tdiv_range u v hu hv (rw (← e, eb) other) h)
              (λ m n e. g.tdiv_q_value m n (λ z. nonzero (sym eb ∙ sym e ∙ z))),
          binary-Represents g lp64 _ _ _ a b ca cb (λ u v hu hv e h. tmod_range u v hu)
              (λ m n e. g.tdiv_r_value m n (λ z. nonzero (sym eb ∙ sym e ∙ z))),
        )

  -- Where long has 64 bits, on operands that represent integers x and y, operator/ and operator%
  -- throw exactly when y is zero; elsewhere they return canonical representations of integers q
  -- and r with q * y + r equal to x and r smaller in size than y.
  pub div-rem-Represents :
      (a b : BigInt g) (x y : ℤ)
      → Represents g a x
      → Represents g b y
      → ((y ≡ pos 0) × (div g a b ≡ domain_error) × (rem g a b ≡ domain_error))
        ⊎ ((q r : ℤ) × (c d : BigInt g) × (div g a b ≡ quotient c)
            × (rem g a b ≡ quotient d)
            × Represents g c q
            × Represents g d r
            × (q *ℤ y +ℤ r ≡ x)
            × (nat_abs r < nat_abs y))
  div-rem-Represents a b x y ra rb = elim (Bool-cases (y ==ℤ pos 0)) [
    | inl zero_divisor ↦
        let tested = equals_value b (small (pos 0)) y (pos 0) rb zero-Represents ∙ zero_divisor in
        inl ((==ℤ_iff _ _).0 zero_divisor, rw (div_lem, tested), rw (rem_lem, tested))
    | inr other ↦
        let tested = equals_value b (small (pos 0)) y (pos 0) rb zero-Represents ∙ other in
        let nonzero : y ≢ pos 0 = λ e. cc ((==ℤ_iff _ _).1 e) in
        let (rq, rr) = divided a b x y ra rb nonzero in
        inr (
          tdiv x y,
          tmod x y,
          _,
          _,
          rw (div_lem, tested),
          rw (rem_lem, tested),
          rq,
          rr,
          tdiv-tmod x y,
          tmod_below x y nonzero,
        )
  ]
