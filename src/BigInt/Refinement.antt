-- ===== src/BigInt/Refinement.antt =====
-- numerica_core/big_int.cc implements the integers: whichever representation the operands have,
-- the result has the mathematical value in the representation that fits it.
use native.Mathlib.Nat.{mod-eq_of_lt}
use stocas.Common.{
  ℕ, ◌-◌, ◌%◌, ◌^◌, ◌<◌, subst, sym, ltb, ◌≡◌, refl, ap, ap₂, ◌∙◌, Bool, true, false, not, arith,
  Bool-cases, inl, inr,
}
use stocas.Common.Int.{ℤ, pos, negsuc, ◌+ℤ◌, ◌-ℤ◌, ◌*ℤ◌, neg_ℤ, leb_ℤ, ◌==ℤ◌}
use stocas.BigInt.{
  Gmp, BigInt, small, big, from_int64, promote, shrink, binary, add, sub, mul, mul_by, neg,
}
use stocas.BigInt.Range.{InRange, FitsLong, as_long, int64_min}
use stocas.BigInt.Overflow.{add_overflows_iff, sub_overflows_iff, mul_overflows_iff}

neg_range : (v : ℤ) → InRange v → not (v ==ℤ int64_min) ≡ true → InRange (neg_ℤ v)
unfolding neg_ℤ
neg_range v h test = ground arith

as_long_64 : (n : ℕ) → n < 2 ^ 63 → as_long 64 (negsuc n) ≡ negsuc n
unfolding as_long
as_long_64 n h =
    let kept : n % 2 ^ 64 ≡ n = mod-eq_of_lt (omega arith) in
    let above : ltb (2 ^ 64 - 1 - n) (2 ^ (64 - 1)) ≡ false = ground arith in
    rw (kept, above) (ap negsuc (omega arith))

module _ (g : Gmp) where
  open g use {value}

  -- The integer that a BigInt stands for.
  unfoldable pub meaning : BigInt g → ℤ
  meaning (small v) = v
  meaning (big m) = value m

  -- The inline form is used exactly for the values that fit it.
  abbrev pub IsCanonical : BigInt g → Type 0
  IsCanonical (small v) = InRange v
  IsCanonical (big m) = ¬ InRange (value m)

  abbrev pub Represents : BigInt g → ℤ → Type 0
  Represents a z = IsCanonical a × (meaning a ≡ z)

module _ (g : Gmp) (lp64 : g.long_bits ≡ 64) where
  open g use {Mpz, value, mpz_neg, mpz_tdiv_q, mpz_tdiv_r, fits_slong}

  pub shrink-Represents : (m : Mpz) → Represents g (shrink g m) (value m)
  unfolding shrink meaning
  shrink-Represents m = elim (Bool-cases (fits_slong m)) [
    | inl fits ↦
        let r = g.fits_slong_true m fits in
        rw (fits, g.get_si_value m r) (subst (λ w. FitsLong w (value m)) lp64 r, refl)
    | inr large ↦
        rw large
          (λ r. g.fits_slong_false m large (subst (λ w. FitsLong w (value m)) (sym lp64) r), refl)
  ]

  from_int64_value : (v : ℤ) → InRange v → value (from_int64 g v) ≡ v
  unfolding from_int64
  from_int64_value (pos n) h =
      let test : leb_ℤ (pos 0) (pos n) ≡ true = ground arith in
      let kept : n % 2 ^ g.long_bits ≡ n =
        mod-eq_of_lt (subst (λ (w : ℕ). n < 2 ^ w) (sym lp64) (omega arith)) in
      rw (test, kept) (g.set_ui_value n (subst (λ (w : ℕ). n < 2 ^ w) (sym lp64) (omega arith)))
  from_int64_value (negsuc n) h =
      let test : leb_ℤ (pos 0) (negsuc n) ≡ false = ground arith in
      let kept : as_long g.long_bits (negsuc n) ≡ negsuc n =
        ap (λ w. as_long w (negsuc n)) lp64 ∙ as_long_64 n (omega arith) in
      rw (test, kept) (g.set_si_value (negsuc n) (subst (λ w. FitsLong w (negsuc n)) (sym lp64) h))

  pub promote_value : (a : BigInt g) → IsCanonical g a → value (promote g a) ≡ meaning g a
  unfolding promote meaning
  promote_value (small v) h = from_int64_value v h
  promote_value (big m) h = refl

  -- The operators at once: an inline test that guards the range, and a GMP function with the value.
  pub binary-Represents :
      (fast : ℤ → ℤ → Bool) (f : ℤ → ℤ → ℤ) (op : Mpz → Mpz → Mpz) (a b : BigInt g)
      → IsCanonical g a
      → IsCanonical g b
      → ((x y : ℤ) → InRange x → InRange y → meaning g b ≡ y → fast x y ≡ true → InRange (f x y))
      → ((m n : Mpz) → value n ≡ meaning g b → value (op m n) ≡ f (value m) (value n))
      → Represents g (binary g fast f op a b) (f (meaning g a) (meaning g b))
  unfolding binary meaning
  binary-Represents fast f op (small x) (small y) ca cb guarded exact =
      elim (Bool-cases (fast x y)) [
        | inl inline ↦ rw inline (guarded x y ca cb refl inline, refl)
        | inr wide ↦
            let (c, e) = shrink-Represents (op (from_int64 g x) (from_int64 g y)) in
            let py = from_int64_value y cb in
            rw wide (c, e ∙ exact _ _ py ∙ ap₂ f (from_int64_value x ca) py)
      ]
  binary-Represents fast f op (small x) (big n) ca cb guarded exact =
      let (c, e) = shrink-Represents (op (from_int64 g x) n) in
      (c, e ∙ exact _ n refl ∙ ap (λ t. f t (value n)) (from_int64_value x ca))
  binary-Represents fast f op (big m) (small y) ca cb guarded exact =
      let (c, e) = shrink-Represents (op m (from_int64 g y)) in
      let py = from_int64_value y cb in (c, e ∙ exact m _ py ∙ ap (f (value m)) py)
  binary-Represents fast f op (big m) (big n) ca cb guarded exact =
      let (c, e) = shrink-Represents (op m n) in (c, e ∙ exact m n refl)

  not-true : (b : Bool) → not b ≡ true → b ≡ false
  not-true true h = cc
  not-true false h = refl

  add-Represents :
      (a b : BigInt g) (x y : ℤ)
      → Represents g a x
      → Represents g b y
      → Represents g (add g a b) (x +ℤ y)
  unfolding add
  add-Represents a b x y (ca, ea) (cb, eb) =
      rw (← ea, ← eb)
        (binary-Represents _ _ _ a b ca cb
          (λ u v hu hv _ h. (add_overflows_iff u v hu hv).0 (not-true _ h))
          (λ m n _. g.add_value m n))

  sub-Represents :
      (a b : BigInt g) (x y : ℤ)
      → Represents g a x
      → Represents g b y
      → Represents g (sub g a b) (x -ℤ y)
  unfolding sub
  sub-Represents a b x y (ca, ea) (cb, eb) =
      rw (← ea, ← eb)
        (binary-Represents _ _ _ a b ca cb
          (λ u v hu hv _ h. (sub_overflows_iff u v hu hv).0 (not-true _ h))
          (λ m n _. g.sub_value m n))

  mul-Represents :
      (a b : BigInt g) (x y : ℤ)
      → Represents g a x
      → Represents g b y
      → Represents g (mul g a b) (x *ℤ y)
  unfolding mul mul_by
  mul-Represents a b x y (ca, ea) (cb, eb) =
      rw (← ea, ← eb)
        (binary-Represents _ _ _ a b ca cb
          (λ u v hu hv _ h. (mul_overflows_iff u v).0 (not-true _ h)) (λ m n _. g.mul_value m n))

  neg-Represents : (a : BigInt g) (x : ℤ) → Represents g a x → Represents g (neg g a) (neg_ℤ x)
  unfolding neg meaning
  neg-Represents (small v) x (ca, ea) = elim (Bool-cases (not (v ==ℤ int64_min))) [
    | inl inline ↦ rw (inline, ← ea) (neg_range v ca inline, refl)
    | inr least ↦
        let (c, e) = shrink-Represents (mpz_neg (from_int64 g v)) in
        rw (least, ← ea) (c, e ∙ g.neg_value _ ∙ ap neg_ℤ (from_int64_value v ca))
  ]
  neg-Represents (big m) x (ca, ea) =
      let (c, e) = shrink-Represents (mpz_neg m) in (c, e ∙ g.neg_value m ∙ ap neg_ℤ ea)

  -- Where long has 64 bits, on representations of two integers operator+, operator-, operator*
  -- with the 128-bit overflow test, and unary minus give the canonical representations of the
  -- sum, the difference, the product, and the negation of the first.
  pub operations-Represents :
      (a b : BigInt g) (x y : ℤ)
      → Represents g a x
      → Represents g b y
      → Represents g (add g a b) (x +ℤ y)
        × Represents g (sub g a b) (x -ℤ y)
        × Represents g (mul g a b) (x *ℤ y)
        × Represents g (neg g a) (neg_ℤ x)
  operations-Represents a b x y ra rb = (
    add-Represents a b x y ra rb,
    sub-Represents a b x y ra rb,
    mul-Represents a b x y ra rb,
    neg-Represents a x ra,
  )
