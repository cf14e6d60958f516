-- ===== src/Algebra/Euclid.antt =====
-- gcd and extended_gcd of algebra_core/include/algebra_core/generic_algorithms.hh.
use stocas.Common.{
  ℕ, zero, suc, ◌<◌, ◌≡◌, ◌≢◌, ◌↔◌, sym, ap, ap₂, ◌∙◌, false, Option, none, some, if◌then◌else◌,
  Bool-cases, inl, inr, arith,
}
use stocas.Algebra.{EuclideanDomain}
use stocas.Algebra.Laws.{add-zero, add-mul, zero-mul, sub-mul, sub-add-add, add-sub_cancel}

-- `{gcd, x, y}`.
pub record ExtendedGcdResult (A : Type 0) : Type 0 where
  pub gcd : A
  pub x : A
  pub y : A

module _ {A : Type 0} (domain : EuclideanDomain A) where
  open domain use {ring, div_rem, size, div_rem_lem}

  -- The loop, with as many rounds as the fuel; `none` means that it ran out.
  unfoldable pub gcd : ℕ → A → A → Option A
  gcd zero a b = none
  gcd (suc rounds) a b =
      let rest = gcd rounds b (div_rem a b).1 in if ring.eq b ring.zero then some a else rest

  -- The loop's variables are old_r r old_s s old_t t.
  unfoldable pub extended_loop : ℕ → A → A → A → A → A → A → Option (ExtendedGcdResult A)
  extended_loop zero old_r r old_s s old_t t = none
  extended_loop (suc rounds) old_r r old_s s old_t t =
      let quotient = (div_rem old_r r).0 in
      let rest =
        extended_loop rounds r (div_rem old_r r).1 s (ring.sub old_s (ring.mul quotient s)) t
          (ring.sub old_t (ring.mul quotient t)) in
      if ring.eq r ring.zero then some (record { gcd = old_r; x = old_s; y = old_t }) else rest

  unfoldable pub extended_gcd : ℕ → A → A → Option (ExtendedGcdResult A)
  unfolding extended_loop
  extended_gcd rounds a b = extended_loop rounds a b ring.one ring.zero ring.zero ring.one

  -- One element divides another.
  abbrev pub Divides : A → A → Type 0
  Divides d a = (q : A) × (a ≡ ring.mul q d)

  -- The elements that divide both.
  abbrev pub CommonDivisor : A → A → A → Type 0
  CommonDivisor d a b = Divides d a × Divides d b

  Divides-zero : (d : A) → Divides d ring.zero
  Divides-zero d = (ring.zero, sym (zero-mul ring d))

  Divides-add_mul :
      (d a b q : A) → Divides d a → Divides d b → Divides d (ring.add (ring.mul q b) a)
  Divides-add_mul d a b q (u, hu) (v, hv) = (
    ring.add (ring.mul q v) u,
    ap₂ ring.add (ap (ring.mul q) hv ∙ sym (ring.mul_assoc q v d)) hu
        ∙ sym (add-mul ring (ring.mul q v) u d),
  )

  remainder_eq : (a b q r : A) → a ≡ ring.add (ring.mul q b) r → r ≡ ring.sub a (ring.mul q b)
  remainder_eq a b q r h =
      sym (ap (λ t. ring.sub t (ring.mul q b)) h ∙ add-sub_cancel ring (ring.mul q b) r)

  Divides-remainder :
      (d a b q r : A) → a ≡ ring.add (ring.mul q b) r → Divides d a → Divides d b → Divides d r
  Divides-remainder d a b q r h (u, hu) (v, hv) = (
    ring.sub u (ring.mul q v),
    remainder_eq a b q r h
        ∙ ap₂ ring.sub hu (ap (ring.mul q) hv ∙ sym (ring.mul_assoc q v d))
        ∙ sym (sub-mul ring u (ring.mul q v) d),
  )

  -- A round of the loop keeps the common divisors.
  CommonDivisor-step :
      (d a b q r : A) → a ≡ ring.add (ring.mul q b) r → CommonDivisor d b r ↔ CommonDivisor d a b
  CommonDivisor-step d a b q r h = (
    λ (hb, hr). (rw h (Divides-add_mul d r b q hr hb), hb),
    λ (ha, hb). (hb, Divides-remainder d a b q r h ha hb),
  )

  ne_zero : (b : A) → ring.eq b ring.zero ≡ false → b ≢ ring.zero
  ne_zero b h e = cc ((ring.eq_iff b ring.zero).1 e)

  -- In a Euclidean domain, with more rounds than the size of the second operand, gcd ends, and
  -- the elements that divide its result are exactly those that divide both operands.
  pub gcd-CommonDivisor :
      (rounds : ℕ) (a b : A)
      → size b < rounds
      → (g : A) × (gcd rounds a b ≡ some g) × ((d : A) → CommonDivisor d a b ↔ Divides d g)
  unfolding gcd
  gcd-CommonDivisor zero a b h = absurd (omega arith)
  gcd-CommonDivisor (suc rounds) a b h = elim (Bool-cases (ring.eq b ring.zero)) [
    | inl last ↦ (
      a,
      rw last,
      λ d. (λ (ha, _). ha, λ ha. (ha, rw ((ring.eq_iff b ring.zero).0 last) (Divides-zero d))),
    )
    | inr more ↦
        let (eq, smaller) = div_rem_lem a b (ne_zero b more) in
        let (g, found, same) = gcd-CommonDivisor rounds b (div_rem a b).1 (omega arith) in
        (
          g,
          rw more found,
          λ d.
              let step = CommonDivisor-step d a b (div_rem a b).0 (div_rem a b).1 eq in
              (λ h'. (same d).0 (step.1 h'), λ h'. step.0 ((same d).1 h')),
        )
  ]

  combination : A → A → A → A → A
  combination a b x y = ring.add (ring.mul x a) (ring.mul y b)

  combination-sub :
      (a b x y x' y' q : A)
      → combination a b (ring.sub x (ring.mul q x')) (ring.sub y (ring.mul q y'))
        ≡ ring.sub (combination a b x y) (ring.mul q (combination a b x' y'))
  unfolding combination
  combination-sub a b x y x' y' q =
      ap₂ ring.add
        (sub-mul ring x (ring.mul q x') a ∙ ap (ring.sub (ring.mul x a)) (ring.mul_assoc q x' a))
        (sub-mul ring y (ring.mul q y') b ∙ ap (ring.sub (ring.mul y b)) (ring.mul_assoc q y' b))
      ∙ sym (
          sub-add-add ring (ring.mul x a) (ring.mul y b) (ring.mul q (ring.mul x' a))
            (ring.mul q (ring.mul y' b)))
      ∙ ap (ring.sub (ring.add (ring.mul x a) (ring.mul y b)))
          (sym (ring.mul-add q (ring.mul x' a) (ring.mul y' b)))

  -- The loop gives the gcd that the plain loop gives, as a combination of the operands.
  extended_loop-combination :
      (a b : A) (rounds : ℕ) (old_r r old_s s old_t t : A)
      → size r < rounds
      → combination a b old_s old_t ≡ old_r
      → combination a b s t ≡ r
      → (e : ExtendedGcdResult A) × (extended_loop rounds old_r r old_s s old_t t ≡ some e)
        × (gcd rounds old_r r ≡ some e.gcd)
        × (combination a b e.x e.y ≡ e.gcd)
  unfolding extended_loop gcd
  extended_loop-combination a b zero old_r r old_s s old_t t h k l = absurd (omega arith)
  extended_loop-combination a b (suc rounds) old_r r old_s s old_t t h k l =
      elim (Bool-cases (ring.eq r ring.zero)) [
        | inl last ↦ (record { gcd = old_r; x = old_s; y = old_t }, rw last, rw last, k)
        | inr more ↦
            let quotient = (div_rem old_r r).0 in
            let remainder = (div_rem old_r r).1 in
            let (eq, smaller) = div_rem_lem old_r r (ne_zero r more) in
            let next =
              combination-sub a b old_s old_t s t quotient
              ∙ ap₂ (λ u v. ring.sub u (ring.mul quotient v)) k l
              ∙ sym (remainder_eq old_r r quotient remainder eq) in
            let (e, found, same, value) =
              extended_loop-combination a b rounds r remainder s
                (ring.sub old_s (ring.mul quotient s)) t (ring.sub old_t (ring.mul quotient t))
                (omega arith) l next in
            (e, rw more found, rw more same, value)
      ]

  -- In a Euclidean domain, with more rounds than the size of the second operand, extended_gcd
  -- ends with the result that gcd has, and with coefficients x and y for which x * a + y * b is
  -- that result.
  pub extended_gcd-combination :
      (rounds : ℕ) (a b : A)
      → size b < rounds
      → (e : ExtendedGcdResult A) × (extended_gcd rounds a b ≡ some e)
        × (gcd rounds a b ≡ some e.gcd)
        × (ring.add (ring.mul e.x a) (ring.mul e.y b) ≡ e.gcd)
  unfolding extended_gcd combination
  extended_gcd-combination rounds a b h =
      extended_loop-combination a b rounds a b ring.one ring.zero ring.zero ring.one h
        (ap₂ ring.add (ring.one-mul a) (zero-mul ring b) ∙ add-zero ring a)
        (ap₂ ring.add (zero-mul ring a) (ring.one-mul b) ∙ ring.zero-add b)
