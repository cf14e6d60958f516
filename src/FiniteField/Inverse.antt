-- ===== src/FiniteField/Inverse.antt =====
-- `inv` of numerica_core/include/numerica_core/finite_field.hh: square and multiply.
use native.Mathlib.Nat.{
  mod-eq_of_lt, pow-zero, pow-suc, mul_comm, mul_assoc, mul-one, one-mul, mod-eq-sub-mod,
}
use stocas.Common.{
  ℕ, zero, suc, ◌+◌, ◌-◌, ◌*◌, ◌/◌, ◌%◌, ◌^◌, ◌<◌, ◌≤◌, ◌⊎◌, true, ==_iff, ==-false, ◌≡◌, ◌≢◌, refl,
  ap, ◌∙◌, sym, Bool-cases, inl, inr, arith, some, ltb, ◌==◌, if◌then◌else◌,
}
use stocas.Common.Mod.{mod-mul, mul-mod, pow-mod, pow-halves}
use stocas.FiniteField.{
  Width, u32, u64, word_mod, FiniteField, make, mul, inv_loop, inv, domain_error, inverse,
}
use stocas.FiniteField.Ring.{IsResidue, make-IsResidue, mul_value}

mul_modulus : (w : Width) (a b : FiniteField) → (mul w a b).modulus ≡ a.modulus
unfolding mul make
mul_modulus u32 a b = refl
mul_modulus u64 a b = refl

mul-IsResidue : (w : Width) (a b : FiniteField) → IsResidue w a → IsResidue w (mul w a b)
unfolding mul
mul-IsResidue u32 a b ra = make-IsResidue u32 _ _ ra.above_one ra.fits
mul-IsResidue u64 a b ra = make-IsResidue u64 _ _ ra.above_one ra.fits

-- The product that a round leaves for later, in the residues.
pending : (m r b e : ℕ) → (r * b ^ (e % 2) % m) * (b * b % m) ^ (e / 2) % m ≡ r * b ^ e % m
pending m r b e =
    mod-mul _ _ m
    ∙ sym (mul-mod (r * b ^ (e % 2)) _ m)
    ∙ (rw pow-mod (
        mul-mod _ _ m ∙ ap (λ t. t % m) (mul_assoc r _ _ ∙ ap (λ t. r * t) (sym (pow-halves b e)))))

-- The factor that a round multiplies in.
round_factor :
    (w : Width) (r b : FiniteField) (e : ℕ)
    → IsResidue w r
    → IsResidue w b
    → r.modulus ≡ b.modulus
    → let r' = if e % 2 == 1 then mul w r b else r in
      IsResidue w r'
      × (r'.modulus ≡ r.modulus)
      × (r'.value ≡ r.value * b.value ^ (e % 2) % r.modulus)
round_factor w r b e rr rb same = elim (Bool-cases (e % 2 == 1)) [
  | inl odd ↦
      let one : e % 2 ≡ 1 = ground arith in
      rw (odd, one, pow-suc b.value 0, pow-zero b.value)
        (
          mul-IsResidue w r b rr,
          mul_modulus w r b,
          mul_value w r b rr rb same ∙ ap (λ t. t % r.modulus) (omega arith),
        )
  | inr even ↦
      let none : e % 2 ≡ 0 = ground arith in
      rw (even, none, pow-zero b.value, mul-one r.value) (rr, refl, sym (mod-eq_of_lt rr.reduced))
]

inv_loop_value :
    (k : ℕ) (w : Width) (r b : FiniteField) (e : ℕ)
    → IsResidue w r
    → IsResidue w b
    → r.modulus ≡ b.modulus
    → e < 2 ^ k
    → (x : FiniteField) × (inv_loop (suc k) w r b e ≡ some x)
      × IsResidue w x
      × (x.modulus ≡ r.modulus)
      × (x.value ≡ r.value * b.value ^ e % r.modulus)
unfolding inv_loop
inv_loop_value zero w r b e rr rb same he =
    let ended : e ≡ 0 = omega (arith, pow-zero 2) in
    rw (ended, pow-zero b.value, mul-one r.value) (r, refl, rr, refl, sym (mod-eq_of_lt rr.reduced))
inv_loop_value (suc k) w r b e rr rb same he = elim (Bool-cases (ltb 0 e)) [
  | inl more ↦
      let r' : FiniteField = if e % 2 == 1 then mul w r b else r in
      let (rr', m', v') = round_factor w r b e rr rb same in
      let (x, found, rx, mx, vx) =
        inv_loop_value k w r' (mul w b b) (e / 2) rr' (mul-IsResidue w b b rb)
          (m' ∙ same ∙ sym (mul_modulus w b b)) (let p = pow-suc 2 k in omega arith) in
      rw more (
        x,
        found,
        rx,
        mx ∙ m',
        vx
            ∙ (rw (m', v', mul_value w b b rb rb refl, ← same)
                (pending r.modulus r.value b.value e)),
      )
  | inr over ↦
      let ended : e ≡ 0 = ground arith in
      rw (over, ended, pow-zero b.value, mul-one r.value)
        (r, refl, rr, refl, sym (mod-eq_of_lt rr.reduced))
]

exponent_value :
    (w : Width) (m : ℕ) → 1 < m → m < word_mod w → (m + word_mod w - 2) % word_mod w ≡ m - 2
exponent_value w m h k =
    mod-eq-sub-mod {n = m + word_mod w - 2} {m = word_mod w} (omega arith)
    ∙ mod-eq_of_lt {n = m + word_mod w - 2 - word_mod w} (omega arith)
    ∙ omega arith

word_mod-le : (w : Width) → word_mod w ≤ 2 ^ 64
word_mod-le u32 = omega arith
word_mod-le u64 = omega arith

-- For a nonzero residue the loop of `inv` ends, and returns the power that Fermat's theorem names.
pub inv_value :
    (w : Width) (a : FiniteField)
    → IsResidue w a
    → a.value ≢ 0
    → (x : FiniteField) × (inv w a ≡ inverse x)
      × IsResidue w x
      × (x.modulus ≡ a.modulus)
      × (x.value ≡ a.value ^ (a.modulus - 2) % a.modulus)
unfolding inv make
inv_value w a ra nonzero =
    let start : FiniteField = make a.modulus 1 in
    let (x, found, rx, mx, vx) =
      inv_loop_value 64 w start a (a.modulus - 2)
        (make-IsResidue w a.modulus 1 ra.above_one ra.fits) ra refl
        (omega (arith, ra.fits, word_mod-le w)) in
    let tested = ==-false a.value nonzero in
    (
      x,
      rw (tested, exponent_value w a.modulus ra.above_one ra.fits, found),
      rx,
      mx,
      vx ∙ mod-mul 1 (a.value ^ (a.modulus - 2)) a.modulus ∙ ap (λ t. t % a.modulus) (one-mul _),
    )

inv_at_zero : (w : Width) (a : FiniteField) → (a.value == 0) ≡ true → inv w a ≡ domain_error
unfolding inv
inv_at_zero w a zero_value = rw zero_value

-- On a residue of a modulus above 1 that the value type holds, inv throws where the value is 0,
-- and elsewhere its loop ends and gives a residue of the same modulus, the value to the power
-- modulus - 2.
pub inv_outcome :
    (w : Width) (a : FiniteField)
    → IsResidue w a
    → ((a.value ≡ 0) × (inv w a ≡ domain_error))
      ⊎ ((x : FiniteField) × (inv w a ≡ inverse x)
          × IsResidue w x
          × (x.modulus ≡ a.modulus)
          × (x.value ≡ a.value ^ (a.modulus - 2) % a.modulus)
          × (a.value ≢ 0))
inv_outcome w a ra = elim (Bool-cases (a.value == 0)) [
  | inl zero_value ↦ inl ((==_iff _ _).0 zero_value, inv_at_zero w a zero_value)
  | inr other ↦
      let nonzero : a.value ≢ 0 = λ e. cc ((==_iff _ _).1 e) in
      let (x, found, rx, mx, vx) = inv_value w a ra nonzero in inr (x, found, rx, mx, vx, nonzero)
]

-- For a nonzero residue whose power modulus - 1 is 1 modulo the modulus, as it is for a prime,
-- inv returns an element whose product with it is 1.
pub mul-inv :
    (w : Width) (a : FiniteField)
    → IsResidue w a
    → a.value ≢ 0
    → a.value ^ (a.modulus - 1) % a.modulus ≡ 1
    → (x : FiniteField) × (inv w a ≡ inverse x) × ((mul w a x).value ≡ 1)
mul-inv w a ra nonzero fermat =
    let (x, found, rx, mx, vx) = inv_value w a ra nonzero in
    let e : a.modulus - 1 ≡ suc (a.modulus - 2) = omega (arith, ra.above_one) in
    (
      x,
      found,
      mul_value w a x ra rx (sym mx)
          ∙ (rw vx (
              mul-mod a.value _ a.modulus
              ∙ ap (λ t. t % a.modulus)
                  (mul_comm a.value _
                    ∙ sym (pow-suc a.value (a.modulus - 2))
                    ∙ ap (λ t. a.value ^ t) (sym e))
              ∙ fermat)),
    )
