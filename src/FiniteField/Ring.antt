-- ===== src/FiniteField/Ring.antt =====
-- The ring operations of numerica_core/include/numerica_core/finite_field.hh against arithmetic
-- modulo the modulus, for every modulus that the value type holds.
use native.Mathlib.Nat.{mod-eq_of_lt, mod-lt, mod-eq-sub-mod, mod_self, mod-mod, le_trans}
use stocas.Common.{
  ℕ, ◌+◌, ◌-◌, ◌*◌, ◌%◌, ◌^◌, ◌≤◌, ◌<◌, ◌≡◌, ap, ◌∙◌, sym, ltb→lt, leb→le, ◌⊎◌, inl, inr,
  Bool-cases, true, arith, ltb, leb, ◌==◌, if◌then◌else◌, ◌||◌,
}
use stocas.Common.Mod.{mod_once}
use stocas.FiniteField.{
  Width, u32, u64, word_mod, FiniteField, make, add, sub, neg, mul, mul_mod_wide,
}

-- A canonical residue of a modulus that the value type can hold.
pub record IsResidue (w : Width) (a : FiniteField) : Type 0 where
  pub above_one : 1 < a.modulus
  pub fits : a.modulus < word_mod w
  pub reduced : a.value < a.modulus

pub make-IsResidue : (w : Width) (m v : ℕ) → 1 < m → m < word_mod w → IsResidue w (make m v)
unfolding make
make-IsResidue w m v h k = record { above_one = h; fits = k; reduced = mod-lt v (omega arith) }

-- The corrections for overflow, over any word.
module _ (word m a b : ℕ) (hm : m < word) (ha : a < m) (hb : b < m) where
  -- `s` is the sum as the word holds it; the test finds out whether to subtract the modulus.
  add_corrected :
      (s : ℕ)
      → (s ≡ a + b) × (s < word) ⊎ (s + word ≡ a + b)
      → (if leb m s || ltb s a then (s + word - m) % word else s) % m ≡ (a + b) % m
  add_corrected s (inl (whole, fits)) = elim (Bool-cases (leb m s)) [
    | inl over ↦ rw over (
        ap (λ t. t % m)
          (mod_once (s + word - m) word (omega arith) ∙ (let h = leb→le m s over in ground arith))
        ∙ sym (mod-eq-sub-mod (let h = leb→le m s over in omega arith)))
    | inr under ↦ rw under (ground arith)
  ]
  add_corrected s (inr wrapped) =
      let below : leb m s || ltb s a ≡ true = ground arith in
      rw below (
        ap (λ t. t % m) (mod-eq_of_lt {n = s + word - m} {m = word} (omega arith) ∙ omega arith)
        ∙ sym (mod-eq-sub-mod {n = a + b} (omega arith)))

  add_wrapped :
      (if leb m ((a + b) % word) || ltb ((a + b) % word) a
          then ((a + b) % word + word - m) % word
          else (a + b) % word)
        % m
      ≡ (a + b) % m
  add_wrapped = add_corrected _ (ground (arith, mod_once (a + b) word (omega arith)))

  sub_wrapped :
      (if ltb a b then ((a + word - b) % word + m) % word else (a + word - b) % word) % m
      ≡ (a + m - b) % m
  sub_wrapped = elim (Bool-cases (ltb a b)) [
    | inl less ↦ rw less (
        ap (λ t. t % m)
          (let h = ltb→lt a b less in
            let diff : (a + word - b) % word ≡ a + word - b = mod-eq_of_lt (omega arith) in
            rw diff (
              mod-eq-sub-mod {n = a + word - b + m} {m = word} (omega arith)
              ∙ mod-eq_of_lt {n = a + word - b + m - word} (omega arith)
              ∙ omega arith)))
    | inr more ↦ rw more (
        let h : b ≤ a = ground arith in
        let diff : (a + word - b) % word ≡ a - b =
          mod-eq-sub-mod {n = a + word - b} {m = word} (omega arith)
          ∙ mod-eq_of_lt {n = a + word - b - word} (omega arith)
          ∙ omega arith in
        rw diff (
          sym
            (mod-eq-sub-mod {n = a + m - b} {m = m} (omega arith) ∙ ap (λ t. t % m) (omega arith))))
  ]

neg_wrapped :
    (word m a : ℕ)
    → m < word
    → a < m
    → (if a == 0 then 0 else (m + word - a) % word) % m ≡ (m - a) % m
neg_wrapped word m a hm ha = elim (Bool-cases (a == 0)) [
  | inl none ↦
      let e : a ≡ 0 = ground arith in
      let whole : m - 0 ≡ m = omega arith in
      rw (none, e, whole, mod_self m) (mod-eq_of_lt {n = 0} {m = m} (omega arith))
  | inr some ↦ rw some (
      ap (λ t. t % m)
        (mod-eq-sub-mod {n = m + word - a} {m = word} (omega arith)
          ∙ mod-eq_of_lt {n = m + word - a - word} (ground arith)
          ∙ omega arith))
]

module _ (w : Width) (a b : FiniteField) (ra : IsResidue w a) (rb : IsResidue w b)
    (same : a.modulus ≡ b.modulus) where
  -- For residues of one modulus, anywhere below the word size, the value of operator+ is the sum
  -- modulo the modulus, also where the word overflows.
  pub add_value : (add w a b).value ≡ (a.value + b.value) % a.modulus
  unfolding add make
  add_value =
      add_wrapped (word_mod w) a.modulus a.value b.value ra.fits ra.reduced
        (omega (arith, same, rb.reduced))

  -- For residues of one modulus, anywhere below the word size, the value of operator- is the
  -- difference modulo the modulus.
  pub sub_value : (sub w a b).value ≡ (a.value + a.modulus - b.value) % a.modulus
  unfolding sub make
  sub_value =
      sub_wrapped (word_mod w) a.modulus a.value b.value ra.fits ra.reduced
        (omega (arith, same, rb.reduced))

-- For a residue of a modulus below the word size, the value of unary minus is the modulus less
-- the value, modulo the modulus.
pub neg_value :
    (w : Width) (a : FiniteField)
    → IsResidue w a
    → (neg w a).value ≡ (a.modulus - a.value) % a.modulus
unfolding neg make
neg_value w a ra = neg_wrapped (word_mod w) a.modulus a.value ra.fits ra.reduced

pub product-lt : (a b word : ℕ) → a < word → b < word → a * b < word * word
product-lt a b word ha hb = grind arith

-- For residues of one modulus, anywhere below the word size, the value of operator* is the
-- product modulo the modulus, at both value types.
pub mul_value :
    (w : Width) (a b : FiniteField)
    → IsResidue w a
    → IsResidue w b
    → a.modulus ≡ b.modulus
    → (mul w a b).value ≡ a.value * b.value % a.modulus
unfolding mul make mul_mod_wide
mul_value u32 a b ra rb same =
    let m : ℕ = a.modulus in
    let p : ℕ = a.value * b.value in
    let whole : p % 2 ^ 64 ≡ p =
      mod-eq_of_lt (product-lt a.value b.value (2 ^ 32) (omega (arith, ra)) (omega (arith, rb))) in
    let kept : p % m % 2 ^ 32 ≡ p % m =
      mod-eq_of_lt (le_trans (mod-lt p (omega (arith, ra))) (omega (arith, ra))) in
    rw (whole, kept) (mod-mod p m)
mul_value u64 a b ra rb same =
    let m : ℕ = a.modulus in
    let p : ℕ = a.value * b.value in
    let whole : p % 2 ^ 128 ≡ p =
      mod-eq_of_lt (product-lt a.value b.value (2 ^ 64) (omega (arith, ra)) (omega (arith, rb))) in
    let kept : p % m % 2 ^ 64 ≡ p % m =
      mod-eq_of_lt (le_trans (mod-lt p (omega (arith, ra))) (omega (arith, ra))) in
    rw (whole, kept) (mod-mod p m)

-- For residues of one modulus, anywhere below the word size, the values of operator+, operator-,
-- operator* and unary minus are the sum, the difference, the product and the negation modulo the
-- modulus, at both value types.
pub ring_operations_value :
    (w : Width) (a b : FiniteField)
    → IsResidue w a
    → IsResidue w b
    → a.modulus ≡ b.modulus
    → ((add w a b).value ≡ (a.value + b.value) % a.modulus)
      × ((sub w a b).value ≡ (a.value + a.modulus - b.value) % a.modulus)
      × ((mul w a b).value ≡ a.value * b.value % a.modulus)
      × ((neg w a).value ≡ (a.modulus - a.value) % a.modulus)
ring_operations_value w a b ra rb same = (
  add_value w a b ra rb same,
  sub_value w a b ra rb same,
  mul_value w a b ra rb same,
  neg_value w a ra,
)
