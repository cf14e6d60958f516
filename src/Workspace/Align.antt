-- ===== src/Workspace/Align.antt =====
-- The mask of symbol_table/workspace.cc's `align_up`.
use Prim.Native.Nat.{digits, bit_and-bitwise}
use native.Mathlib.Nat.{
  pow-zero, pow-suc, zero-div, div-one, div-div-eq-div-mul, mod-eq_of_lt, mod-eq-sub-mod,
  mul-mod_left, one-le-pow, div-add-mod', mod-lt,
}
use stocas.Common.{
  ℕ, zero, suc, ◌+◌, ◌-◌, ◌*◌, ◌/◌, ◌%◌, ◌^◌, ◌≤◌, ◌<◌, ◌≡◌, sym, ap, ◌∙◌, arith, min,
}
use stocas.Workspace.{align_up, size_mod}

abbrev masked : ℕ → ℕ → ℕ → ℕ
masked n a mask = digits (λ _. 0) min n a mask

-- Clearing the low `k` of `w` digits rounds down to a multiple of 2 ^ k.
masked_value :
    (n w k a : ℕ) → a ≤ n → a < 2 ^ w → k ≤ w → masked n a (2 ^ w - 2 ^ k) ≡ a / 2 ^ k * 2 ^ k
masked_value zero w k a h lt le =
    let none : a ≡ 0 = omega arith in rw (none, zero-div (2 ^ k)) (omega arith)
masked_value (suc n) w k zero h lt le = rw (zero-div (2 ^ k)) (omega arith)
masked_value (suc n) zero k (suc a) h lt le = absurd (omega (arith, pow-zero 2))
masked_value (suc n) (suc w) zero (suc a) h lt le =
    let p = pow-suc 2 w in
    let q = pow-zero 2 in
    let pos : 0 < 2 ^ w = one-le-pow w 2 (omega arith) in
    let rest : (2 ^ suc w - 2 ^ 0) / 2 ≡ 2 ^ w - 2 ^ 0 = omega arith in
    let ih = masked_value n w zero (suc a / 2) (omega arith) (omega arith) (omega arith) in
    let ih' : masked n (suc a / 2) (2 ^ w - 2 ^ 0) ≡ suc a / 2 =
      ih ∙ (rw (pow-zero 2, div-one (suc a / 2)) (omega arith)) in
    let low : (2 ^ suc w - 2 ^ 0) % 2 ≡ 1 = omega arith in
    rw (rest, ih', low) (rw (pow-zero 2, div-one (suc a)) (omega arith))
masked_value (suc n) (suc w) (suc k) (suc a) h lt le =
    let p = pow-suc 2 w in
    let q = pow-suc 2 k in
    let rest : (2 ^ suc w - 2 ^ suc k) / 2 ≡ 2 ^ w - 2 ^ k = omega arith in
    let low : (2 ^ suc w - 2 ^ suc k) % 2 ≡ 0 = omega arith in
    let ih = masked_value n w k (suc a / 2) (omega arith) (omega arith) (omega arith) in
    let twice : suc a / 2 ^ suc k ≡ suc a / 2 / 2 ^ k =
      ap (λ t. suc a / t) (omega arith) ∙ sym (div-div-eq-div-mul (suc a) 2 (2 ^ k)) in
    rw (rest, ih, low, twice) (omega (arith, ap (λ (t : ℕ). suc a / 2 / 2 ^ k * t) q))

-- On a power of two, with no overflow, `align_up` rounds up to the next multiple.
pub align_up_value :
    (offset k : ℕ)
    → k ≤ 64
    → offset + 2 ^ k ≤ 2 ^ 64
    → align_up offset (2 ^ k) ≡ (offset + 2 ^ k - 1) / 2 ^ k * 2 ^ k
unfolding align_up
align_up_value offset k hk h =
    let pos : 0 < 2 ^ k = one-le-pow k 2 (omega arith) in
    let x : ℕ = offset + 2 ^ k - 1 in
    let sum : (offset + 2 ^ k + size_mod - 1) % size_mod ≡ x =
      mod-eq-sub-mod {n = offset + 2 ^ k + size_mod - 1} {m = size_mod} (omega arith)
      ∙ mod-eq_of_lt {n = offset + 2 ^ k + size_mod - 1 - size_mod} (omega arith)
      ∙ omega arith in
    let ones : (2 ^ k + size_mod - 1) % size_mod ≡ 2 ^ k - 1 =
      mod-eq-sub-mod {n = 2 ^ k + size_mod - 1} {m = size_mod} (omega arith)
      ∙ mod-eq_of_lt {n = 2 ^ k + size_mod - 1 - size_mod} (omega arith)
      ∙ omega arith in
    let mask : size_mod - 1 - (2 ^ k - 1) ≡ 2 ^ 64 - 2 ^ k = omega arith in
    rw (sum, ones, mask)
      (bit_and-bitwise x (2 ^ 64 - 2 ^ k) ∙ masked_value x 64 k x (omega arith) (omega arith) hk)

-- So the result is a multiple, at least the offset and less than an alignment above it.
pub align_up_bounds :
    (offset k : ℕ)
    → k ≤ 64
    → offset + 2 ^ k ≤ 2 ^ 64
    → (align_up offset (2 ^ k) % 2 ^ k ≡ 0)
      × (offset ≤ align_up offset (2 ^ k))
      × (align_up offset (2 ^ k) < offset + 2 ^ k)
align_up_bounds offset k hk h =
    let pos : 0 < 2 ^ k = one-le-pow k 2 (omega arith) in
    let x : ℕ = offset + 2 ^ k - 1 in
    let whole = div-add-mod' x (2 ^ k) in
    let left = mod-lt x pos in
    rw (align_up_value offset k hk h) (mul-mod_left (x / 2 ^ k) (2 ^ k), omega arith, omega arith)
