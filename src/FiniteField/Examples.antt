-- ===== src/FiniteField/Examples.antt =====
-- Runs of numerica_core/include/numerica_core/finite_field.hh, at moduli near the top of the word.
use stocas.Common.{ℕ, ◌+◌, ◌*◌, ◌-◌, ◌%◌, ◌^◌, ◌≡◌, ◌≢◌, ◌⊎◌, refl, arith, some}
use stocas.FiniteField.{
  u32, FiniteField, add, sub, neg, mul, inv, mul_mod_portable, mul_mod_wide, domain_error, inverse,
}
use stocas.FiniteField.Ring.{IsResidue, ring_operations_value}
use stocas.FiniteField.Portable.{mul_mod_portable-eq-wide}
use stocas.FiniteField.Inverse.{inv_outcome}

-- The largest prime of 32 bits.
abbrev top : ℕ
top = 4294967291

abbrev last : FiniteField
last = record { modulus = top; value = top - 1 }

abbrev before_last : FiniteField
before_last = record { modulus = top; value = top - 2 }

last-IsResidue : IsResidue u32 last
last-IsResidue = record { above_one = omega arith; fits = omega arith; reduced = omega arith }

before_last-IsResidue : IsResidue u32 before_last
before_last-IsResidue = record {
  above_one = omega arith;
  fits = omega arith;
  reduced = omega arith;
}

wrapping_sum : (add u32 last before_last).value ≡ top - 3
unfolding add
wrapping_sum = refl

ring_operations_value_example :
    ((add u32 last before_last).value ≡ (last.value + before_last.value) % top)
    × ((sub u32 last before_last).value ≡ (last.value + top - before_last.value) % top)
    × ((mul u32 last before_last).value ≡ last.value * before_last.value % top)
    × ((neg u32 last).value ≡ (top - last.value) % top)
ring_operations_value_example =
    ring_operations_value u32 last before_last last-IsResidue before_last-IsResidue refl

mul_mod_portable-eq-wide_example :
    mul_mod_portable (2 ^ 64 - 2) (2 ^ 64 - 3) (2 ^ 64 - 59)
    ≡ some (mul_mod_wide (2 ^ 64 - 2) (2 ^ 64 - 3) (2 ^ 64 - 59))
mul_mod_portable-eq-wide_example =
    mul_mod_portable-eq-wide (2 ^ 64 - 2) (2 ^ 64 - 3) (2 ^ 64 - 59) (omega arith) (omega arith)
      (omega arith) (omega arith)

abbrev three : FiniteField
three = record { modulus = 7; value = 3 }

three-IsResidue : IsResidue u32 three
three-IsResidue = record { above_one = omega arith; fits = omega arith; reduced = omega arith }

inv_outcome_example :
    ((three.value ≡ 0) × (inv u32 three ≡ domain_error))
    ⊎ ((x : FiniteField) × (inv u32 three ≡ inverse x)
        × IsResidue u32 x
        × (x.modulus ≡ 7)
        × (x.value ≡ three.value ^ (7 - 2) % 7)
        × (three.value ≢ 0))
inv_outcome_example = inv_outcome u32 three three-IsResidue
