-- ===== src/Algebra/Examples.antt =====
-- Runs of the generic algorithms over the integers.
use stocas.Common.{◌≡◌, ◌↔◌, refl, some, arith}
use stocas.Common.Int.{ℤ, tdiv, tmod, pos, ◌+ℤ◌, ◌*ℤ◌}
use stocas.Algebra.Integers.{integer_domain}
use stocas.Algebra.Euclid.{
  gcd, extended_gcd, ExtendedGcdResult, Divides, CommonDivisor, gcd-CommonDivisor,
  extended_gcd-combination,
}

gcd-CommonDivisor_example :
    (g : ℤ) × (gcd integer_domain 19 (pos 48) (pos 18) ≡ some g)
    × ((d : ℤ) → CommonDivisor integer_domain d (pos 48) (pos 18) ↔ Divides integer_domain d g)
gcd-CommonDivisor_example = gcd-CommonDivisor integer_domain 19 (pos 48) (pos 18) (omega arith)

extended_gcd-combination_example :
    (e : ExtendedGcdResult ℤ) × (extended_gcd integer_domain 19 (pos 48) (pos 18) ≡ some e)
    × (gcd integer_domain 19 (pos 48) (pos 18) ≡ some e.gcd)
    × (e.x *ℤ pos 48 +ℤ e.y *ℤ pos 18 ≡ e.gcd)
extended_gcd-combination_example =
    extended_gcd-combination integer_domain 19 (pos 48) (pos 18) (omega arith)

gcd_48_18 : gcd integer_domain 19 (pos 48) (pos 18) ≡ some (pos 6)
unfolding gcd tdiv tmod
gcd_48_18 = refl
