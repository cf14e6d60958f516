-- ===== src/Algebra/Integers.antt =====
-- `IntegerRing` of algebra_core/rings.cc, over the integers that the big integers represent.
use stocas.Common.{ℕ, ◌*◌, ◌≡◌, ◌≢◌, ◌<◌, ◌↔◌, ap, sym, true, arith}
use stocas.Common.Int.{
  ℤ, pos, pos_part, neg_part, ◌+ℤ◌, ◌-ℤ◌, ◌*ℤ◌, neg_ℤ, ◌==ℤ◌, int_laws, tdiv, tmod, nat_abs,
  *ℤ_parts, +ℤ_parts,
}
use stocas.BigInt.Order.{tdiv-tmod, tmod_below}
use stocas.Algebra.{Ring, EuclideanDomain}

pub add_comm : (a b : ℤ) → a +ℤ b ≡ b +ℤ a
add_comm a b = omega int_laws

pub add_assoc : (a b c : ℤ) → (a +ℤ b) +ℤ c ≡ a +ℤ (b +ℤ c)
add_assoc a b c = omega int_laws

pub zero-add : (a : ℤ) → pos 0 +ℤ a ≡ a
zero-add a = omega int_laws

pub neg-add : (a : ℤ) → neg_ℤ a +ℤ a ≡ pos 0
neg-add a = omega int_laws

pub sub_def : (a b : ℤ) → a -ℤ b ≡ a +ℤ neg_ℤ b
sub_def a b = omega int_laws

pub eq_iff : (a b : ℤ) → ((a ==ℤ b) ≡ true) ↔ (a ≡ b)
eq_iff a b = ground arith

pub mul_comm : (a b : ℤ) → a *ℤ b ≡ b *ℤ a
mul_comm a b = grind int_laws

pub one-mul : (a : ℤ) → pos 1 *ℤ a ≡ a
one-mul a = grind int_laws

pub mul-add : (a b c : ℤ) → a *ℤ (b +ℤ c) ≡ a *ℤ b +ℤ a *ℤ c
mul-add a b c = omega (
  int_laws,
  ap (λ (t : ℕ). pos_part a * t) (+ℤ_parts b c),
  ap (λ (t : ℕ). neg_part a * t) (+ℤ_parts b c),
)

pub mul_assoc : (a b c : ℤ) → (a *ℤ b) *ℤ c ≡ a *ℤ (b *ℤ c)
mul_assoc a b c = omega (
  int_laws,
  ap (λ (t : ℕ). t * pos_part c) (*ℤ_parts a b),
  ap (λ (t : ℕ). t * neg_part c) (*ℤ_parts a b),
  ap (λ (t : ℕ). pos_part a * t) (*ℤ_parts b c),
  ap (λ (t : ℕ). neg_part a * t) (*ℤ_parts b c),
)

-- `IntegerRing`.
abbrev pub integer_ring : Ring ℤ
integer_ring = record {
  zero = pos 0;
  one = pos 1;
  add = ◌+ℤ◌;
  mul = ◌*ℤ◌;
  sub = ◌-ℤ◌;
  neg = neg_ℤ;
  eq = ◌==ℤ◌;
  eq_iff = eq_iff;
  add_comm = add_comm;
  add_assoc = add_assoc;
  zero-add = zero-add;
  neg-add = neg-add;
  sub_def = sub_def;
  mul_comm = mul_comm;
  mul_assoc = mul_assoc;
  one-mul = one-mul;
  mul-add = mul-add;
}

pub div_rem_lem :
    (a b : ℤ) → b ≢ pos 0 → (a ≡ tdiv a b *ℤ b +ℤ tmod a b) × (nat_abs (tmod a b) < nat_abs b)
div_rem_lem a b h = (sym (tdiv-tmod a b), tmod_below a b h)

-- `IntegerRing::div_rem`.
abbrev pub integer_domain : EuclideanDomain ℤ
integer_domain = record {
  ring = integer_ring;
  div_rem = λ a b. (tdiv a b, tmod a b);
  size = nat_abs;
  div_rem_lem = div_rem_lem;
}
