-- ===== src/BigInt.antt =====
-- src/numerica_core/big_int.cc and its header: integers with an inline int64_t representation,
-- promoted to GMP's mpz_t when they do not fit.
pub mod Range
pub mod Overflow
pub mod Refinement
pub mod LongWidth
pub mod Order
pub mod Gcd
pub mod Moves
mod Examples
use Prim.Native.String.{String}
use Prim.Native.Nat.{Ordering}
use stocas.Common.{
  ℕ, zero, suc, ◌+◌, ◌-◌, ◌*◌, ◌/◌, ◌%◌, ◌^◌, ◌<◌, ◌≤◌, ◌≡◌, ◌≢◌, Bool, true, false, not, ◌&&◌,
  ◌||◌, Option, none, some, if◌then◌else◌, ltb, leb,
}
use stocas.Common.Int.{
  ℤ, pos, negsuc, ◌+ℤ◌, ◌-ℤ◌, ◌*ℤ◌, neg_ℤ, tdiv, tmod, ltb_ℤ, leb_ℤ, ◌==ℤ◌, nat_abs, pos_part,
  neg_part,
}
use stocas.BigInt.Range.{FitsLong, as_long, int64_min, int64_max}

-- The functions of GMP that the source calls, and what its manual says of them: `value` is the
-- integer that an mpz_t holds. The initialised result variables of the C calls are results here.
-- `long_bits` is the width of long, which the calls for native numbers take and give: 64 on LP64
-- systems, 32 on Windows.
pub record Gmp : Type 1 where
  pub Mpz : Type 0
  pub value : Mpz → ℤ
  pub long_bits : ℕ
  pub set_ui : ℕ → Mpz
  pub set_si : ℤ → Mpz
  pub set_str : String → Option Mpz
  pub fits_slong : Mpz → Bool
  pub get_si : Mpz → ℤ
  pub mpz_add : Mpz → Mpz → Mpz
  pub mpz_sub : Mpz → Mpz → Mpz
  pub mpz_mul : Mpz → Mpz → Mpz
  pub mpz_tdiv_q : Mpz → Mpz → Mpz
  pub mpz_tdiv_r : Mpz → Mpz → Mpz
  pub mpz_neg : Mpz → Mpz
  pub cmp : Mpz → Mpz → ℤ
  pub set_ui_value : (n : ℕ) → n < 2 ^ long_bits → value (set_ui n) ≡ pos n
  pub set_si_value : (z : ℤ) → FitsLong long_bits z → value (set_si z) ≡ z
  pub fits_slong_true : (m : Mpz) → fits_slong m ≡ true → FitsLong long_bits (value m)
  pub fits_slong_false : (m : Mpz) → fits_slong m ≡ false → ¬ FitsLong long_bits (value m)
  pub get_si_value : (m : Mpz) → FitsLong long_bits (value m) → get_si m ≡ value m
  pub add_value : (a b : Mpz) → value (mpz_add a b) ≡ value a +ℤ value b
  pub sub_value : (a b : Mpz) → value (mpz_sub a b) ≡ value a -ℤ value b
  pub mul_value : (a b : Mpz) → value (mpz_mul a b) ≡ value a *ℤ value b
  pub tdiv_q_value :
      (a b : Mpz) → value b ≢ pos 0 → value (mpz_tdiv_q a b) ≡ tdiv (value a) (value b)
  pub tdiv_r_value :
      (a b : Mpz) → value b ≢ pos 0 → value (mpz_tdiv_r a b) ≡ tmod (value a) (value b)
  pub neg_value : (a : Mpz) → value (mpz_neg a) ≡ neg_ℤ (value a)
  pub cmp_negative : (a b : Mpz) → ltb_ℤ (cmp a b) (pos 0) ≡ ltb_ℤ (value a) (value b)
  pub cmp_positive : (a b : Mpz) → ltb_ℤ (pos 0) (cmp a b) ≡ ltb_ℤ (value b) (value a)

-- The overflow tests; the differences in them stay within int64_t.
unfoldable pub add_overflows : ℤ → ℤ → Bool
add_overflows a b =
    (ltb_ℤ (pos 0) b && ltb_ℤ (int64_max -ℤ b) a) || (ltb_ℤ b (pos 0) && ltb_ℤ a (int64_min -ℤ b))

unfoldable pub sub_overflows : ℤ → ℤ → Bool
sub_overflows a b =
    (ltb_ℤ b (pos 0) && ltb_ℤ (int64_max +ℤ b) a) || (ltb_ℤ (pos 0) b && ltb_ℤ a (int64_min +ℤ b))

-- With a 128-bit product.
unfoldable pub mul_overflows : ℤ → ℤ → Bool
mul_overflows a b =
    if (a ==ℤ pos 0) || (b ==ℤ pos 0)
    then false
    else ltb_ℤ (a *ℤ b) int64_min || ltb_ℤ int64_max (a *ℤ b)

-- Without one: by a division.
unfoldable pub mul_overflows_portable : ℤ → ℤ → Bool
mul_overflows_portable a b =
    if (a ==ℤ pos 0) || (b ==ℤ pos 0)
    then false
    else if a ==ℤ int64_min
    then not (b ==ℤ pos 1)
    else if b ==ℤ int64_min
    then not (a ==ℤ pos 1)
    else ltb ((2 ^ 63 - 1) / nat_abs b) (nat_abs a)

-- Division that can throw std::domain_error.
pub data Quotient (A : Type 0) : Type 0 where
  domain_error : Quotient A
  quotient : A → Quotient A

-- A three-way result from `is below` and `is above`.
abbrev pub order_of : Bool → Bool → Ordering
order_of true _ = Ordering.lt
order_of false true = Ordering.gt
order_of false false = Ordering.eq

abbrev pub is_eq : Ordering → Bool
is_eq Ordering.eq = true
is_eq _ = false

-- INT64_MIN / -1 is the one quotient of int64_t values that is none.
abbrev pub divides_inline : ℤ → ℤ → Bool
divides_inline x y = not ((x ==ℤ int64_min) && (y ==ℤ negsuc 0))

module _ (g : Gmp) where
  open g use {
    Mpz, value, set_ui, set_si, set_str, fits_slong, get_si, mpz_add, mpz_sub, mpz_mul, mpz_tdiv_q,
    mpz_tdiv_r, mpz_neg, cmp,
  }

  -- `is_small_` with `small_value_`, or the `impl_` of a promoted value.
  pub data BigInt : Type 0 where
    small : ℤ → BigInt
    big : Mpz → BigInt

  -- `Impl(int64_t)`, with the conversions to unsigned long and to long.
  unfoldable pub from_int64 : ℤ → Mpz
  unfolding as_long
  from_int64 v =
      if leb_ℤ (pos 0) v
      then set_ui (pos_part v % 2 ^ g.long_bits)
      else set_si (as_long g.long_bits v)

  -- `promote_to_big`, and the mpz_t that `big()` then reads.
  unfoldable pub promote : BigInt → Mpz
  unfolding from_int64
  promote (small v) = from_int64 v
  promote (big m) = m

  -- The last lines of each operator: back to the inline form where the result fits.
  unfoldable pub shrink : Mpz → BigInt
  shrink m = if fits_slong m then small (get_si m) else big m

  -- The constructor from a string; `none` is std::invalid_argument.
  unfoldable pub from_string : String → Option BigInt
  unfolding shrink
  from_string s = elim (set_str s) [ none ↦ none | some m ↦ some (shrink m) ]

  -- The shape that the binary operators share: inline if both are and the test passes.
  unfoldable pub binary :
      (ℤ → ℤ → Bool) → (ℤ → ℤ → ℤ) → (Mpz → Mpz → Mpz) → BigInt → BigInt → BigInt
  unfolding promote shrink
  binary fast f op (small x) (small y) =
      if fast x y then small (f x y) else shrink (op (from_int64 x) (from_int64 y))
  binary fast f op (small x) (big n) = shrink (op (from_int64 x) n)
  binary fast f op (big m) (small y) = shrink (op m (from_int64 y))
  binary fast f op (big m) (big n) = shrink (op m n)

  unfoldable pub add : BigInt → BigInt → BigInt
  unfolding binary add_overflows
  add = binary (λ x y. not (add_overflows x y)) ◌+ℤ◌ mpz_add

  unfoldable pub sub : BigInt → BigInt → BigInt
  unfolding binary sub_overflows
  sub = binary (λ x y. not (sub_overflows x y)) ◌-ℤ◌ mpz_sub

  -- The 128-bit test and the portable one make two operators.
  unfoldable pub mul_by : (ℤ → ℤ → Bool) → BigInt → BigInt → BigInt
  unfolding binary
  mul_by overflows = binary (λ x y. not (overflows x y)) ◌*ℤ◌ mpz_mul

  unfoldable pub mul : BigInt → BigInt → BigInt
  unfolding mul_by mul_overflows
  mul = mul_by mul_overflows

  unfoldable pub neg : BigInt → BigInt
  unfolding promote shrink
  neg (small v) = if not (v ==ℤ int64_min) then small (neg_ℤ v) else shrink (mpz_neg (from_int64 v))
  neg (big m) = shrink (mpz_neg m)

  -- `operator<=>`.
  unfoldable pub compare_big : BigInt → BigInt → Ordering
  unfolding promote
  compare_big (small x) (small y) = order_of (ltb_ℤ x y) (ltb_ℤ y x)
  compare_big a b =
      let c : ℤ = cmp (promote a) (promote b) in order_of (ltb_ℤ c (pos 0)) (ltb_ℤ (pos 0) c)

  -- `operator==`.
  unfoldable pub equals : BigInt → BigInt → Bool
  unfolding compare_big
  equals a b = is_eq (compare_big a b)

  unfoldable pub div : BigInt → BigInt → Quotient BigInt
  unfolding equals binary
  div a b =
      if equals b (small (pos 0))
      then domain_error
      else quotient (binary divides_inline tdiv mpz_tdiv_q a b)

  unfoldable pub rem : BigInt → BigInt → Quotient BigInt
  unfolding equals binary
  rem a b =
      if equals b (small (pos 0))
      then domain_error
      else quotient (binary divides_inline tmod mpz_tdiv_r a b)
