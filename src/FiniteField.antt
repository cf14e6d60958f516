-- ===== src/FiniteField.antt =====
-- src/numerica_core/include/numerica_core/finite_field.hh: residues modulo a word-sized number.
pub mod Ring
pub mod Inverse
pub mod Portable
mod Examples
use stocas.Common.{
  ℕ, zero, suc, ◌+◌, ◌-◌, ◌*◌, ◌/◌, ◌%◌, ◌^◌, Bool, ◌&&◌, ◌||◌, Option, none, some, ltb, leb, ◌==◌,
  if◌then◌else◌,
}

-- The value types that `FiniteFieldValueType` admits.
pub data Width : Type 0 where
  u32 u64 : Width

-- Arithmetic of the value type is modulo this number.
abbrev pub word_mod : Width → ℕ
word_mod u32 = 2 ^ 32
word_mod u64 = 2 ^ 64

pub record FiniteField : Type 0 where
  pub modulus : ℕ
  pub value : ℕ

-- The constructor.
unfoldable pub make : ℕ → ℕ → FiniteField
make m v = record { modulus = m; value = v % m }

unfoldable pub add : Width → FiniteField → FiniteField → FiniteField
unfolding make
add w a b =
    let sum : ℕ = (a.value + b.value) % word_mod w in
    make a.modulus (
      if leb a.modulus sum || ltb sum a.value
      then (sum + word_mod w - a.modulus) % word_mod w
      else sum)

unfoldable pub sub : Width → FiniteField → FiniteField → FiniteField
unfolding make
sub w a b =
    let diff : ℕ = (a.value + word_mod w - b.value) % word_mod w in
    make a.modulus (if ltb a.value b.value then (diff + a.modulus) % word_mod w else diff)

unfoldable pub neg : Width → FiniteField → FiniteField
unfolding make
neg w a =
    make a.modulus (if a.value == 0 then 0 else (a.modulus + word_mod w - a.value) % word_mod w)

-- `mul_mod_u64` where the compiler has 128-bit integers.
unfoldable pub mul_mod_wide : ℕ → ℕ → ℕ → ℕ
mul_mod_wide a b m = (a * b % 2 ^ 128) % m % 2 ^ 64

-- `x - (m - y)` and `m - y` are 64-bit differences.
unfoldable pub add_mod : ℕ → ℕ → ℕ → ℕ
add_mod m x y =
    let gap : ℕ = (m + 2 ^ 64 - y) % 2 ^ 64 in
    if leb gap x then (x + 2 ^ 64 - gap) % 2 ^ 64 else (x + y) % 2 ^ 64

-- The loop of the portable `mul_mod_u64`; `none` means that the rounds ran out.
unfoldable pub mul_mod_loop : ℕ → ℕ → ℕ → ℕ → ℕ → Option ℕ
unfolding add_mod
mul_mod_loop zero m result a b = none
mul_mod_loop (suc rounds) m result a b =
    let result' : ℕ = if b % 2 == 1 then add_mod m result a else result in
    let rest = mul_mod_loop rounds m result' (add_mod m a a) (b / 2) in
    if ltb 0 b then rest else some result

-- `mul_mod_u64` elsewhere: a 64-bit `b` is used up in 64 rounds, and one more sees that it is.
unfoldable pub mul_mod_portable : ℕ → ℕ → ℕ → Option ℕ
unfolding mul_mod_loop
mul_mod_portable a b m = mul_mod_loop 65 m 0 (a % m) b

unfoldable pub mul : Width → FiniteField → FiniteField → FiniteField
unfolding make mul_mod_wide
mul u32 a b = make a.modulus ((a.value * b.value % 2 ^ 64) % a.modulus % 2 ^ 32)
mul u64 a b = make a.modulus (mul_mod_wide a.value b.value a.modulus)

-- The loop of `inv`.
unfoldable pub inv_loop : ℕ → Width → FiniteField → FiniteField → ℕ → Option FiniteField
unfolding mul
inv_loop zero w result base exponent = none
inv_loop (suc rounds) w result base exponent =
    let result' = if exponent % 2 == 1 then mul w result base else result in
    let rest = inv_loop rounds w result' (mul w base base) (exponent / 2) in
    if ltb 0 exponent then rest else some result

-- The outcome of `inv`; `spun` would be a loop that does not end within its rounds.
pub data InverseResult : Type 0 where
  domain_error spun : InverseResult
  inverse : FiniteField → InverseResult

abbrev pub from_loop : Option FiniteField → InverseResult
from_loop none = spun
from_loop (some r) = inverse r

unfoldable pub inv : Width → FiniteField → InverseResult
unfolding inv_loop make
inv w a =
    let found =
      from_loop (inv_loop 65 w (make a.modulus 1) a ((a.modulus + word_mod w - 2) % word_mod w)) in
    if a.value == 0 then domain_error else found

-- `operator==`.
unfoldable pub equals : FiniteField → FiniteField → Bool
equals a b = (a.modulus == b.modulus) && (a.value == b.value)
