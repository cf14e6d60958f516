-- ===== src/Monomial.antt =====
-- poly_core/monomial.cc and its header: exponent vectors of 32-bit words.
pub mod Order
pub mod Division
pub mod Degree
mod Examples
use Prim.Native.Nat.{Ordering, compare}
use stocas.Common.{
  ℕ, ◌+◌, ◌-◌, ◌%◌, ◌^◌, Bool, true, false, ◌&&◌, List, [], ◌∷◌, length, leb, ◌==◌, if◌then◌else◌,
}

abbrev pub exponent_mod : ℕ
exponent_mod = 2 ^ 32

abbrev pub Monomial : Type 0
Monomial = List ℕ

-- Operations of monomials over different numbers of variables throw std::invalid_argument.
pub data Checked {ℓ} (A : Type ℓ) : Type ℓ where
  invalid_argument : Checked A
  ok : A → Checked A

-- `std::accumulate` in an Exponent.
unfoldable pub accumulate : ℕ → Monomial → ℕ
accumulate acc [] = acc
accumulate acc (e ∷ es) = accumulate ((acc + e) % exponent_mod) es

unfoldable pub total_degree : Monomial → ℕ
unfolding accumulate
total_degree es = accumulate 0 es

unfoldable pub is_one : Monomial → Bool
is_one [] = true
is_one (e ∷ es) = (e == 0) && is_one es

-- The first difference decides.
abbrev pub then_by : Ordering → Ordering → Ordering
then_by Ordering.lt rest = Ordering.lt
then_by Ordering.eq rest = rest
then_by Ordering.gt rest = Ordering.gt

-- The loops over the exponents; the lists have one length where they are called.
unfoldable pub compare_exponents : Monomial → Monomial → Ordering
compare_exponents [] bs = Ordering.eq
compare_exponents (a ∷ es) [] = Ordering.eq
compare_exponents (a ∷ es) (b ∷ bs) = then_by (compare a b) (compare_exponents es bs)

unfoldable pub add_exponents : Monomial → Monomial → Monomial
add_exponents [] bs = []
add_exponents (a ∷ es) [] = []
add_exponents (a ∷ es) (b ∷ bs) = ((a + b) % exponent_mod) ∷ add_exponents es bs

unfoldable pub sub_exponents : Monomial → Monomial → Monomial
sub_exponents [] bs = []
sub_exponents (a ∷ es) [] = []
sub_exponents (a ∷ es) (b ∷ bs) = ((a + exponent_mod - b) % exponent_mod) ∷ sub_exponents es bs

unfoldable pub divides_exponents : Monomial → Monomial → Bool
divides_exponents [] bs = true
divides_exponents (a ∷ es) [] = true
divides_exponents (a ∷ es) (b ∷ bs) = leb a b && divides_exponents es bs

-- `operator<=>`.
unfoldable pub compare_monomials : Monomial → Monomial → Checked Ordering
unfolding compare_exponents
compare_monomials a b =
    if length a == length b then ok (compare_exponents a b) else invalid_argument

-- `operator*`.
unfoldable pub mul : Monomial → Monomial → Checked Monomial
unfolding add_exponents
mul a b = if length a == length b then ok (add_exponents a b) else invalid_argument

unfoldable pub divides : Monomial → Monomial → Checked Bool
unfolding divides_exponents
divides a b = if length a == length b then ok (divides_exponents a b) else invalid_argument

-- `operator/`, which asks `divides` and throws where the answer is no.
unfoldable pub div : Monomial → Monomial → Checked Monomial
unfolding sub_exponents divides
div a b =
    if length a == length b
    then elim (divides b a) [ ok true ↦ ok (sub_exponents a b) | _ ↦ invalid_argument ]
    else invalid_argument
