-- ===== src/Polynomial.antt =====
-- poly_core/include/poly_core/polynomial.hh: sparse polynomials over a ring. The monomials of a
-- polynomial have one exponent for each variable, so that the size checks of the operators of
-- Monomial and of `exponent` pass, and the loops behind them are used here. A symbol is its id.
pub mod Value
pub mod Sum
pub mod Product
pub mod Terms
pub mod Order
pub mod Canonical
pub mod Sorting
pub mod Invariant
pub mod Errors
pub mod Bounds
pub mod Substitute
mod Examples
use Prim.Native.Nat.{Ordering}
use stocas.Common.{
  ℕ, zero, suc, ◌+◌, ◌/◌, ◌%◌, Bool, true, false, not, ◌&&◌, ◌||◌, List, [], ◌∷◌, ◌++◌, map, length,
  replicate, set, get_elem?, Option, none, some, ltb, ◌==◌, if◌then◌else◌, max,
}
use stocas.Algebra.{Ring}
use stocas.Monomial.{Monomial, compare_exponents, add_exponents}

pub data Failure : Type 0 where
  invalid_argument : Failure
  out_of_range : Failure
  logic_error : Failure
  runtime_error : Failure
  domain_error : Failure

pub data Result (A : Type 0) : Type 0 where
  ok : A → Result A
  err : Failure → Result A

-- An exception ends what called for the value.
abbrev pub and_then : {A B : Type 0} → Result A → (A → Result B) → Result B
and_then (err e) rest = err e
and_then (ok a) rest = rest a

abbrev pub Term : Type 0 → Type 0
Term A = Monomial × A

pub record Polynomial (A : Type 0) : Type 0 where
  pub variables : List ℕ
  pub terms : List (Term A)

-- `operator==` of vectors of exponents, and of symbols.
unfoldable pub equal_vectors : List ℕ → List ℕ → Bool
equal_vectors [] [] = true
equal_vectors [] (b ∷ bs) = false
equal_vectors (a ∷ es) [] = false
equal_vectors (a ∷ es) (b ∷ bs) = (a == b) && equal_vectors es bs

-- `a > b` of monomials.
unfoldable pub above : Monomial → Monomial → Bool
unfolding compare_exponents
above a b = elim (compare_exponents a b) [ Ordering.gt ↦ true | _ ↦ false ]

unfoldable pub exponent : Monomial → ℕ → ℕ
exponent m i = elim (get_elem? m i) [ none ↦ 0 | some e ↦ e ]

-- The exponents without that of one variable, as leading_coefficient_in and embed_univariate
-- build them.
unfoldable pub remove_at {ℓ} : {B : Type ℓ} → ℕ → List B → List B
remove_at i [] = []
remove_at zero (x ∷ xs) = xs
remove_at (suc i) (x ∷ xs) = x ∷ remove_at i xs

module _ {A : Type 0} (ring : Ring A) where
  open ring use {zero as nought, one, add as plus, mul as times, sub as minus, neg as negate, eq}

  unfoldable pub zero_polynomial : List ℕ → Polynomial A
  zero_polynomial variables = record { variables = variables; terms = [] }

  unfoldable pub from_term : List ℕ → Monomial → A → Result (Polynomial A)
  unfolding zero_polynomial
  from_term variables monomial coefficient =
      if length monomial == length variables
      then ok (
          if not (eq coefficient nought)
          then record { variables = variables; terms = (monomial, coefficient) ∷ [] }
          else zero_polynomial variables)
      else err invalid_argument

  unfoldable pub constant : List ℕ → A → Result (Polynomial A)
  unfolding from_term
  constant variables value = from_term variables (replicate (length variables) 0) value

  unfoldable pub is_zero : Polynomial A → Bool
  is_zero p = elim p.terms [ [] ↦ true | _ ∷ _ ↦ false ]

  unfoldable pub leading_term : Polynomial A → Result (Term A)
  leading_term p = elim p.terms [ [] ↦ err logic_error | t ∷ _ ↦ ok t ]

  -- A term pushed unless its coefficient is zero.
  unfoldable pub push_nonzero : Monomial → A → List (Term A) → List (Term A)
  push_nonzero m c ts = if not (eq c nought) then (m, c) ∷ ts else ts

  unfoldable pub combine_rest : (A → A → A) → List (Term A) → List (Term A)
  combine_rest combine [] = []
  combine_rest combine ((n, b) ∷ ys) = (n, combine nought b) ∷ combine_rest combine ys

  -- `merge_terms`: the merge of two sorted lists.
  unfoldable pub merge_terms : (A → A → A) → List (Term A) → List (Term A) → List (Term A)
  unfolding push_nonzero combine_rest equal_vectors above
  merge_terms combine [] ys = combine_rest combine ys
  merge_terms combine (x ∷ xs) [] = x ∷ xs
  merge_terms combine ((m, a) ∷ xs) ((n, b) ∷ ys) =
      let both = push_nonzero m (combine a b) (merge_terms combine xs ys) in
      let left = (m, a) ∷ merge_terms combine xs ((n, b) ∷ ys) in
      let right = (n, combine nought b) ∷ merge_terms combine ((m, a) ∷ xs) ys in
      if equal_vectors m n then both else if above m n then left else right

  -- `require_same_variables` and `merge_terms`.
  unfoldable pub merged : (A → A → A) → Polynomial A → Polynomial A → Result (Polynomial A)
  unfolding merge_terms
  merged combine p q =
      if equal_vectors p.variables q.variables
      then ok (record { variables = p.variables; terms = merge_terms combine p.terms q.terms })
      else err invalid_argument

  unfoldable pub add : Polynomial A → Polynomial A → Result (Polynomial A)
  unfolding merged
  add p q = merged plus p q

  unfoldable pub sub : Polynomial A → Polynomial A → Result (Polynomial A)
  unfolding merged
  sub p q = merged minus p q

  unfoldable pub negate_terms : List (Term A) → List (Term A)
  negate_terms [] = []
  negate_terms ((m, a) ∷ xs) = (m, negate a) ∷ negate_terms xs

  unfoldable pub neg : Polynomial A → Polynomial A
  unfolding negate_terms
  neg p = record p { terms = negate_terms p.terms }

  -- The two loops that fill `raw`.
  unfoldable pub scaled_terms : Monomial → A → List (Term A) → List (Term A)
  scaled_terms m a [] = []
  scaled_terms m a ((n, b) ∷ ys) = (add_exponents m n, times a b) ∷ scaled_terms m a ys

  unfoldable pub raw_product : List (Term A) → List (Term A) → List (Term A)
  unfolding scaled_terms add_exponents
  raw_product [] ys = []
  raw_product ((m, a) ∷ xs) ys = scaled_terms m a ys ++ raw_product xs ys

  -- `std::sort` by descending monomials, as an insertion sort.
  unfoldable pub insert_term : Term A → List (Term A) → List (Term A)
  insert_term (m, a) [] = (m, a) ∷ []
  insert_term (m, a) ((n, b) ∷ ys) =
      if above n m then (n, b) ∷ insert_term (m, a) ys else (m, a) ∷ (n, b) ∷ ys

  unfoldable pub sort_terms : List (Term A) → List (Term A)
  unfolding insert_term above
  sort_terms [] = []
  sort_terms (x ∷ xs) = insert_term x (sort_terms xs)

  -- The loop over the sorted terms, where (m, a) is `result.terms_.back()`.
  unfoldable pub collect_from : Monomial → A → List (Term A) → List (Term A)
  collect_from m a [] = (m, a) ∷ []
  collect_from m a ((n, b) ∷ ys) =
      let same = collect_from m (plus a b) ys in
      let next = (m, a) ∷ collect_from n b ys in if equal_vectors m n then same else next

  unfoldable pub collect : List (Term A) → List (Term A)
  unfolding collect_from equal_vectors
  collect [] = []
  collect ((m, a) ∷ xs) = collect_from m a xs

  -- `std::erase_if`.
  unfoldable pub erase_zeros : List (Term A) → List (Term A)
  unfolding push_nonzero
  erase_zeros [] = []
  erase_zeros ((m, a) ∷ xs) = push_nonzero m a (erase_zeros xs)

  unfoldable pub mul : Polynomial A → Polynomial A → Result (Polynomial A)
  unfolding raw_product sort_terms collect erase_zeros is_zero equal_vectors zero_polynomial
  mul p q =
      if equal_vectors p.variables q.variables
      then ok (
          if is_zero p || is_zero q then zero_polynomial p.variables else record p {
            terms = erase_zeros (collect (sort_terms (raw_product p.terms q.terms)));
          })
      else err invalid_argument
