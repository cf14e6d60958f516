-- ===== src/AtomConversion/Lookup.antt =====
-- poly_core/atom_conversion.cc: the place of a variable, and the exponents that are read.
use native.Mathlib.Nat.{mod-eq_of_lt}
use stocas.Common.{
  ℕ, suc, ◌%◌, ◌^◌, ◌≡◌, ◌≤◌, ◌<◌, ap, ap₂, ◌∙◌, true, false, List, [], ◌∷◌, map, length, replicate,
  set, ◌==◌, ◌⊎◌, inl, inr, Bool-cases, arith, ltb, lt→ltb, ==_iff,
}
use stocas.Algebra.{Ring}
use stocas.Algebra.Laws.{mul-one}
use stocas.Monomial.{exponent_mod}
use stocas.Polynomial.{ok}
use stocas.Polynomial.Value.{monomial_value}
use stocas.Polynomial.Bounds.{Bounded}
use stocas.AtomConversion.Reader.{find_variable, bigint_to_exponent}
use stocas.AtomConversion.Steps.{greatest, total, zeros-Bounded, value-zeros}

-- 32-bit exponents are read as they are.
pub read_small : (n : ℕ) → n < exponent_mod → bigint_to_exponent n ≡ ok n
unfolding bigint_to_exponent
read_small n h =
    let fits : ltb n (2 ^ 64) ≡ true = lt→ltb n (2 ^ 64) (omega arith) in rw (fits, mod-eq_of_lt h)

-- Of a larger one the low 32 bits.
pub read_wide : (n : ℕ) → n < 2 ^ 64 → bigint_to_exponent n ≡ ok (n % exponent_mod)
unfolding bigint_to_exponent
read_wide n h = let fits : ltb n (2 ^ 64) ≡ true = lt→ltb n (2 ^ 64) h in rw fits

abbrev pub HasVariable : ℕ → List ℕ → Type 0
HasVariable s [] = ⊥
HasVariable s (v ∷ vs) = (v ≡ s) ⊎ HasVariable s vs

not_first : (s v : ℕ) (vs : List ℕ) → HasVariable s (v ∷ vs) → (v == s) ≡ false → HasVariable s vs
not_first s v vs (inl e) f = absurd (ground arith)
not_first s v vs (inr h) f = h

pub greatest-le-total : (bs : List ℕ) → greatest bs ≤ total bs
greatest-le-total [] = omega arith
greatest-le-total (b ∷ bs) = omega (arith, greatest-le-total bs)

module _ {N : Type 0} (scalars : Ring N) (env : ℕ → N) where
  pub found :
      (s : ℕ) (vs : List ℕ)
      → HasVariable s vs
      → (i : ℕ) × (find_variable s vs ≡ ok i)
        × Bounded (length vs) 1 (set (replicate (length vs) 0) i 1)
        × (monomial_value scalars (map env vs) (set (replicate (length vs) 0) i 1) ≡ env s)
  unfolding find_variable
  found s [] h = absurd h
  found s (v ∷ vs) h = elim (Bool-cases (v == s)) [
    | inl here ↦
        let (len, zeros) = zeros-Bounded (length vs) 1 in
        (
          0,
          rw here,
          (ap suc len, (omega arith, zeros)),
          ap₂ scalars.mul (mul-one scalars (env v)) (value-zeros scalars (length vs) (map env vs))
              ∙ mul-one scalars (env v)
              ∙ ap env ((==_iff v s).0 here),
        )
    | inr later ↦
        let (i, e, (len, b), val) = found s vs (not_first s v vs h later) in
        (suc i, rw (later, e), (ap suc len, (omega arith, b)), scalars.one-mul _ ∙ val)
  ]
