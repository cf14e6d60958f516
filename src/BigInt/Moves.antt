-- ===== src/BigInt/Moves.antt =====
-- Copying and moving of numerica_core/big_int.cc. Variables are numbered, so that the two sides of an
-- assignment may be one variable.
use stocas.Common.{ℕ, ◌≡◌, true, ◌==◌, if◌then◌else◌, inl, inr, Bool-cases, arith}
use stocas.Common.Int.{pos}
use stocas.BigInt.{Gmp, BigInt, small}
use stocas.BigInt.Refinement.{IsCanonical}

module _ (g : Gmp) where
  abbrev pub Variables : Type 0
  Variables = ℕ → BigInt g

  unfoldable pub put : ℕ → BigInt g → Variables → Variables
  put i v variables k = if k == i then v else variables k

  -- The copy constructor, with the new variable.
  unfoldable pub copy_construct : ℕ → ℕ → Variables → Variables
  unfolding put
  copy_construct i j variables = put i (variables j) variables

  -- `operator=(const BigInt&)`, with its test for self-assignment.
  unfoldable pub copy_assign : ℕ → ℕ → Variables → Variables
  unfolding put
  copy_assign i j variables = if i == j then variables else put i (variables j) variables

  -- `operator=(BigInt&&)`, which has none: the source is 0 afterwards.
  unfoldable pub move_assign : ℕ → ℕ → Variables → Variables
  unfolding put
  move_assign i j variables = put j (small (pos 0)) (put i (variables j) variables)

  abbrev AllCanonical : Variables → Type 0
  AllCanonical variables = (k : ℕ) → IsCanonical g (variables k)

  put-Canonical :
      (i : ℕ) (v : BigInt g) (variables : Variables)
      → IsCanonical g v
      → AllCanonical variables
      → AllCanonical (put i v variables)
  unfolding put
  put-Canonical i v variables c h k = elim (Bool-cases (k == i)) [
    | inl here ↦ rw here c
    | inr other ↦ rw other (h k)
  ]

  -- Each operation keeps every variable canonical.
  assignments-Canonical :
      (i j : ℕ) (variables : Variables)
      → AllCanonical variables
      → AllCanonical (copy_construct i j variables)
        × AllCanonical (copy_assign i j variables)
        × AllCanonical (move_assign i j variables)
  unfolding copy_construct copy_assign move_assign
  assignments-Canonical i j variables h = (
    put-Canonical i (variables j) variables (h j) h,
    elim (Bool-cases (i == j)) [
      | inl self ↦ rw self h
      | inr other ↦ rw other (put-Canonical i (variables j) variables (h j) h)
    ],
    put-Canonical j (small (pos 0)) (put i (variables j) variables) (omega arith)
        (put-Canonical i (variables j) variables (h j) h),
  )

  -- A copy to itself changes nothing, and a move to itself leaves 0.
  self_assignments :
      (i : ℕ) (variables : Variables)
      → (copy_assign i i variables ≡ variables) × (move_assign i i variables i ≡ small (pos 0))
  unfolding copy_assign move_assign put
  self_assignments i variables = let self : (i == i) ≡ true = ground arith in (rw self, rw self)
