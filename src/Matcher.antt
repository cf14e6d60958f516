-- ===== src/Matcher.antt =====
-- pattern_core/matcher.cc on expressions. The attributes of a symbol and its text are functions of its
-- id. A pool is the list of the target's children, with the flag `used` of each.
pub mod Sequences
pub mod Children
pub mod Impl
pub mod Equality
pub mod Permuted
pub mod Bindings
pub mod Search
pub mod Split
pub mod Capture
pub mod Counted
pub mod Nodes
pub mod Sound
pub mod Reflexive
mod Examples
use Prim.Native.Nat.{Ordering}
use stocas.Common.{
  ℕ, zero, suc, ◌-◌, Bool, true, false, ◌&&◌, List, [], ◌∷◌, ◌++◌, Option, none, some, ◌==◌, leb,
  if◌then◌else◌,
}
use stocas.SymbolTable.Attributes.{SymbolAttribute}
use stocas.Polynomial.{Result, ok, err, invalid_argument}
use stocas.Atom.{
  Numbers, Kind, num, var, add, mul, pow, fun, Atom, node, Atoms, nil, cons, compare_atoms,
}
use stocas.Atom.Builders.{sort_atoms}
use stocas.Atom.Builders.Views.{count_atoms}
use stocas.Rewrite.{
  WildcardKind, single, at_least_one, any_count, wildcard_kind, BoundValue, atom, sequence,
  find_binding,
}

abbrev pub MatchBindings : Type 0 → Type 0
MatchBindings N = List (ℕ × BoundValue N)

abbrev pub Pool : Type 0 → Type 0
Pool N = List (Bool × Atom N)

-- The outcome of a search, with the attempts that remain.
abbrev pub Search : Type 0 → Type 0
Search N = Result (ℕ × Option (MatchBindings N × Pool N))

pub record SequenceWildcard : Type 0 where
  pub symbol : ℕ
  pub at_least : Bool

-- `kMaxCommutativeAssignmentAttempts`.
unfoldable pub max_attempts : ℕ
max_attempts = 200000

unfoldable pub is_symmetric : List SymbolAttribute → Bool
is_symmetric [] = false
is_symmetric (SymbolAttribute.symmetric ∷ rest) = true
is_symmetric (other ∷ rest) = is_symmetric rest

unfoldable pub take_atoms : {N : Type 0} → ℕ → Atoms N → Atoms N
take_atoms zero ts = nil
take_atoms (suc n) nil = nil
take_atoms (suc n) (cons t ts) = cons t (take_atoms n ts)

unfoldable pub drop_atoms : {N : Type 0} → ℕ → Atoms N → Atoms N
drop_atoms zero ts = ts
drop_atoms (suc n) nil = nil
drop_atoms (suc n) (cons t ts) = drop_atoms n ts

unfoldable pub unused : {N : Type 0} → Atoms N → Pool N
unused nil = []
unused (cons t ts) = (false, t) ∷ unused ts

unfoldable pub leftover : {N : Type 0} → Pool N → Atoms N
leftover [] = nil
leftover ((true, t) ∷ pool) = leftover pool
leftover ((false, t) ∷ pool) = cons t (leftover pool)

-- The second half of a probe: the rest of the assignment, and the next candidate if it fails.
unfoldable pub or_else : {N : Type 0} → Search N → (ℕ → Search N) → Search N
or_else (err e) next = err e
or_else (ok (a, some found)) next = ok (a, some found)
or_else (ok (a, none)) next = next a

unfoldable pub after_probe :
    {N : Type 0}
    → Result (Option (MatchBindings N))
    → (MatchBindings N → Search N)
    → (ℕ → Search N)
    → ℕ
    → Search N
unfolding or_else
after_probe (err e) continue next attempts = err e
after_probe (ok none) continue next attempts = next attempts
after_probe (ok (some bindings)) continue next attempts = or_else (continue bindings) next

-- The loop of assign_normals over the pool, with the probe of one normal child and the assignment
-- of the others.
unfoldable pub try_each :
    {N : Type 0}
    → (Atom N → MatchBindings N → Result (Option (MatchBindings N)))
    → (Pool N → MatchBindings N → ℕ → Search N)
    → MatchBindings N
    → Pool N
    → Pool N
    → ℕ
    → Search N
unfolding after_probe
try_each probe others bindings before [] attempts = ok (attempts, none)
try_each probe others bindings before ((true, t) ∷ pool) attempts =
    try_each probe others bindings (before ++ (true, t) ∷ []) pool attempts
try_each probe others bindings before ((false, t) ∷ pool) zero = ok (zero, none)
try_each probe others bindings before ((false, t) ∷ pool) (suc attempts) =
    after_probe (probe t bindings) (λ found. others (before ++ (true, t) ∷ pool) found attempts)
      (λ left. try_each probe others bindings (before ++ (false, t) ∷ []) pool left) attempts

abbrev pub and_then :
    {N : Type 0}
    → Result (Option (MatchBindings N))
    → (MatchBindings N → Result (Option (MatchBindings N)))
    → Result (Option (MatchBindings N))
and_then (err e) rest = err e
and_then (ok none) rest = ok none
and_then (ok (some bindings)) rest = rest bindings
