-- ===== src/Matcher/Children.antt =====
-- pattern_core/matcher.cc: the children of a sum, a product or a call, given the way to match each.
use stocas.Common.{ℕ, suc, ◌-◌, List, Option, none, some, ◌==◌, leb, if◌then◌else◌}
use stocas.SymbolTable.Attributes.{SymbolAttribute}
use stocas.Polynomial.{Result, ok, err}
use stocas.Atom.{Numbers, Atom, Atoms, nil, cons}
use stocas.Atom.Builders.Views.{count_atoms}
use stocas.Matcher.{
  MatchBindings, Pool, Search, SequenceWildcard, and_then, drop_atoms, leftover, max_attempts,
  take_atoms, unused,
}
use stocas.Matcher.Sequences.{bind_sequence}

module _ {N : Type 0} (numbers : Numbers N) (symbol_name : ℕ → List ℕ)
    (attributes : ℕ → List SymbolAttribute) where
  unfoldable pub finish_commutative :
      Option SequenceWildcard → Search N → Result (Option (MatchBindings N))
  unfolding bind_sequence leftover
  finish_commutative s (err e) = err e
  finish_commutative s (ok (a, none)) = ok none
  finish_commutative none (ok (a, some (bindings, pool))) = ok (some bindings)
  finish_commutative (some s) (ok (a, some (bindings, pool))) =
      ok (bind_sequence numbers symbol_name attributes s (leftover pool) bindings)

  -- The comparison of the numbers of children, and the assignment.
  unfoldable pub match_counted :
      (Pool N → MatchBindings N → ℕ → Search N)
      → Result (ℕ × Option SequenceWildcard)
      → Atoms N
      → MatchBindings N
      → Result (Option (MatchBindings N))
  unfolding finish_commutative unused
  match_counted assign (err e) ts bindings = err e
  match_counted assign (ok (normals, none)) ts bindings =
      if normals == count_atoms ts
      then finish_commutative none (assign (unused ts) bindings max_attempts)
      else ok none
  match_counted assign (ok (normals, some s)) ts bindings =
      if leb normals (count_atoms ts)
      then finish_commutative (some s) (assign (unused ts) bindings max_attempts)
      else ok none

  -- The sequence takes what the children behind it leave.
  unfoldable pub bind_after :
      SequenceWildcard
      → Atoms N
      → Result (Option (MatchBindings N))
      → Result (Option (MatchBindings N))
  unfolding bind_sequence
  bind_after s captured (err e) = err e
  bind_after s captured (ok none) = ok none
  bind_after s captured (ok (some bindings)) =
      ok (bind_sequence numbers symbol_name attributes s captured bindings)

  unfoldable pub match_child :
      Option SequenceWildcard
      → (Atom N → MatchBindings N → Result (Option (MatchBindings N)))
      → (Atoms N → MatchBindings N → Result (Option (MatchBindings N)))
      → ℕ
      → Atoms N
      → MatchBindings N
      → Result (Option (MatchBindings N))
  unfolding bind_after take_atoms drop_atoms
  match_child none probe rest behind nil bindings = ok none
  match_child none probe rest behind (cons t ts) bindings = and_then (probe t bindings) (rest ts)
  match_child (some s) probe rest behind ts bindings =
      let middle_count = count_atoms ts - behind in
      bind_after s (take_atoms middle_count ts) (rest (drop_atoms middle_count ts) bindings)

  -- The tests before match_positional_with_sequence matches children, and the loops.
  unfoldable pub match_positional :
      (Atoms N → MatchBindings N → Result (Option (MatchBindings N)))
      → Result (ℕ × Option SequenceWildcard)
      → Atoms N
      → MatchBindings N
      → Result (Option (MatchBindings N))
  match_positional rest (err e) ts bindings = err e
  match_positional rest (ok (normals, none)) ts bindings =
      if normals == count_atoms ts then rest ts bindings else ok none
  match_positional rest (ok (normals, some s)) ts bindings =
      if leb (if s.at_least then suc normals else normals) (count_atoms ts)
      then rest ts bindings
      else ok none
