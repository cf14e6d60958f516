-- ===== src/Matcher/Sequences.antt =====
-- pattern_core/matcher.cc: equality of expressions, and the sequence wildcard of a pattern.
use Prim.Native.Nat.{Ordering}
use stocas.Common.{
  ℕ, suc, Bool, true, false, ◌&&◌, List, ◌∷◌, Option, none, some, ◌==◌, if◌then◌else◌,
}
use stocas.SymbolTable.Attributes.{SymbolAttribute}
use stocas.Polynomial.{Result, ok, err, invalid_argument}
use stocas.Atom.{Numbers, var, Atom, node, Atoms, nil, cons, compare_atoms}
use stocas.Atom.Builders.{sort_atoms}
use stocas.Atom.Builders.Views.{count_atoms}
use stocas.Rewrite.{
  WildcardKind, at_least_one, any_count, wildcard_kind, BoundValue, atom, sequence, find_binding,
}
use stocas.Matcher.{MatchBindings, SequenceWildcard}

module _ {N : Type 0} (numbers : Numbers N) (symbol_name : ℕ → List ℕ)
    (attributes : ℕ → List SymbolAttribute) where
  unfoldable pub equal_atoms : Atom N → Atom N → Bool
  unfolding compare_atoms
  equal_atoms a b = elim (compare_atoms numbers a b) [ Ordering.eq ↦ true | _ ↦ false ]

  unfoldable pub equal_lists : Atoms N → Atoms N → Bool
  unfolding equal_atoms
  equal_lists nil nil = true
  equal_lists (cons t ts) (cons u us) = equal_atoms t u && equal_lists ts us
  equal_lists ts us = false

  unfoldable pub same_multiset : Atoms N → Atoms N → Bool
  unfolding equal_lists sort_atoms
  same_multiset lhs rhs = equal_lists (sort_atoms numbers lhs) (sort_atoms numbers rhs)

  unfoldable pub sequence_kind : ℕ → Option WildcardKind → Option SequenceWildcard
  sequence_kind s (some at_least_one) = some (record { symbol = s; at_least = true })
  sequence_kind s (some any_count) = some (record { symbol = s; at_least = false })
  sequence_kind s kind = none

  unfoldable pub sequence_wildcard : Atom N → Option SequenceWildcard
  unfolding sequence_kind wildcard_kind
  sequence_wildcard (node (var s) ts) = sequence_kind s (wildcard_kind (symbol_name s))
  sequence_wildcard (node k ts) = none

  -- The number of normal children, and the sequence wildcard.
  unfoldable pub split_child :
      Option SequenceWildcard
      → Option SequenceWildcard
      → ℕ
      → (Option SequenceWildcard → ℕ → Result (ℕ × Option SequenceWildcard))
      → Result (ℕ × Option SequenceWildcard)
  split_child none found normals rest = rest found (suc normals)
  split_child (some s) none normals rest = rest (some s) normals
  split_child (some s) (some first) normals rest = err invalid_argument

  unfoldable pub split_sequence_wildcard :
      Option SequenceWildcard → ℕ → Atoms N → Result (ℕ × Option SequenceWildcard)
  unfolding sequence_wildcard split_child
  split_sequence_wildcard found normals nil = ok (normals, found)
  split_sequence_wildcard found normals (cons child children) =
      split_child (sequence_wildcard child) found normals
        (λ found' normals'. split_sequence_wildcard found' normals' children)

  unfoldable pub bind_known :
      SequenceWildcard
      → Atoms N
      → MatchBindings N
      → Option (BoundValue N)
      → Option (MatchBindings N)
  unfolding same_multiset
  bind_known s captured bindings none = some ((s.symbol, sequence captured) ∷ bindings)
  bind_known s captured bindings (some (atom t)) = none
  bind_known s captured bindings (some (sequence known)) =
      if same_multiset known captured then some bindings else none

  unfoldable pub bind_sequence :
      SequenceWildcard → Atoms N → MatchBindings N → Option (MatchBindings N)
  unfolding bind_known find_binding
  bind_sequence s captured bindings =
      if s.at_least && (count_atoms captured == 0)
      then none
      else bind_known s captured bindings (find_binding s.symbol bindings)
