-- ===== src/Matcher/Impl.antt =====
-- pattern_core/matcher.cc: match_impl, and the loops that it is mutually recursive with.
use stocas.Common.{ℕ, ◌&&◌, List, [], ◌∷◌, Option, none, some, ◌==◌, if◌then◌else◌}
use stocas.SymbolTable.Attributes.{SymbolAttribute}
use stocas.Polynomial.{Result, ok, err, invalid_argument}
use stocas.Atom.{Numbers, Kind, num, var, add, mul, pow, fun, Atom, node, Atoms, nil, cons}
use stocas.Atom.Builders.Views.{count_atoms}
use stocas.Rewrite.{
  WildcardKind, single, at_least_one, any_count, wildcard_kind, BoundValue, atom, sequence,
  find_binding,
}
use stocas.Matcher.{MatchBindings, Pool, Search, SequenceWildcard, and_then, is_symmetric, try_each}
use stocas.Matcher.Sequences.{equal_atoms, sequence_wildcard, split_sequence_wildcard}
use stocas.Matcher.Children.{match_child, match_counted, match_positional}

module _ {N : Type 0} (numbers : Numbers N) (symbol_name : ℕ → List ℕ)
    (attributes : ℕ → List SymbolAttribute) where
  unfoldable pub match_known :
      ℕ → Atom N → MatchBindings N → Option (BoundValue N) → Option (MatchBindings N)
  unfolding equal_atoms
  match_known s t bindings none = some ((s, atom t) ∷ bindings)
  match_known s t bindings (some (atom known)) =
      if equal_atoms numbers symbol_name attributes known t then some bindings else none
  match_known s t bindings (some (sequence ts)) = none

  unfoldable pub match_symbol : ℕ → Atom N → MatchBindings N → Option (MatchBindings N)
  match_symbol s (node (var r) ts) bindings = if s == r then some bindings else none
  match_symbol s (node k ts) bindings = none

  unfoldable pub match_variable :
      ℕ → Option WildcardKind → Atom N → MatchBindings N → Result (Option (MatchBindings N))
  unfolding match_known match_symbol find_binding
  match_variable s none t bindings = ok (match_symbol s t bindings)
  match_variable s (some single) t bindings =
      ok (match_known s t bindings (find_binding s bindings))
  match_variable s (some at_least_one) t bindings = err invalid_argument
  match_variable s (some any_count) t bindings = err invalid_argument

  -- The switch, with the ways to match the pattern's children: assignment to a pool, in order with
  -- a sequence, and each with one.
  unfoldable pub match_node :
      Kind N
      → Atoms N
      → (Pool N → MatchBindings N → ℕ → Search N)
      → (Atoms N → MatchBindings N → Result (Option (MatchBindings N)))
      → (Atoms N → MatchBindings N → Result (Option (MatchBindings N)))
      → Atom N
      → MatchBindings N
      → Result (Option (MatchBindings N))
  unfolding match_variable match_counted match_positional split_sequence_wildcard is_symmetric
      wildcard_kind
  match_node (var s) ps assign in_order each t bindings =
      match_variable s (wildcard_kind (symbol_name s)) t bindings
  match_node (num c) ps assign in_order each (node (num d) ts) bindings =
      ok (if numbers.equal_numbers c d then some bindings else none)
  match_node add ps assign in_order each (node add ts) bindings =
      match_counted numbers symbol_name attributes assign
        (split_sequence_wildcard numbers symbol_name attributes none 0 ps) ts bindings
  match_node mul ps assign in_order each (node mul ts) bindings =
      match_counted numbers symbol_name attributes assign
        (split_sequence_wildcard numbers symbol_name attributes none 0 ps) ts bindings
  match_node pow ps assign in_order each (node pow ts) bindings =
      if (count_atoms ps == 2) && (count_atoms ts == 2) then each ts bindings else ok none
  match_node (fun h) ps assign in_order each (node (fun g) ts) bindings =
      if h == g
      then if is_symmetric (attributes h)
        then match_counted numbers symbol_name attributes assign
            (split_sequence_wildcard numbers symbol_name attributes none 0 ps) ts bindings
        else match_positional numbers symbol_name attributes in_order
            (split_sequence_wildcard numbers symbol_name attributes none 0 ps) ts bindings
      else ok none
  match_node k ps assign in_order each t bindings = ok none

  -- Sequence wildcards are left out of the assignment.
  unfoldable pub assign_child :
      Option SequenceWildcard
      → (Atom N → MatchBindings N → Result (Option (MatchBindings N)))
      → (Pool N → MatchBindings N → ℕ → Search N)
      → Pool N
      → MatchBindings N
      → ℕ
      → Search N
  unfolding try_each
  assign_child (some s) probe others pool bindings attempts = others pool bindings attempts
  assign_child none probe others pool bindings attempts =
      try_each probe others bindings [] pool attempts

  unfoldable mutual
    unfolding match_node assign_child match_child sequence_wildcard

    pub match_impl : Atom N → Atom N → MatchBindings N → Result (Option (MatchBindings N))
    match_impl (node k ps) t bindings =
        match_node k ps (assign_normals ps) (match_in_order ps) (match_each ps) t bindings

    pub assign_normals : Atoms N → Pool N → MatchBindings N → ℕ → Search N
    assign_normals nil pool bindings attempts = ok (attempts, some (bindings, pool))
    assign_normals (cons p ps) pool bindings attempts =
        assign_child (sequence_wildcard numbers symbol_name attributes p) (match_impl p)
          (assign_normals ps) pool bindings attempts

    pub match_in_order : Atoms N → Atoms N → MatchBindings N → Result (Option (MatchBindings N))
    match_in_order nil nil bindings = ok (some bindings)
    match_in_order nil (cons t ts) bindings = ok none
    match_in_order (cons p ps) ts bindings =
        match_child numbers symbol_name attributes
          (sequence_wildcard numbers symbol_name attributes p) (match_impl p) (match_in_order ps)
          (count_atoms ps) ts bindings

    pub match_each : Atoms N → Atoms N → MatchBindings N → Result (Option (MatchBindings N))
    match_each nil ts bindings = ok (some bindings)
    match_each (cons p ps) nil bindings = ok none
    match_each (cons p ps) (cons t ts) bindings =
        and_then (match_impl p t bindings) (match_each ps ts)
