-- ===== src/Replace.antt =====
-- The rewriting of pattern_core/rewrite.cc on expressions: one pass of a rule, and passes up to a
-- fixed point. A rule without a guard has one that accepts all.
pub mod Value
pub mod FixedPoint
mod Examples
use stocas.Common.{ℕ, zero, suc, Bool, List, [], ◌∷◌, Option, none, some, if◌then◌else◌}
use stocas.SymbolTable.Attributes.{SymbolAttribute}
use stocas.Algebra.{Ring}
use stocas.Polynomial.{Result, ok, err, runtime_error}
use stocas.Atom.{Numbers, Kind, num, var, add, mul, pow, fun, Atom, node, Atoms, nil, cons}
use stocas.Atom.Builders.{canonical}
use stocas.Rewrite.{substitute_impl}
use stocas.Matcher.{MatchBindings}
use stocas.Matcher.Impl.{match_impl}
use stocas.Matcher.Sequences.{equal_atoms}

pub record Rule (N : Type 0) : Type 0 where
  pub pattern_atom : Atom N
  pub replacement : Atom N
  pub guard : MatchBindings N → Bool

module _ {N : Type 0} (numbers : Numbers N) (scalars : Ring N) (symbol_name : ℕ → List ℕ)
    (attributes : ℕ → List SymbolAttribute) (rule : Rule N) where
  -- A node over its rewritten children.
  unfoldable pub rebuilt : Kind N → Atoms N → Atom N
  rebuilt add ts = canonical numbers add ts
  rebuilt mul ts = canonical numbers mul ts
  rebuilt k ts = node k ts

  unfoldable pub apply_match : Atom N → Result (Option (MatchBindings N)) → Result (Atom N)
  apply_match t (err e) = err e
  apply_match t (ok none) = ok t
  apply_match t (ok (some bindings)) =
      if rule.guard bindings
      then substitute_impl numbers scalars symbol_name bindings rule.replacement
      else ok t

  unfoldable pub apply_rule : Atom N → Result (Atom N)
  unfolding apply_match
  apply_rule t = apply_match t (match_impl numbers symbol_name attributes rule.pattern_atom t [])

  unfoldable pub replace_node : Kind N → Result (Atoms N) → Result (Atom N)
  unfolding apply_rule rebuilt
  replace_node k (err e) = err e
  replace_node k (ok ts) = apply_rule (rebuilt k ts)

  abbrev pub prepend : Result (Atom N) → Result (Atoms N) → Result (Atoms N)
  prepend (err e) ts = err e
  prepend (ok t) (err e) = err e
  prepend (ok t) (ok ts) = ok (cons t ts)

  unfoldable mutual
    unfolding replace_node

    pub replace_all_impl : Atom N → Result (Atom N)
    replace_all_impl (node k ts) = replace_node k (replace_children ts)

    pub replace_children : Atoms N → Result (Atoms N)
    replace_children nil = ok nil
    replace_children (cons t ts) = prepend (replace_all_impl t) (replace_children ts)

  -- Slots are the same exactly where the expressions are, by interning.
  unfoldable pub next_pass : Atom N → Result (Atom N) → (Atom N → Result (Atom N)) → Result (Atom N)
  unfolding equal_atoms
  next_pass current (err e) loop = err e
  next_pass current (ok next) loop =
      if equal_atoms numbers symbol_name attributes next current then ok next else loop next

  unfoldable pub replace_all_multiple : ℕ → Atom N → Result (Atom N)
  unfolding next_pass replace_all_impl
  replace_all_multiple zero current = err runtime_error
  replace_all_multiple (suc iterations) current =
      next_pass current (replace_all_impl current) (λ next. replace_all_multiple iterations next)
