-- ===== src/Rewrite.antt =====
-- pattern_core/wildcard.cc, and substitution in pattern_core/rewrite.cc, on expressions. The text of a
-- symbol is a list of character codes.
pub mod Value
mod Examples
use stocas.Common.{
  ℕ, zero, suc, Bool, true, false, List, [], ◌∷◌, Option, none, some, ◌==◌, if◌then◌else◌,
}
use mathlib.Core.List.{reverse}
use stocas.Algebra.{Ring}
use stocas.Polynomial.{Result, ok, err, invalid_argument, out_of_range}
use stocas.Atom.{Numbers, Kind, num, var, add, mul, pow, fun, Atom, node, Atoms, nil, cons}
use stocas.Atom.Builders.{canonical, append_atoms}

pub data WildcardKind : Type 0 where
  single : WildcardKind
  at_least_one : WildcardKind
  any_count : WildcardKind

-- The underscores at the front of a reversed name.
unfoldable pub count_underscores : List ℕ → ℕ
count_underscores [] = 0
count_underscores (c ∷ cs) = let rest = count_underscores cs in if c == 95 then suc rest else 0

unfoldable pub kind_of_count : ℕ → Option WildcardKind
kind_of_count zero = none
kind_of_count (suc zero) = some single
kind_of_count (suc (suc zero)) = some at_least_one
kind_of_count (suc (suc (suc n))) = some any_count

unfoldable pub wildcard_kind : List ℕ → Option WildcardKind
unfolding kind_of_count count_underscores
wildcard_kind name = kind_of_count (count_underscores (reverse name))

unfoldable pub is_wildcard : List ℕ → Bool
unfolding wildcard_kind
is_wildcard name = elim (wildcard_kind name) [ none ↦ false | some k ↦ true ]

-- What a wildcard is bound to: `std::variant<AtomView, std::vector<AtomView>>`.
pub data BoundValue (N : Type 0) : Type 0 where
  atom : Atom N → BoundValue N
  sequence : Atoms N → BoundValue N

unfoldable pub find_binding : {N : Type 0} → ℕ → List (ℕ × BoundValue N) → Option (BoundValue N)
find_binding symbol [] = none
find_binding symbol ((s, b) ∷ rest) = if s == symbol then some b else find_binding symbol rest

module _ {N : Type 0} (numbers : Numbers N) (scalars : Ring N) (symbol_name : ℕ → List ℕ)
    (bindings : List (ℕ × BoundValue N)) where
  unfoldable pub substitute_binding : ℕ → Option (BoundValue N) → Result (Atom N)
  unfolding is_wildcard
  substitute_binding symbol none =
      if is_wildcard (symbol_name symbol) then err invalid_argument else ok (node (var symbol) nil)
  substitute_binding symbol (some (atom t)) = ok t
  substitute_binding symbol (some (sequence ts)) = err invalid_argument

  -- The elements of a child that is a variable bound to a sequence.
  unfoldable pub elements : Option (BoundValue N) → Option (Atoms N)
  elements (some (sequence ts)) = some ts
  elements b = none

  unfoldable pub sequence_of : Atom N → Option (Atoms N)
  unfolding elements find_binding
  sequence_of (node (var s) ts) = elements (find_binding s bindings)
  sequence_of (node k ts) = none

  -- Sums and products of the substituted children: the empty one is a number, one child is itself.
  unfoldable pub rebuild : Kind N → N → Atoms N → Atom N
  rebuild k unit nil = node (num unit) nil
  rebuild k unit (cons t nil) = t
  rebuild k unit (cons t (cons u ts)) = canonical numbers k (cons t (cons u ts))

  -- The cases, with the children each substituted, and with sequences spliced into them.
  unfoldable pub substitute_kind : Kind N → Result (Atoms N) → Result (Atoms N) → Result (Atom N)
  unfolding substitute_binding find_binding rebuild
  substitute_kind (num c) each spliced = ok (node (num c) nil)
  substitute_kind (var s) each spliced = substitute_binding s (find_binding s bindings)
  substitute_kind pow (err e) spliced = err e
  substitute_kind pow (ok (cons base (cons exponent ts))) spliced =
      ok (node pow (cons base (cons exponent nil)))
  substitute_kind pow (ok ts) spliced = err out_of_range
  substitute_kind k each (err e) = err e
  substitute_kind (fun head) each (ok ts) = ok (node (fun head) ts)
  substitute_kind add each (ok ts) = ok (rebuild add scalars.zero ts)
  substitute_kind mul each (ok ts) = ok (rebuild mul scalars.one ts)

  abbrev pub prepend : Result (Atom N) → Result (Atoms N) → Result (Atoms N)
  prepend (err e) ts = err e
  prepend (ok t) (err e) = err e
  prepend (ok t) (ok ts) = ok (cons t ts)

  abbrev pub splice : Option (Atoms N) → Result (Atom N) → Result (Atoms N) → Result (Atoms N)
  splice none t ts = prepend t ts
  splice (some us) t (err e) = err e
  splice (some us) t (ok ts) = ok (append_atoms us ts)

  unfoldable mutual
    unfolding substitute_kind sequence_of

    pub substitute_impl : Atom N → Result (Atom N)
    substitute_impl (node k ts) = substitute_kind k (substitute_each ts) (substitute_children ts)

    pub substitute_each : Atoms N → Result (Atoms N)
    substitute_each nil = ok nil
    substitute_each (cons t ts) = prepend (substitute_impl t) (substitute_each ts)

    pub substitute_children : Atoms N → Result (Atoms N)
    substitute_children nil = ok nil
    substitute_children (cons t ts) =
        splice (sequence_of t) (substitute_impl t) (substitute_children ts)
