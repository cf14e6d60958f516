-- ===== src/Normalize.antt =====
-- atom_core/normalize.cc on expressions. A std::map from expressions is the list of its entries in
-- order. A power has a base and an exponent, as store.pow makes it.
pub mod Combine
pub mod Sums
pub mod Products
pub mod Value
mod Examples
use Prim.Native.Nat.{Ordering}
use stocas.Common.{Bool, true, false, List, [], ◌∷◌, Option, none, some, if◌then◌else◌}
use stocas.Algebra.{Ring}
use stocas.Atom.{
  Numbers, Kind, num, var, add, mul, pow, fun, Atom, node, Atoms, nil, cons, compare_atoms,
}
use stocas.Atom.Builders.{canonical, append_atoms, single_or}

-- The coefficients of terms, or the exponents of bases.
abbrev pub AtomMap : Type 0 → Type 0
AtomMap N = List (Atom N × N)

module _ {N : Type 0} (numbers : Numbers N) (scalars : Ring N) where
  open numbers use {equal_numbers}
  open scalars use {zero as nought, one}

  abbrev pub number : N → Atom N
  number c = node (num c) nil

  -- `try_emplace(term, 0)`, and the amount added to the entry.
  unfoldable pub add_to : Atom N → N → AtomMap N → AtomMap N
  unfolding compare_atoms
  add_to t c [] = (t, scalars.add nought c) ∷ []
  add_to t c ((u, d) ∷ rest) = elim (compare_atoms numbers t u) [
    | Ordering.lt ↦ (t, scalars.add nought c) ∷ (u, d) ∷ rest
    | Ordering.eq ↦ (u, scalars.add d c) ∷ rest
    | Ordering.gt ↦ (u, d) ∷ add_to t c rest
  ]

  unfoldable pub split_coefficient : Atom N → N × Atom N
  split_coefficient (node mul (cons (node (num c) ts) (cons rest nil))) = (c, rest)
  split_coefficient t = (one, t)

  unfoldable pub split_power : Atom N → Atom N × N
  split_power (node pow (cons base (cons (node (num e) ts) nil))) = (base, e)
  split_power t = (t, one)

  -- The first loop of normalize_add.
  unfoldable pub collect_terms : Atoms N → N → AtomMap N → N × AtomMap N
  unfolding split_coefficient add_to
  collect_terms nil constant terms = (constant, terms)
  collect_terms (cons (node (num c) us) ts) constant terms =
      collect_terms ts (scalars.add constant c) terms
  collect_terms (cons t ts) constant terms =
      let (coefficient, term) = split_coefficient t in
      collect_terms ts constant (add_to term coefficient terms)

  -- The second loop.
  unfoldable pub term_children : AtomMap N → Atoms N
  term_children [] = nil
  term_children ((term, coefficient) ∷ rest) =
      let later = term_children rest in
      if equal_numbers coefficient nought
      then later
      else if equal_numbers coefficient one
      then cons term later
      else cons (canonical numbers mul (cons (number coefficient) (cons term nil))) later

  -- `push_back` of the constant, unless it is the unit and not alone.
  unfoldable pub with_constant : N → N → Atoms N → Atoms N
  with_constant unit constant nil = cons (number constant) nil
  with_constant unit constant (cons t ts) =
      if equal_numbers constant unit
      then cons t ts
      else append_atoms (cons t ts) (cons (number constant) nil)

  unfoldable pub normalize_add : Atoms N → Atom N
  unfolding collect_terms term_children with_constant single_or
  normalize_add ts =
      let (constant, terms) = collect_terms ts nought [] in
      single_or numbers add (with_constant nought constant (term_children terms))

  -- The first loop of normalize_mul; a factor zero ends it.
  unfoldable pub collect_bases : Atoms N → N → AtomMap N → Option (N × AtomMap N)
  unfolding split_power add_to
  collect_bases nil constant bases = some (constant, bases)
  collect_bases (cons (node (num c) us) ts) constant bases =
      let rest = collect_bases ts (scalars.mul constant c) bases in
      if equal_numbers c nought then none else rest
  collect_bases (cons t ts) constant bases =
      let (base, exponent) = split_power t in collect_bases ts constant (add_to base exponent bases)

  unfoldable pub base_factors : AtomMap N → Atoms N
  base_factors [] = nil
  base_factors ((base, exponent) ∷ rest) =
      let later = base_factors rest in
      if equal_numbers exponent nought
      then later
      else if equal_numbers exponent one
      then cons base later
      else cons (node pow (cons base (cons (number exponent) nil))) later

  unfoldable pub product_of : Option (N × AtomMap N) → Atom N
  unfolding base_factors with_constant single_or
  product_of none = number nought
  product_of (some (constant, bases)) =
      single_or numbers mul (with_constant one constant (base_factors bases))

  unfoldable pub normalize_mul : Atoms N → Atom N
  unfolding collect_bases product_of
  normalize_mul ts = product_of (collect_bases ts one [])

  unfoldable pub normalize_pow : Atoms N → Atom N
  normalize_pow (cons base (cons (node (num e) us) nil)) =
      if equal_numbers e nought
      then number one
      else if equal_numbers e one
      then base
      else node pow (cons base (cons (node (num e) us) nil))
  normalize_pow ts = node pow ts

  -- The cases, with the children normalized.
  unfoldable pub normalize_kind : Kind N → Atoms N → Atom N
  unfolding normalize_add normalize_mul normalize_pow
  normalize_kind (num c) ts = number c
  normalize_kind (var s) ts = node (var s) nil
  normalize_kind add ts = normalize_add ts
  normalize_kind mul ts = normalize_mul ts
  normalize_kind pow ts = normalize_pow ts
  normalize_kind (fun head) ts = node (fun head) ts

  unfoldable mutual
    unfolding normalize_kind

    pub normalize : Atom N → Atom N
    normalize (node k ts) = normalize_kind k (normalize_all ts)

    pub normalize_all : Atoms N → Atoms N
    normalize_all nil = nil
    normalize_all (cons t ts) = cons (normalize t) (normalize_all ts)
