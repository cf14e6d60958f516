-- ===== src/Matcher/Equality.antt =====
-- operator== of atoms, as pattern_core uses it, is equality of expressions.
use Prim.Native.Nat.{Ordering}
use stocas.Common.{ℕ, ◌≡◌, refl, true, false, List}
use stocas.SymbolTable.Attributes.{SymbolAttribute}
use stocas.Atom.{Numbers, Atom, compare_atoms}
use stocas.Atom.Order.{compare_atoms_total}
use stocas.Matcher.Sequences.{equal_atoms}

module _ {N : Type 0} (numbers : Numbers N) (symbol_name : ℕ → List ℕ)
    (attributes : ℕ → List SymbolAttribute) where
  pub equal_atoms-true :
      (a b : Atom N) → equal_atoms numbers symbol_name attributes a b ≡ true → a ≡ b
  unfolding equal_atoms
  equal_atoms-true a b h =
      (compare_atoms_total numbers a b b).0.0 (decided (compare_atoms numbers a b) h)
    where
      decided :
          (o : Ordering) → (elim o [ Ordering.eq ↦ true | _ ↦ false ]) ≡ true → o ≡ Ordering.eq
      decided Ordering.lt e = cc
      decided Ordering.eq e = refl
      decided Ordering.gt e = cc

  pub equal_atoms_self : (a : Atom N) → equal_atoms numbers symbol_name attributes a a ≡ true
  unfolding equal_atoms
  equal_atoms_self a = rw ((compare_atoms_total numbers a a a).0.1 refl, equal_atoms)
