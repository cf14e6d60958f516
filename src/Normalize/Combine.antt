-- ===== src/Normalize/Combine.antt =====
-- atom_core/normalize.cc: adding to an entry of the map adds to the combined value of the entries.
use Prim.Native.Nat.{Ordering}
use stocas.Common.{◌≡◌, ◌⊎◌, refl, sym, ap, ◌∙◌, [], ◌∷◌, inl, inr}
use stocas.Algebra.{Ring}
use stocas.Atom.{Numbers, Atom, compare_atoms}
use stocas.Atom.Order.{compare_atoms_total}
use stocas.Normalize.{AtomMap, add_to}

Ordering-cases : (o : Ordering) → (o ≡ Ordering.lt) ⊎ ((o ≡ Ordering.eq) ⊎ (o ≡ Ordering.gt))
Ordering-cases Ordering.lt = inl refl
Ordering-cases Ordering.eq = inr (inl refl)
Ordering-cases Ordering.gt = inr (inr refl)

-- Entries combined by an operation such as the ring's sum or product.
module _ {N V : Type 0} (numbers : Numbers N) (scalars : Ring N) (op : V → V → V) (unit : V)
    (comm : (a b : V) → op a b ≡ op b a) (assoc : (a b c : V) → op (op a b) c ≡ op a (op b c))
    (entry : Atom N → N → V) where
  left_comm : (a b c : V) → op a (op b c) ≡ op b (op a c)
  left_comm a b c = sym (assoc a b c) ∙ ap (λ t. op t c) (comm a b) ∙ assoc b a c

  -- One round of a loop, with `c` the constant and `m` the value of the map.
  pub shuffle : (c k m rest : V) → op (op (op c k) m) rest ≡ op (op c m) (op k rest)
  shuffle c k m rest =
      ap (λ t. op t rest) (assoc c k m ∙ ap (op c) (comm k m) ∙ sym (assoc c m k))
      ∙ assoc (op c m) k rest

  abbrev pub combined : AtomMap N → V
  combined [] = unit
  combined ((t, c) ∷ rest) = op (entry t c) (combined rest)

  pub combined-add_to :
      (t : Atom N) (c : N) (m : AtomMap N)
      → ((d : N) → entry t (scalars.add d c) ≡ op (entry t d) (entry t c))
      → combined (add_to numbers scalars t c m) ≡ op (entry t c) (combined m)
  unfolding add_to
  combined-add_to t c [] adds = ap (λ d. op (entry t d) unit) (scalars.zero-add c)
  combined-add_to t c ((u, d) ∷ rest) adds = elim (Ordering-cases (compare_atoms numbers t u)) [
    | inl below ↦
        rw (below, combined)
          (ap (λ e. op (entry t e) (op (entry u d) (combined rest))) (scalars.zero-add c))
    | inr (inl same) ↦
        let e : t ≡ u = (compare_atoms_total numbers t u u).0.0 same in
        rw (same, combined)
          (ap (λ x. op (entry x (scalars.add d c)) (combined rest)) (sym e)
            ∙ ap (λ v. op v (combined rest)) (adds d)
            ∙ ap (λ x. op (op (entry x d) (entry t c)) (combined rest)) e
            ∙ ap (λ v. op v (combined rest)) (comm (entry u d) (entry t c))
            ∙ assoc (entry t c) (entry u d) (combined rest))
    | inr (inr above) ↦
        rw (above, combined)
          (ap (op (entry u d)) (combined-add_to t c rest adds)
            ∙ left_comm (entry u d) (entry t c) (combined rest))
  ]
