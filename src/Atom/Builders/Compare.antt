-- ===== src/Atom/Builders/Compare.antt =====
-- The order and the sorting of slots in atom_core/atom.cc are those of the expressions they stand
-- for.
use Prim.Native.Nat.{Ordering}
use stocas.Common.{
  ℕ, zero, suc, ◌<◌, ◌≡◌, refl, ap, ap₂, ◌∙◌, List, [], ◌∷◌, length, get_elem?, some, arith, inl,
  inr, Bool-cases, Option-cases, lt-length_of_get_elem?,
}
use stocas.Monomial.{then_by}
use stocas.Atom.{
  Numbers, Kind, Atom, node, Atoms, nil, cons, compare_kinds, compare_atoms, compare_children,
}
use stocas.Atom.Store.{Node, Store, children}
use stocas.Atom.Store.Rows.{row, rows, get_elem?-rows_of, length-rows_of}
use stocas.Atom.Store.Interning.{AllLt, IsValid}
use stocas.Atom.Store.Denotation.{Denotes, DenoteAll, children_before}
use stocas.Atom.Builders.{
  compare_lists, compare_views, is_less, less_views, insert_view, sort_views, insert_atom,
  sort_atoms,
}

-- The node behind a row.
pub node_of_row :
    {N : Type 0} (store : Store N) (i : ℕ) (k : Kind N) (cs : List ℕ)
    → get_elem? (rows store) i ≡ some (k, cs)
    → (n : Node N) × (get_elem? store.nodes i ≡ some n)
      × (n.kind ≡ k)
      × (children store.child_pool n ≡ cs)
node_of_row store i k cs h = elim (Option-cases (get_elem? store.nodes i)) [
  | inl absent ↦ cc (rw (get_elem?-rows_of, absent) at h)
  | inr (n, found) ↦
      let e : row store.child_pool n ≡ (k, cs) = cc (rw (get_elem?-rows_of, found) at h) in
      (n, found, ap (λ r. r.0) e, ap (λ r. r.1) e)
]

module _ {N : Type 0} (numbers : Numbers N) (store : Store N) where
  compare_views-node :
      (depth i j : ℕ) (k l : Kind N) (cs ds : List ℕ)
      → get_elem? (rows store) i ≡ some (k, cs)
      → get_elem? (rows store) j ≡ some (l, ds)
      → compare_views numbers (suc depth) store i j
        ≡ then_by
            (compare_kinds numbers k l)
            (compare_lists (compare_views numbers depth store) cs ds)
  unfolding compare_views
  compare_views-node depth i j k l cs ds h g =
      let (m, found, kind, stretch) = node_of_row store i k cs h in
      let (n, found', kind', stretch') = node_of_row store j l ds g in
      rw (← kind, ← kind', ← stretch, ← stretch') (step m n found found')
    where
      step :
          (m n : Node N)
          → get_elem? store.nodes i ≡ some m
          → get_elem? store.nodes j ≡ some n
          → compare_views numbers (suc depth) store i j
            ≡ then_by (compare_kinds numbers m.kind n.kind) (
                compare_lists
                  (compare_views numbers depth store)
                  (children store.child_pool m)
                  (children store.child_pool n))
      step m n p q = rw (p, compare_views, q)

  compare_lists-children :
      (bound : ℕ) (compare_slots : ℕ → ℕ → Ordering)
      (each : (c d : ℕ) (t u : Atom N)
        → c < bound
        → Denotes (rows store) c t
        → Denotes (rows store) d u
        → compare_slots c d ≡ compare_atoms numbers t u)
      (cs ds : List ℕ) (ts us : Atoms N)
      → AllLt bound cs
      → DenoteAll (rows store) cs ts
      → DenoteAll (rows store) ds us
      → compare_lists compare_slots cs ds ≡ compare_children numbers ts us
  unfolding compare_lists compare_children
  compare_lists-children bound f each [] [] nil nil lt h g = refl
  compare_lists-children bound f each [] [] nil (cons u us) lt h g = absurd g
  compare_lists-children bound f each [] ds (cons t ts) us lt h g = absurd h
  compare_lists-children bound f each [] (d ∷ ds) nil nil lt h g = absurd g
  compare_lists-children bound f each [] (d ∷ ds) nil (cons u us) lt h g = refl
  compare_lists-children bound f each (c ∷ cs) ds nil us lt h g = absurd h
  compare_lists-children bound f each (c ∷ cs) [] (cons t ts) nil lt h g = refl
  compare_lists-children bound f each (c ∷ cs) [] (cons t ts) (cons u us) lt h g = absurd g
  compare_lists-children bound f each (c ∷ cs) (d ∷ ds) (cons t ts) nil lt h g = absurd g
  compare_lists-children bound f each (c ∷ cs) (d ∷ ds) (cons t ts) (cons u us) (lt, lts) (h, hs)
        (g, gs) =
      ap₂ then_by (each c d t u lt h g) (compare_lists-children bound f each cs ds ts us lts hs gs)

  module _ (valid : IsValid numbers store) where
    -- In a valid store, comparing two slots through the arena, with a depth above the index of
    -- the first, gives the order of the expressions that they stand for.
    pub compare_views-eq-compare_atoms :
        (depth i j : ℕ) (a b : Atom N)
        → i < depth
        → Denotes (rows store) i a
        → Denotes (rows store) j b
        → compare_views numbers depth store i j ≡ compare_atoms numbers a b
    unfolding compare_atoms
    compare_views-eq-compare_atoms zero i j a b lt h g = absurd (omega arith)
    compare_views-eq-compare_atoms (suc depth) i j (node k ts) (node l us) lt (cs, h, hs)
          (ds, g, gs) =
        compare_views-node depth i j k l cs ds h g
        ∙ ap (then_by (compare_kinds numbers k l)) (
            compare_lists-children i (compare_views numbers depth store)
              (λ c d t u below hc hd.
                compare_views-eq-compare_atoms depth c d t u (omega arith) hc hd)
              cs ds ts us (children_before (rows store) i k cs valid.before h) hs gs)

    less_views-eq :
        (i j : ℕ) (a b : Atom N)
        → Denotes (rows store) i a
        → Denotes (rows store) j b
        → less_views numbers store i j ≡ is_less (compare_atoms numbers a b)
    unfolding less_views
    less_views-eq i j (node k ts) b (cs, h, hs) hb = ap is_less (
        compare_views-eq-compare_atoms (length store.nodes) i j (node k ts) b
          (omega (
            arith,
            lt-length_of_get_elem? {0} (rows store) i h,
            length-rows_of store.child_pool store.nodes,
          ))
          (cs, h, hs) hb)

    DenoteAll-insert :
        (i : ℕ) (js : List ℕ) (a : Atom N) (us : Atoms N)
        → Denotes (rows store) i a
        → DenoteAll (rows store) js us
        → DenoteAll (rows store) (insert_view numbers store i js) (insert_atom numbers a us)
    unfolding insert_view insert_atom
    DenoteAll-insert i [] a nil h hs = (h, tt)
    DenoteAll-insert i [] a (cons u us) h hs = absurd hs
    DenoteAll-insert i (j ∷ js) a nil h hs = absurd hs
    DenoteAll-insert i (j ∷ js) a (cons u us) h (g, gs) =
        let same = less_views-eq j i u a g h in
        elim (Bool-cases (is_less (compare_atoms numbers u a))) [
          | inl below ↦ rw (same, below) (g, DenoteAll-insert i js a us h gs)
          | inr above ↦ rw (same, above) (h, (g, gs))
        ]

    pub DenoteAll-sort :
        (is : List ℕ) (ts : Atoms N)
        → DenoteAll (rows store) is ts
        → DenoteAll (rows store) (sort_views numbers store is) (sort_atoms numbers ts)
    unfolding sort_views sort_atoms
    DenoteAll-sort [] nil h = tt
    DenoteAll-sort [] (cons t ts) h = absurd h
    DenoteAll-sort (i ∷ is) nil h = absurd h
    DenoteAll-sort (i ∷ is) (cons t ts) (h, hs) =
        DenoteAll-insert i (sort_views numbers store is) t (sort_atoms numbers ts) h
          (DenoteAll-sort is ts hs)
