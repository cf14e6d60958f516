-- ===== src/Atom/Builders/Flatten.antt =====
-- Sums, products, powers and calls of atom_core/atom.cc stand for their canonical expressions.
use stocas.Common.{
  ℕ, ◌+◌, ◌<◌, ◌≡◌, List, [], ◌∷◌, ◌++◌, length, get_elem?, some, ◌==◌, if◌then◌else◌, inl, inr,
  Bool-cases,
}
use stocas.Atom.{
  Numbers, AtomTag, Kind, num, var, add, mul, pow, fun, tag, position, Atom, node, Atoms, nil, cons,
}
use stocas.Atom.Store.{Node, Store, children, index_mod}
use stocas.Atom.Store.Rows.{rows}
use stocas.Atom.Store.Interning.{IsValid}
use stocas.Atom.Store.Denotation.{
  Denotes, DenoteAll, BuildsAtom, build_leaf-BuildsAtom, build_node-BuildsAtom,
}
use stocas.Atom.Builders.{
  append_atoms, flatten_operands, flatten_atoms, sort_views, sort_atoms, canonical, build_variadic,
  store_num, store_var, store_add, store_mul, store_pow, store_fun,
}
use stocas.Atom.Builders.Compare.{node_of_row, DenoteAll-sort}

module _ {N : Type 0} (store : Store N) where
  DenoteAll-append :
      (is js : List ℕ) (ts us : Atoms N)
      → DenoteAll (rows store) is ts
      → DenoteAll (rows store) js us
      → DenoteAll (rows store) (is ++ js) (append_atoms ts us)
  DenoteAll-append [] js nil us h g = g
  DenoteAll-append [] js (cons t ts) us h g = absurd h
  DenoteAll-append (i ∷ is) js nil us h g = absurd h
  DenoteAll-append (i ∷ is) js (cons t ts) us (h, hs) g = (h, DenoteAll-append is js ts us hs g)

  flatten_operands-cons :
      (flatten_tag : AtomTag) (i : ℕ) (is : List ℕ) (k : Kind N) (cs : List ℕ)
      → get_elem? (rows store) i ≡ some (k, cs)
      → flatten_operands store flatten_tag (i ∷ is) ≡ (
          if position (tag k) == position flatten_tag
          then cs ++ flatten_operands store flatten_tag is
          else i ∷ flatten_operands store flatten_tag is)
  unfolding flatten_operands
  flatten_operands-cons flatten_tag i is k cs h =
      let (n, found, kind, stretch) = node_of_row store i k cs h in
      rw (← kind, ← stretch) (step n found)
    where
      step :
          (n : Node N)
          → get_elem? store.nodes i ≡ some n
          → flatten_operands store flatten_tag (i ∷ is) ≡ (
              if position (tag n.kind) == position flatten_tag
              then children store.child_pool n ++ flatten_operands store flatten_tag is
              else i ∷ flatten_operands store flatten_tag is)
      step n p = rw (p, flatten_operands)

  DenoteAll-flatten :
      (flatten_tag : AtomTag) (is : List ℕ) (ts : Atoms N)
      → DenoteAll (rows store) is ts
      → DenoteAll
          (rows store)
          (flatten_operands store flatten_tag is)
          (flatten_atoms flatten_tag ts)
  unfolding flatten_atoms
  DenoteAll-flatten flatten_tag [] nil h = unfold flatten_operands in tt
  DenoteAll-flatten flatten_tag [] (cons t ts) h = absurd h
  DenoteAll-flatten flatten_tag (i ∷ is) nil h = absurd h
  DenoteAll-flatten flatten_tag (i ∷ is) (cons (node k us) ts) ((cs, h, hs), gs) =
      let rest = DenoteAll-flatten flatten_tag is ts gs in
      let e = flatten_operands-cons flatten_tag i is k cs h in
      elim (Bool-cases (position (tag k) == position flatten_tag)) [
        | inl nested ↦
            rw (e, nested)
              (DenoteAll-append cs (flatten_operands store flatten_tag is) us
                (flatten_atoms flatten_tag ts) hs rest)
        | inr other ↦ rw (e, other) ((cs, h, hs), rest)
      ]

module _ {N : Type 0} (numbers : Numbers N) (store : Store N) (valid : IsValid numbers store)
    (room : length store.nodes < index_mod) where
  build_variadic-BuildsAtom :
      (k : Kind N) (operands : List ℕ) (ts : Atoms N)
      → length store.child_pool
          + length (sort_views numbers store (flatten_operands store (tag k) operands))
        < index_mod
      → DenoteAll (rows store) operands ts
      → BuildsAtom numbers store valid
          (canonical numbers k ts)
          (build_variadic numbers store k operands)
  unfolding build_variadic canonical
  build_variadic-BuildsAtom k operands ts pool_room h =
      build_node-BuildsAtom numbers store valid k
        (sort_views numbers store (flatten_operands store (tag k) operands))
        (sort_atoms numbers (flatten_atoms (tag k) ts)) room pool_room
        (DenoteAll-sort numbers store valid (flatten_operands store (tag k) operands)
          (flatten_atoms (tag k) ts) (DenoteAll-flatten store (tag k) operands ts h))

  -- The pool has room for the children of each operation.
  abbrev pub HasPoolRoom : List ℕ → Type 0
  HasPoolRoom operands =
      (length store.child_pool
          + length (sort_views numbers store (flatten_operands store AtomTag.add_tag operands))
        < index_mod)
      × (length store.child_pool
            + length (sort_views numbers store (flatten_operands store AtomTag.mul_tag operands))
          < index_mod)
      × (length store.child_pool + length operands < index_mod)

  -- In a valid store with room in the node vector and in the pool, for operands that stand for
  -- expressions: add and mul give a slot that stands for the node over these expressions
  -- flattened by one level and sorted, fun for the call of them, num and var for the leaf; each
  -- leaves a valid store in which every slot stands for what it stood for.
  pub builders-BuildsAtom :
      (operands : List ℕ) (ts : Atoms N) (head : ℕ) (value : N)
      → HasPoolRoom operands
      → DenoteAll (rows store) operands ts
      → BuildsAtom numbers store valid (canonical numbers add ts) (store_add numbers store operands)
        × BuildsAtom numbers store valid
            (canonical numbers mul ts)
            (store_mul numbers store operands)
        × BuildsAtom numbers store valid
            (node (fun head) ts)
            (store_fun numbers store head operands)
        × BuildsAtom numbers store valid (node (num value) nil) (store_num numbers store value)
        × BuildsAtom numbers store valid (node (var head) nil) (store_var numbers store head)
  unfolding store_add store_mul store_fun store_num store_var
  builders-BuildsAtom operands ts head value (add_room, mul_room, fun_room) h = (
    build_variadic-BuildsAtom add operands ts add_room h,
    build_variadic-BuildsAtom mul operands ts mul_room h,
    build_node-BuildsAtom numbers store valid (fun head) operands ts room fun_room h,
    build_leaf-BuildsAtom numbers store valid (num value) room,
    build_leaf-BuildsAtom numbers store valid (var head) room,
  )

  pub store_pow-BuildsAtom :
      (base exponent : ℕ) (a b : Atom N)
      → length store.child_pool + 2 < index_mod
      → Denotes (rows store) base a
      → Denotes (rows store) exponent b
      → BuildsAtom numbers store valid
          (node pow (cons a (cons b nil)))
          (store_pow numbers store base exponent)
  unfolding store_pow
  store_pow-BuildsAtom base exponent a b pool_room ha hb =
      build_node-BuildsAtom numbers store valid pow (base ∷ exponent ∷ []) (cons a (cons b nil))
        room pool_room (ha, (hb, tt))
