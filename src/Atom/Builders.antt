-- ===== src/Atom/Builders.antt =====
-- The views and builders of atom_core/atom.cc: reading a slot, comparing two, and the operations
-- that make sums, products, powers and calls. All slots are of one store.
pub mod Compare
pub mod Flatten
pub mod Views
pub mod Folds
pub mod Sharing
use Prim.Native.Nat.{Ordering}
use stocas.Common.{
  ℕ, zero, suc, Bool, true, false, List, [], ◌∷◌, ◌++◌, length, get_elem?, Option, none, some, ltb,
  ◌==◌, if◌then◌else◌,
}
use stocas.Monomial.{then_by}
use stocas.Polynomial.{Result, ok, err, logic_error, out_of_range}
use stocas.Atom.{
  Numbers, AtomTag, Kind, num, var, add, mul, pow, fun, tag, position, compare_kinds, compare_atoms,
  Atom, node, Atoms, nil, cons,
}
use stocas.Atom.Store.{Node, Store, children, build_leaf, build_node}

-- The loop over two nodes' children: the first difference decides, and then the number.
unfoldable pub compare_lists : (ℕ → ℕ → Ordering) → List ℕ → List ℕ → Ordering
compare_lists compare_slots [] [] = Ordering.eq
compare_lists compare_slots [] (d ∷ ds) = Ordering.lt
compare_lists compare_slots (c ∷ cs) [] = Ordering.gt
compare_lists compare_slots (c ∷ cs) (d ∷ ds) =
    then_by (compare_slots c d) (compare_lists compare_slots cs ds)

unfoldable pub is_less : Ordering → Bool
is_less Ordering.lt = true
is_less Ordering.eq = false
is_less Ordering.gt = false

abbrev pub append_atoms : {N : Type 0} → Atoms N → Atoms N → Atoms N
append_atoms nil us = us
append_atoms (cons t ts) us = cons t (append_atoms ts us)

module _ {N : Type 0} where
  -- A slot without a node does not arise; the accessors read it as a failure.
  unfoldable pub as_num : Store N → ℕ → Result N
  as_num store i = elim (get_elem? store.nodes i) [
    | none ↦ err out_of_range
    | some n ↦ elim n.kind [ num x ↦ ok x | _ ↦ err logic_error ]
  ]

  unfoldable pub as_var : Store N → ℕ → Result ℕ
  as_var store i = elim (get_elem? store.nodes i) [
    | none ↦ err out_of_range
    | some n ↦ elim n.kind [ var s ↦ ok s | _ ↦ err logic_error ]
  ]

  unfoldable pub function_head : Store N → ℕ → Result ℕ
  function_head store i = elim (get_elem? store.nodes i) [
    | none ↦ err out_of_range
    | some n ↦ elim n.kind [ fun s ↦ ok s | _ ↦ err logic_error ]
  ]

  unfoldable pub child_count : Store N → ℕ → ℕ
  child_count store i = elim (get_elem? store.nodes i) [ none ↦ 0 | some n ↦ n.child_count ]

  unfoldable pub child : Store N → ℕ → ℕ → Result ℕ
  child store i index = elim (get_elem? store.nodes i) [
    | none ↦ err out_of_range
    | some n ↦ elim (get_elem? (children store.child_pool n) index) [
      | none ↦ err out_of_range
      | some c ↦ ok c
    ]
  ]

  -- The slots of `flatten_operands`: a node with the tag gives its children.
  unfoldable pub flatten_operands : Store N → AtomTag → List ℕ → List ℕ
  flatten_operands store flatten_tag [] = []
  flatten_operands store flatten_tag (i ∷ is) =
      let rest = flatten_operands store flatten_tag is in
      elim (get_elem? store.nodes i) [
        | none ↦ i ∷ rest
        | some n ↦
            if position (tag n.kind) == position flatten_tag
            then children store.child_pool n ++ rest
            else i ∷ rest
      ]

module _ {N : Type 0} (numbers : Numbers N) where
  -- `operator<=>` in the arena. A node's children stand before it, so that the recursion ends
  -- within as many calls as there are nodes; a number or a variable has no children.
  unfoldable pub compare_views : ℕ → Store N → ℕ → ℕ → Ordering
  unfolding compare_lists
  compare_views zero store i j = Ordering.eq
  compare_views (suc depth) store i j = elim (get_elem? store.nodes i) [
    | none ↦ Ordering.eq
    | some a ↦ elim (get_elem? store.nodes j) [
      | none ↦ Ordering.eq
      | some b ↦ then_by (compare_kinds numbers a.kind b.kind) (
          compare_lists (compare_views depth store) (children store.child_pool a)
            (children store.child_pool b))
    ]
  ]

  unfoldable pub less_views : Store N → ℕ → ℕ → Bool
  unfolding compare_views is_less
  less_views store i j = is_less (compare_views (length store.nodes) store i j)

  -- `std::sort` with that comparison, as an insertion sort.
  unfoldable pub insert_view : Store N → ℕ → List ℕ → List ℕ
  unfolding less_views
  insert_view store i [] = i ∷ []
  insert_view store i (j ∷ js) =
      if less_views store j i then j ∷ insert_view store i js else i ∷ j ∷ js

  unfoldable pub sort_views : Store N → List ℕ → List ℕ
  unfolding insert_view
  sort_views store [] = []
  sort_views store (i ∷ is) = insert_view store i (sort_views store is)

  unfoldable pub build_variadic : Store N → Kind N → List ℕ → Store N × ℕ
  unfolding flatten_operands sort_views build_node
  build_variadic store k operands =
      build_node numbers store k (sort_views store (flatten_operands store (tag k) operands))

  unfoldable pub store_num : Store N → N → Store N × ℕ
  unfolding build_leaf
  store_num store value = build_leaf numbers store (num value)

  unfoldable pub store_var : Store N → ℕ → Store N × ℕ
  unfolding build_leaf
  store_var store symbol = build_leaf numbers store (var symbol)

  unfoldable pub store_add : Store N → List ℕ → Store N × ℕ
  unfolding build_variadic
  store_add store terms = build_variadic store add terms

  unfoldable pub store_mul : Store N → List ℕ → Store N × ℕ
  unfolding build_variadic
  store_mul store factors = build_variadic store mul factors

  unfoldable pub store_pow : Store N → ℕ → ℕ → Store N × ℕ
  unfolding build_node
  store_pow store base exponent = build_node numbers store pow (base ∷ exponent ∷ [])

  unfoldable pub store_fun : Store N → ℕ → List ℕ → Store N × ℕ
  unfolding build_node
  store_fun store head args = build_node numbers store (fun head) args

  -- The same canonical order on expressions, without an arena.
  unfoldable pub insert_atom : Atom N → Atoms N → Atoms N
  unfolding compare_atoms is_less
  insert_atom t nil = cons t nil
  insert_atom t (cons u us) =
      if is_less (compare_atoms numbers u t) then cons u (insert_atom t us) else cons t (cons u us)

  unfoldable pub sort_atoms : Atoms N → Atoms N
  unfolding insert_atom
  sort_atoms nil = nil
  sort_atoms (cons t ts) = insert_atom t (sort_atoms ts)

unfoldable pub flatten_atoms : {N : Type 0} → AtomTag → Atoms N → Atoms N
flatten_atoms flatten_tag nil = nil
flatten_atoms flatten_tag (cons (node k us) ts) =
    let rest = flatten_atoms flatten_tag ts in
    if position (tag k) == position flatten_tag then append_atoms us rest else cons (node k us) rest

-- A sum or a product in canonical form.
unfoldable pub canonical : {N : Type 0} → Numbers N → Kind N → Atoms N → Atom N
unfolding sort_atoms flatten_atoms
canonical numbers k ts = node k (sort_atoms numbers (flatten_atoms (tag k) ts))

-- `size() == 1 ? front() : store.add(…)`, or store.mul: one operand stands for itself.
unfoldable pub single_or : {N : Type 0} → Numbers N → Kind N → Atoms N → Atom N
unfolding canonical
single_or numbers k (cons t nil) = t
single_or numbers k ts = canonical numbers k ts
