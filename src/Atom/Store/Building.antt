-- ===== src/Atom/Store/Building.antt =====
-- The builders of atom_core/atom.cc put nodes into the arena.
use native.Mathlib.Nat.{mod-eq_of_lt}
use stocas.Common.{
  ℕ, ◌+◌, ◌%◌, ◌≤◌, ◌<◌, ◌≡◌, ap, ◌∙◌, List, [], ◌++◌, length, get_elem?, some, arith,
  length-append,
}
use stocas.Atom.{Numbers, Kind}
use stocas.Atom.Store.{Node, Store, index_mod, children, build_leaf, build_node}
use stocas.Atom.Store.Rows.{Row, rows, rows_of-pool, InPool-pool, stretch_at_end}
use stocas.Atom.Store.Interning.{AllLt, IsValid, Extends, intern-IsValid}

module _ {N : Type 0} (numbers : Numbers N) (store : Store N) (valid : IsValid numbers store) where
  -- An operation leaves a valid store that has the row at the index it returns, and the rows of
  -- the store before it.
  abbrev pub Builds : Row N → Store N × ℕ → Type 0
  Builds r (new, i) =
      IsValid numbers new
      × (get_elem? (rows new) i ≡ some r)
      × Extends numbers (rows store) (rows new)

  pub build_leaf-IsValid :
      (k : Kind N) → length store.nodes < index_mod → Builds (k, []) (build_leaf numbers store k)
  unfolding build_leaf
  build_leaf-IsValid k room =
      intern-IsValid numbers store (record { kind = k; child_start = 0; child_count = 0 }) valid
        room (omega arith) tt

  module _ (operands : List ℕ) where
    pooled : Store N
    pooled = record store { child_pool = store.child_pool ++ operands }

    pooled-rows : rows pooled ≡ rows store
    unfolding pooled
    pooled-rows = rows_of-pool store.child_pool operands store.nodes valid.in_pool

    pooled-IsValid : IsValid numbers pooled
    unfolding pooled
    pooled-IsValid = record {
      in_pool = InPool-pool store.child_pool operands store.nodes valid.in_pool;
      before = rw pooled-rows valid.before;
      distinct = λ i j r h g. valid.distinct i j r (rw pooled-rows at h) (rw pooled-rows at g);
      indexed = λ i r h. valid.indexed i r (rw pooled-rows at h);
    }

    pub build_node-IsValid :
        (k : Kind N)
        → length store.nodes < index_mod
        → length store.child_pool + length operands < index_mod
        → AllLt (length store.nodes) operands
        → Builds (k, operands) (build_node numbers store k operands)
    unfolding build_node pooled
    build_node-IsValid k room pool_room lower =
        let start : length store.child_pool % index_mod ≡ length store.child_pool =
          mod-eq_of_lt (omega arith) in
        let count : length operands % index_mod ≡ length operands = mod-eq_of_lt (omega arith) in
        let candidate : Node N = record {
          kind = k;
          child_start = length store.child_pool % index_mod;
          child_count = length operands % index_mod;
        } in
        let stretch : children (store.child_pool ++ operands) candidate ≡ operands =
          rw (start, count) (stretch_at_end store.child_pool operands) in
        let within : candidate.child_start + candidate.child_count
            ≤ length (store.child_pool ++ operands) =
          rw (start, count) (omega (arith, length-append {0} store.child_pool operands)) in
        let (valid', found, extends) =
          intern-IsValid numbers pooled candidate pooled-IsValid room within (rw stretch lower) in
        (valid', found ∙ ap (λ cs. some (k, cs)) stretch, λ i r h. extends i r (rw pooled-rows h))
