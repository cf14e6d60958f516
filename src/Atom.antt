-- ===== src/Atom.antt =====
-- atom_core/include/atom_core/atom.hh and atom_core/atom.cc: the kinds of expression nodes, the
-- expressions that they make up, and their order.
pub mod Order
pub mod Store
pub mod Builders
mod Examples
use Prim.Native.Nat.{Ordering, compare}
use stocas.Common.{ℕ, zero, suc, ◌≡◌, ◌↔◌, Bool, true, false, ◌==◌, ◌&&◌}
use stocas.Monomial.{then_by}
use stocas.Monomial.Order.{swap}

-- What atoms use of `Rational`: its comparison, equality and the hash of its text.
pub record Numbers (N : Type 0) : Type 0 where
  pub compare_numbers : N → N → Ordering
  pub equal_numbers : N → N → Bool
  pub hash_number : N → ℕ
  pub equal_iff : (a b : N) → (equal_numbers a b ≡ true) ↔ (a ≡ b)
  pub compare_iff : (a b : N) → (compare_numbers a b ≡ Ordering.eq) ↔ (a ≡ b)
  pub compare_swap : (a b : N) → compare_numbers b a ≡ swap (compare_numbers a b)
  pub compare_trans :
      (a b c : N)
      → compare_numbers a b ≡ Ordering.lt
      → compare_numbers b c ≡ Ordering.lt
      → compare_numbers a c ≡ Ordering.lt

pub data AtomTag : Type 0 where
  num_tag : AtomTag
  var_tag : AtomTag
  add_tag : AtomTag
  mul_tag : AtomTag
  pow_tag : AtomTag
  fun_tag : AtomTag

-- The underlying value of the enumeration.
abbrev pub position : AtomTag → ℕ
position num_tag = 0
position var_tag = 1
position add_tag = 2
position mul_tag = 3
position pow_tag = 4
position fun_tag = 5

-- A node's tag with the payload of that tag: `num_value`, or the id of `symbol_value`.
pub data Kind (N : Type 0) : Type 0 where
  num : N → Kind N
  var : ℕ → Kind N
  add : Kind N
  mul : Kind N
  pow : Kind N
  fun : ℕ → Kind N

abbrev pub tag : {N : Type 0} → Kind N → AtomTag
tag (num x) = num_tag
tag (var s) = var_tag
tag add = add_tag
tag mul = mul_tag
tag pow = pow_tag
tag (fun s) = fun_tag

-- An expression: a node over its children.
mutual
  pub data Atom (N : Type 0) : Type 0 where
    node : Kind N → Atoms N → Atom N

  pub data Atoms (N : Type 0) : Type 0 where
    nil : Atoms N
    cons : Atom N → Atoms N → Atoms N

module _ {N : Type 0} (numbers : Numbers N) where
  open numbers use {compare_numbers, equal_numbers}

  -- The switch over equal tags in `operator<=>`.
  unfoldable pub compare_payload : Kind N → Kind N → Ordering
  compare_payload (num x) (num y) = compare_numbers x y
  compare_payload (var s) (var t) = compare s t
  compare_payload (fun s) (fun t) = compare s t
  compare_payload k l = Ordering.eq

  unfoldable pub compare_kinds : Kind N → Kind N → Ordering
  unfolding compare_payload
  compare_kinds k l = then_by (compare (position (tag k)) (position (tag l))) (compare_payload k l)

  -- `operator<=>` on expressions: the nodes, then the children in order, then their number.
  unfoldable mutual
    unfolding compare_kinds

    pub compare_atoms : Atom N → Atom N → Ordering
    compare_atoms (node k xs) (node l ys) = then_by (compare_kinds k l) (compare_children xs ys)

    pub compare_children : Atoms N → Atoms N → Ordering
    compare_children nil nil = Ordering.eq
    compare_children nil (cons y ys) = Ordering.lt
    compare_children (cons x xs) nil = Ordering.gt
    compare_children (cons x xs) (cons y ys) = then_by (compare_atoms x y) (compare_children xs ys)
