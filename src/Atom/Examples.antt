-- ===== src/Atom/Examples.antt =====
-- Runs of atom_core/atom.cc, with natural numbers in place of the rationals.
use Prim.Native.Nat.{Ordering, compare}
use stocas.Common.{ℕ, ◌<◌, ◌≡◌, ◌↔◌, refl, List, [], ◌∷◌, length, ◌==◌, ==_iff, arith}
use stocas.Monomial.Order.{compare-swap}
use stocas.Atom.{
  Numbers, num, var, add, mul, fun, Atom, node, Atoms, nil, cons, compare_atoms, compare_kinds,
}
use stocas.Atom.Store.{Store, empty_store, index_mod}
use stocas.Atom.Store.Rows.{rows}
use stocas.Atom.Store.Interning.{IsValid, empty_store-IsValid}
use stocas.Atom.Store.Denotation.{DenoteAll, BuildsAtom, build_leaf-BuildsAtom}
use stocas.Atom.Builders.{
  compare_views, as_num, as_var, function_head, flatten_operands, sort_views, child_count, child,
  canonical, store_num, store_var, store_add, store_mul, store_fun,
}
use stocas.Atom.Builders.Compare.{compare_views-eq-compare_atoms}
use stocas.Atom.Builders.Sharing.{builders_share}
use stocas.Atom.Builders.Flatten.{builders-BuildsAtom, HasPoolRoom}
use stocas.Atom.Builders.Views.{num_of, var_of, head_of, count_atoms, atom_at, Reads, views-Denotes}

compare_iff : (a b : ℕ) → (compare a b ≡ Ordering.eq) ↔ (a ≡ b)
compare_iff a b = ground arith

compare_trans :
    (a b c : ℕ) → compare a b ≡ Ordering.lt → compare b c ≡ Ordering.lt → compare a c ≡ Ordering.lt
compare_trans a b c h g = ground arith

abbrev naturals : Numbers ℕ
naturals = record {
  compare_numbers = compare;
  equal_numbers = ◌==◌;
  hash_number = λ n. n;
  equal_iff = ==_iff;
  compare_iff = compare_iff;
  compare_swap = compare-swap;
  compare_trans = compare_trans;
}

-- The store after `var` of the symbol 7.
abbrev with_x : Store ℕ × ℕ
with_x = store_var naturals empty_store 7

abbrev x : Atom ℕ
x = node (var 7) nil

with_x-BuildsAtom : BuildsAtom naturals empty_store (empty_store-IsValid naturals) x with_x
unfolding store_var empty_store
with_x-BuildsAtom =
    build_leaf-BuildsAtom naturals empty_store (empty_store-IsValid naturals) (var 7) (omega arith)

with_x-IsValid : IsValid naturals with_x.0
with_x-IsValid = with_x-BuildsAtom.0

-- Then 2, and the sums of x and 2 in both orders.
abbrev with_two : Store ℕ × ℕ
with_two = store_num naturals with_x.0 2

abbrev two : Atom ℕ
two = node (num 2) nil

with_two-BuildsAtom : BuildsAtom naturals with_x.0 with_x-IsValid two with_two
unfolding store_num store_var empty_store
with_two-BuildsAtom = build_leaf-BuildsAtom naturals with_x.0 with_x-IsValid (num 2) (omega arith)

with_two-IsValid : IsValid naturals with_two.0
with_two-IsValid = with_two-BuildsAtom.0

abbrev x_then_two : List ℕ
x_then_two = with_x.1 ∷ with_two.1 ∷ []

x_then_two-DenoteAll : DenoteAll (rows with_two.0) x_then_two (cons x (cons two nil))
x_then_two-DenoteAll =
    (with_two-BuildsAtom.2 with_x.1 x with_x-BuildsAtom.1, (with_two-BuildsAtom.1, tt))

few_nodes : length with_two.0.nodes < index_mod
unfolding store_num store_var empty_store
few_nodes = omega arith

x_then_two-HasPoolRoom : HasPoolRoom naturals with_two.0 with_two-IsValid few_nodes x_then_two
unfolding store_num store_var empty_store flatten_operands sort_views compare_kinds
x_then_two-HasPoolRoom = (omega arith, omega arith, omega arith)

builders-BuildsAtom_example :
    BuildsAtom naturals with_two.0 with_two-IsValid
      (canonical naturals add (cons x (cons two nil)))
      (store_add naturals with_two.0 x_then_two)
    × BuildsAtom naturals with_two.0 with_two-IsValid
        (canonical naturals mul (cons x (cons two nil)))
        (store_mul naturals with_two.0 x_then_two)
    × BuildsAtom naturals with_two.0 with_two-IsValid
        (node (fun 9) (cons x (cons two nil)))
        (store_fun naturals with_two.0 9 x_then_two)
    × BuildsAtom naturals with_two.0 with_two-IsValid
        (node (num 5) nil)
        (store_num naturals with_two.0 5)
    × BuildsAtom naturals with_two.0 with_two-IsValid
        (node (var 9) nil)
        (store_var naturals with_two.0 9)
builders-BuildsAtom_example =
    builders-BuildsAtom naturals with_two.0 with_two-IsValid few_nodes x_then_two
      (cons x (cons two nil)) 9 5 x_then_two-HasPoolRoom x_then_two-DenoteAll

-- The sum of x and 2 in both orders is one slot, the third of its store.
sums_share : (store_add naturals with_two.0 x_then_two).1 ≡ 2
unfolding store_add store_num store_var empty_store compare_kinds
sums_share = refl

sums_share_swapped :
    (store_add naturals (store_add naturals with_two.0 x_then_two).0 (with_two.1 ∷ with_x.1 ∷ [])).1
    ≡ 2
unfolding store_add store_num store_var empty_store compare_kinds
sums_share_swapped = refl

abbrev with_call : Store ℕ × ℕ
with_call = store_fun naturals with_two.0 9 x_then_two

with_call-BuildsAtom :
    BuildsAtom naturals with_two.0 with_two-IsValid (node (fun 9) (cons x (cons two nil))) with_call
with_call-BuildsAtom =
    (builders-BuildsAtom naturals with_two.0 with_two-IsValid few_nodes x_then_two
      (cons x (cons two nil)) 9 5 x_then_two-HasPoolRoom x_then_two-DenoteAll).2

views-Denotes_example :
    (as_num with_call.0 with_call.1 ≡ num_of {N = ℕ} (fun 9))
    × (as_var with_call.0 with_call.1 ≡ var_of {N = ℕ} (fun 9))
    × (function_head with_call.0 with_call.1 ≡ head_of {N = ℕ} (fun 9))
    × (child_count with_call.0 with_call.1 ≡ count_atoms (cons x (cons two nil)))
    × Reads naturals with_call.0 with_call-BuildsAtom.0
        (child with_call.0 with_call.1 1)
        (atom_at (cons x (cons two nil)) 1)
views-Denotes_example =
    views-Denotes naturals with_call.0 with_call-BuildsAtom.0 with_call.1 1 (fun 9)
      (cons x (cons two nil)) with_call-BuildsAtom.1

second_slot : with_two.1 < 2
unfolding store_num store_var empty_store compare_kinds
second_slot = omega arith

compare_views-eq-compare_atoms_example :
    compare_views naturals 2 with_two.0 with_two.1 with_x.1 ≡ compare_atoms naturals two x
compare_views-eq-compare_atoms_example =
    compare_views-eq-compare_atoms naturals with_two.0 with_two-IsValid 2 with_two.1 with_x.1 two x
      second_slot x_then_two-DenoteAll.1.0 x_then_two-DenoteAll.0

-- The sum, the product and the call of x and 2, in one store.
abbrev operands : Atoms ℕ
operands = cons x (cons two nil)

abbrev with_sum : Store ℕ × ℕ
with_sum = store_add naturals with_two.0 x_then_two

with_sum-BuildsAtom :
    BuildsAtom naturals with_two.0 with_two-IsValid (canonical naturals add operands) with_sum
with_sum-BuildsAtom =
    (builders-BuildsAtom naturals with_two.0 with_two-IsValid few_nodes x_then_two operands 7 2
      x_then_two-HasPoolRoom x_then_two-DenoteAll).0

sum_nodes : length with_sum.0.nodes < index_mod
unfolding store_add store_num store_var empty_store compare_kinds
sum_nodes = omega arith

sum-HasPoolRoom : HasPoolRoom naturals with_sum.0 with_sum-BuildsAtom.0 sum_nodes x_then_two
unfolding store_add store_num store_var empty_store flatten_operands sort_views compare_kinds
sum-HasPoolRoom = (omega arith, omega arith, omega arith)

sum-DenoteAll : DenoteAll (rows with_sum.0) x_then_two operands
sum-DenoteAll = (
  with_sum-BuildsAtom.2 with_x.1 x x_then_two-DenoteAll.0,
  (with_sum-BuildsAtom.2 with_two.1 two x_then_two-DenoteAll.1.0, tt),
)

abbrev with_product : Store ℕ × ℕ
with_product = store_mul naturals with_sum.0 x_then_two

with_product-BuildsAtom :
    BuildsAtom naturals with_sum.0 with_sum-BuildsAtom.0
      (canonical naturals mul operands)
      with_product
with_product-BuildsAtom =
    (builders-BuildsAtom naturals with_sum.0 with_sum-BuildsAtom.0 sum_nodes x_then_two operands 7 2
      sum-HasPoolRoom sum-DenoteAll).1

product_nodes : length with_product.0.nodes < index_mod
unfolding store_add store_mul store_num store_var empty_store compare_kinds
product_nodes = omega arith

product-HasPoolRoom :
    HasPoolRoom naturals with_product.0 with_product-BuildsAtom.0 product_nodes x_then_two
unfolding store_add store_mul store_num store_var empty_store flatten_operands sort_views
    compare_kinds
product-HasPoolRoom = (omega arith, omega arith, omega arith)

product-DenoteAll : DenoteAll (rows with_product.0) x_then_two operands
product-DenoteAll = (
  with_product-BuildsAtom.2 with_x.1 x sum-DenoteAll.0,
  (with_product-BuildsAtom.2 with_two.1 two sum-DenoteAll.1.0, tt),
)

abbrev with_all : Store ℕ × ℕ
with_all = store_fun naturals with_product.0 7 x_then_two

with_all-BuildsAtom :
    BuildsAtom naturals with_product.0 with_product-BuildsAtom.0 (node (fun 7) operands) with_all
with_all-BuildsAtom =
    (builders-BuildsAtom naturals with_product.0 with_product-BuildsAtom.0 product_nodes x_then_two
      operands 7 2 product-HasPoolRoom product-DenoteAll).2

all_nodes : length with_all.0.nodes < index_mod
unfolding store_add store_mul store_fun store_num store_var empty_store compare_kinds
all_nodes = omega arith

all-HasPoolRoom : HasPoolRoom naturals with_all.0 with_all-BuildsAtom.0 all_nodes x_then_two
unfolding store_add store_mul store_fun store_num store_var empty_store flatten_operands sort_views
    compare_kinds
all-HasPoolRoom = (omega arith, omega arith, omega arith)

all-DenoteAll : DenoteAll (rows with_all.0) x_then_two operands
all-DenoteAll = (
  with_all-BuildsAtom.2 with_x.1 x product-DenoteAll.0,
  (with_all-BuildsAtom.2 with_two.1 two product-DenoteAll.1.0, tt),
)

builders_share_example :
    ((store_add naturals with_all.0 x_then_two).1 ≡ with_sum.1)
    × ((store_mul naturals with_all.0 x_then_two).1 ≡ with_product.1)
    × ((store_fun naturals with_all.0 7 x_then_two).1 ≡ with_all.1)
    × ((store_num naturals with_all.0 2).1 ≡ with_two.1)
    × ((store_var naturals with_all.0 7).1 ≡ with_x.1)
builders_share_example =
    builders_share naturals with_all.0 with_all-BuildsAtom.0 all_nodes x_then_two operands 7 2
      with_sum.1 with_product.1 with_all.1 with_two.1 with_x.1 all-HasPoolRoom all-DenoteAll
      (with_all-BuildsAtom.2 with_sum.1 (canonical naturals add operands) (
        with_product-BuildsAtom.2 with_sum.1 (canonical naturals add operands)
          with_sum-BuildsAtom.1))
      (with_all-BuildsAtom.2 with_product.1 (canonical naturals mul operands)
        with_product-BuildsAtom.1)
      with_all-BuildsAtom.1 all-DenoteAll.1.0 all-DenoteAll.0
