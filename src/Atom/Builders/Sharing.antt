-- ===== src/Atom/Builders/Sharing.antt =====
-- Hash-consing: the builders of atom_core/atom.cc give the slot that there is.
use stocas.Common.{ℕ, ◌<◌, ◌≡◌, refl, List, length}
use stocas.Atom.{Numbers, num, var, add, mul, fun, Atom, node, Atoms, nil}
use stocas.Atom.Store.{Store, index_mod}
use stocas.Atom.Store.Rows.{rows}
use stocas.Atom.Store.Interning.{IsValid}
use stocas.Atom.Store.Denotation.{Denotes, DenoteAll, BuildsAtom, same_slot_iff}
use stocas.Atom.Builders.{canonical, store_num, store_var, store_add, store_mul, store_fun}
use stocas.Atom.Builders.Flatten.{HasPoolRoom, builders-BuildsAtom}

module _ {N : Type 0} (numbers : Numbers N) (store : Store N) (valid : IsValid numbers store) where
  same_slot :
      (a : Atom N) (result : Store N × ℕ) (i : ℕ)
      → BuildsAtom numbers store valid a result
      → Denotes (rows store) i a
      → result.1 ≡ i
  same_slot a (new, j) i (valid', here, keeps) before =
      (same_slot_iff numbers new valid' j i a a here (keeps i a before)).1 refl

  -- In a valid store with room in the node vector and in the pool, where slots stand already for
  -- the sum, the product and the call of given operands, for a number and for a variable, add,
  -- mul, fun, num and var return those slots.
  pub builders_share :
      (room : length store.nodes < index_mod) (operands : List ℕ) (ts : Atoms N) (head : ℕ)
      (value : N) (sum product call number variable : ℕ)
      → HasPoolRoom numbers store valid room operands
      → DenoteAll (rows store) operands ts
      → Denotes (rows store) sum (canonical numbers add ts)
      → Denotes (rows store) product (canonical numbers mul ts)
      → Denotes (rows store) call (node (fun head) ts)
      → Denotes (rows store) number (node (num value) nil)
      → Denotes (rows store) variable (node (var head) nil)
      → ((store_add numbers store operands).1 ≡ sum)
        × ((store_mul numbers store operands).1 ≡ product)
        × ((store_fun numbers store head operands).1 ≡ call)
        × ((store_num numbers store value).1 ≡ number)
        × ((store_var numbers store head).1 ≡ variable)
  builders_share room operands ts head value sum product call number variable pool_room h h_sum
        h_product h_call h_number h_variable =
      let (b_sum, b_product, b_call, b_number, b_variable) =
        builders-BuildsAtom numbers store valid room operands ts head value pool_room h in
      (
        same_slot (canonical numbers add ts) (store_add numbers store operands) sum b_sum h_sum,
        same_slot (canonical numbers mul ts) (store_mul numbers store operands) product b_product
            h_product,
        same_slot (node (fun head) ts) (store_fun numbers store head operands) call b_call h_call,
        same_slot (node (num value) nil) (store_num numbers store value) number b_number h_number,
        same_slot (node (var head) nil) (store_var numbers store head) variable b_variable
            h_variable,
      )
