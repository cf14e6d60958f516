-- ===== src/Atom/Builders/Views.antt =====
-- What the accessors of atom_core/atom.cc read of a slot.
use stocas.Common.{
  ℕ, zero, suc, ◌+◌, ◌≤◌, ◌≡◌, refl, sym, ap, ◌∙◌, List, [], ◌∷◌, length, get_elem?, Option, none,
  some, arith,
}
use stocas.Polynomial.{Result, ok, err, logic_error, out_of_range}
use stocas.Atom.{Numbers, Kind, num, var, fun, Atom, node, Atoms, nil, cons}
use stocas.Atom.Store.{Node, Store, children, drop, take}
use stocas.Atom.Store.Rows.{rows, InPool}
use stocas.Atom.Store.Interning.{IsValid}
use stocas.Atom.Store.Denotation.{Denotes, DenoteAll}
use stocas.Atom.Builders.{as_num, as_var, function_head, child_count, child}
use stocas.Atom.Builders.Compare.{node_of_row}

-- The accessors on an expression.
abbrev pub num_of : {N : Type 0} → Kind N → Result N
num_of (num x) = ok x
num_of k = err logic_error

abbrev pub var_of : {N : Type 0} → Kind N → Result ℕ
var_of (var s) = ok s
var_of k = err logic_error

abbrev pub head_of : {N : Type 0} → Kind N → Result ℕ
head_of (fun s) = ok s
head_of k = err logic_error

abbrev pub count_atoms : {N : Type 0} → Atoms N → ℕ
count_atoms nil = 0
count_atoms (cons t ts) = suc (count_atoms ts)

abbrev pub atom_at : {N : Type 0} → Atoms N → ℕ → Option (Atom N)
atom_at nil i = none
atom_at (cons t ts) zero = some t
atom_at (cons t ts) (suc i) = atom_at ts i

length-take : (n : ℕ) (xs : List ℕ) → n ≤ length xs → length (take n xs) ≡ n
length-take zero xs h = refl
length-take (suc n) [] h = absurd (omega arith)
length-take (suc n) (x ∷ xs) h = ap suc (length-take n xs (omega arith))

length-stretch :
    (start count : ℕ) (xs : List ℕ)
    → start + count ≤ length xs
    → length (take count (drop start xs)) ≡ count
length-stretch zero count xs h = length-take count xs (omega arith)
length-stretch (suc start) zero [] h = refl
length-stretch (suc start) (suc count) [] h = absurd (omega arith)
length-stretch (suc start) count (x ∷ xs) h = length-stretch start count xs (omega arith)

InPool-at :
    {N : Type 0} (pool : List ℕ) (ns : List (Node N)) (i : ℕ) (n : Node N)
    → InPool pool ns
    → get_elem? ns i ≡ some n
    → n.child_start + n.child_count ≤ length pool
InPool-at pool [] i n h g = cc
InPool-at pool (m ∷ ns) zero n (h, hs) g = let same : m ≡ n = cc in rw (← same) h
InPool-at pool (m ∷ ns) (suc i) n (h, hs) g = InPool-at pool ns i n hs g

module _ {N : Type 0} (numbers : Numbers N) (store : Store N) (valid : IsValid numbers store) where
  module _ (i : ℕ) (n : Node N) (found : get_elem? store.nodes i ≡ some n) where
    payload_views :
        (as_num store i ≡ num_of n.kind)
        × (as_var store i ≡ var_of n.kind)
        × (function_head store i ≡ head_of n.kind)
    unfolding as_num as_var function_head
    payload_views = (
      rw (found, as_num) (by_num n.kind),
      rw (found, as_var) (by_var n.kind),
      rw (found, function_head) (by_head n.kind),
    )
      where
        by_num :
            (k : Kind N)
            → (elim k as (λ _. Result N) [ num x ↦ ok x | _ ↦ err logic_error ]) ≡ num_of k
        by_num (num x) = refl
        by_num k = refl

        by_var :
            (k : Kind N)
            → (elim k as (λ _. Result ℕ) [ var s ↦ ok s | _ ↦ err logic_error ]) ≡ var_of k
        by_var (var s) = refl
        by_var k = refl

        by_head :
            (k : Kind N)
            → (elim k as (λ _. Result ℕ) [ fun s ↦ ok s | _ ↦ err logic_error ]) ≡ head_of k
        by_head (fun s) = refl
        by_head k = refl

  count_children :
      (cs : List ℕ) (ts : Atoms N) → DenoteAll (rows store) cs ts → length cs ≡ count_atoms ts
  count_children [] nil h = refl
  count_children [] (cons t ts) h = absurd h
  count_children (c ∷ cs) nil h = absurd h
  count_children (c ∷ cs) (cons t ts) (h, hs) = ap suc (count_children cs ts hs)

  -- Reading a list of children, against the expressions that they stand for.
  abbrev pub Reads : Result ℕ → Option (Atom N) → Type 0
  Reads (ok c) (some t) = Denotes (rows store) c t
  Reads (err e) none = e ≡ out_of_range
  Reads r t = ⊥

  read_child :
      (cs : List ℕ) (ts : Atoms N) (index : ℕ)
      → DenoteAll (rows store) cs ts
      → Reads
          (elim (get_elem? cs index) as (λ _. Result ℕ) [ none ↦ err out_of_range | some c ↦ ok c ])
          (atom_at ts index)
  read_child [] nil index h = refl
  read_child [] (cons t ts) index h = absurd h
  read_child (c ∷ cs) nil index h = absurd h
  read_child (c ∷ cs) (cons t ts) zero (h, hs) = h
  read_child (c ∷ cs) (cons t ts) (suc index) (h, hs) = read_child cs ts index hs

  child_lem :
      (i : ℕ) (n : Node N) (index : ℕ) (cs : List ℕ)
      → get_elem? store.nodes i ≡ some n
      → children store.child_pool n ≡ cs
      → child store i index
        ≡ (elim (get_elem? cs index) as (λ _. Result ℕ) [ none ↦ err out_of_range | some c ↦ ok c ])
  unfolding child
  child_lem i n index cs found stretch = rw (← stretch, found, child)

  child_count_lem :
      (i : ℕ) (n : Node N) → get_elem? store.nodes i ≡ some n → child_count store i ≡ n.child_count
  unfolding child_count
  child_count_lem i n found = rw (found, child_count)

  -- For a slot of a valid store that stands for an expression, as_num, as_var and function_head
  -- give the payload of the matching kind of node and throw logic_error for the other kinds,
  -- child_count is the number of children, and child gives a slot that stands for the child at
  -- that place, or throws out_of_range where there is none.
  pub views-Denotes :
      (i index : ℕ) (k : Kind N) (ts : Atoms N)
      → Denotes (rows store) i (node k ts)
      → (as_num store i ≡ num_of k)
        × (as_var store i ≡ var_of k)
        × (function_head store i ≡ head_of k)
        × (child_count store i ≡ count_atoms ts)
        × Reads (child store i index) (atom_at ts index)
  views-Denotes i index k ts (cs, h, hs) =
      let (n, found, kind, stretch) = node_of_row store i k cs h in
      let (p, q, r) = payload_views i n found in
      let fits = InPool-at store.child_pool store.nodes i n valid.in_pool found in
      (
        p ∙ ap num_of kind,
        q ∙ ap var_of kind,
        r ∙ ap head_of kind,
        child_count_lem i n found
            ∙ sym (length-stretch n.child_start n.child_count store.child_pool fits)
            ∙ ap (length {A = ℕ}) stretch
            ∙ count_children cs ts hs,
        rw (child_lem i n index cs found stretch) (read_child cs ts index hs),
      )
