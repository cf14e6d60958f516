-- ===== src/Atom/Store/Rows.antt =====
-- What the arena of atom_core/atom.cc holds: for each index the kind of a node and the indices of
-- its children.
use stocas.Common.{
  ℕ, zero, suc, ◌+◌, ◌≤◌, ◌≡◌, refl, ap, ap₂, true, ◌&&◌, List, [], ◌∷◌, ◌++◌, length, get_elem?,
  none, some, ◌==◌, ==_iff, arith, inl, inr, Bool-cases, ◌↔◌, ◌⊎◌, length-append,
}
use stocas.Polynomial.{equal_vectors}
use stocas.Polynomial.Value.{equal_vectors→eq, equal_vectors_self}
use stocas.Atom.{Numbers, Kind, num, var, add, mul, pow, fun}
use stocas.Atom.Store.{
  Node, Store, drop, take, children, bucket_of, push_bucket, equal_kinds, nodes_equal,
}

abbrev pub Row : Type 0 → Type 0
Row N = Kind N × List ℕ

abbrev pub row : {N : Type 0} → List ℕ → Node N → Row N
row pool n = (n.kind, children pool n)

abbrev pub rows_of : {N : Type 0} → List ℕ → List (Node N) → List (Row N)
rows_of pool [] = []
rows_of pool (n ∷ ns) = row pool n ∷ rows_of pool ns

abbrev pub rows : {N : Type 0} → Store N → List (Row N)
rows store = rows_of store.child_pool store.nodes

-- The stretches of the nodes end within the pool.
abbrev pub InPool : {N : Type 0} → List ℕ → List (Node N) → Type 0
InPool pool [] = Unit
InPool pool (n ∷ ns) = (n.child_start + n.child_count ≤ length pool) × InPool pool ns

take-append : (n : ℕ) (xs ys : List ℕ) → n ≤ length xs → take n (xs ++ ys) ≡ take n xs
take-append zero xs ys h = refl
take-append (suc n) [] ys h = absurd (omega arith)
take-append (suc n) (x ∷ xs) ys h = ap (λ t. x ∷ t) (take-append n xs ys (omega arith))

stretch-append :
    (start count : ℕ) (xs ys : List ℕ)
    → start + count ≤ length xs
    → take count (drop start (xs ++ ys)) ≡ take count (drop start xs)
stretch-append zero count xs ys h = take-append count xs ys (omega arith)
stretch-append (suc start) zero [] ys h = absurd (omega arith)
stretch-append (suc start) (suc count) [] ys h = absurd (omega arith)
stretch-append (suc start) count (x ∷ xs) ys h = stretch-append start count xs ys (omega arith)

take_all : (ys : List ℕ) → take (length ys) ys ≡ ys
take_all [] = refl
take_all (y ∷ ys) = ap (λ t. y ∷ t) (take_all ys)

pub stretch_at_end : (xs ys : List ℕ) → take (length ys) (drop (length xs) (xs ++ ys)) ≡ ys
stretch_at_end [] ys = take_all ys
stretch_at_end (x ∷ xs) ys = stretch_at_end xs ys

-- A longer pool leaves the rows as they are.
pub rows_of-pool :
    {N : Type 0} (pool more : List ℕ) (ns : List (Node N))
    → InPool pool ns
    → rows_of (pool ++ more) ns ≡ rows_of pool ns
rows_of-pool pool more [] h = refl
rows_of-pool pool more (n ∷ ns) (h, hs) =
    ap₂ (λ cs rs. (n.kind, cs) ∷ rs) (stretch-append n.child_start n.child_count pool more h)
      (rows_of-pool pool more ns hs)

pub InPool-pool :
    {N : Type 0} (pool more : List ℕ) (ns : List (Node N))
    → InPool pool ns
    → InPool (pool ++ more) ns
InPool-pool pool more [] h = tt
InPool-pool pool more (n ∷ ns) (h, hs) =
    (omega (arith, length-append {0} pool more), InPool-pool pool more ns hs)

pub InPool-push :
    {N : Type 0} (pool : List ℕ) (ns : List (Node N)) (n : Node N)
    → InPool pool ns
    → n.child_start + n.child_count ≤ length pool
    → InPool pool (ns ++ n ∷ [])
InPool-push pool [] n h g = (g, tt)
InPool-push pool (m ∷ ns) n (h, hs) g = (h, InPool-push pool ns n hs g)

pub rows_of-push :
    {N : Type 0} (pool : List ℕ) (ns : List (Node N)) (n : Node N)
    → rows_of pool (ns ++ n ∷ []) ≡ rows_of pool ns ++ row pool n ∷ []
rows_of-push pool [] n = refl
rows_of-push pool (m ∷ ns) n = ap (λ t. row pool m ∷ t) (rows_of-push pool ns n)

pub length-rows_of :
    {N : Type 0} (pool : List ℕ) (ns : List (Node N)) → length (rows_of pool ns) ≡ length ns
length-rows_of pool [] = refl
length-rows_of pool (n ∷ ns) = ap suc (length-rows_of pool ns)

-- The row at an index is that of the node there.
pub get_elem?-rows_of :
    {N : Type 0} (pool : List ℕ) (ns : List (Node N)) (i : ℕ)
    → get_elem? (rows_of pool ns) i
      ≡ elim (get_elem? ns i) [ none ↦ none | some n ↦ some (row pool n) ]
get_elem?-rows_of pool [] i = refl
get_elem?-rows_of pool (n ∷ ns) zero = refl
get_elem?-rows_of pool (n ∷ ns) (suc i) = get_elem?-rows_of pool ns i

-- A list of indices has an index.
abbrev pub Holds : ℕ → List ℕ → Type 0
Holds i [] = ⊥
Holds i (x ∷ xs) = (x ≡ i) ⊎ Holds i xs

Holds-append_left : (i : ℕ) (xs ys : List ℕ) → Holds i xs → Holds i (xs ++ ys)
Holds-append_left i [] ys h = absurd h
Holds-append_left i (x ∷ xs) ys (inl h) = inl h
Holds-append_left i (x ∷ xs) ys (inr h) = inr (Holds-append_left i xs ys h)

Holds-append_last : (i : ℕ) (xs : List ℕ) → Holds i (xs ++ i ∷ [])
Holds-append_last i [] = inl refl
Holds-append_last i (x ∷ xs) = inr (Holds-append_last i xs)

pub bucket_of-push_same :
    (h i : ℕ) (table : List (ℕ × List ℕ)) → Holds i (bucket_of h (push_bucket h i table))
unfolding bucket_of push_bucket
bucket_of-push_same h i [] = rw ((==_iff h h).1 refl) (inl refl)
bucket_of-push_same h i ((k, bucket) ∷ rest) = elim (Bool-cases (k == h)) [
  | inl here ↦ rw (here, here) (Holds-append_last i bucket)
  | inr later ↦ rw (later, later) (bucket_of-push_same h i rest)
]

pub bucket_of-push_keeps :
    (g h i j : ℕ) (table : List (ℕ × List ℕ))
    → Holds j (bucket_of g table)
    → Holds j (bucket_of g (push_bucket h i table))
unfolding bucket_of push_bucket
bucket_of-push_keeps g h i j [] held = absurd held
bucket_of-push_keeps g h i j ((k, bucket) ∷ rest) held = elim (Bool-cases (k == h)) [
  | inl here ↦ elim (Bool-cases (k == g)) [
    | inl there ↦ rw (here, there) (Holds-append_left j bucket (i ∷ []) (rw there at held))
    | inr other ↦ rw (here, other) (rw other at held)
  ]
  | inr later ↦ elim (Bool-cases (k == g)) [
    | inl there ↦ rw (later, there) (rw there at held)
    | inr other ↦ rw (later, other) (bucket_of-push_keeps g h i j rest (rw other at held))
  ]
]

module _ {N : Type 0} (numbers : Numbers N) where
  open numbers use {equal_numbers, equal_iff}

  kinds→eq : (k l : Kind N) → equal_kinds numbers k l ≡ true → k ≡ l
  unfolding equal_kinds
  kinds→eq (num x) (num y) h = ap num ((equal_iff x y).0 h)
  kinds→eq (num x) l h = cc
  kinds→eq (var s) (var t) h = ap var ((==_iff s t).0 h)
  kinds→eq (var s) l h = cc
  kinds→eq (fun s) (fun t) h = ap fun ((==_iff s t).0 h)
  kinds→eq (fun s) l h = cc
  kinds→eq add add h = refl
  kinds→eq add l h = cc
  kinds→eq mul mul h = refl
  kinds→eq mul l h = cc
  kinds→eq pow pow h = refl
  kinds→eq pow l h = cc

  kinds_self : (k : Kind N) → equal_kinds numbers k k ≡ true
  unfolding equal_kinds
  kinds_self (num x) = (equal_iff x x).1 refl
  kinds_self (var s) = (==_iff s s).1 refl
  kinds_self (fun s) = (==_iff s s).1 refl
  kinds_self k = refl

  pub nodes_equal_iff :
      (a b : Node N) (pool : List ℕ)
      → (nodes_equal numbers a b pool ≡ true) ↔ (row pool a ≡ row pool b)
  unfolding nodes_equal
  nodes_equal_iff a b pool = (
    λ h. both (kinds→eq a.kind b.kind (left h)) (equal_vectors→eq _ _ (right h)),
    λ e.
        rw (← (ap (λ r. r.0) e), ← (ap (λ r. r.1) e), kinds_self a.kind)
          (equal_vectors_self (children pool a)),
  )
    where
      left :
          equal_kinds numbers a.kind b.kind && equal_vectors (children pool a) (children pool b)
            ≡ true
          → equal_kinds numbers a.kind b.kind ≡ true
      left h = ground arith

      right :
          equal_kinds numbers a.kind b.kind && equal_vectors (children pool a) (children pool b)
            ≡ true
          → equal_vectors (children pool a) (children pool b) ≡ true
      right h = ground arith

      both : a.kind ≡ b.kind → children pool a ≡ children pool b → row pool a ≡ row pool b
      both p q = ap₂ (λ k cs. (k, cs)) p q
