-- ===== src/Atom/Store/Interning.antt =====
-- Hash-consing in atom_core/atom.cc.
use native.Mathlib.Nat.{mod-eq_of_lt}
use stocas.Common.{
  ℕ, zero, suc, ◌+◌, ◌%◌, ◌≤◌, ◌<◌, ◌≡◌, ◌≢◌, refl, sym, ap, ◌∙◌, List, [], ◌∷◌, ◌++◌, length,
  get_elem?, none, some, arith, inl, inr, Bool-cases, Option-cases, ◌⊎◌, get_elem?-append_left,
  get_elem?-append_length, lt-length_of_get_elem?,
}
use stocas.Atom.{Numbers, Kind, tag, position}
use stocas.Atom.Store.{
  Node, Store, index_mod, empty_store, children, hash_children, hash_payload, hash_combine,
  compute_hash, bucket_of, push_bucket, nodes_equal, find_equal, intern,
}
use stocas.Atom.Store.Rows.{
  Row, row, rows, InPool, Holds, rows_of-push, length-rows_of, get_elem?-rows_of, InPool-push,
  bucket_of-push_same, bucket_of-push_keeps, nodes_equal_iff,
}

-- Each index is below a bound.
abbrev pub AllLt : ℕ → List ℕ → Type 0
AllLt n [] = Unit
AllLt n (i ∷ is) = (i < n) × AllLt n is

-- The children of each row stand before it.
abbrev pub ChildrenBefore : {N : Type 0} → ℕ → List (Row N) → Type 0
ChildrenBefore n [] = Unit
ChildrenBefore n ((k, cs) ∷ rs) = AllLt n cs × ChildrenBefore (suc n) rs

ChildrenBefore-push :
    {N : Type 0} (n : ℕ) (rs : List (Row N)) (k : Kind N) (cs : List ℕ)
    → ChildrenBefore n rs
    → AllLt (n + length rs) cs
    → ChildrenBefore n (rs ++ (k, cs) ∷ [])
ChildrenBefore-push n [] k cs h g = let e : n + 0 ≡ n = omega arith in ((rw e at g), tt)
ChildrenBefore-push n ((l, ds) ∷ rs) k cs (h, hs) g =
    let e : n + suc (length rs) ≡ suc n + length rs = omega arith in
    (h, ChildrenBefore-push (suc n) rs k cs hs (rw e at g))

-- A hit at the end of a list, or before.
get_elem?-push :
    {A : Type 0} (xs : List A) (y : A) (i : ℕ) {x : A}
    → get_elem? (xs ++ y ∷ []) i ≡ some x
    → (get_elem? xs i ≡ some x) ⊎ ((i ≡ length xs) × (y ≡ x))
get_elem?-push [] y zero h = inr (refl, cc)
get_elem?-push [] y (suc i) h = cc
get_elem?-push (z ∷ xs) y zero h = inl h
get_elem?-push (z ∷ xs) y (suc i) h = elim (get_elem?-push xs y i h) [
  | inl before ↦ inl before
  | inr (e, same) ↦ inr (ap suc e, same)
]

module _ {N : Type 0} (numbers : Numbers N) where
  -- The hash of a row: that of its node.
  pub hash_row : Row N → ℕ
  unfolding hash_payload hash_children hash_combine
  hash_row (k, cs) = hash_children (hash_payload numbers (hash_combine 0 (position (tag k))) k) cs

  compute_hash-row :
      (n : Node N) (pool : List ℕ) → compute_hash numbers n pool ≡ hash_row (row pool n)
  unfolding compute_hash hash_row
  compute_hash-row n pool = refl

  pub record IsValid (store : Store N) : Type 0 where
    pub in_pool : InPool store.child_pool store.nodes
    pub before : ChildrenBefore 0 (rows store)
    pub distinct :
        (i j : ℕ) (r : Row N)
        → get_elem? (rows store) i ≡ some r
        → get_elem? (rows store) j ≡ some r
        → i ≡ j
    pub indexed :
        (i : ℕ) (r : Row N)
        → get_elem? (rows store) i ≡ some r
        → Holds i (bucket_of (hash_row r) store.hash_buckets)

  pub empty_store-IsValid : IsValid empty_store
  unfolding empty_store
  empty_store-IsValid = record {
    in_pool = tt;
    before = tt;
    distinct = λ i j r h g. cc;
    indexed = λ i r h. cc;
  }

  -- What an operation does to the rows: those that were there stay.
  abbrev pub Extends : List (Row N) → List (Row N) → Type 0
  Extends old new = (i : ℕ) (r : Row N) → get_elem? old i ≡ some r → get_elem? new i ≡ some r

  -- An index found by the loop holds the row of the candidate.
  find_equal-some :
      (store : Store N) (candidate : Node N) (bucket : List ℕ) (i : ℕ)
      → find_equal numbers store candidate bucket ≡ some i
      → get_elem? (rows store) i ≡ some (row store.child_pool candidate)
  unfolding find_equal
  find_equal-some store candidate [] i h = cc
  find_equal-some store candidate (j ∷ bucket) i h = elim (Option-cases (get_elem? store.nodes j)) [
    | inl absent ↦ find_equal-some store candidate bucket i (rw (absent, find_equal) at h)
    | inr (n, found) ↦ elim (Bool-cases (nodes_equal numbers n candidate store.child_pool)) [
      | inr other ↦ find_equal-some store candidate bucket i (rw (found, find_equal, other) at h)
      | inl same ↦
          let here : j ≡ i = cc (rw (found, find_equal, same) at h) in
          let e = (nodes_equal_iff numbers n candidate store.child_pool).0 same in
          rw (← here, get_elem?-rows_of, found) (ap some e)
    ]
  ]

  -- Where it finds none, no index of the bucket holds that row.
  find_equal-none :
      (store : Store N) (candidate : Node N) (bucket : List ℕ) (i : ℕ)
      → find_equal numbers store candidate bucket ≡ none
      → Holds i bucket
      → get_elem? (rows store) i ≢ some (row store.child_pool candidate)
  unfolding find_equal
  find_equal-none store candidate [] i h held g = held
  find_equal-none store candidate (j ∷ bucket) i h held g =
      elim (Option-cases (get_elem? store.nodes j)) [
        | inl absent ↦ elim held [
          | inl here ↦ cc (rw (← here, get_elem?-rows_of, absent) at g)
          | inr later ↦
              find_equal-none store candidate bucket i (rw (absent, find_equal) at h) later g
        ]
        | inr (n, found) ↦ elim (Bool-cases (nodes_equal numbers n candidate store.child_pool)) [
          | inl same ↦ cc (rw (found, find_equal, same) at h)
          | inr other ↦ elim held [
            | inl here ↦
                let e : row store.child_pool n ≡ row store.child_pool candidate =
                  cc (rw (← here, get_elem?-rows_of, found) at g) in
                let e' = (nodes_equal_iff numbers n candidate store.child_pool).1 e in cc
            | inr later ↦
                find_equal-none store candidate bucket i (rw (found, find_equal, other) at h) later
                  g
          ]
        ]
      ]

  module _ (store : Store N) (candidate : Node N) (valid : IsValid store)
      (room : length store.nodes < index_mod)
      (within : candidate.child_start + candidate.child_count ≤ length store.child_pool)
      (lower : AllLt (length store.nodes) (children store.child_pool candidate)) where
    -- The store with the candidate as a new node.
    grown : Store N
    grown = record store {
      nodes = store.nodes ++ candidate ∷ [];
      hash_buckets =
          push_bucket (compute_hash numbers candidate store.child_pool)
            (length store.nodes % index_mod) store.hash_buckets;
    }

    grown-rows : rows grown ≡ rows store ++ row store.child_pool candidate ∷ []
    unfolding grown
    grown-rows = rows_of-push store.child_pool store.nodes candidate

    grown-Extends : Extends (rows store) (rows grown)
    grown-Extends i r h = rw grown-rows (
        get_elem?-append_left {0} (rows store) _ i (lt-length_of_get_elem? {0} (rows store) i h)
        ∙ h)

    grown_last : get_elem? (rows grown) (length store.nodes) ≡ some (row store.child_pool candidate)
    grown_last =
        rw (grown-rows, ← (length-rows_of store.child_pool store.nodes))
          (get_elem?-append_length {0} (rows store) (row store.child_pool candidate))

    grown_at_index :
        get_elem? (rows grown) (length store.nodes % index_mod)
        ≡ some (row store.child_pool candidate)
    grown_at_index = ap (get_elem? (rows grown)) (mod-eq_of_lt room) ∙ grown_last

    grown_hit :
        (i : ℕ) (r : Row N)
        → get_elem? (rows grown) i ≡ some r
        → (get_elem? (rows store) i ≡ some r)
          ⊎ ((i ≡ length store.nodes) × (row store.child_pool candidate ≡ r))
    grown_hit i r h =
        elim (get_elem?-push (rows store) (row store.child_pool candidate) i (rw grown-rows at h)) [
          | inl before ↦ inl before
          | inr (e, same) ↦ inr (e ∙ length-rows_of store.child_pool store.nodes, same)
        ]

    module _
        (missing : find_equal numbers store candidate
            (bucket_of (compute_hash numbers candidate store.child_pool) store.hash_buckets)
          ≡ none) where
      -- No row of the store is that of the candidate.
      unknown : (i : ℕ) → get_elem? (rows store) i ≡ some (row store.child_pool candidate) → ⊥
      unknown i h =
          find_equal-none store candidate _ i missing
            (rw (compute_hash-row candidate store.child_pool) (valid.indexed i _ h)) h

      grown_distinct :
          (i j : ℕ) (r : Row N)
          → get_elem? (rows grown) i ≡ some r
          → get_elem? (rows grown) j ≡ some r
          → i ≡ j
      grown_distinct i j r h g = elim (grown_hit i r h) [
        | inl old ↦ elim (grown_hit j r g) [
          | inl old' ↦ valid.distinct i j r old old'
          | inr (_, same) ↦ absurd (unknown i (old ∙ ap some (sym same)))
        ]
        | inr (e, same) ↦ elim (grown_hit j r g) [
          | inl old' ↦ absurd (unknown j (old' ∙ ap some (sym same)))
          | inr (e', _) ↦ e ∙ sym e'
        ]
      ]

      grown_indexed :
          (i : ℕ) (r : Row N)
          → get_elem? (rows grown) i ≡ some r
          → Holds i (bucket_of (hash_row r) grown.hash_buckets)
      unfolding grown
      grown_indexed i r h = elim (grown_hit i r h) [
        | inl old ↦
            bucket_of-push_keeps (hash_row r) (compute_hash numbers candidate store.child_pool)
              (length store.nodes % index_mod) i store.hash_buckets (valid.indexed i r old)
        | inr (e, same) ↦
            let index : length store.nodes % index_mod ≡ i = mod-eq_of_lt room ∙ sym e in
            rw (← same, index, compute_hash-row candidate store.child_pool)
              (bucket_of-push_same (hash_row (row store.child_pool candidate)) i store.hash_buckets)
      ]

      grown-IsValid : IsValid grown
      unfolding grown
      grown-IsValid = record {
        in_pool = InPool-push store.child_pool store.nodes candidate valid.in_pool within;
        before = rw grown-rows (
            ChildrenBefore-push 0 (rows store) candidate.kind (children store.child_pool candidate)
              valid.before lower_rows);
        distinct = grown_distinct;
        indexed = grown_indexed;
      }
        where
          lower_rows : AllLt (0 + length (rows store)) (children store.child_pool candidate)
          lower_rows =
              let e : length store.nodes ≡ 0 + length (rows store) =
                omega (arith, length-rows_of store.child_pool store.nodes) in
              rw (← e) lower

    pub intern-IsValid :
        IsValid (intern numbers store candidate).0
        × (get_elem? (rows (intern numbers store candidate).0) (intern numbers store candidate).1
            ≡ some (row store.child_pool candidate))
        × Extends (rows store) (rows (intern numbers store candidate).0)
    unfolding intern grown
    intern-IsValid =
        elim (Option-cases (
          find_equal numbers store candidate
            (bucket_of (compute_hash numbers candidate store.child_pool) store.hash_buckets))) [
              | inr (i, found) ↦
                  let e : intern numbers store candidate ≡ (store, i) = rw (found, intern) in
                  rw e (valid, find_equal-some store candidate _ i found, λ j r h. h)
              | inl missing ↦
                  let e : intern numbers store candidate ≡ (grown, length store.nodes % index_mod) =
                    rw (missing, intern) in
                  rw e (grown-IsValid missing, grown_at_index, grown-Extends)
            ]
