-- ===== src/Atom/Store.antt =====
-- The arena of atom_core/atom.cc: nodes whose children are a stretch of one pool of indices, and
-- the table that finds a node by its hash. An index and a size are 32-bit words, a hash 64 bits.
pub mod Rows
pub mod Interning
pub mod Building
pub mod Denotation
use Prim.Native.Nat.{Ordering, bit_xor}
use stocas.Common.{
  ℕ, zero, suc, ◌+◌, ◌*◌, ◌/◌, ◌%◌, ◌^◌, Bool, true, false, not, ◌&&◌, List, [], ◌∷◌, ◌++◌, length,
  get_elem?, Option, none, some, ◌==◌, if◌then◌else◌,
}
use stocas.Monomial.{then_by}
use stocas.Polynomial.{equal_vectors}
use stocas.Atom.{Numbers, AtomTag, Kind, num, var, add, mul, pow, fun, tag, position, compare_kinds}

abbrev pub index_mod : ℕ
index_mod = 2 ^ 32

abbrev pub hash_mod : ℕ
hash_mod = 2 ^ 64

pub record Node (N : Type 0) : Type 0 where
  pub kind : Kind N
  pub child_start : ℕ
  pub child_count : ℕ

-- `AtomStore::Impl`; the table is an association list from hashes to buckets.
pub record Store (N : Type 0) : Type 0 where
  pub nodes : List (Node N)
  pub child_pool : List ℕ
  pub hash_buckets : List (ℕ × List ℕ)

unfoldable pub empty_store : {N : Type 0} → Store N
empty_store = record { nodes = []; child_pool = []; hash_buckets = [] }

abbrev pub drop : ℕ → List ℕ → List ℕ
drop zero xs = xs
drop (suc n) [] = []
drop (suc n) (x ∷ xs) = drop n xs

abbrev pub take : ℕ → List ℕ → List ℕ
take zero xs = []
take (suc n) [] = []
take (suc n) (x ∷ xs) = x ∷ take n xs

-- The entries of the pool that the loops over a node's children read.
abbrev pub children : {N : Type 0} → List ℕ → Node N → List ℕ
children pool n = take n.child_count (drop n.child_start pool)

unfoldable pub hash_combine : ℕ → ℕ → ℕ
hash_combine seed value =
    bit_xor seed ((value + 0x9e3779b97f4a7c15 + seed * 64 % hash_mod + seed / 4) % hash_mod)

unfoldable pub hash_children : ℕ → List ℕ → ℕ
hash_children h [] = h
hash_children h (c ∷ cs) = hash_children (hash_combine h c) cs

unfoldable pub bucket_of : ℕ → List (ℕ × List ℕ) → List ℕ
bucket_of h [] = []
bucket_of h ((k, bucket) ∷ rest) = if k == h then bucket else bucket_of h rest

-- A push to the back of `hash_buckets[h]`, which makes the bucket if there is none.
unfoldable pub push_bucket : ℕ → ℕ → List (ℕ × List ℕ) → List (ℕ × List ℕ)
push_bucket h i [] = (h, i ∷ []) ∷ []
push_bucket h i ((k, bucket) ∷ rest) =
    if k == h then (k, bucket ++ i ∷ []) ∷ rest else (k, bucket) ∷ push_bucket h i rest

module _ {N : Type 0} (numbers : Numbers N) where
  open numbers use {equal_numbers, hash_number}

  unfoldable pub hash_payload : ℕ → Kind N → ℕ
  unfolding hash_combine
  hash_payload h (num x) = hash_combine h (hash_number x)
  hash_payload h (var s) = hash_combine h s
  hash_payload h (fun s) = hash_combine h s
  hash_payload h k = h

  unfoldable pub compute_hash : Node N → List ℕ → ℕ
  unfolding hash_combine hash_payload hash_children
  compute_hash n pool =
      hash_children (hash_payload (hash_combine 0 (position (tag n.kind))) n.kind) (children pool n)

  -- The tests on tag and payload.
  unfoldable pub equal_kinds : Kind N → Kind N → Bool
  equal_kinds (num x) (num y) = equal_numbers x y
  equal_kinds (var s) (var t) = s == t
  equal_kinds (fun s) (fun t) = s == t
  equal_kinds k l = position (tag k) == position (tag l)

  unfoldable pub nodes_equal : Node N → Node N → List ℕ → Bool
  unfolding equal_kinds equal_vectors
  nodes_equal a b pool =
      equal_kinds a.kind b.kind && equal_vectors (children pool a) (children pool b)

  -- The loop over a bucket.
  unfoldable pub find_equal : Store N → Node N → List ℕ → Option ℕ
  unfolding nodes_equal
  find_equal store candidate [] = none
  find_equal store candidate (existing ∷ bucket) =
      let rest = find_equal store candidate bucket in
      elim (get_elem? store.nodes existing) [
        | none ↦ rest
        | some n ↦ if nodes_equal n candidate store.child_pool then some existing else rest
      ]

  unfoldable pub intern : Store N → Node N → Store N × ℕ
  unfolding compute_hash find_equal bucket_of push_bucket
  intern store candidate =
      let h = compute_hash candidate store.child_pool in
      elim (find_equal store candidate (bucket_of h store.hash_buckets)) [
        | some existing ↦ (store, existing)
        | none ↦
            let index = length store.nodes % index_mod in
            (
              record store {
                nodes = store.nodes ++ candidate ∷ [];
                hash_buckets = push_bucket h index store.hash_buckets;
              },
              index,
            )
      ]

  -- `num` and `var`.
  unfoldable pub build_leaf : Store N → Kind N → Store N × ℕ
  unfolding intern
  build_leaf store k = intern store (record { kind = k; child_start = 0; child_count = 0 })

  -- `pow`, `fun`, and the end of build_variadic: the children go to the end of the pool.
  unfoldable pub build_node : Store N → Kind N → List ℕ → Store N × ℕ
  unfolding intern
  build_node store k operands =
      intern (record store { child_pool = store.child_pool ++ operands })
        (record {
          kind = k;
          child_start = length store.child_pool % index_mod;
          child_count = length operands % index_mod;
        })
