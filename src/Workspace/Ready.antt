-- ===== src/Workspace/Ready.antt =====
-- symbol_table/workspace.cc: the chunk that `current_chunk_for` finds has room for the request.
use native.Mathlib.Nat.{mod-eq_of_lt}
use stocas.Common.{
  ℕ, zero, suc, ◌+◌, ◌%◌, ◌^◌, ◌≤◌, ◌<◌, ◌≡◌, ◌⊎◌, refl, sym, ap, inl, inr, arith, some, [], ◌∷◌,
  ◌++◌, List, true, Bool-cases, ltb, ltb→lt, leb→le, length, get_elem?, length-append,
  get_elem?-append_length, lt-length_of_get_elem?,
}
use stocas.Workspace.{
  Chunk, Workspace, align_up, chunk_size, size_mod, chunk_at, new_chunk, fits_chunk, take_chunk,
  current_chunk_for,
}
use stocas.Workspace.Align.{align_up_bounds}

-- A chunk that is at least the standard size, far from the word's limit, and not overrun.
abbrev pub GoodChunk : Chunk → Type 0
GoodChunk c = (c.used ≤ c.capacity) × (chunk_size ≤ c.capacity) × (c.capacity ≤ 2 ^ 62)

-- All chunks are good, and those from `first` on are unused.
pub record IsSound (first : ℕ) (ws : Workspace) : Type 0 where
  pub in_range : ws.active_chunk ≤ length ws.chunks
  pub good : (i : ℕ) (c : Chunk) → get_elem? ws.chunks i ≡ some c → GoodChunk c
  pub spare : (i : ℕ) (c : Chunk) → first ≤ i → get_elem? ws.chunks i ≡ some c → c.used ≡ 0

-- The chunk at `i` is the active one and has room for the request.
pub record IsReady (ws : Workspace) (size k : ℕ) (old : List Chunk) (i : ℕ) : Type 0 where
  pub sound : IsSound (suc ws.active_chunk) ws
  pub active : i ≡ ws.active_chunk
  pub place : Chunk
  pub found : get_elem? ws.chunks i ≡ some place
  pub room : align_up place.used (2 ^ k) + size ≤ place.capacity
  pub kept : (c : Chunk) → get_elem? old i ≡ some c → c ≡ place

get_elem?-cases :
    (cs : List Chunk) (i : ℕ) → i < length cs → (c : Chunk) × (get_elem? cs i ≡ some c)
get_elem?-cases [] i h = elim h [ ]
get_elem?-cases (c ∷ cs) zero h = (c, refl)
get_elem?-cases (c ∷ cs) (suc i) h = get_elem?-cases cs i (omega arith)

-- An element of a list with one appended is an old one or the new one.
get_elem?-append_cases :
    (cs : List Chunk) (d : Chunk) (i : ℕ) (c : Chunk)
    → get_elem? (cs ++ d ∷ []) i ≡ some c
    → (get_elem? cs i ≡ some c) ⊎ ((i ≡ length cs) × (c ≡ d))
get_elem?-append_cases [] d zero c h = inr (refl, cc)
get_elem?-append_cases [] d (suc i) c h = cc
get_elem?-append_cases (x ∷ cs) d zero c h = inl h
get_elem?-append_cases (x ∷ cs) d (suc i) c h = elim (get_elem?-append_cases cs d i c h) [
  | inl old ↦ inl old
  | inr (e, new) ↦ inr (ap suc e, new)
]

-- An unused chunk has room for every request within the standard size.
spare_room :
    (c : Chunk) (size k : ℕ)
    → k ≤ 16
    → size + 2 ^ k ≤ chunk_size
    → GoodChunk c
    → c.used ≡ 0
    → align_up c.used (2 ^ k) + size ≤ c.capacity
spare_room c size k hk h good unused =
    let (_, _, above) = align_up_bounds 0 k (omega arith) (omega arith) in rw unused (omega arith)

new_chunk-GoodChunk : (size a : ℕ) → size + a ≤ chunk_size → GoodChunk (new_chunk size a)
new_chunk-GoodChunk size a h =
    let whole : (size + a) % size_mod ≡ size + a = mod-eq_of_lt (omega arith) in
    rw whole (omega arith, omega arith, omega arith)

take_chunk-IsReady :
    (ws : Workspace) (size k : ℕ)
    → k ≤ 16
    → size + 2 ^ k ≤ chunk_size
    → IsSound ws.active_chunk ws
    → IsReady (take_chunk ws size (2 ^ k)).0 size k ws.chunks (take_chunk ws size (2 ^ k)).1
unfolding take_chunk
take_chunk-IsReady ws size k hk h s = elim (Bool-cases (ltb ws.active_chunk (length ws.chunks))) [
  | inl inside ↦
      let (c, found) = get_elem?-cases ws.chunks ws.active_chunk (ltb→lt _ _ inside) in
      rw inside (record {
        sound = record {
          in_range = s.in_range;
          good = s.good;
          spare = λ i d hi. s.spare i d (omega arith);
        };
        active = refl;
        place = c;
        found = found;
        room = spare_room c size k hk h (s.good _ c found) (s.spare _ c (omega arith) found);
        kept = λ d e. cc;
      })
  | inr outside ↦
      let end : ws.active_chunk ≡ length ws.chunks = (let r = s.in_range in ground arith) in
      let d : Chunk = new_chunk size (2 ^ k) in
      rw outside (record {
        sound = record {
          in_range = omega (arith, s.in_range, length-append ws.chunks (d ∷ []));
          good = λ i c e. elim (get_elem?-append_cases ws.chunks d i c e) [
            | inl old ↦ s.good i c old
            | inr (_, new) ↦ rw new (new_chunk-GoodChunk size (2 ^ k) h)
          ];
          spare = λ i c hi e. elim (get_elem?-append_cases ws.chunks d i c e) [
            | inl old ↦ s.spare i c (omega arith) old
            | inr (_, new) ↦ rw new
          ];
        };
        active = sym end;
        place = d;
        found = get_elem?-append_length ws.chunks d;
        room = spare_room d size k hk h (new_chunk-GoodChunk size (2 ^ k) h) refl;
        kept = λ c e. absurd (omega (arith, lt-length_of_get_elem? ws.chunks (length ws.chunks) e));
      })
]

-- A workspace between two requests: what lies beyond the active chunk is unused.
abbrev pub IsValid : Workspace → Type 0
IsValid ws = IsSound (suc ws.active_chunk) ws

fits_chunk-room :
    (c : Chunk) (size k : ℕ)
    → k ≤ 16
    → size + 2 ^ k ≤ chunk_size
    → GoodChunk c
    → fits_chunk c size (2 ^ k) ≡ true
    → align_up c.used (2 ^ k) + size ≤ c.capacity
unfolding fits_chunk
fits_chunk-room c size k hk h good test =
    let (_, _, above) = align_up_bounds c.used k (omega arith) (omega arith) in
    let whole : (align_up c.used (2 ^ k) + size) % size_mod ≡ align_up c.used (2 ^ k) + size =
      mod-eq_of_lt (omega arith) in
    leb→le _ _ (rw whole at test)

pub current_chunk_for-IsReady :
    (ws : Workspace) (size k : ℕ)
    → k ≤ 16
    → size + 2 ^ k ≤ chunk_size
    → IsValid ws
    → IsReady
        (current_chunk_for ws size (2 ^ k)).0
        size
        k
        ws.chunks
        (current_chunk_for ws size (2 ^ k)).1
unfolding current_chunk_for
current_chunk_for-IsReady ws size k hk h s =
    elim (Bool-cases (ltb ws.active_chunk (length ws.chunks))) [
      | inl inside ↦
          let (c, found) = get_elem?-cases ws.chunks ws.active_chunk (ltb→lt _ _ inside) in
          elim (Bool-cases (fits_chunk (chunk_at ws.chunks ws.active_chunk) size (2 ^ k))) [
            | inl fits ↦
                rw (inside, fits)
                  (record {
                    sound = s;
                    active = refl;
                    place = c;
                    found = found;
                    room =
                        fits_chunk-room c size k hk h (s.good _ c found)
                          (rw (found, chunk_at) at fits);
                    kept = λ d e. cc;
                  })
            | inr full ↦
                rw (inside, full)
                  (take_chunk-IsReady (record ws { active_chunk = ws.active_chunk + 1 }) size k hk h
                    (record {
                      in_range = (let r = ltb→lt _ _ inside in omega arith);
                      good = s.good;
                      spare = λ i d hi. s.spare i d (omega arith);
                    }))
          ]
      | inr outside ↦
          let ready = take_chunk-IsReady ws size k hk h (record {
            in_range = s.in_range;
            good = s.good;
            spare =
                λ i d hi e. absurd (let b = lt-length_of_get_elem? ws.chunks i e in ground arith);
          }) in
          rw outside (rw outside at ready)
    ]
