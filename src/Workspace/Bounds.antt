-- ===== src/Workspace/Bounds.antt =====
-- Where the allocations of symbol_table/workspace.cc lie.
use native.Mathlib.Nat.{mod-eq_of_lt, add-mod, mod-mod}
use stocas.Common.{
  ℕ, zero, suc, ◌+◌, ◌%◌, ◌^◌, ◌≤◌, ◌<◌, ◌≡◌, ◌≢◌, ◌⊎◌, refl, sym, ap, ◌∙◌, inl, inr, arith, some,
  [], ◌∷◌, List, false, lt→ltb, length, get_elem?, set, length-set, map, lt-length_of_get_elem?,
}
use stocas.Workspace.{
  Chunk, Workspace, Slot, align_up, chunk_size, size_mod, chunk_at, fits_chunk, current_chunk_for,
  address, bump, allocate, reset, emptied,
}
use stocas.Workspace.Ready.{GoodChunk, IsSound, IsReady, IsValid, current_chunk_for-IsReady}
use stocas.Workspace.Align.{align_up_bounds}

-- What a chunk list holds after a write.
get_elem?-set_cases :
    (cs : List Chunk) (j : ℕ) (v : Chunk) (i : ℕ) (c : Chunk)
    → get_elem? (set cs j v) i ≡ some c
    → (get_elem? cs i ≡ some c) ⊎ ((i ≡ j) × (c ≡ v))
get_elem?-set_cases [] j v i c h = cc
get_elem?-set_cases (x ∷ cs) zero v zero c h = inr (refl, cc)
get_elem?-set_cases (x ∷ cs) zero v (suc i) c h = inl h
get_elem?-set_cases (x ∷ cs) (suc j) v zero c h = inl h
get_elem?-set_cases (x ∷ cs) (suc j) v (suc i) c h = elim (get_elem?-set_cases cs j v i c h) [
  | inl old ↦ inl old
  | inr (e, new) ↦ inr (ap suc e, new)
]

get_elem?-set_at :
    (cs : List Chunk) (i : ℕ) (v : Chunk) → i < length cs → get_elem? (set cs i v) i ≡ some v
get_elem?-set_at [] i v h = elim h [ ]
get_elem?-set_at (x ∷ cs) zero v h = refl
get_elem?-set_at (x ∷ cs) (suc i) v h = get_elem?-set_at cs i v (omega arith)

-- What a request is granted: an aligned address inside its chunk, behind all that the chunk held.
pub record IsGranted (base : ℕ → ℕ) (old : List Chunk) (ws : Workspace) (slot : Slot) (size k : ℕ)
    : Type 0 where
  pub holder : Chunk
  pub holds : get_elem? ws.chunks slot.chunk ≡ some holder
  pub end : holder.used ≡ slot.offset + size
  pub within : slot.offset + size ≤ holder.capacity
  pub aligned : address base slot % 2 ^ k ≡ 0
  pub behind : (c : Chunk) → get_elem? old slot.chunk ≡ some c → c.used ≤ slot.offset

-- On an aligned offset the address is aligned as the base is.
address-mod :
    (base : ℕ → ℕ) (slot : Slot) (n : ℕ)
    → slot.offset % n ≡ 0
    → address base slot % n ≡ base slot.chunk % n
unfolding address
address-mod base slot n h =
    add-mod (base slot.chunk) slot.offset n
    ∙ ap (λ (t : ℕ). (base slot.chunk % n + t) % n) h
    ∙ ap (λ (t : ℕ). t % n) (omega arith)
    ∙ mod-mod (base slot.chunk) n

module _ (old : List Chunk) (ws : Workspace) (size k i : ℕ) (hk : k ≤ 16)
    (h : size + 2 ^ k ≤ chunk_size) (r : IsReady ws size k old i) where
  abbrev start : ℕ
  start = align_up r.place.used (2 ^ k)

  abbrev grown : Chunk
  grown = record r.place { used = start + size }

  abbrev after : Workspace
  after = record ws { chunks = set ws.chunks i grown }

  place-GoodChunk : GoodChunk r.place
  place-GoodChunk = r.sound.good i r.place r.found

  bump_lem : bump ws i size (2 ^ k) ≡ (after, record { chunk = i; offset = start })
  unfolding bump
  bump_lem =
      let g = place-GoodChunk in
      let whole : (start + size) % size_mod ≡ start + size =
        mod-eq_of_lt (let m = r.room in omega arith) in
      let at : chunk_at ws.chunks i ≡ r.place = rw (r.found, chunk_at) in rw (at, whole)

  after-IsValid : IsValid after
  after-IsValid = record {
    in_range = omega (arith, r.sound.in_range, length-set ws.chunks i grown);
    good = λ j c e. elim (get_elem?-set_cases ws.chunks i grown j c e) [
      | inl same ↦ r.sound.good j c same
      | inr (_, new) ↦ rw new (r.room, place-GoodChunk.1, place-GoodChunk.2)
    ];
    spare = λ j c hj e. elim (get_elem?-set_cases ws.chunks i grown j c e) [
      | inl same ↦ r.sound.spare j c hj same
      | inr (at, new) ↦ absurd (omega (arith, r.active))
    ];
  }

  after_multiple : start % 2 ^ k ≡ 0
  after_multiple =
      let g = place-GoodChunk in (align_up_bounds r.place.used k (omega arith) (omega arith)).0

  after-IsGranted :
      (base : ℕ → ℕ)
      → base i % 2 ^ k ≡ 0
      → IsGranted base old after (record { chunk = i; offset = start }) size k
  after-IsGranted base on_boundary =
      let g = place-GoodChunk in
      let (multiple, above, _) = align_up_bounds r.place.used k (omega arith) (omega arith) in
      record {
        holder = grown;
        holds = get_elem?-set_at ws.chunks i grown (lt-length_of_get_elem? ws.chunks i r.found);
        end = refl;
        within = r.room;
        aligned =
            address-mod base (record { chunk = i; offset = start }) (2 ^ k) multiple ∙ on_boundary;
        behind = λ c e. rw (r.kept c e) above;
      }

allocate_lem :
    (ws : Workspace) (size alignment : ℕ)
    → allocate ws size alignment
      ≡ bump
          (current_chunk_for ws size alignment).0
          (current_chunk_for ws size alignment).1
          size
          alignment
unfolding allocate
allocate_lem ws size alignment = refl

-- In a valid workspace, for a request whose size and alignment, a power of two up to 2^16,
-- together fit the standard chunk, and where the memory of every chunk starts at a multiple of
-- the alignment: allocate leaves the workspace valid, and grants a slot whose address is a
-- multiple of the alignment, that lies inside its chunk, starts at or behind the end of all that
-- the chunk held, and ends where the chunk then counts as used.
pub allocate-IsGranted :
    (base : ℕ → ℕ) (ws : Workspace) (size k : ℕ)
    → k ≤ 16
    → size + 2 ^ k ≤ chunk_size
    → ((i : ℕ) → base i % 2 ^ k ≡ 0)
    → IsValid ws
    → IsValid (allocate ws size (2 ^ k)).0
      × IsGranted base ws.chunks (allocate ws size (2 ^ k)).0 (allocate ws size (2 ^ k)).1 size k
allocate-IsGranted base ws size k hk h on_boundary s =
    let found : Workspace × ℕ = current_chunk_for ws size (2 ^ k) in
    let r = current_chunk_for-IsReady ws size k hk h s in
    rw (allocate_lem ws size (2 ^ k), bump_lem ws.chunks found.0 size k found.1 hk h r)
      (
        after-IsValid ws.chunks found.0 size k found.1 hk h r,
        after-IsGranted ws.chunks found.0 size k found.1 hk h r base (on_boundary found.1),
      )

-- In a valid workspace, for a request whose size and alignment, a power of two up to 2^16,
-- together fit the standard chunk: where the memory of the chunk that allocate grants from does
-- not start at a multiple of the alignment, the address granted is no multiple of it.
pub allocate_misaligned :
    (base : ℕ → ℕ) (ws : Workspace) (size k : ℕ)
    → k ≤ 16
    → size + 2 ^ k ≤ chunk_size
    → IsValid ws
    → base (allocate ws size (2 ^ k)).1.chunk % 2 ^ k ≢ 0
    → address base (allocate ws size (2 ^ k)).1 % 2 ^ k ≢ 0
allocate_misaligned base ws size k hk h s off_boundary aligned =
    let found : Workspace × ℕ = current_chunk_for ws size (2 ^ k) in
    let r = current_chunk_for-IsReady ws size k hk h s in
    let granted = allocate_lem ws size (2 ^ k) ∙ bump_lem ws.chunks found.0 size k found.1 hk h r in
    let multiple : (allocate ws size (2 ^ k)).1.offset % 2 ^ k ≡ 0 =
      rw granted (after_multiple ws.chunks found.0 size k found.1 hk h r) in
    off_boundary (sym (address-mod base (allocate ws size (2 ^ k)).1 (2 ^ k) multiple) ∙ aligned)

get_elem?-map-emptied :
    (cs : List Chunk) (i : ℕ) (c : Chunk)
    → get_elem? (map emptied cs) i ≡ some c
    → (d : Chunk) × (get_elem? cs i ≡ some d) × (c ≡ emptied d)
get_elem?-map-emptied [] i c h = cc
get_elem?-map-emptied (x ∷ cs) zero c h = (x, refl, cc)
get_elem?-map-emptied (x ∷ cs) (suc i) c h = get_elem?-map-emptied cs i c h

-- reset of a valid workspace keeps the bounds of all chunks and leaves every chunk unused.
pub reset-IsValid : (ws : Workspace) → IsValid ws → IsSound 0 (reset ws)
unfolding reset
reset-IsValid ws s = record {
  in_range = omega arith;
  good = λ i c e.
      (let (d, found, same) = get_elem?-map-emptied ws.chunks i c e in
        rw same (omega arith, (s.good i d found).1, (s.good i d found).2));
  spare = λ i c hi e. (let (d, found, same) = get_elem?-map-emptied ws.chunks i c e in rw same);
}

-- Where the active chunk has no room for a request and the next chunk exists and is shorter than
-- the request, allocate grants a slot in the next chunk that ends beyond its capacity.
pub allocate_overruns :
    (ws : Workspace) (size alignment : ℕ) (c d : Chunk)
    → get_elem? ws.chunks ws.active_chunk ≡ some c
    → fits_chunk c size alignment ≡ false
    → get_elem? ws.chunks (ws.active_chunk + 1) ≡ some d
    → d.capacity < size
    → let slot = (allocate ws size alignment).1 in
      (slot.chunk ≡ ws.active_chunk + 1) × (d.capacity < slot.offset + size)
unfolding allocate
allocate_overruns ws size alignment c d at full next small =
    let inside = lt→ltb _ _ (lt-length_of_get_elem? ws.chunks ws.active_chunk at) in
    let inside' = lt→ltb _ _ (lt-length_of_get_elem? ws.chunks (ws.active_chunk + 1) next) in
    let here : chunk_at ws.chunks ws.active_chunk ≡ c = rw (at, chunk_at) in
    rw (inside, here, full, inside') (refl, omega arith)
