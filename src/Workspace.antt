-- ===== src/Workspace.antt =====
-- symbol_table/workspace.cc and its header: a bump allocator over growing chunks.
-- A chunk's memory is named by the chunk's position, and its address is a parameter; sizes and offsets
-- are 64-bit words.
pub mod Align
pub mod Ready
pub mod Bounds
mod Examples
use Prim.Native.Nat.{bit_and}
use stocas.Common.{
  ℕ, ◌+◌, ◌*◌, ◌-◌, ◌%◌, Bool, ◌^◌, List, [], ◌∷◌, ◌++◌, Option, none, some, max, length, get_elem?,
  set, map, ltb, leb, if◌then◌else◌,
}

abbrev pub size_mod : ℕ
size_mod = 2 ^ 64

abbrev pub chunk_size : ℕ
chunk_size = 64 * 1024

pub record Chunk : Type 0 where
  pub capacity : ℕ
  pub used : ℕ

pub record Workspace : Type 0 where
  pub chunks : List Chunk
  pub active_chunk : ℕ

-- `(offset + alignment - 1) & ~(alignment - 1)`, on 64-bit words.
unfoldable pub align_up : ℕ → ℕ → ℕ
align_up offset alignment =
    bit_and ((offset + alignment + size_mod - 1) % size_mod)
      (size_mod - 1 - (alignment + size_mod - 1) % size_mod)

-- The chunk of an empty workspace is never read: `fresh` stands for it.
abbrev pub fresh : Chunk
fresh = record { capacity = 0; used = 0 }

abbrev pub chunk_at : List Chunk → ℕ → Chunk
chunk_at cs i = elim (get_elem? cs i) [ none ↦ fresh | some c ↦ c ]

-- The test of the first `if` of `current_chunk_for`: the aligned request fits the chunk.
unfoldable pub fits_chunk : Chunk → ℕ → ℕ → Bool
unfolding align_up
fits_chunk c size alignment = leb ((align_up c.used alignment + size) % size_mod) c.capacity

-- The chunk that a growing workspace gets for a request.
abbrev pub new_chunk : ℕ → ℕ → Chunk
new_chunk size alignment = record {
  capacity = max chunk_size ((size + alignment) % size_mod);
  used = 0;
}

-- What follows that `if`: an existing chunk is taken as it is, or a new one is pushed. The number
-- is the position of the chunk that is returned.
unfoldable pub take_chunk : Workspace → ℕ → ℕ → Workspace × ℕ
take_chunk ws size alignment =
    if ltb ws.active_chunk (length ws.chunks)
    then (ws, ws.active_chunk)
    else (record ws { chunks = ws.chunks ++ new_chunk size alignment ∷ [] }, length ws.chunks)

unfoldable pub current_chunk_for : Workspace → ℕ → ℕ → Workspace × ℕ
unfolding fits_chunk take_chunk
current_chunk_for ws size alignment =
    if ltb ws.active_chunk (length ws.chunks)
    then (if fits_chunk (chunk_at ws.chunks ws.active_chunk) size alignment
        then (ws, ws.active_chunk)
        else take_chunk (record ws { active_chunk = ws.active_chunk + 1 }) size alignment)
    else take_chunk ws size alignment

-- Where an allocation lies: the chunk and the offset in it. The offset alone is no pointer.
pub record Slot : Type 0 where
  pub chunk : ℕ
  pub offset : ℕ

-- `chunk.data.get() + aligned`, where `base` gives the addresses of the arrays of bytes that
-- std::make_unique made for the chunks.
unfoldable pub address : (ℕ → ℕ) → Slot → ℕ
address base slot = base slot.chunk + slot.offset

-- The rest of `allocate`, at the chunk found.
unfoldable pub bump : Workspace → ℕ → ℕ → ℕ → Workspace × Slot
unfolding align_up
bump ws i size alignment =
    let c : Chunk = chunk_at ws.chunks i in
    let aligned : ℕ = align_up c.used alignment in
    (
      record ws { chunks = set ws.chunks i (record c { used = (aligned + size) % size_mod }) },
      record { chunk = i; offset = aligned },
    )

unfoldable pub allocate : Workspace → ℕ → ℕ → Workspace × Slot
unfolding current_chunk_for bump
allocate ws size alignment =
    let (ws', i) = current_chunk_for ws size alignment in bump ws' i size alignment

abbrev pub emptied : Chunk → Chunk
emptied c = record c { used = 0 }

unfoldable pub reset : Workspace → Workspace
reset ws = record { chunks = map emptied ws.chunks; active_chunk = 0 }

-- The constructor.
abbrev pub empty : Workspace
empty = record { chunks = []; active_chunk = 0 }
