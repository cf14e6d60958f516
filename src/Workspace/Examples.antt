-- ===== src/Workspace/Examples.antt =====
-- Runs of symbol_table/workspace.cc.
use stocas.Common.{ℕ, ◌+◌, ◌*◌, ◌%◌, ◌^◌, ◌<◌, ◌≡◌, ◌≢◌, refl, sym, ap, ◌∙◌, arith, [], ◌∷◌}
use stocas.Workspace.{Workspace, address, allocate, reset, empty, fits_chunk}
use stocas.Workspace.Ready.{IsValid}
use stocas.Workspace.Bounds.{IsGranted, allocate-IsGranted, allocate_misaligned, allocate_overruns}

empty-IsValid : IsValid empty
empty-IsValid = record { in_range = omega arith; good = λ i c e. cc; spare = λ i c h e. cc }

-- Chunks at multiples of 16 that are no multiples of 32, as operator new may give them.
abbrev sixteen : ℕ → ℕ
sixteen i = 4096 * i + 16

sixteen_boundary : (i : ℕ) → sixteen i % 2 ^ 3 ≡ 0
sixteen_boundary i = omega arith

-- A request of 24 bytes, 8 aligned, in a new workspace.
allocate-IsGranted_example :
    IsValid (allocate empty 24 (2 ^ 3)).0
    × IsGranted sixteen [] (allocate empty 24 (2 ^ 3)).0 (allocate empty 24 (2 ^ 3)).1 24 3
allocate-IsGranted_example =
    allocate-IsGranted sixteen empty 24 3 (omega arith) (omega arith) sixteen_boundary empty-IsValid

sixteen_off : sixteen 0 % 2 ^ 5 ≢ 0
sixteen_off e = absurd (omega arith)

-- A request that is to be 32 aligned is granted the address 16.
wide_chunk : (allocate empty 24 (2 ^ 5)).1.chunk ≡ 0
unfolding allocate
wide_chunk = refl

wide_address : address sixteen (allocate empty 24 (2 ^ 5)).1 ≡ 16
unfolding address allocate
wide_address = refl

allocate_misaligned_example : address sixteen (allocate empty 24 (2 ^ 5)).1 % 2 ^ 5 ≢ 0
allocate_misaligned_example =
    allocate_misaligned sixteen empty 24 5 (omega arith) (omega arith) empty-IsValid
      (λ e. sixteen_off (sym (ap (λ (i : ℕ). sixteen i % 2 ^ 5) wide_chunk) ∙ e))

-- Two requests of 60000 bytes make two standard chunks; `reset` empties them.
abbrev two_chunks : Workspace
two_chunks = reset (allocate (allocate empty 60000 1).0 60000 1).0

abbrev refilled : Workspace
refilled = (allocate two_chunks 60000 1).0

standard_chunks : refilled ≡ record {
  chunks = record { capacity = 65536; used = 60000 } ∷ record { capacity = 65536; used = 0 } ∷ [];
  active_chunk = 0;
}
unfolding allocate reset
standard_chunks = refl

-- A request of 100000 bytes is then granted 65536 bytes of memory.
allocate_overruns_example :
    let slot =
      (allocate
        (record {
          chunks =
              record { capacity = 65536; used = 60000 }
              ∷ record { capacity = 65536; used = 0 }
              ∷ [];
          active_chunk = 0;
        })
        100000
        1).1 in
    (slot.chunk ≡ 1) × (65536 < slot.offset + 100000)
unfolding fits_chunk
allocate_overruns_example =
    allocate_overruns
      (record {
        chunks =
            record { capacity = 65536; used = 60000 } ∷ record { capacity = 65536; used = 0 } ∷ [];
        active_chunk = 0;
      })
      100000 1 (record { capacity = 65536; used = 60000 }) (record { capacity = 65536; used = 0 })
      refl refl refl (omega arith)
