-- ===== src/Memory/Tests.antt =====
-- Frames and pages on concrete bitmaps and directories, and the theorems at them.
use icariusos.Base.{
  ℕ, ◌+◌, ◌%◌, ◌^◌, ◌≡◌, ◌≢◌, inr, refl, arith, true, false, List, [], ◌∷◌, replicate, ◌==◌, ltb,
  if◌then◌else◌, Returns, ◌++◌,
}
use icariusos.Memory.Frames.{page_size, pfa_init, pfa_alloc}
use icariusos.Memory.Frames.Bitmap.{used, used-pfa_init}
use icariusos.Memory.Frames.Alloc.{Outcome, pfa_alloc-Outcome, pfa_alloc-ne}
use icariusos.Memory.Chunks.{KernelHeap, chunk_header, free_run, kfree}
use icariusos.Memory.Chunks.Rows.{Row, last_at}
use icariusos.Memory.Chunks.Release.{beside, kfree-Row}
use icariusos.Memory.Paging.{page_get_phys_addr, map_loop, unmap_loop, copy_kernel}
use icariusos.Memory.Paging.Mapping.{phys-copy_kernel}
use icariusos.Memory.Paging.Ranges.{Mapped, map_loop-Mapped}
use icariusos.Memory.Paging.Unmaps.{Unmapped, unmap_loop-Unmapped}

-- All frames are used but 1 and 35.
abbrev bitmap : List ℕ
bitmap = 0xFFFF_FFFD ∷ 0xFFFF_FFF7 ∷ replicate 30 0xFFFF_FFFF

alloc_runs : (pfa_alloc bitmap).0 ≡ page_size
unfolding pfa_alloc
alloc_runs = refl

used-pfa_init_example : used pfa_init 1023 ≡ true
used-pfa_init_example = used-pfa_init 1023 (omega arith)

pfa_alloc-Outcome_example : Outcome bitmap 0 (pfa_alloc bitmap)
pfa_alloc-Outcome_example = pfa_alloc-Outcome bitmap

pfa_alloc-ne_example : (pfa_alloc bitmap).0 ≢ (pfa_alloc (pfa_alloc bitmap).1).0
unfolding pfa_alloc
pfa_alloc-ne_example = pfa_alloc-ne bitmap refl (omega arith) (omega arith)

-- The kernel's quarter starts at entry 768.
abbrev kernel_dir : List ℕ
kernel_dir = replicate 768 0x83 ++ replicate 256 0x40_0083

phys-copy_kernel_example :
    page_get_phys_addr (copy_kernel 0 kernel_dir) 0xC000_1234
    ≡ (if ltb 0xC000_1234 0xC000_0000 then 0 else page_get_phys_addr kernel_dir 0xC000_1234)
phys-copy_kernel_example = phys-copy_kernel kernel_dir 0xC000_1234 (omega arith)

map_loop-Mapped_example :
    Returns
      (map_loop 0x87 0x80_0000 3 0 kernel_dir bitmap)
      (Mapped 0x87 0 0x80_0000 kernel_dir bitmap)
unfolding used
map_loop-Mapped_example =
    map_loop-Mapped 0x87 0x80_0000 2 0 kernel_dir bitmap refl refl refl (omega arith) (omega arith)
      (omega arith)

unmap_loop-Unmapped_example :
    Returns (unmap_loop 0x80_0000 3 0 kernel_dir bitmap) (Unmapped 0 0x80_0000 kernel_dir bitmap)
unmap_loop-Unmapped_example =
    unmap_loop-Unmapped 0x80_0000 2 0 kernel_dir bitmap refl refl (omega arith) (omega arith)
      (omega arith)

-- A block of three chunks, which a free one follows.
abbrev spanning : KernelHeap
spanning = record {
  chunks = λ a.
      if a == 0xC100_0000
      then record { size = 4096; is_free = false; chunk_span = 3; prev = 0; next = 0xC100_3000 }
      else record { size = 4096; is_free = true; chunk_span = 1; prev = 0xC100_0000; next = 0 };
  next_addr = 0xC140_0000;
  last_block = 0xC100_3000;
  used_chunks = 3;
  free_chunks = 1;
  directory = [];
  bitmap = [];
}

kfree-Row_example :
    let freed_heap = kfree (0xC100_0000 + chunk_header) spanning in
    Row freed_heap.chunks 0 0xC100_0000 2
    × ((freed_heap.chunks (last_at 0xC100_0000 2)).next ≡ 0xC100_3000)
    × ((free_run 3 0xC100_0000 freed_heap.chunks).0 ≡ 3)
    × (freed_heap.chunks 0xC100_3000 ≡ beside spanning 0xC100_0000 2 0xC100_3000)
    × ((freed_heap.free_chunks + freed_heap.used_chunks) % 2 ^ 32
        ≡ (spanning.free_chunks + spanning.used_chunks) % 2 ^ 32)
kfree-Row_example =
    kfree-Row spanning 0xC100_0000 2 0xC100_3000 (omega arith) refl (omega arith)
      (inr (omega arith)) (inr (omega arith))
