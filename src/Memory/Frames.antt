-- ===== src/Memory/Frames.antt =====
-- src/x86/memory/pfa.c: the page frame allocator, a bitmap of 1024 frames of 4 MiB in 32 words. The
-- bitmap is the list of its `uint32_t` words; a set bit is a used frame.
pub mod Bitmap
pub mod Alloc
use icariusos.Base.{
  ℕ, zero, suc, ◌+◌, ◌-◌, ◌*◌, ◌/◌, ◌%◌, ◌^◌, bit_and, bit_or, Bool, true, false, not, List, get_or,
  set, replicate, ◌==◌, if◌then◌else◌,
}

abbrev pub page_size : ℕ
page_size = 1024 * 4 * 1024

abbrev pub max_frames : ℕ
max_frames = 0x1_0000_0000 / page_size

abbrev pub bitmap_size : ℕ
bitmap_size = max_frames / 32

-- `1 << offset` as the `uint32_t` that it is combined with.
abbrev pub one_shl : ℕ → ℕ
one_shl offset = 2 ^ offset

-- `~w` of a `uint32_t`.
abbrev pub complement : ℕ → ℕ
complement w = 2 ^ 32 - 1 - w

unfoldable pub pfa_init : List ℕ
pfa_init = replicate bitmap_size 0xFFFF_FFFF

unfoldable pub pfa_set : List ℕ → ℕ → List ℕ
pfa_set bitmap frame =
    set bitmap (frame / 32) (bit_or (get_or bitmap (frame / 32) 0) (one_shl (frame % 32)))

unfoldable pub pfa_clear : List ℕ → ℕ → List ℕ
pfa_clear bitmap frame =
    set bitmap (frame / 32)
      (bit_and (get_or bitmap (frame / 32) 0) (complement (one_shl (frame % 32))))

unfoldable pub pfa_test : List ℕ → ℕ → Bool
pfa_test bitmap frame = not (bit_and (get_or bitmap (frame / 32) 0) (one_shl (frame % 32)) == 0)

-- The loop of `pfa_alloc`: `rounds` frames from `frame` on are left to be tried. The address is a
-- `uint32_t` product.
unfoldable pub alloc_from : List ℕ → ℕ → ℕ → ℕ × List ℕ
unfolding pfa_test pfa_set
alloc_from bitmap zero frame = (0, bitmap)
alloc_from bitmap (suc rounds) frame =
    let rest = alloc_from bitmap rounds (frame + 1) in
    if not (pfa_test bitmap frame) then (frame * page_size % 2 ^ 32, pfa_set bitmap frame) else rest

unfoldable pub pfa_alloc : List ℕ → ℕ × List ℕ
unfolding alloc_from
pfa_alloc bitmap = alloc_from bitmap max_frames 0
