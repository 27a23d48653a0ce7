-- ===== src/Memory/Paging.antt =====
-- src/x86/memory/page.c: page directories of 1024 entries that map 4 MiB each. A directory is the
-- list of its `uint32_t` entries. Several functions share the bitmap of the frame allocator. The TLB
-- flush (`invlpg`) and the printing have no counterpart.
pub mod Mapping
pub mod Ranges
pub mod Unmaps
use icariusos.Base.{
  ℕ, zero, suc, ◌+◌, ◌-◌, ◌*◌, ◌/◌, ◌%◌, ◌^◌, bit_and, bit_or, Bool, true, false, not, List, get_or,
  set, ◌==◌, ltb, if◌then◌else◌, Option, none, some, [], ◌∷◌,
}
use icariusos.Memory.Frames.{page_size, pfa_alloc, pfa_clear}

abbrev pub page_present : ℕ
page_present = 1

-- `(phys_addr & 0xFFC00000) | (flags & 0xFFF)`
abbrev pub entry_of : ℕ → ℕ → ℕ
entry_of phys_addr flags = bit_or (bit_and phys_addr 0xFFC0_0000) (bit_and flags 0xFFF)

-- `virt_addr >> 22`
abbrev pub pd_index : ℕ → ℕ
pd_index virt_addr = virt_addr / 2 ^ 22

unfoldable pub page_map_dir : List ℕ → ℕ → ℕ → ℕ → List ℕ
page_map_dir dir virt_addr phys_addr flags = set dir (pd_index virt_addr) (entry_of phys_addr flags)

unfoldable pub page_unmap_dir : List ℕ → ℕ → List ℕ
page_unmap_dir dir virt_addr = set dir (pd_index virt_addr) 0

unfoldable pub page_get_phys_addr : List ℕ → ℕ → ℕ
page_get_phys_addr dir virt_addr =
    if bit_and (get_or dir (pd_index virt_addr) 0) page_present == 0
    then 0
    else (bit_and (get_or dir (pd_index virt_addr) 0) 0xFFC0_0000 + bit_and virt_addr 0x3F_FFFF)
      % 2 ^ 32

-- The loop of `page_map_between`; the counter is a `uint32_t`. `none`: the fuel ran out.
unfoldable pub map_loop : ℕ → ℕ → ℕ → ℕ → List ℕ → List ℕ → Option (List ℕ × List ℕ)
unfolding page_map_dir
map_loop flags end zero curr dir bitmap = none
map_loop flags end (suc fuel) curr dir bitmap =
    let (frame, bitmap') = pfa_alloc bitmap in
    let rest =
      map_loop flags end fuel ((curr + page_size) % 2 ^ 32) (page_map_dir dir curr frame flags)
        bitmap' in
    if ltb curr end then (if frame == 0 then some (dir, bitmap') else rest) else some (dir, bitmap)

unfoldable pub page_map_between :
    Option (List ℕ) → ℕ → ℕ → ℕ → ℕ → List ℕ → Option (Option (List ℕ) × List ℕ)
unfolding map_loop
page_map_between none start end flags fuel bitmap = some (none, bitmap)
page_map_between (some dir) start end flags fuel bitmap =
    elim (map_loop flags (bit_and ((end + 0xFFF) % 2 ^ 32) 0xFFFF_F000) fuel
      (bit_and start 0xFFFF_F000) dir bitmap) [
        | none ↦ none
        | some (dir', bitmap') ↦ some (some dir', bitmap')
      ]

-- The body of the loop of `page_unmap_between`.
unfoldable pub unmap_one : ℕ → List ℕ → List ℕ → List ℕ × List ℕ
unfolding page_get_phys_addr page_unmap_dir pfa_clear
unmap_one curr dir bitmap =
    let phys_addr = page_get_phys_addr dir curr in
    if phys_addr == 0
    then (dir, bitmap)
    else (page_unmap_dir dir curr, pfa_clear bitmap (phys_addr / page_size))

unfoldable pub unmap_loop : ℕ → ℕ → ℕ → List ℕ → List ℕ → Option (List ℕ × List ℕ)
unfolding unmap_one
unmap_loop end zero curr dir bitmap = none
unmap_loop end (suc fuel) curr dir bitmap =
    let (dir', bitmap') = unmap_one curr dir bitmap in
    let rest = unmap_loop end fuel ((curr + page_size) % 2 ^ 32) dir' bitmap' in
    if ltb curr end then rest else some (dir, bitmap)

unfoldable pub page_unmap_between :
    Option (List ℕ) → ℕ → ℕ → ℕ → List ℕ → Option (Option (List ℕ) × List ℕ)
unfolding unmap_loop
page_unmap_between none start end fuel bitmap = some (none, bitmap)
page_unmap_between (some dir) start end fuel bitmap =
    elim (unmap_loop end fuel (bit_and start 0xFFFF_F000) dir bitmap) [
      | none ↦ none
      | some (dir', bitmap') ↦ some (some dir', bitmap')
    ]

-- `PAGE_PS | PAGE_PRESENT | PAGE_WRITABLE`
abbrev pub kernel_flags : ℕ
kernel_flags = 0x83

-- One round of the copy of the kernel's half.
abbrev pub copied : ℕ → ℕ
copied entry = if bit_and entry 1 == 0 then 0 else bit_or (bit_and entry 0xFFFF_F000) kernel_flags

-- The new directory: cleared, then the entries from index 768 on copied; `i` counts them up.
unfoldable pub copy_kernel : ℕ → List ℕ → List ℕ
copy_kernel i [] = []
copy_kernel i (entry ∷ entries) =
    (if ltb i 768 then 0 else copied entry) ∷ copy_kernel (i + 1) entries

-- The address and entries of the new directory, the current directory, and the bitmap. A new
-- directory at address 0 is NULL to the callers, as is `none` here. `is_kernel`: the current directory
-- is `kernel_directory` itself, and then its new mapping is copied too.
unfoldable pub page_create_dir :
    Bool → List ℕ → List ℕ → ℕ → List ℕ → Option (ℕ × List ℕ) × List ℕ × List ℕ
unfolding page_map_dir copy_kernel
page_create_dir is_kernel kernel_directory current flags bitmap =
    let (phys_addr, bitmap') = pfa_alloc bitmap in
    let virt_addr = (phys_addr + 0xC000_0000) % 2 ^ 32 in
    let mapped = page_map_dir current virt_addr phys_addr flags in
    if phys_addr == 0
    then (none, current, bitmap')
    else if not (bit_and phys_addr 0x3F_FFFF == 0)
    then (none, current, bitmap')
    else (
      some (virt_addr, copy_kernel 0 (if is_kernel then mapped else kernel_directory)),
      mapped,
      bitmap',
    )
