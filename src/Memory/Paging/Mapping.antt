-- ===== src/Memory/Paging/Mapping.antt =====
-- Mapping, unmapping and translation of one page.
use icariusos.Base.{
  ℕ, zero, suc, ◌+◌, ◌*◌, ◌/◌, ◌%◌, ◌^◌, ◌<◌, ◌≡◌, ap, sym, ◌∙◌, arith, bit_and, List, [], ◌∷◌,
  get_or, set, length, get_or-set_self, get_or-set_ne, ◌==◌, ltb, if◌then◌else◌,
}
use icariusos.Base.Bits.{bit_and-low_mask, bit_and-high_mask, bit_or-fields}
use native.Mathlib.Decide.{ℕ_discrete}
use icariusos.Memory.Paging.{
  kernel_flags, entry_of, pd_index, page_map_dir, page_unmap_dir, page_get_phys_addr, copied,
  copy_kernel,
}

-- The page number of an address, as the mask takes it.
frame_mask : (a : ℕ) → a < 2 ^ 32 → bit_and a 0xFFC0_0000 ≡ a / 2 ^ 22 * 2 ^ 22
frame_mask a h =
    ap (λ (t : ℕ). bit_and t 0xFFC0_0000) (omega arith)
    ∙ bit_and-high_mask 22 10 (a / 2 ^ 22) (a % 2 ^ 22) (omega arith) (omega arith)

entry_parts :
    (phys flags : ℕ) → phys < 2 ^ 32 → entry_of phys flags ≡ phys / 2 ^ 22 * 2 ^ 22 + flags % 2 ^ 12
entry_parts phys flags h =
    rw (frame_mask phys h, bit_and-low_mask 12 flags)
      (bit_or-fields 22 (phys / 2 ^ 22) (flags % 2 ^ 12) (omega arith))

-- Reading an entry through the masks of `page_get_phys_addr`.
translate : ℕ → ℕ → ℕ
translate entry virt = if entry % 2 == 0 then 0 else entry / 2 ^ 22 * 2 ^ 22 + virt % 2 ^ 22

get_phys-translate :
    (dir : List ℕ) (virt : ℕ)
    → get_or dir (pd_index virt) 0 < 2 ^ 32
    → page_get_phys_addr dir virt ≡ translate (get_or dir (pd_index virt) 0) virt
unfolding page_get_phys_addr translate
get_phys-translate dir virt h = ground (
  arith,
  frame_mask (get_or dir (pd_index virt) 0) h,
  bit_and-low_mask 1 (get_or dir (pd_index virt) 0),
  bit_and-low_mask 22 virt,
)

module _ (dir : List ℕ) (size : length dir ≡ 1024) (virt other : ℕ) (hv : virt < 2 ^ 32) where
  -- Mapping a page as present makes every address in it translate to the same offset in the frame,
  -- and changes the translation of no address outside the page.
  pub phys-page_map_dir :
      (phys flags : ℕ)
      → phys < 2 ^ 32
      → flags % 2 ≡ 1
      → page_get_phys_addr (page_map_dir dir virt phys flags) other ≡ (
          if pd_index other == pd_index virt
          then phys / 2 ^ 22 * 2 ^ 22 + other % 2 ^ 22
          else page_get_phys_addr dir other)
  unfolding page_map_dir translate
  phys-page_map_dir phys flags hp present = elim (ℕ_discrete (pd_index virt) (pd_index other)) [
    | yes same ↦
        ground
          (arith, slot same, get_phys-translate dir' other (omega (arith, slot same)), entry_low)
    | no differ ↦
        unfold page_get_phys_addr in
        ground
          (arith, get_or-set_ne dir (pd_index virt) (pd_index other) (entry_of phys flags) 0 differ)
  ]
    where
      dir' : List ℕ
      dir' = set dir (pd_index virt) (entry_of phys flags)

      slot :
          pd_index virt ≡ pd_index other
          → get_or dir' (pd_index other) 0 ≡ phys / 2 ^ 22 * 2 ^ 22 + flags % 2 ^ 12
      slot same =
          ap (λ (i : ℕ). get_or dir' i 0) (sym same)
          ∙ get_or-set_self dir (pd_index virt) (entry_of phys flags) 0 (omega (arith, size))
          ∙ entry_parts phys flags hp

      entry_low : (phys / 2 ^ 22 * 2 ^ 22 + flags % 2 ^ 12) % 2 ≡ 1
      entry_low = omega (arith, present)

  -- Unmapping a page makes every address in it translate to 0, and changes no other translation.
  pub phys-page_unmap_dir :
      page_get_phys_addr (page_unmap_dir dir virt) other
      ≡ (if pd_index other == pd_index virt then 0 else page_get_phys_addr dir other)
  unfolding page_unmap_dir page_get_phys_addr
  phys-page_unmap_dir = elim (ℕ_discrete (pd_index virt) (pd_index other)) [
    | yes same ↦ ground (
      arith,
      ap (λ (i : ℕ). get_or (set dir (pd_index virt) 0) i 0) (sym same)
          ∙ get_or-set_self dir (pd_index virt) 0 0 (omega (arith, size)),
    )
    | no differ ↦ ground (arith, get_or-set_ne dir (pd_index virt) (pd_index other) 0 0 differ)
  ]

get_or-copy_kernel :
    (kernel : List ℕ) (i j : ℕ)
    → get_or (copy_kernel i kernel) j 0
      ≡ (if ltb (i + j) 768 then 0 else copied (get_or kernel j 0))
unfolding copy_kernel
get_or-copy_kernel [] i j = ground arith
get_or-copy_kernel (e ∷ es) i zero = ground arith
get_or-copy_kernel (e ∷ es) i (suc j) =
    get_or-copy_kernel es (i + 1) j
    ∙ ap (λ (n : ℕ). if ltb n 768 then 0 else copied (get_or es j 0)) (omega arith)

copied_parts :
    (entry : ℕ)
    → entry < 2 ^ 32
    → copied entry ≡ (if entry % 2 == 0 then 0 else entry / 2 ^ 12 * 2 ^ 12 + kernel_flags)
copied_parts entry h =
    let page : bit_and entry 0xFFFF_F000 ≡ entry / 2 ^ 12 * 2 ^ 12 =
      ap (λ (t : ℕ). bit_and t 0xFFFF_F000) (omega arith)
      ∙ bit_and-high_mask 12 20 (entry / 2 ^ 12) (entry % 2 ^ 12) (omega arith) (omega arith) in
    ground (arith, bit_and-low_mask 1 entry, page, bit_or-fields 12 (entry / 2 ^ 12) kernel_flags)

-- In the entries that `page_create_dir` copies for a new directory, an address of the kernel's quarter
-- translates as in the directory that they are copied from, and no address below it translates at all.
pub phys-copy_kernel :
    (kernel : List ℕ) (virt : ℕ)
    → get_or kernel (pd_index virt) 0 < 2 ^ 32
    → page_get_phys_addr (copy_kernel 0 kernel) virt
      ≡ (if ltb virt 0xC000_0000 then 0 else page_get_phys_addr kernel virt)
unfolding translate
phys-copy_kernel kernel virt h = ground (
  arith,
  get_or-copy_kernel kernel 0 (pd_index virt),
  copied_parts (get_or kernel (pd_index virt) 0) h,
  get_phys-translate kernel virt h,
  get_phys-translate (copy_kernel 0 kernel) virt,
)
