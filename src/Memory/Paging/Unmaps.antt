-- ===== src/Memory/Paging/Unmaps.antt =====
-- Unmapping a range of pages: the loop ends, and what it leaves in the directory and the bitmap.
use icariusos.Base.{
  ℕ, zero, suc, ◌+◌, ◌*◌, ◌/◌, ◌%◌, ◌^◌, ◌<◌, ◌≤◌, ◌≡◌, ◌≢◌, inl, inr, refl, ap, sym, ◌∙◌, arith,
  true, false, not, ◌&&◌, List, some, get_or, length, length-set, get_or-set_self, get_or-set_ne,
  ◌==◌, ltb, Returns, Returns-map, Bool-cases, ==_cases, if◌then◌else◌, bit_and,
}
use icariusos.Memory.Frames.{page_size}
use icariusos.Memory.Frames.Bitmap.{IsBitmap, used, used-pfa_clear, clear-IsBitmap}
use icariusos.Memory.Paging.{pd_index, page_unmap_dir, page_get_phys_addr, unmap_one, unmap_loop}
use icariusos.Memory.Paging.Ranges.{Between}

-- The address that a page is mapped to, or 0.
abbrev pub mapped_to : List ℕ → ℕ → ℕ
mapped_to dir i = page_get_phys_addr dir (i * page_size)

-- What unmapping from `curr` up to `end` leaves: the entries of the other pages are as before, no page of
-- the range has an address, the frames that they had are free, and every other frame is as it was.
pub record Unmapped (curr end : ℕ) (dir bitmap : List ℕ) (r : List ℕ × List ℕ) : Type 0 where
  pub size : length r.0 ≡ length dir
  pub below : (i : ℕ) → i < pd_index curr → get_or r.0 i 0 ≡ get_or dir i 0
  pub above : (i : ℕ) → end ≤ i * page_size → get_or r.0 i 0 ≡ get_or dir i 0
  pub pages : (i : ℕ) → Between curr end i → mapped_to r.0 i ≡ 0
  pub freed :
      (i : ℕ)
      → Between curr end i
      → mapped_to dir i ≢ 0
      → used r.1 (mapped_to dir i / page_size) ≡ false
  pub still_free : (g : ℕ) → used bitmap g ≡ false → used r.1 g ≡ false
  pub kept :
      (g : ℕ)
      → ((i : ℕ) → Between curr end i → mapped_to dir i ≢ 0 → mapped_to dir i / page_size ≢ g)
      → used r.1 g ≡ used bitmap g

-- The translation reads one entry.
phys-eq :
    (dir dir' : List ℕ) (virt : ℕ)
    → get_or dir' (pd_index virt) 0 ≡ get_or dir (pd_index virt) 0
    → page_get_phys_addr dir' virt ≡ page_get_phys_addr dir virt
unfolding page_get_phys_addr
phys-eq dir dir' virt e =
    ap
      (λ (n : ℕ).
        if bit_and n 1 == 0 then 0 else (bit_and n 0xFFC0_0000 + bit_and virt 0x3F_FFFF) % 2 ^ 32)
      e

phys-none :
    (dir : List ℕ) (virt : ℕ) → get_or dir (pd_index virt) 0 ≡ 0 → page_get_phys_addr dir virt ≡ 0
unfolding page_get_phys_addr
phys-none dir virt e = rw e

phys-lt : (dir : List ℕ) (virt : ℕ) → page_get_phys_addr dir virt < 2 ^ 32
unfolding page_get_phys_addr
phys-lt dir virt = ground arith

-- One page: the directory and the bitmap behind it.
record One (curr : ℕ) (dir bitmap : List ℕ) (r : List ℕ × List ℕ) : Type 0 where
  size : length r.0 ≡ length dir
  bitmap_size : IsBitmap r.1
  other : (i : ℕ) → pd_index curr ≢ i → get_or r.0 i 0 ≡ get_or dir i 0
  gone : page_get_phys_addr r.0 curr ≡ 0
  frames :
      (g : ℕ)
      → used r.1 g ≡ (
          if not (page_get_phys_addr dir curr == 0)
            && (g == page_get_phys_addr dir curr / page_size)
          then false
          else used bitmap g)

unmap_one-One :
    (curr : ℕ) (dir bitmap : List ℕ)
    → length dir ≡ 1024
    → IsBitmap bitmap
    → curr < 2 ^ 32
    → One curr dir bitmap (unmap_one curr dir bitmap)
unfolding unmap_one page_unmap_dir
unmap_one-One curr dir bitmap size v word = elim (==_cases (page_get_phys_addr dir curr) 0) [
  | inl z ↦
      let none_there : (page_get_phys_addr dir curr == 0) ≡ true = ground arith in
      rw none_there (record {
        size = refl;
        bitmap_size = v;
        other = λ i ne. refl;
        gone = z;
        frames = λ g. rw none_there refl;
      })
  | inr ne ↦
      let there : (page_get_phys_addr dir curr == 0) ≡ false = ground arith in
      let low = phys-lt dir curr in
      let frame = page_get_phys_addr dir curr / page_size in
      rw there (record {
        size = length-set dir (pd_index curr) 0;
        bitmap_size = clear-IsBitmap bitmap frame v;
        other = λ i away. get_or-set_ne dir (pd_index curr) i 0 0 away;
        gone =
            phys-none (page_unmap_dir dir curr) curr
              (get_or-set_self dir (pd_index curr) 0 0 (omega (arith, size)));
        frames = λ g. rw there (used-pfa_clear bitmap v frame (omega arith) g);
      })
]

module _ (curr end : ℕ) (dir bitmap : List ℕ) (one r : List ℕ × List ℕ) (word : curr < 2 ^ 32)
    (aligned : curr % page_size ≡ 0) (is : One curr dir bitmap one)
    (m : Unmapped (curr + page_size) end one.0 one.1 r) where
  behind : (i : ℕ) → Between curr end i → i ≢ pd_index curr → Between (curr + page_size) end i
  behind i (low, high) ne = (omega arith, high)

  first : pd_index curr * page_size ≡ curr
  first = omega arith

  index_of : (i : ℕ) → pd_index (i * page_size) ≡ i
  index_of i = omega arith

  same_page : (i : ℕ) → i ≢ pd_index curr → mapped_to one.0 i ≡ mapped_to dir i
  same_page i ne =
      phys-eq dir one.0 (i * page_size)
        (is.other (pd_index (i * page_size)) (λ e. ne (omega (arith, index_of i))))

  page_gone : mapped_to r.0 (pd_index curr) ≡ 0
  page_gone =
      ap (page_get_phys_addr r.0) first
      ∙ phys-eq one.0 r.0 curr (m.below (pd_index curr) (omega arith))
      ∙ is.gone

  cleared : (g : ℕ) → used bitmap g ≡ false → used one.1 g ≡ false
  cleared g free = ground (arith, is.frames g)

  frame_gone :
      mapped_to dir (pd_index curr) ≢ 0
      → used r.1 (mapped_to dir (pd_index curr) / page_size) ≡ false
  frame_gone there =
      let at : mapped_to dir (pd_index curr) ≡ page_get_phys_addr dir curr =
        ap (page_get_phys_addr dir) first in
      let some_page : page_get_phys_addr dir curr ≢ 0 = λ e. there (at ∙ e) in
      let frame = page_get_phys_addr dir curr / page_size in
      let free : used one.1 frame ≡ false = is.frames frame ∙ ground arith in
      ap (λ (a : ℕ). used r.1 (a / page_size)) at ∙ m.still_free frame free

  frame_kept :
      (g : ℕ)
      → (mapped_to dir (pd_index curr) ≢ 0 → mapped_to dir (pd_index curr) / page_size ≢ g)
      → used one.1 g ≡ used bitmap g
  frame_kept g away =
      let at : page_get_phys_addr dir curr ≡ mapped_to dir (pd_index curr) =
        ap (page_get_phys_addr dir) (sym first) in
      elim (==_cases (page_get_phys_addr dir curr) 0) [
        | inl z ↦ is.frames g ∙ ground arith
        | inr ne ↦
            let apart = away (λ e. ne (at ∙ e)) in
            let other : page_get_phys_addr dir curr / page_size ≢ g =
              λ e. apart (ap (λ (a : ℕ). a / page_size) (sym at) ∙ e) in
            is.frames g ∙ ground arith
      ]

  Unmapped-step : curr < end → Unmapped curr end dir bitmap r
  Unmapped-step inside = record {
    size = m.size ∙ is.size;
    below = λ i h. m.below i (omega arith) ∙ is.other i (omega arith);
    above = λ i h. m.above i h ∙ is.other i (omega arith);
    pages = λ i range. elim (==_cases i (pd_index curr)) [
      | inl e ↦ ap (mapped_to r.0) e ∙ page_gone
      | inr ne ↦ m.pages i (behind i range ne)
    ];
    freed = λ i range there. elim (==_cases i (pd_index curr)) [
      | inl e ↦
          ap (λ (j : ℕ). used r.1 (mapped_to dir j / page_size)) e
          ∙ frame_gone (λ z. there (ap (mapped_to dir) e ∙ z))
      | inr ne ↦
          ap (λ (a : ℕ). used r.1 (a / page_size)) (sym (same_page i ne))
          ∙ m.freed i (behind i range ne) (λ z. there (sym (same_page i ne) ∙ z))
    ];
    still_free = λ g free. m.still_free g (cleared g free);
    kept = λ g away.
        m.kept g (λ i (low, high) there.
          let ne : i ≢ pd_index curr = omega arith in
          λ e.
            away i (omega arith, high) (λ z. there (same_page i ne ∙ z))
              (ap (λ (a : ℕ). a / page_size) (sym (same_page i ne)) ∙ e))
        ∙ frame_kept g (away (pd_index curr) (omega arith, omega arith));
  }

unmap_loop-done :
    (end fuel curr : ℕ) (dir bitmap : List ℕ)
    → ltb curr end ≡ false
    → unmap_loop end (suc fuel) curr dir bitmap ≡ some (dir, bitmap)
unfolding unmap_loop
unmap_loop-done end fuel curr dir bitmap e = rw e

unmap_loop-next :
    (end fuel curr : ℕ) (dir bitmap : List ℕ)
    → ltb curr end ≡ true
    → unmap_loop end (suc fuel) curr dir bitmap
      ≡ unmap_loop end fuel
          ((curr + page_size) % 2 ^ 32)
          (unmap_one curr dir bitmap).0
          (unmap_one curr dir bitmap).1
unfolding unmap_loop
unmap_loop-next end fuel curr dir bitmap e = rw e

nothing_to_do :
    (end curr : ℕ) (dir bitmap : List ℕ)
    → curr % page_size ≡ 0
    → end ≤ curr
    → Unmapped curr end dir bitmap (dir, bitmap)
nothing_to_do end curr dir bitmap aligned ended = record {
  size = refl;
  below = λ i h. refl;
  above = λ i h. refl;
  pages = λ i range. absurd (omega arith);
  freed = λ i range there. absurd (omega arith);
  still_free = λ g free. free;
  kept = λ g away. refl;
}

-- With fuel for the pages of the range, and a range that begins on a page boundary and ends a page before
-- the addresses do, the loop of `page_unmap_between` ends. It leaves the entries of the pages outside the
-- range as they were, and `page_get_phys_addr` gives 0 for every page that has a part in the range. The
-- frames of the addresses that it gave for these pages before, where they were not 0, are free, and
-- every other frame is as it was.
pub unmap_loop-Unmapped :
    (end rounds curr : ℕ) (dir bitmap : List ℕ)
    → length dir ≡ 1024
    → IsBitmap bitmap
    → end + page_size ≤ 2 ^ 32
    → curr % page_size ≡ 0
    → end ≤ curr + rounds * page_size
    → Returns (unmap_loop end (suc rounds) curr dir bitmap) (Unmapped curr end dir bitmap)
unmap_loop-Unmapped end zero curr dir bitmap size v he aligned hf =
    rw (unmap_loop-done end 0 curr dir bitmap (ground arith))
      (nothing_to_do end curr dir bitmap aligned (omega arith))
unmap_loop-Unmapped end (suc rounds) curr dir bitmap size v he aligned hf =
    elim (Bool-cases (ltb curr end)) [
      | inr e ↦
          rw (unmap_loop-done end (suc rounds) curr dir bitmap e)
            (nothing_to_do end curr dir bitmap aligned (ground arith))
      | inl e ↦
          let inside : curr < end = ground arith in
          let one = unmap_one-One curr dir bitmap size v (omega arith) in
          let next : (curr + page_size) % 2 ^ 32 ≡ curr + page_size = omega arith in
          rw (unmap_loop-next end (suc rounds) curr dir bitmap e, next)
            (Returns-map _ _ _
              (λ r m.
                Unmapped-step curr end dir bitmap (unmap_one curr dir bitmap) r (omega arith)
                  aligned one m inside)
              (unmap_loop-Unmapped end rounds (curr + page_size) (unmap_one curr dir bitmap).0
                (unmap_one curr dir bitmap).1 (one.size ∙ size) one.bitmap_size he (omega arith)
                (omega arith)))
    ]
