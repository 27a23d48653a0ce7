-- ===== src/Memory/Paging/Ranges.antt =====
-- Mapping a range of pages: the loop ends, and what it leaves in the directory.
use icariusos.Base.{
  ℕ, zero, suc, ◌+◌, ◌*◌, ◌%◌, ◌^◌, ◌<◌, ◌≤◌, ◌≡◌, ◌≢◌, ◌⊎◌, inl, inr, refl, ap, sym, ◌∙◌, arith,
  true, false, List, some, get_or, length, length-set, get_or-set_self, get_or-set_ne, ◌==◌, ltb,
  Returns, Returns-map, Bool-cases, ==_cases, if◌then◌else◌,
}
use icariusos.Memory.Frames.{page_size, max_frames, pfa_set, pfa_alloc}
use icariusos.Memory.Frames.Bitmap.{IsBitmap, used, used-pfa_set, set-IsBitmap}
use icariusos.Memory.Frames.Alloc.{Outcome, pfa_alloc-Outcome}
use icariusos.Memory.Paging.{entry_of, pd_index, page_map_dir, map_loop}

-- The page of an index of the directory has a part between two addresses.
abbrev pub Between : ℕ → ℕ → ℕ → Type 0
Between curr end i = (pd_index curr ≤ i) × (i * page_size < end)

-- Every such page has an entry built from the flags and the address of a frame of its own, which was
-- free before and is used now.
abbrev pub Filled : ℕ → ℕ → ℕ → List ℕ → List ℕ × List ℕ → (ℕ → ℕ) → Type 0
Filled flags curr end bitmap r frames =
    ((i : ℕ)
      → Between curr end i
      → (get_or r.0 i 0 ≡ entry_of (frames i * page_size) flags)
        × (0 < frames i)
        × (frames i < max_frames)
        × (used bitmap (frames i) ≡ false)
        × (used r.1 (frames i) ≡ true))
    × ((i j : ℕ) → Between curr end i → Between curr end j → i < j → frames i ≢ frames j)

-- What mapping from `curr` up to `end` leaves: the entries of the other pages are as before, a frame
-- that was used is used, and either every page of the range is filled, or there is no free frame left
-- but frame 0.
pub record Mapped (flags curr end : ℕ) (dir bitmap : List ℕ) (r : List ℕ × List ℕ) : Type 0 where
  pub size : length r.0 ≡ length dir
  pub below : (i : ℕ) → i < pd_index curr → get_or r.0 i 0 ≡ get_or dir i 0
  pub above : (i : ℕ) → end ≤ i * page_size → get_or r.0 i 0 ≡ get_or dir i 0
  pub kept : (g : ℕ) → used bitmap g ≡ true → used r.1 g ≡ true
  pub pages :
      ((frames : ℕ → ℕ) × Filled flags curr end bitmap r frames)
      ⊎ ((g : ℕ) → 0 < g → g < max_frames → used r.1 g ≡ true)

module _ (flags end fuel curr : ℕ) (dir bitmap : List ℕ) where
  map_loop-done :
      ltb curr end ≡ false → map_loop flags end (suc fuel) curr dir bitmap ≡ some (dir, bitmap)
  unfolding map_loop
  map_loop-done e = rw e

  map_loop-exhausted :
      {r : ℕ × List ℕ}
      → ltb curr end ≡ true
      → pfa_alloc bitmap ≡ r
      → r.0 ≡ 0
      → map_loop flags end (suc fuel) curr dir bitmap ≡ some (dir, r.1)
  unfolding map_loop
  map_loop-exhausted e is z = rw (e, is, z)

  map_loop-next :
      {r : ℕ × List ℕ}
      → ltb curr end ≡ true
      → pfa_alloc bitmap ≡ r
      → (r.0 == 0) ≡ false
      → map_loop flags end (suc fuel) curr dir bitmap
        ≡ map_loop flags end fuel
            ((curr + page_size) % 2 ^ 32)
            (page_map_dir dir curr r.0 flags)
            r.1
  unfolding map_loop
  map_loop-next e is z = rw (e, is, z)

-- The frames of a range, from that of its first page and those of the others.
abbrev first_frame : ℕ → ℕ → (ℕ → ℕ) → ℕ → ℕ
first_frame first f frames i = if i == first then f else frames i

module _ (flags curr end f : ℕ) (dir bitmap bitmap' : List ℕ) (r : List ℕ × List ℕ)
    (size : length dir ≡ 1024) (word : curr < 2 ^ 32) (aligned : curr % page_size ≡ 0)
    (inside : curr < end) (some_frame : f ≢ 0) (frame_below : f < max_frames)
    (free : used bitmap f ≡ false)
    (takes : (g : ℕ) → used bitmap' g ≡ (if g == f then true else used bitmap g))
    (m : Mapped flags
      (curr + page_size)
      end
      (page_map_dir dir curr (f * page_size) flags)
      bitmap'
      r) where
  taken : used r.1 f ≡ true
  taken = m.kept f (ground (arith, takes f))

  was_free : (g : ℕ) → used bitmap' g ≡ false → (used bitmap g ≡ false) × (f ≢ g)
  was_free g still = (ground (arith, takes g), λ e. ground (arith, takes g))

  here : get_or r.0 (pd_index curr) 0 ≡ entry_of (f * page_size) flags
  unfolding page_map_dir
  here =
      m.below (pd_index curr) (omega arith)
      ∙ get_or-set_self dir (pd_index curr) (entry_of (f * page_size) flags) 0 (omega (arith, size))

  other :
      (i : ℕ)
      → pd_index curr ≢ i
      → get_or (page_map_dir dir curr (f * page_size) flags) i 0 ≡ get_or dir i 0
  unfolding page_map_dir
  other i ne = get_or-set_ne dir (pd_index curr) i (entry_of (f * page_size) flags) 0 ne

  behind : (i : ℕ) → Between curr end i → i ≢ pd_index curr → Between (curr + page_size) end i
  behind i (low, high) ne = (omega arith, high)

  Filled-step :
      (frames : ℕ → ℕ)
      → Filled flags (curr + page_size) end bitmap' r frames
      → Filled flags curr end bitmap r (first_frame (pd_index curr) f frames)
  Filled-step frames (fill, apart) = (
    (λ i range. elim (==_cases i (pd_index curr)) [
      | inl e ↦
          let first : (i == pd_index curr) ≡ true = ground arith in
          rw first (ap (λ k. get_or r.0 k 0) e ∙ here, omega arith, frame_below, free, taken)
      | inr ne ↦
          let later : (i == pd_index curr) ≡ false = ground arith in
          let (entry, positive, below, fresh, marked) = fill i (behind i range ne) in
          rw later (entry, positive, below, (was_free (frames i) fresh).0, marked)
    ]),
    (λ i j in_range also lt.
        let later : (j == pd_index curr) ≡ false = ground arith in
        let behind_j = behind j also (λ e. omega arith) in
        let (entry, positive, below, fresh, marked) = fill j behind_j in
        elim (==_cases i (pd_index curr)) [
          | inl e ↦
              let first : (i == pd_index curr) ≡ true = ground arith in
              rw (first, later) (was_free (frames j) fresh).1
          | inr ne ↦
              let not_first : (i == pd_index curr) ≡ false = ground arith in
              rw (not_first, later) (apart i j (behind i in_range ne) behind_j lt)
        ]),
  )

  Mapped-step : Mapped flags curr end dir bitmap r
  unfolding page_map_dir
  Mapped-step = record {
    size = m.size ∙ length-set dir (pd_index curr) (entry_of (f * page_size) flags);
    below = λ i h. m.below i (omega arith) ∙ other i (omega arith);
    above = λ i h. m.above i h ∙ other i (omega arith);
    kept = λ g h. m.kept g (ground (arith, takes g));
    pages = elim m.pages [
      | inl (frames, filled) ↦ inl (first_frame (pd_index curr) f frames, Filled-step frames filled)
      | inr none_left ↦ inr none_left
    ];
  }

length-page_map_dir :
    (dir : List ℕ) (curr frame flags : ℕ)
    → length dir ≡ 1024
    → length (page_map_dir dir curr frame flags) ≡ 1024
unfolding page_map_dir
length-page_map_dir dir curr frame flags size =
    length-set dir (pd_index curr) (entry_of frame flags) ∙ size

nothing_left :
    (flags end curr : ℕ) (dir bitmap : List ℕ)
    → curr % page_size ≡ 0
    → ltb curr end ≡ false
    → Mapped flags curr end dir bitmap (dir, bitmap)
nothing_left flags end curr dir bitmap aligned e =
    let ended : end ≤ curr = ground arith in
    record {
      size = refl;
      below = λ i h. refl;
      above = λ i h. refl;
      kept = λ g h. h;
      pages =
          inl (
            λ i. 0,
            ((λ i range. absurd (omega arith)), λ i j range also lt. absurd (omega arith)),
          );
    }

one_round :
    (flags end rounds curr : ℕ) (dir bitmap : List ℕ)
    → length dir ≡ 1024
    → IsBitmap bitmap
    → used bitmap 0 ≡ true
    → end + page_size ≤ 2 ^ 32
    → curr % page_size ≡ 0
    → ltb curr end ≡ true
    → Outcome bitmap 0 (pfa_alloc bitmap)
    → ((frame : ℕ) (b' : List ℕ)
        → IsBitmap b'
        → used b' 0 ≡ true
        → Returns
            (map_loop flags end rounds
              ((curr + page_size) % 2 ^ 32)
              (page_map_dir dir curr frame flags)
              b')
            (Mapped flags ((curr + page_size) % 2 ^ 32) end (page_map_dir dir curr frame flags) b'))
    → Returns (map_loop flags end (suc rounds) curr dir bitmap) (Mapped flags curr end dir bitmap)
one_round flags end rounds curr dir bitmap size v zero_used he aligned e (inr (all, is)) rec =
    rw (map_loop-exhausted flags end rounds curr dir bitmap e is refl) (record {
      size = refl;
      below = λ i h. refl;
      above = λ i h. refl;
      kept = λ g h. h;
      pages = inr (λ g lo hi. all g (omega arith) hi);
    })
one_round flags end rounds curr dir bitmap size v zero_used he aligned e (inl (f, first, is)) rec =
    let frame : ℕ = f * page_size in
    let some_frame : f ≢ 0 = λ z. cc (sym (first.free) ∙ ap (used bitmap) z ∙ zero_used) in
    let nz : frame ≢ 0 = omega arith in
    let inside : curr < end = ground arith in
    let next : (curr + page_size) % 2 ^ 32 ≡ curr + page_size = omega arith in
    let takes = used-pfa_set bitmap v f first.below in
    rw (map_loop-next flags end rounds curr dir bitmap e is (ground arith)) (
      Returns-map _ _ _
        (λ r m.
          Mapped-step flags curr end f dir bitmap (pfa_set bitmap f) r size (omega arith) aligned
            inside some_frame first.below first.free takes (rw next at m))
        (rec frame (pfa_set bitmap f) (set-IsBitmap bitmap f v) (ground (arith, takes 0))))

-- With fuel for the pages of the range, a range that begins on a page boundary and ends a page before
-- the addresses do, and frame 0 taken, the loop of `page_map_between` ends. It leaves the entries of
-- the pages outside the range as they were, and gives up no frame. Unless the allocator has no frame
-- left but frame 0, every page that has a part in the range has an entry of the flags and the
-- address of a frame that was free, is used now and is the frame of no other page of the range.
pub map_loop-Mapped :
    (flags end rounds curr : ℕ) (dir bitmap : List ℕ)
    → length dir ≡ 1024
    → IsBitmap bitmap
    → used bitmap 0 ≡ true
    → end + page_size ≤ 2 ^ 32
    → curr % page_size ≡ 0
    → end ≤ curr + rounds * page_size
    → Returns (map_loop flags end (suc rounds) curr dir bitmap) (Mapped flags curr end dir bitmap)
map_loop-Mapped flags end zero curr dir bitmap size v zero_used he aligned hf =
    rw (map_loop-done flags end 0 curr dir bitmap (ground arith))
      (nothing_left flags end curr dir bitmap aligned (ground arith))
map_loop-Mapped flags end (suc rounds) curr dir bitmap size v zero_used he aligned hf =
    elim (Bool-cases (ltb curr end)) [
      | inr e ↦
          rw (map_loop-done flags end (suc rounds) curr dir bitmap e)
            (nothing_left flags end curr dir bitmap aligned e)
      | inl e ↦
          one_round flags end (suc rounds) curr dir bitmap size v zero_used he aligned e
            (pfa_alloc-Outcome bitmap)
            (λ frame b' v' z'.
              map_loop-Mapped flags end rounds ((curr + page_size) % 2 ^ 32)
                (page_map_dir dir curr frame flags) b'
                (length-page_map_dir dir curr frame flags size) v' z' he (ground arith)
                (ground arith))
    ]
