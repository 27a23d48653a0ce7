-- ===== src/User/Heap/Growth.antt =====
-- A new block behind the last one.
use icariusos.Base.{
  ℕ, ◌+◌, ◌^◌, ◌<◌, ◌≤◌, ◌≡◌, ◌≢◌, ◌⊎◌, inl, inr, refl, sym, ◌∙◌, ap, arith, Bool-cases, true,
  false, not, ◌&&◌, List, [], ◌∷◌, ◌++◌, All, All-map, ◌==◌, if◌then◌else◌,
}
use mathlib.Core.Path.{subst}
use icariusos.Errno.{enomem}
use icariusos.User.Heap.{Heap, header, user_heap_start, user_heap_end, is_null, make_new_block}
use icariusos.User.Heap.Lists.{
  SameLinks, Linked-eq, Among, Among-All, All-Among, Among-insert, Among-inserted, last_of-end,
}
use icariusos.User.Heap.Search.{FreeList}
use icariusos.User.Heap.Tiling.{
  Tiled, Tiled-left, Tiled-right, Tiled-graft, Tiled-Within, SamePlace, Within, first-front,
  Tiled-first,
}
use icariusos.User.Heap.Claims.{Valid, Kept, Granted}

-- The new block ends in the heap's memory.
abbrev Fits : ℕ → Heap → Type 0
Fits size h = h.heap_curr + size + header < user_heap_end

abbrev grown : ℕ → Heap → Heap
grown size h = (make_new_block size h).1

grow-links :
    (size : ℕ) (h : Heap) (a : ℕ)
    → Fits size h
    → a ≢ h.heap_curr
    → SameLinks h.blocks (grown size h).blocks a
unfolding make_new_block
grow-links size h a fits ne = (ground arith, ground arith)

grow-rest :
    (size : ℕ) (h : Heap) (a : ℕ)
    → Fits size h
    → a ≢ h.heap_curr
    → (((grown size h).blocks a).is_free ≡ (h.blocks a).is_free)
      × (((grown size h).blocks a).size ≡ (h.blocks a).size)
      × (((grown size h).blocks a).prev ≡ (h.blocks a).prev)
unfolding make_new_block
grow-rest size h a fits ne = (ground arith, ground arith, ground arith)

grow-next :
    (size : ℕ) (h : Heap) (a : ℕ)
    → Fits size h
    → a ≢ h.heap_curr
    → ((grown size h).blocks a).next
      ≡ (if not (is_null h.heap_head) && (a == h.heap_tail) then h.heap_curr else (h.blocks a).next)
unfolding make_new_block
grow-next size h a fits ne = ground arith

grow-new :
    (size : ℕ) (h : Heap)
    → Fits size h
    → (((grown size h).blocks h.heap_curr).is_free ≡ false)
      × (((grown size h).blocks h.heap_curr).size ≡ size)
      × (((grown size h).blocks h.heap_curr).next ≡ 0)
      × (((grown size h).blocks h.heap_curr).prev ≡ h.heap_tail)
unfolding make_new_block
grow-new size h fits = (ground arith, ground arith, ground arith, ground arith)

grow-ends :
    (size : ℕ) (h : Heap)
    → Fits size h
    → ((grown size h).heap_head ≡ (if is_null h.heap_head then h.heap_curr else h.heap_head))
      × ((grown size h).heap_tail ≡ h.heap_curr)
      × ((grown size h).heap_curr ≡ h.heap_curr + size + header)
      × ((grown size h).free_list ≡ h.free_list)
      × ((make_new_block size h).0 ≡ h.heap_curr + header)
unfolding make_new_block
grow-ends size h fits = (ground arith, ground arith, ground arith, ground arith, ground arith)

pub make_new_block-full :
    (size : ℕ) (h : Heap)
    → h.heap_curr + size + header < 2 ^ 32
    → user_heap_end ≤ h.heap_curr + size + header
    → make_new_block size h ≡ (0, record h { errno = enomem })
unfolding make_new_block
make_new_block-full size h small full = ground arith

-- The free list, and what the blocks in use keep.
grow-FreeList :
    (size : ℕ) (h : Heap) (fs : List ℕ)
    → Fits size h
    → All (λ a. a ≢ h.heap_curr) fs
    → FreeList h fs
    → FreeList (grown size h) fs
grow-FreeList size h fs fits apart (head, linked, inside, distinct) =
    let (head', tail', curr', list, pointer) = grow-ends size h fits in
    (
      list ∙ head,
      Linked-eq h.blocks (grown size h).blocks 0 fs
          (All-map (λ a. a ≢ h.heap_curr) (SameLinks h.blocks (grown size h).blocks) fs
            (λ a ne. grow-links size h a fits ne) apart)
          linked,
      inside,
      distinct,
    )

grow-place :
    (size : ℕ) (h : Heap) (t x : ℕ)
    → Fits size h
    → h.heap_tail ≡ t
    → t ≤ h.heap_curr
    → Within h.blocks user_heap_start t x
    → SamePlace h.blocks (grown size h).blocks x
grow-place size h t x fits tail le (low, high) =
    let ne : x ≢ h.heap_curr = omega arith in
    let (free, size_eq, before) = grow-rest size h x fits ne in
    let next = grow-next size h x fits ne in (size_eq, ground arith, before)

-- The new block behind the tail of a heap that has blocks.
grow-Tiled :
    (size : ℕ) (h : Heap) (xs : List ℕ) (t : ℕ)
    → Fits size h
    → h.heap_head ≢ 0
    → h.heap_tail ≡ t
    → Tiled h.blocks 0 user_heap_start h.heap_curr (xs ++ (t ∷ []))
    → Tiled
        (grown size h).blocks
        0
        user_heap_start
        (h.heap_curr + size + header)
        (xs ++ (t ∷ h.heap_curr ∷ []))
grow-Tiled size h xs t fits there tail tiled =
    let (here, p, n, stop) = Tiled-right h.blocks 0 user_heap_start h.heap_curr t xs [] tiled in
    let ne : t ≢ h.heap_curr = omega arith in
    let (free, size_eq, before) = grow-rest size h t fits ne in
    let next = grow-next size h t fits ne in
    let (free', size', next', before') = grow-new size h fits in
    let same =
      All-map (Within h.blocks user_heap_start t) (SamePlace h.blocks (grown size h).blocks) xs
        (λ x inside. grow-place size h t x fits tail (omega arith) inside)
        (Tiled-left h.blocks 0 user_heap_start user_heap_start h.heap_curr t xs [] (omega arith)
          tiled) in
    Tiled-graft h.blocks (grown size h).blocks 0 user_heap_start h.heap_curr
      (h.heap_curr + size + header) t xs [] (h.heap_curr ∷ []) same tiled
      (refl, before ∙ p, ground arith, (omega arith, before' ∙ tail, next', omega arith))

-- The blocks of a valid heap end where the next new one begins.
apart :
    (h : Heap) (bs : List ℕ)
    → Tiled h.blocks 0 user_heap_start h.heap_curr bs
    → All (λ a. a ≢ h.heap_curr) bs
apart h bs tiled =
    All-map (Within h.blocks user_heap_start h.heap_curr) (λ a. a ≢ h.heap_curr) bs
      (λ a inside. omega (arith, inside.1))
      (Tiled-Within h.blocks 0 user_heap_start user_heap_start h.heap_curr bs (omega arith) tiled)

grow-Kept :
    (size : ℕ) (h : Heap) (bs' : List ℕ) (x : ℕ)
    → Fits size h
    → x ≢ h.heap_curr
    → Among x bs'
    → Kept h (grown size h) h.heap_curr bs' x
grow-Kept size h bs' x fits ne among =
    let (free, size_eq, before) = grow-rest size h x fits ne in
    elim (Bool-cases (h.blocks x).is_free) [
      | inl e ↦ inl e
      | inr e ↦ inr (ne, among, free ∙ e, size_eq)
    ]

-- The first block of the heap.
grow-first :
    (size : ℕ) (h : Heap) (fs : List ℕ)
    → Fits size h
    → Valid h [] fs
    → Granted h [] size h.heap_curr (grown size h)
grow-first size h (f ∷ fs) fits (tiled, head, tail, curr, free, (((among, e), marked))) =
    elim among [ ]
grow-first size h [] fits (tiled, head, tail, curr, (list, l, i, d), marked) =
    let (free', size', next', before') = grow-new size h fits in
    let (head', tail', curr', list', pointer) = grow-ends size h fits in
    (
      h.heap_curr ∷ [],
      [],
      (
        (sym tiled, before' ∙ tail, next', omega arith),
        ground arith,
        tail',
        omega arith,
        (list' ∙ list, l, i, d),
        tt,
      ),
      inl refl,
      free',
      omega arith,
      tt,
    )

-- A later one.
grow-later :
    (size : ℕ) (h : Heap) (xs : List ℕ) (t : ℕ) (fs : List ℕ)
    → Fits size h
    → Valid h (xs ++ (t ∷ [])) fs
    → Granted h (xs ++ (t ∷ [])) size h.heap_curr (grown size h)
grow-later size h xs t fs fits (tiled, head, tail, curr, free, marked) =
    let c = h.heap_curr in
    let bs = xs ++ (t ∷ []) in
    let bs' = xs ++ (t ∷ c ∷ []) in
    let (free', size', next', before') = grow-new size h fits in
    let (head', tail', curr', list', pointer) = grow-ends size h fits in
    let begin = Tiled-first h.blocks 0 user_heap_start c t xs [] tiled in
    let ends = last_of-end 0 t xs [] in
    let ne = apart h bs tiled in
    let there : h.heap_head ≢ 0 = omega arith in
    let kept : (grown size h).heap_head ≡ h.heap_head = ground arith in
    let held : All (λ f. Among f bs' × (((grown size h).blocks f).is_free ≡ true)) fs =
      All-map (λ f. Among f bs × ((h.blocks f).is_free ≡ true))
        (λ f. Among f bs' × (((grown size h).blocks f).is_free ≡ true)) fs
        (λ f m. (
          Among-insert f t c xs [] m.0,
          (grow-rest size h f fits (Among-All (λ a. a ≢ c) f bs ne m.0)).0 ∙ m.1,
        ))
        marked in
    let off =
      All-map (λ f. Among f bs × ((h.blocks f).is_free ≡ true)) (λ f. f ≢ c) fs
        (λ f m. Among-All (λ a. a ≢ c) f bs ne m.0) marked in
    (
      bs',
      fs,
      (
        rw curr' (grow-Tiled size h xs t fits there (tail ∙ ends) tiled),
        kept ∙ head ∙ first-front t xs [] (c ∷ []),
        tail' ∙ sym (last_of-end 0 t xs (c ∷ [])),
        omega arith,
        grow-FreeList size h fs fits off free,
        held,
      ),
      Among-inserted t c xs [],
      free',
      omega arith,
      All-Among (Kept h (grown size h) c bs') bs (λ x among.
          grow-Kept size h bs' x fits (Among-All (λ a. a ≢ c) x bs ne among)
            (Among-insert x t c xs [] among)),
    )

last-cases : (bs : List ℕ) → (bs ≡ []) ⊎ ((xs : List ℕ) × (t : ℕ) × (bs ≡ xs ++ (t ∷ [])))
last-cases [] = inl refl
last-cases (b ∷ bs) = elim (last-cases bs) [
  | inl e ↦ inr ([], b, ap (λ zs. b ∷ zs) e)
  | inr (xs, t, e) ↦ inr (b ∷ xs, t, ap (λ zs. b ∷ zs) e)
]

-- Where a new block fits, it stands behind the last one and is given out.
pub make_new_block-Granted :
    (size : ℕ) (h : Heap) (bs fs : List ℕ)
    → h.heap_curr + size + header < user_heap_end
    → Valid h bs fs
    → ((make_new_block size h).0 ≡ h.heap_curr + header)
      × Granted h bs size h.heap_curr (make_new_block size h).1
make_new_block-Granted size h bs fs fits valid = (
  (grow-ends size h fits).4,
  elim (last-cases bs) [
    | inl e ↦
        subst (λ zs. Granted h zs size h.heap_curr (grown size h)) (sym e)
          (grow-first size h fs fits (subst (λ zs. Valid h zs fs) e valid))
    | inr (xs, t, e) ↦
        subst (λ zs. Granted h zs size h.heap_curr (grown size h)) (sym e)
          (grow-later size h xs t fs fits (subst (λ zs. Valid h zs fs) e valid))
  ],
)
