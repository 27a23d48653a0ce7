-- ===== src/User/Heap/Search.antt =====
-- The search of the free list for the best fit.
use icariusos.Base.{
  ℕ, zero, suc, ◌<◌, ◌≤◌, ◌≡◌, ◌≢◌, ◌⊎◌, inl, inr, refl, ◌∙◌, arith, ◌&&◌, ◌||◌, List, [], ◌∷◌,
  some, All, All-map, Distinct, length, leb, if◌then◌else◌,
}
use icariusos.User.Heap.{
  Block, Heap, user_heap_start, user_heap_end, is_null, find_loop, find_best_fit_free_block,
}
use icariusos.User.Heap.Lists.{first, Linked, Among}

-- The block is in the heap's memory.
abbrev pub InHeap : ℕ → Type 0
InHeap a = (user_heap_start ≤ a) × (a < user_heap_end)

-- The free blocks of a heap, in the order of their links.
abbrev pub FreeList : Heap → List ℕ → Type 0
FreeList h fs = (h.free_list ≡ first fs) × Linked h.blocks 0 fs × All InHeap fs × Distinct fs

-- The better of two blocks for a size, and the best of a list.
better : (ℕ → Block) → ℕ → ℕ → ℕ → ℕ
better blocks size f best =
    if leb size (blocks f).size && (is_null best || leb (blocks f).size (blocks best).size)
    then f
    else best

best_of : (ℕ → Block) → ℕ → List ℕ → ℕ → ℕ
best_of blocks size [] best = best
best_of blocks size (f ∷ fs) best = best_of blocks size fs (better blocks size f best)

-- What a search has found so far: nothing, or a block that is large enough.
abbrev Fitting : (ℕ → Block) → ℕ → ℕ → Type 0
Fitting blocks size best = (best ≡ 0) ⊎ (size ≤ (blocks best).size)

-- No worse than another find.
abbrev NoWorse : (ℕ → Block) → ℕ → ℕ → Type 0
NoWorse blocks r best = (best ≡ 0) ⊎ ((r ≢ 0) × ((blocks r).size ≤ (blocks best).size))

-- A block of the list does not fit, or the find is no larger.
abbrev pub Beaten : (ℕ → Block) → ℕ → ℕ → ℕ → Type 0
Beaten blocks size r f = ((blocks f).size < size) ⊎ ((r ≢ 0) × ((blocks r).size ≤ (blocks f).size))

better-Fitting :
    (blocks : ℕ → Block) (size f best : ℕ)
    → Fitting blocks size best
    → Fitting blocks size (better blocks size f best)
unfolding better
better-Fitting blocks size f best fit = ground arith

better-NoWorse :
    (blocks : ℕ → Block) (size f best : ℕ) → f ≢ 0 → NoWorse blocks (better blocks size f best) best
unfolding better
better-NoWorse blocks size f best there = ground arith

better-Beaten :
    (blocks : ℕ → Block) (size f best : ℕ)
    → f ≢ 0
    → Fitting blocks size best
    → Beaten blocks size (better blocks size f best) f
unfolding better
better-Beaten blocks size f best there fit = ground arith

better-either :
    (blocks : ℕ → Block) (size f best : ℕ)
    → (better blocks size f best ≡ best) ⊎ (better blocks size f best ≡ f)
unfolding better
better-either blocks size f best = ground arith

best_of-NoWorse :
    (blocks : ℕ → Block) (size : ℕ) (fs : List ℕ) (best : ℕ)
    → All (λ f. f ≢ 0) fs
    → NoWorse blocks (best_of blocks size fs best) best
unfolding best_of
best_of-NoWorse blocks size [] best there = ground arith
best_of-NoWorse blocks size (f ∷ fs) best (h, there) =
    let step = better-NoWorse blocks size f best h in
    let rest = best_of-NoWorse blocks size fs (better blocks size f best) there in ground arith

best_of-Beaten :
    (blocks : ℕ → Block) (size : ℕ) (fs : List ℕ) (best : ℕ)
    → All (λ f. f ≢ 0) fs
    → Fitting blocks size best
    → All (Beaten blocks size (best_of blocks size fs best)) fs
unfolding best_of
best_of-Beaten blocks size [] best there fit = tt
best_of-Beaten blocks size (f ∷ fs) best (h, there) fit =
    let best' = better blocks size f best in
    let step = better-Beaten blocks size f best h fit in
    let rest = best_of-NoWorse blocks size fs best' there in
    (
      ground arith,
      best_of-Beaten blocks size fs best' there (better-Fitting blocks size f best fit),
    )

best_of-Fitting :
    (blocks : ℕ → Block) (size : ℕ) (fs : List ℕ) (best : ℕ)
    → Fitting blocks size best
    → Fitting blocks size (best_of blocks size fs best)
unfolding best_of
best_of-Fitting blocks size [] best fit = fit
best_of-Fitting blocks size (f ∷ fs) best fit =
    best_of-Fitting blocks size fs (better blocks size f best)
      (better-Fitting blocks size f best fit)

best_of-Among :
    (blocks : ℕ → Block) (size : ℕ) (fs : List ℕ) (best : ℕ)
    → (best_of blocks size fs best ≡ best) ⊎ Among (best_of blocks size fs best) fs
unfolding best_of
best_of-Among blocks size [] best = inl refl
best_of-Among blocks size (f ∷ fs) best =
    let best' = better blocks size f best in
    elim (best_of-Among blocks size fs best') [
      | inr among ↦ inr (inr among)
      | inl same ↦ elim (better-either blocks size f best) [
        | inl e ↦ inl (same ∙ e)
        | inr e ↦ inr (inl (same ∙ e))
      ]
    ]

first-apart : (f : ℕ) (fs : List ℕ) → f ≢ 0 → All (λ x. f ≢ x) fs → f ≢ first fs
first-apart f [] there alone = there
first-apart f (x ∷ xs) there (ne, alone) = ne

-- The loop walks the whole list.
find_loop-best_of :
    (fuel : ℕ) (blocks : ℕ → Block) (size prev best : ℕ) (fs : List ℕ)
    → length fs < fuel
    → All InHeap fs
    → Distinct fs
    → Linked blocks prev fs
    → find_loop fuel blocks size (first fs) best ≡ some (best_of blocks size fs best)
unfolding find_loop best_of better
find_loop-best_of zero blocks size prev best fs lt inside distinct linked = ground arith
find_loop-best_of (suc fuel) blocks size prev best [] lt inside distinct linked = refl
find_loop-best_of (suc fuel) blocks size prev best (f ∷ fs) lt (h, inside) (alone, distinct)
      (p, n, linked) =
    let rest =
      find_loop-best_of fuel blocks size f (better blocks size f best) fs (omega arith) inside
        distinct linked in
    let there : f ≢ first fs = first-apart f fs (omega arith) alone in ground arith

-- On a free list, of any length that the fuel covers, the search ends. It finds nothing only where
-- no block of the list has the size; otherwise it finds a block of the list that has it, and no block
-- that has it is smaller.
pub find_best_fit_free_block-Beaten :
    (fuel size : ℕ) (h : Heap) (fs : List ℕ)
    → 0 < size
    → length fs < fuel
    → FreeList h fs
    → (r : ℕ) × (find_best_fit_free_block fuel size h ≡ some r)
      × All (Beaten h.blocks size r) fs
      × ((r ≡ 0) ⊎ (Among r fs × (size ≤ (h.blocks r).size)))
unfolding find_best_fit_free_block
find_best_fit_free_block-Beaten fuel size h fs positive lt (head, linked, inside, distinct) =
    let r = best_of h.blocks size fs 0 in
    let there = All-map InHeap (λ f. f ≢ 0) fs (λ f i. omega (arith, i.0)) inside in
    let found = find_loop-best_of fuel h.blocks size 0 0 fs lt inside distinct linked in
    let run : find_best_fit_free_block fuel size h ≡ some r = rw head (ground arith) in
    let fit = best_of-Fitting h.blocks size fs 0 (inl refl) in
    (
      r,
      run,
      best_of-Beaten h.blocks size fs 0 there (inl refl),
      elim fit [
        | inl e ↦ inl e
        | inr fits ↦ elim (best_of-Among h.blocks size fs 0) [
          | inl e ↦ inl e
          | inr among ↦ inr (among, fits)
        ]
      ],
    )
