-- ===== src/User/Heap/Allocation.antt =====
-- `malloc` as a whole.
use icariusos.Base.{
  ℕ, ◌+◌, ◌-◌, ◌%◌, ◌^◌, ◌<◌, ◌≤◌, ◌≡◌, ◌≢◌, ◌⊎◌, inl, inr, refl, sym, ◌∙◌, ap, arith, Bool-cases,
  ==_cases, ≤_cases, true, false, List, ◌∷◌, ◌++◌, some, All, All-map, length, leb, ◌==◌,
  if◌then◌else◌,
}
use mathlib.Core.Path.{subst}
use icariusos.Errno.{enomem}
use icariusos.User.Heap.{
  Heap, header, min_block_size, user_heap_start, user_heap_end, align8, is_null,
  find_best_fit_free_block, make_new_block, split_block, claim_block, take_block, malloc,
}
use icariusos.User.Heap.Lists.{
  Among, Among-All, All-Among, Among-halves, Among-insert, Among-middle,
}
use icariusos.User.Heap.Search.{InHeap, Beaten, find_best_fit_free_block-Beaten}
use icariusos.User.Heap.Tiling.{Within, Tiled-Within}
use icariusos.User.Heap.Removal.{All-right}
use icariusos.User.Heap.Claims.{Valid, Kept, Granted}
use icariusos.User.Heap.Grants.{claim-is_free, claim-size, claim_block-Valid}
use icariusos.User.Heap.Splits.{rest_of}
use icariusos.User.Heap.Cuts.{rest-apart, split-same, split-sizes, split_block-Valid}
use icariusos.User.Heap.Growth.{make_new_block-full, make_new_block-Granted}

-- A block other than the one that is cut is as it was.
abbrev Steady : Heap → Heap → ℕ → List ℕ → ℕ → Type 0
Steady h h' b bs' x =
    (x ≡ b)
    ⊎ (Among x bs'
        × ((h'.blocks x).is_free ≡ (h.blocks x).is_free)
        × ((h'.blocks x).size ≡ (h.blocks x).size))

claim-Kept :
    (h h' : Heap) (b : ℕ) (bs' : List ℕ) (x : ℕ)
    → (h.blocks b).is_free ≡ true
    → Steady h h' b bs' x
    → Kept h (claim_block b h') b bs' x
claim-Kept h h' b bs' x free (inl e) = inl (rw e free)
claim-Kept h h' b bs' x free (inr (among, same_free, same_size)) =
    let mark = claim-is_free h' b x in
    let size_eq = claim-size h' b x in
    elim (Bool-cases (h.blocks x).is_free) [
      | inl e ↦ inl e
      | inr e ↦ inr ((λ p. cc), among, ground arith, size_eq ∙ same_size)
    ]

-- A free block of a valid heap that is given out.
claim-Granted :
    (h h' : Heap) (b size : ℕ) (bs bs' xs ys : List ℕ)
    → (h.blocks b).is_free ≡ true
    → size ≤ (h'.blocks b).size
    → Among b bs'
    → All (Steady h h' b bs') bs
    → Valid h' bs' (xs ++ (b ∷ ys))
    → Granted h bs size b (claim_block b h')
claim-Granted h h' b size bs bs' xs ys free large among steady valid =
    let mark = claim-is_free h' b b in
    let size_eq = claim-size h' b b in
    (
      bs',
      xs ++ ys,
      claim_block-Valid h' b bs' xs ys valid,
      among,
      ground arith,
      omega arith,
      All-map (Steady h h' b bs') (Kept h (claim_block b h') b bs') bs
          (λ x s. claim-Kept h h' b bs' x free s) steady,
    )

split-Steady :
    (b size : ℕ) (h : Heap) (us vs : List ℕ) (x : ℕ)
    → rest_of b size + header ≤ user_heap_end
    → Among x (us ++ (b ∷ vs))
    → x ≢ rest_of b size
    → x ≢ b
    → Steady h (split_block b size h) b (us ++ (b ∷ rest_of b size ∷ vs)) x
split-Steady b size h us vs x room among nn nb =
    let (free, size_eq) = split-same b size h x room nn nb in
    inr (Among-insert x b (rest_of b size) us vs among, free, size_eq)

-- The best block, split where it is large.
take_block-Granted :
    (h : Heap) (b size : ℕ) (us vs xs ys : List ℕ)
    → (h.blocks b).is_free ≡ true
    → size ≤ (h.blocks b).size
    → Valid h (us ++ (b ∷ vs)) (xs ++ (b ∷ ys))
    → Granted h (us ++ (b ∷ vs)) size b (take_block b size h).1
unfolding take_block
take_block-Granted h b size us vs xs ys free fits valid =
    let bs = us ++ (b ∷ vs) in
    let n = rest_of b size in
    let bs' = us ++ (b ∷ n ∷ vs) in
    let tiled = valid.0 in
    let inside =
      (All-right (Within h.blocks user_heap_start h.heap_curr) us (b ∷ vs) (
        Tiled-Within h.blocks 0 user_heap_start user_heap_start h.heap_curr bs (omega arith)
          tiled)).0 in
    let curr = valid.3 in
    let enough : (size + header + min_block_size) % 2 ^ 32 ≡ size + header + min_block_size =
      omega (arith, inside.1) in
    elim (Bool-cases (leb (size + header + min_block_size) (h.blocks b).size)) [
      | inl e ↦
          let large : size + header + min_block_size ≤ (h.blocks b).size = ground arith in
          let room : n + header ≤ user_heap_end = omega (arith, inside.1) in
          let ne = rest-apart h b size us vs (omega arith) tiled in
          rw (enough, e)
            (claim-Granted h (split_block b size h) b size bs bs' (n ∷ xs) ys free
              (omega (arith, split-sizes b size h room)) (Among-middle b us (n ∷ vs))
              (All-Among (Steady h (split_block b size h) b bs') bs (λ x among.
                elim (==_cases x b) [
                  | inl p ↦ inl p
                  | inr p ↦
                      split-Steady b size h us vs x room among
                        (Among-All (λ a. a ≢ n) x bs ne among) p
                ]))
              (split_block-Valid h b size us vs (xs ++ (b ∷ ys)) large valid))
      | inr e ↦
          rw (enough, e)
            (claim-Granted h h b size bs bs xs ys free fits (Among-middle b us vs)
              (All-Among (Steady h h b bs) bs (λ x among. inr (among, refl, refl))) valid)
    ]

-- The aligned size has room for the size.
align8_ge : (size : ℕ) → size < 2 ^ 32 - 7 → (size ≤ align8 size) × (align8 size ≤ size + 7)
align8_ge size small = (omega arith, omega arith)

take-pointer : (b size : ℕ) (h : Heap) → (take_block b size h).0 ≡ b + header
unfolding take_block
take-pointer b size h = refl

malloc-take :
    (fuel size r : ℕ) (h : Heap)
    → 0 < size
    → find_best_fit_free_block fuel (align8 size) h ≡ some r
    → malloc fuel size h
      ≡ some (if is_null r then make_new_block (align8 size) h else take_block r (align8 size) h)
unfolding malloc
malloc-take fuel size r h positive found =
    let there : (size == 0) ≡ false = ground arith in rw (found, there) refl

-- What a request ends in: no memory, and then no free block fits and the heap's end is too near for a
-- new one; or a block.
abbrev pub Answered : ℕ → ℕ → Heap → List ℕ → List ℕ → Type 0
Answered fuel size h bs fs =
    ((malloc fuel size h ≡ some (0, record h { errno = enomem }))
      × All (λ f. (h.blocks f).size < align8 size) fs
      × (user_heap_end ≤ h.heap_curr + align8 size + header))
    ⊎ ((b : ℕ) × (h' : Heap) × (malloc fuel size h ≡ some (b + header, h'))
        × Granted h bs (align8 size) b h')

malloc-new :
    (fuel size : ℕ) (h : Heap) (bs fs : List ℕ)
    → 0 < size
    → size < 0xFF00_0000
    → Valid h bs fs
    → find_best_fit_free_block fuel (align8 size) h ≡ some 0
    → All (Beaten h.blocks (align8 size) 0) fs
    → Answered fuel size h bs fs
malloc-new fuel size h bs fs positive small valid found beaten =
    let aligned = align8_ge size (omega arith) in
    let curr = valid.3 in
    let run : malloc fuel size h ≡ some (make_new_block (align8 size) h) =
      malloc-take fuel size 0 h positive found in
    let few =
      All-map (Beaten h.blocks (align8 size) 0) (λ f. (h.blocks f).size < align8 size) fs
        (λ f m. ground arith) beaten in
    elim (≤_cases user_heap_end (h.heap_curr + align8 size + header)) [
      | inl full ↦
          inl (run ∙ ap some (make_new_block-full (align8 size) h (omega arith) full), few, full)
      | inr fits ↦
          let (pointer, granted) = make_new_block-Granted (align8 size) h bs fs fits valid in
          inr (
            h.heap_curr,
            (make_new_block (align8 size) h).1,
            run ∙ ap some (ap (λ p. (p, (make_new_block (align8 size) h).1)) pointer),
            granted,
          )
    ]

malloc-best :
    (fuel size r : ℕ) (h : Heap) (bs fs : List ℕ)
    → 0 < size
    → Valid h bs fs
    → find_best_fit_free_block fuel (align8 size) h ≡ some r
    → Among r fs
    → align8 size ≤ (h.blocks r).size
    → Answered fuel size h bs fs
malloc-best fuel size r h bs fs positive valid found among fits =
    let (tiled, head, tail, curr, free, marked) = valid in
    let (among_bs, is_free) =
      Among-All (λ f. Among f bs × ((h.blocks f).is_free ≡ true)) r fs marked among in
    let above = Among-All InHeap r fs free.2 among in
    let there : is_null r ≡ false = ground (arith, above.0) in
    let run : malloc fuel size h ≡ some (take_block r (align8 size) h) =
      malloc-take fuel size r h positive found ∙ rw there refl in
    let (us, vs, e) = Among-halves r bs among_bs in
    let (xs, ys, g) = Among-halves r fs among in
    inr (
      r,
      (take_block r (align8 size) h).1,
      run
          ∙ ap some
              (ap (λ p. (p, (take_block r (align8 size) h).1)) (take-pointer r (align8 size) h)),
      subst (λ zs. Granted h zs (align8 size) r (take_block r (align8 size) h).1) (sym e)
          (take_block-Granted h r (align8 size) us vs xs ys is_free fits
            (subst (λ zs. Valid h zs (xs ++ (r ∷ ys))) e (subst (λ zs. Valid h bs zs) g valid))),
    )

-- On a valid heap, with fuel for its free list, a request of 1 to 0xFEFF_FFFF bytes ends. Either it
-- fails with ENOMEM and changes nothing else, and then no free block has the rounded size and the
-- heap's end is too near for a new one; or it returns the payload of a block that has the rounded size
-- and is now in use, and the heap is valid again. Every block that was in use is still in use, with its
-- extent, and is not the block returned.
pub malloc-Answered :
    (fuel size : ℕ) (h : Heap) (bs fs : List ℕ)
    → 0 < size
    → size < 0xFF00_0000
    → length fs < fuel
    → Valid h bs fs
    → Answered fuel size h bs fs
malloc-Answered fuel size h bs fs positive small enough valid =
    let aligned = align8_ge size (omega arith) in
    let (r, found, beaten, which) =
      find_best_fit_free_block-Beaten fuel (align8 size) h fs (omega arith) enough valid.4 in
    elim which [
      | inl none_fits ↦
          malloc-new fuel size h bs fs positive small valid (rw (sym none_fits) found)
            (subst (λ n. All (Beaten h.blocks (align8 size) n) fs) none_fits beaten)
      | inr (among, fits) ↦ malloc-best fuel size r h bs fs positive valid found among fits
    ]
