-- ===== src/User/Heap/Grants.antt =====
-- A free block that is given out.
use icariusos.Base.{
  ℕ, ◌≡◌, ◌≢◌, refl, ◌∙◌, arith, true, false, List, ◌∷◌, ◌++◌, All-map, All-zip, ◌==◌,
  if◌then◌else◌,
}
use icariusos.User.Heap.{Heap, user_heap_start, unlink, remove_from_free_list, claim_block}
use icariusos.User.Heap.Lists.{SameLinks, Linked-eq, Among, All-Among}
use icariusos.User.Heap.Search.{FreeList}
use icariusos.User.Heap.Tiling.{Tiled-eq, SamePlace}
use icariusos.User.Heap.Removal.{All-without}
use icariusos.User.Heap.Claims.{Valid, Distinct-middle, remove_from_free_list-FreeList}

claim-place : (h : Heap) (b a : ℕ) → SamePlace h.blocks (claim_block b h).blocks a
unfolding claim_block remove_from_free_list unlink
claim-place h b a = (ground arith, ground arith, ground arith)

claim-links :
    (h : Heap) (b a : ℕ) → SameLinks (remove_from_free_list b h).blocks (claim_block b h).blocks a
unfolding claim_block
claim-links h b a = (ground arith, ground arith)

claim-ends :
    (h : Heap) (b : ℕ)
    → ((claim_block b h).heap_head ≡ h.heap_head)
      × ((claim_block b h).heap_tail ≡ h.heap_tail)
      × ((claim_block b h).heap_curr ≡ h.heap_curr)
unfolding claim_block remove_from_free_list
claim-ends h b = (ground arith, ground arith, ground arith)

pub claim-is_free :
    (h : Heap) (b a : ℕ)
    → ((claim_block b h).blocks a).is_free ≡ (if a == b then false else (h.blocks a).is_free)
unfolding claim_block remove_from_free_list unlink
claim-is_free h b a = ground arith

claim-free_list :
    (h : Heap) (b : ℕ) → (claim_block b h).free_list ≡ (remove_from_free_list b h).free_list
unfolding claim_block
claim-free_list h b = refl

pub claim-size : (h : Heap) (b a : ℕ) → ((claim_block b h).blocks a).size ≡ (h.blocks a).size
claim-size h b a = (claim-place h b a).0

claim-FreeList :
    (h : Heap) (b : ℕ) (xs ys : List ℕ)
    → FreeList h (xs ++ (b ∷ ys))
    → FreeList (claim_block b h) (xs ++ ys)
claim-FreeList h b xs ys free =
    let (head, linked, inside, distinct) = remove_from_free_list-FreeList h b xs ys free in
    (
      claim-free_list h b ∙ head,
      Linked-eq (remove_from_free_list b h).blocks (claim_block b h).blocks 0 (xs ++ ys)
          (All-Among (SameLinks (remove_from_free_list b h).blocks (claim_block b h).blocks)
            (xs ++ ys) (λ a among. claim-links h b a))
          linked,
      inside,
      distinct,
    )

-- Giving out a free block keeps the heap valid: the block leaves the free list and nothing moves.
pub claim_block-Valid :
    (h : Heap) (b : ℕ) (bs xs ys : List ℕ)
    → Valid h bs (xs ++ (b ∷ ys))
    → Valid (claim_block b h) bs (xs ++ ys)
claim_block-Valid h b bs xs ys (tiled, head, tail, curr, free, marked) =
    let (head', tail', curr') = claim-ends h b in
    let same =
      All-Among (SamePlace h.blocks (claim_block b h).blocks) bs (λ a among. claim-place h b a) in
    let apart = Distinct-middle xs b ys free.3 in
    (
      rw curr'
          (Tiled-eq h.blocks (claim_block b h).blocks 0 user_heap_start h.heap_curr bs same tiled),
      head' ∙ head,
      tail' ∙ tail,
      rw curr' curr,
      claim-FreeList h b xs ys free,
      All-map (λ f. (b ≢ f) × (Among f bs × ((h.blocks f).is_free ≡ true)))
          (λ f. Among f bs × (((claim_block b h).blocks f).is_free ≡ true)) (xs ++ ys)
          (λ f m. (m.1.0, ground (arith, claim-is_free h b f)))
          (All-zip (λ f. b ≢ f) (λ f. Among f bs × ((h.blocks f).is_free ≡ true)) (xs ++ ys) apart
            (All-without (λ f. Among f bs × ((h.blocks f).is_free ≡ true)) xs b ys marked)),
    )
