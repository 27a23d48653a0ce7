-- ===== src/User/Heap/Claims.antt =====
-- The invariant of the heap, and its parts under a change of one part.
use icariusos.Base.{
  ℕ, ◌<◌, ◌≤◌, ◌≡◌, ◌≢◌, ◌⊎◌, sym, arith, true, false, List, [], ◌∷◌, ◌++◌, All, All-map, Distinct,
}
use icariusos.User.Heap.{Block, Heap, user_heap_start, user_heap_end, unlink, remove_from_free_list}
use icariusos.User.Heap.Lists.{first, last_of, SameLinks, Linked-eq, Among}
use icariusos.User.Heap.Search.{InHeap, FreeList}
use icariusos.User.Heap.Tiling.{Tiled, SamePlace}
use icariusos.User.Heap.Removal.{
  All-right, All-left, All-last, All-without, Distinct-without, Linked-prev, Linked-next,
  unlink-Linked,
}

-- The blocks of a heap in the order of their addresses, and its free blocks in the order of their
-- links: the blocks fill the memory up to the next new one.
abbrev pub Valid : Heap → List ℕ → List ℕ → Type 0
Valid h bs fs =
    Tiled h.blocks 0 user_heap_start h.heap_curr bs
    × (h.heap_head ≡ first bs)
    × (h.heap_tail ≡ last_of 0 bs)
    × (h.heap_curr < user_heap_end)
    × FreeList h fs
    × All (λ f. Among f bs × ((h.blocks f).is_free ≡ true)) fs

-- A block that was in use still is, with its extent, and it is not the one given out.
abbrev pub Kept : Heap → Heap → ℕ → List ℕ → ℕ → Type 0
Kept h h' b bs' x =
    ((h.blocks x).is_free ≡ true)
    ⊎ ((x ≢ b)
        × Among x bs'
        × ((h'.blocks x).is_free ≡ false)
        × ((h'.blocks x).size ≡ (h.blocks x).size))

-- A block is given out: it is in use and large enough, no block that was in use is touched, and the
-- heap is valid.
abbrev pub Granted : Heap → List ℕ → ℕ → ℕ → Heap → Type 0
Granted h bs size b h' =
    (bs' : List ℕ) × (fs' : List ℕ) × Valid h' bs' fs'
    × Among b bs'
    × ((h'.blocks b).is_free ≡ false)
    × (size ≤ (h'.blocks b).size)
    × All (Kept h h' b bs') bs

-- The block in the middle of a list of different ones is none of the others.
pub Distinct-middle :
    (xs : List ℕ) (b : ℕ) (ys : List ℕ) → Distinct (xs ++ (b ∷ ys)) → All (λ y. b ≢ y) (xs ++ ys)
Distinct-middle [] b ys (alone, distinct) = alone
Distinct-middle (x ∷ xs) b ys (alone, distinct) =
    let (ne, rest) = All-right (λ y. x ≢ y) xs (b ∷ ys) alone in
    ((λ e. ne (sym e)), Distinct-middle xs b ys distinct)

-- `unlink` changes nothing but the links of free blocks.
pub unlink-place : (blocks : ℕ → Block) (b a : ℕ) → SamePlace blocks (unlink blocks b) a
unfolding unlink
unlink-place blocks b a = (ground arith, ground arith, ground arith)

pub unlink-is_free :
    (blocks : ℕ → Block) (b a : ℕ) → (unlink blocks b a).is_free ≡ (blocks a).is_free
unfolding unlink
unlink-is_free blocks b a = ground arith

remove-head :
    (h : Heap) (b : ℕ) (xs ys : List ℕ)
    → All InHeap (xs ++ (b ∷ ys))
    → h.free_list ≡ first (xs ++ (b ∷ ys))
    → (h.blocks b).prev_free ≡ last_of 0 xs
    → (h.blocks b).next_free ≡ first ys
    → (remove_from_free_list b h).free_list ≡ first (xs ++ ys)
unfolding remove_from_free_list
remove-head h b [] ys (i, inside) head p n = ground (arith, i.0)
remove-head h b (x ∷ xs) ys (i, inside) head p n =
    let last = All-last InHeap x xs (All-left InHeap (x ∷ xs) (b ∷ ys) (i, inside)) in
    let here : b ≢ 0 = omega (arith, (All-right InHeap xs (b ∷ ys) inside).0.0) in
    ground (arith, last.0)

remove-links :
    (h : Heap) (b a : ℕ)
    → b ≢ 0
    → b ≢ a
    → SameLinks (unlink h.blocks b) (remove_from_free_list b h).blocks a
unfolding remove_from_free_list
remove-links h b a here ne = (ground arith, ground arith)

-- A free block leaves the free list, which keeps the others in their order.
pub remove_from_free_list-FreeList :
    (h : Heap) (b : ℕ) (xs ys : List ℕ)
    → FreeList h (xs ++ (b ∷ ys))
    → FreeList (remove_from_free_list b h) (xs ++ ys)
remove_from_free_list-FreeList h b xs ys (head, linked, inside, distinct) =
    let here : b ≢ 0 = omega (arith, (All-right InHeap xs (b ∷ ys) inside).0.0) in
    let apart =
      All-map InHeap (λ y. (y ≢ 0) × (0 ≢ y)) (xs ++ (b ∷ ys))
        (λ y i. (omega (arith, i.0), omega (arith, i.0))) inside in
    (
      remove-head h b xs ys inside head (Linked-prev h.blocks 0 b xs ys linked)
          (Linked-next h.blocks 0 b xs ys linked),
      Linked-eq (unlink h.blocks b) (remove_from_free_list b h).blocks 0 (xs ++ ys)
          (All-map (λ y. b ≢ y) (SameLinks (unlink h.blocks b) (remove_from_free_list b h).blocks)
            (xs ++ ys) (λ y ne. remove-links h b y here ne) (Distinct-middle xs b ys distinct))
          (unlink-Linked h.blocks 0 b xs ys distinct apart linked),
      All-without InHeap xs b ys inside,
      Distinct-without xs b ys distinct,
    )
