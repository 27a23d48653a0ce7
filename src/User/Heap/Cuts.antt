-- ===== src/User/Heap/Cuts.antt =====
-- A split keeps the heap valid.
use icariusos.Base.{
  ℕ, ◌+◌, ◌<◌, ◌≤◌, ◌≡◌, ◌≢◌, refl, sym, ◌∙◌, ap, arith, true, false, List, [], ◌∷◌, ◌++◌, All,
  All-map, All-zip, if◌then◌else◌,
}
use mathlib.Core.Path.{subst}
use icariusos.User.Heap.{
  Block, Heap, header, min_block_size, user_heap_start, user_heap_end, is_null, push_free, carve,
  insert_after, split_block,
}
use icariusos.User.Heap.Lists.{
  first, last_of, Linked, SameLinks, Linked-eq, push_free-Linked, Among, Among-All, All-Among,
  Among-insert, Among-inserted, last_of-end,
}
use icariusos.User.Heap.Search.{InHeap, FreeList}
use icariusos.User.Heap.Tiling.{
  Tiled, Tiled-eq, Tiled-left, Tiled-right, Tiled-Within, SamePlace, Within, first-front,
}
use icariusos.User.Heap.Removal.{All-right, All-append}
use icariusos.User.Heap.Claims.{Valid}
use icariusos.User.Heap.Splits.{
  rest_of, carve-at, carve-links, carve-else, push-place, push-is_free, insert-links, insert-rest,
  insert-next, insert-Tiled,
}

abbrev carved : ℕ → ℕ → Heap → ℕ → Block
carved b size h = carve h.blocks b (rest_of b size) size

abbrev pushed : ℕ → ℕ → Heap → ℕ → Block
pushed b size h = push_free (carved b size h) h.free_list (rest_of b size)

abbrev cut : ℕ → ℕ → Heap → ℕ → Block
cut b size h = insert_after (pushed b size h) b (rest_of b size) size

split-run :
    (b size : ℕ) (h : Heap)
    → rest_of b size + header ≤ user_heap_end
    → split_block b size h ≡ record h {
      blocks = cut b size h;
      free_list = rest_of b size;
      heap_tail =
          if is_null (cut b size h (rest_of b size)).next then rest_of b size else h.heap_tail;
    }
unfolding split_block
split-run b size h room = ground arith

pushed-same :
    (b size : ℕ) (h : Heap) (a : ℕ)
    → a ≢ rest_of b size
    → SamePlace h.blocks (pushed b size h) a × ((pushed b size h a).is_free ≡ (h.blocks a).is_free)
pushed-same b size h a ne =
    let n = rest_of b size in
    let e = carve-else h.blocks b n size a ne in
    let (s, q, p) = push-place (carved b size h) h.free_list n a in
    (
      (s ∙ ap (λ k. k.size) e, q ∙ ap (λ k. k.next) e, p ∙ ap (λ k. k.prev) e),
      push-is_free (carved b size h) h.free_list n a ∙ ap (λ k. k.is_free) e,
    )

cut-same :
    (b size : ℕ) (h : Heap) (a : ℕ)
    → a ≢ rest_of b size
    → a ≢ b
    → ((cut b size h a).is_free ≡ (h.blocks a).is_free)
      × ((cut b size h a).size ≡ (h.blocks a).size)
cut-same b size h a nn nb =
    let n = rest_of b size in
    let ((s, q, p), f) = pushed-same b size h a nn in
    let (free, size_eq) = insert-rest (pushed b size h) b n size a in (free ∙ f, ground arith)

-- No block of the heap begins where the rest of one does.
pub rest-apart :
    (h : Heap) (b size : ℕ) (us vs : List ℕ)
    → size + header ≤ (h.blocks b).size
    → Tiled h.blocks 0 user_heap_start h.heap_curr (us ++ (b ∷ vs))
    → All (λ a. a ≢ rest_of b size) (us ++ (b ∷ vs))
rest-apart h b size us vs large tiled =
    let n = rest_of b size in
    let (here, p, next, tiled') =
      Tiled-right h.blocks 0 user_heap_start h.heap_curr b us vs tiled in
    let end = b + header + (h.blocks b).size in
    All-append (λ a. a ≢ n) us (b ∷ vs)
      (All-map (Within h.blocks user_heap_start b) (λ a. a ≢ n) us (λ a i. omega (arith, i.1))
        (Tiled-left h.blocks 0 user_heap_start user_heap_start h.heap_curr b us vs (omega arith)
          tiled))
      (
        omega arith,
        All-map (Within h.blocks end h.heap_curr) (λ a. a ≢ n) vs (λ a i. omega (arith, i.0))
            (Tiled-Within h.blocks b end end h.heap_curr vs (omega arith) tiled'),
      )

cut-Tiled :
    (h : Heap) (b size : ℕ) (us vs : List ℕ)
    → size + header ≤ (h.blocks b).size
    → Tiled h.blocks 0 user_heap_start h.heap_curr (us ++ (b ∷ vs))
    → Tiled (cut b size h) 0 user_heap_start h.heap_curr (us ++ (b ∷ rest_of b size ∷ vs))
cut-Tiled h b size us vs large tiled =
    let n = rest_of b size in
    let same =
      All-map (λ a. a ≢ n) (SamePlace h.blocks (pushed b size h)) (us ++ (b ∷ vs))
        (λ a ne. (pushed-same b size h a ne).0) (rest-apart h b size us vs large tiled) in
    let (size_n, next_n, prev_n) = push-place (carved b size h) h.free_list n n in
    let (free_c, size_c) = carve-at h.blocks b n size in
    let ((size_b, next_b, prev_b), free_b) = pushed-same b size h b (omega arith) in
    insert-Tiled (pushed b size h) 0 b n size user_heap_start h.heap_curr us vs refl (omega arith) (
      Tiled-eq h.blocks (pushed b size h) 0 user_heap_start h.heap_curr (us ++ (b ∷ vs)) same tiled)

cut-FreeList :
    (h : Heap) (b size : ℕ) (fs : List ℕ)
    → 0 < b
    → rest_of b size + header ≤ user_heap_end
    → user_heap_start ≤ b
    → All (λ a. a ≢ rest_of b size) fs
    → FreeList h fs
    → FreeList (split_block b size h) (rest_of b size ∷ fs)
cut-FreeList h b size fs there room above apart (head, linked, inside, distinct) =
    let n = rest_of b size in
    let run = split-run b size h room in
    let links =
      Linked-eq h.blocks (carved b size h) 0 fs
        (All-Among (SameLinks h.blocks (carved b size h)) fs
          (λ a among. carve-links h.blocks b n size a))
        linked in
    let clear =
      All-map (λ a. InHeap a × (a ≢ n)) (λ a. (a ≢ 0) × (a ≢ n)) fs
        (λ a k. (omega (arith, k.0.0), k.1)) (All-zip InHeap (λ a. a ≢ n) fs inside apart) in
    let front = push_free-Linked (carved b size h) n fs clear distinct links in
    (
      ap (λ k. k.free_list) run,
      Linked-eq (pushed b size h) (split_block b size h).blocks 0 (n ∷ fs)
          (All-Among (SameLinks (pushed b size h) (split_block b size h).blocks) (n ∷ fs)
            (λ a among. rw run (insert-links (pushed b size h) b n size a)))
          (subst (λ l. Linked (push_free (carved b size h) l n) 0 (n ∷ fs)) (sym head) front),
      ((omega arith, omega arith), inside),
      (All-map (λ a. a ≢ n) (λ a. n ≢ a) fs (λ a ne e. ne (sym e)) apart, distinct),
    )

pub split-free :
    (b size : ℕ) (h : Heap) (a : ℕ)
    → rest_of b size + header ≤ user_heap_end
    → a ≢ rest_of b size
    → ((split_block b size h).blocks a).is_free ≡ (h.blocks a).is_free
split-free b size h a room ne =
    rw (split-run b size h room)
      ((insert-rest (pushed b size h) b (rest_of b size) size a).0 ∙ (pushed-same b size h a ne).1)

pub split-sizes :
    (b size : ℕ) (h : Heap)
    → rest_of b size + header ≤ user_heap_end
    → ((split_block b size h).blocks b).size ≡ size
split-sizes b size h room =
    let rest = (insert-rest (pushed b size h) b (rest_of b size) size b).1 in
    rw (split-run b size h room) (ground arith)

pub split-same :
    (b size : ℕ) (h : Heap) (a : ℕ)
    → rest_of b size + header ≤ user_heap_end
    → a ≢ rest_of b size
    → a ≢ b
    → (((split_block b size h).blocks a).is_free ≡ (h.blocks a).is_free)
      × (((split_block b size h).blocks a).size ≡ (h.blocks a).size)
split-same b size h a room nn nb = rw (split-run b size h room) (cut-same b size h a nn nb)

split-new :
    (b size : ℕ) (h : Heap)
    → rest_of b size + header ≤ user_heap_end
    → ((split_block b size h).blocks (rest_of b size)).is_free ≡ true
split-new b size h room =
    let n = rest_of b size in
    rw (split-run b size h room) (
      (insert-rest (pushed b size h) b n size n).0
      ∙ push-is_free (carved b size h) h.free_list n n
      ∙ (carve-at h.blocks b n size).0)

next-cut :
    (h : Heap) (b size : ℕ) (us vs : List ℕ)
    → Tiled h.blocks 0 user_heap_start h.heap_curr (us ++ (b ∷ vs))
    → (cut b size h (rest_of b size)).next ≡ first vs
next-cut h b size us vs tiled =
    let n = rest_of b size in
    let (here, p, next, tiled') =
      Tiled-right h.blocks 0 user_heap_start h.heap_curr b us vs tiled in
    let link = insert-next (pushed b size h) b n size n in
    let ((s, q, back), f) = pushed-same b size h b (omega arith) in ground arith

last-cut :
    (h : Heap) (b size : ℕ) (us vs : List ℕ)
    → rest_of b size + header ≤ user_heap_end
    → Tiled h.blocks 0 user_heap_start h.heap_curr (us ++ (b ∷ vs))
    → h.heap_tail ≡ last_of 0 (us ++ (b ∷ vs))
    → (split_block b size h).heap_tail ≡ last_of 0 (us ++ (b ∷ rest_of b size ∷ vs))
last-cut h b size us [] room tiled tail =
    rw (split-run b size h room, next-cut h b size us [] tiled)
      (sym (last_of-end 0 b us (rest_of b size ∷ [])))
last-cut h b size us (v ∷ vs) room tiled tail =
    let (here, p, next, (v_at, q1, q2, q3)) =
      Tiled-right h.blocks 0 user_heap_start h.heap_curr b us (v ∷ vs) tiled in
    let there : is_null v ≡ false = ground arith in
    rw (split-run b size h room, next-cut h b size us (v ∷ vs) tiled, there)
      (tail ∙ last_of-end 0 b us (v ∷ vs) ∙ sym (last_of-end 0 b us (rest_of b size ∷ v ∷ vs)))

-- Splitting a free block keeps the heap valid: the rest stands behind it, and first in the free list.
pub split_block-Valid :
    (h : Heap) (b size : ℕ) (us vs fs : List ℕ)
    → size + header + min_block_size ≤ (h.blocks b).size
    → Valid h (us ++ (b ∷ vs)) fs
    → Valid (split_block b size h) (us ++ (b ∷ rest_of b size ∷ vs)) (rest_of b size ∷ fs)
split_block-Valid h b size us vs fs large (tiled, head, tail, curr, free, marked) =
    let n = rest_of b size in
    let bs = us ++ (b ∷ vs) in
    let bs' = us ++ (b ∷ n ∷ vs) in
    let inside =
      (All-right (Within h.blocks user_heap_start h.heap_curr) us (b ∷ vs) (
        Tiled-Within h.blocks 0 user_heap_start user_heap_start h.heap_curr bs (omega arith)
          tiled)).0 in
    let room : n + header ≤ user_heap_end = omega (arith, inside.1) in
    let run = split-run b size h room in
    let ne = rest-apart h b size us vs (omega arith) tiled in
    let off =
      All-map (λ f. Among f bs × ((h.blocks f).is_free ≡ true)) (λ f. f ≢ n) fs
        (λ f m. Among-All (λ a. a ≢ n) f bs ne m.0) marked in
    let marked' =
      All-map (λ f. (f ≢ n) × (Among f bs × ((h.blocks f).is_free ≡ true)))
        (λ f. Among f bs' × (((split_block b size h).blocks f).is_free ≡ true)) fs
        (λ f m. (Among-insert f b n us vs m.1.0, split-free b size h f room m.0 ∙ m.1.1))
        (All-zip (λ f. f ≢ n) (λ f. Among f bs × ((h.blocks f).is_free ≡ true)) fs off marked) in
    (
      rw run (cut-Tiled h b size us vs (omega arith) tiled),
      ap (λ k. k.heap_head) run ∙ head ∙ first-front b us vs (n ∷ vs),
      last-cut h b size us vs room tiled tail,
      rw run curr,
      cut-FreeList h b size fs (omega (arith, inside.0)) room inside.0 off free,
      ((Among-inserted b n us vs, split-new b size h room), marked'),
    )
