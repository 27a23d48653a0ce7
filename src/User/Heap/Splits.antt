-- ===== src/User/Heap/Splits.antt =====
-- A free block that is split, the rest of it a free block of its own.
use icariusos.Base.{
  ℕ, ◌+◌, ◌-◌, ◌<◌, ◌≡◌, ◌≢◌, ◌⊎◌, inl, inr, refl, ◌∙◌, arith, true, not, ◌&&◌, List, [], ◌∷◌, ◌++◌,
  All, All-map, ◌==◌, if◌then◌else◌,
}
use icariusos.User.Heap.{Block, header, is_null, carve, push_free, insert_after}
use icariusos.User.Heap.Lists.{first, SameLinks}
use icariusos.User.Heap.Tiling.{
  Tiled, Tiled-eq, Tiled-left, Tiled-right, Tiled-graft, Tiled-Within, SamePlace, Within,
}

abbrev pub rest_of : ℕ → ℕ → ℕ
rest_of b size = b + header + size

pub carve-at :
    (blocks : ℕ → Block) (b n size : ℕ)
    → ((carve blocks b n size n).is_free ≡ true)
      × ((carve blocks b n size n).size ≡ (blocks b).size - size - header)
unfolding carve
carve-at blocks b n size = (ground arith, ground arith)

pub carve-links : (blocks : ℕ → Block) (b n size a : ℕ) → SameLinks blocks (carve blocks b n size) a
unfolding carve
carve-links blocks b n size a = (ground arith, ground arith)

pub carve-else : (blocks : ℕ → Block) (b n size a : ℕ) → a ≢ n → carve blocks b n size a ≡ blocks a
unfolding carve
carve-else blocks b n size a ne = ground arith

pub push-place : (blocks : ℕ → Block) (list n a : ℕ) → SamePlace blocks (push_free blocks list n) a
unfolding push_free
push-place blocks list n a = (ground arith, ground arith, ground arith)

pub push-is_free :
    (blocks : ℕ → Block) (list n a : ℕ) → (push_free blocks list n a).is_free ≡ (blocks a).is_free
unfolding push_free
push-is_free blocks list n a = ground arith

pub insert-links :
    (blocks : ℕ → Block) (b n size a : ℕ) → SameLinks blocks (insert_after blocks b n size) a
unfolding insert_after
insert-links blocks b n size a = (ground arith, ground arith)

pub insert-rest :
    (blocks : ℕ → Block) (b n size a : ℕ)
    → ((insert_after blocks b n size a).is_free ≡ (blocks a).is_free)
      × ((insert_after blocks b n size a).size ≡ (if a == b then size else (blocks a).size))
unfolding insert_after
insert-rest blocks b n size a = (ground arith, ground arith)

pub insert-next :
    (blocks : ℕ → Block) (b n size a : ℕ)
    → (insert_after blocks b n size a).next
      ≡ (if a == b then n else (if a == n then (blocks b).next else (blocks a).next))
unfolding insert_after
insert-next blocks b n size a = ground arith

insert-prev :
    (blocks : ℕ → Block) (b n size a : ℕ)
    → (insert_after blocks b n size a).prev ≡ (
        if not (is_null (blocks b).next) && (a == (blocks b).next)
        then n
        else (if a == n then b else (blocks a).prev))
unfolding insert_after
insert-prev blocks b n size a = ground arith

-- A block that is neither cut, nor new, nor the next one stays where it is.
insert-place :
    (blocks : ℕ → Block) (b n size a : ℕ)
    → a ≢ b
    → a ≢ n
    → (a ≢ (blocks b).next) ⊎ ((blocks b).next ≡ 0)
    → SamePlace blocks (insert_after blocks b n size) a
insert-place blocks b n size a nb nn other =
    let (free, size_eq) = insert-rest blocks b n size a in
    let next = insert-next blocks b n size a in
    let before = insert-prev blocks b n size a in (ground arith, ground arith, ground arith)

-- Where the link back leads.
insert-prev_else :
    (blocks : ℕ → Block) (b n size a at : ℕ)
    → a < at
    → ((blocks b).next ≡ 0) ⊎ ((blocks b).next ≡ at)
    → (insert_after blocks b n size a).prev ≡ (if a == n then b else (blocks a).prev)
insert-prev_else blocks b n size a at lt follows =
    let before = insert-prev blocks b n size a in ground arith

back-same :
    (blocks : ℕ → Block) (b n size a at : ℕ)
    → a < at
    → a ≢ n
    → ((blocks b).next ≡ 0) ⊎ ((blocks b).next ≡ at)
    → (insert_after blocks b n size a).prev ≡ (blocks a).prev
back-same blocks b n size a at lt ne follows =
    let before = insert-prev_else blocks b n size a at lt follows in ground arith

back-new :
    (blocks : ℕ → Block) (b n size at : ℕ)
    → n < at
    → ((blocks b).next ≡ 0) ⊎ ((blocks b).next ≡ at)
    → (insert_after blocks b n size n).prev ≡ b
back-new blocks b n size at lt follows =
    let before = insert-prev_else blocks b n size n at lt follows in ground arith

next-at :
    (blocks : ℕ → Block) (prev at stop : ℕ) (bs : List ℕ)
    → Tiled blocks prev at stop bs
    → (first bs ≡ 0) ⊎ (first bs ≡ at)
next-at blocks prev at stop [] tiled = inl refl
next-at blocks prev at stop (b ∷ bs) (here, p, n, tiled) = inr here

-- The blocks behind the new one.
insert-right :
    (blocks : ℕ → Block) (b n size at stop : ℕ) (vs : List ℕ)
    → b < n
    → n < at
    → (blocks b).next ≡ first vs
    → Tiled blocks b at stop vs
    → Tiled (insert_after blocks b n size) n at stop vs
insert-right blocks b n size at stop [] cut behind next tiled = tiled
insert-right blocks b n size at stop (v ∷ vs) cut behind next (here, p, q, tiled) =
    let blocks' = insert_after blocks b n size in
    let end = v + header + (blocks v).size in
    let (free, size_eq) = insert-rest blocks b n size v in
    let after = insert-next blocks b n size v in
    let before = insert-prev blocks b n size v in
    let same =
      All-map (Within blocks end stop) (SamePlace blocks blocks') vs
        (λ a inside.
          insert-place blocks b n size a (omega (arith, inside.0)) (omega (arith, inside.0))
            (inl (omega (arith, inside.0))))
        (Tiled-Within blocks v end end stop vs (omega arith) tiled) in
    let same_size : (blocks' v).size ≡ (blocks v).size = ground arith in
    (
      here,
      ground arith,
      ground arith,
      rw same_size (Tiled-eq blocks blocks' v end stop vs same tiled),
    )

-- The blocks in front of the one that is cut.
insert-left :
    (blocks : ℕ → Block) (prev b n size at stop : ℕ) (us vs : List ℕ)
    → b < n
    → Tiled blocks prev at stop (us ++ (b ∷ vs))
    → All (SamePlace blocks (insert_after blocks b n size)) us
insert-left blocks prev b n size at stop us vs cut tiled =
    let (here, p, next, tiled') = Tiled-right blocks prev at stop b us vs tiled in
    let follows = next-at blocks b (b + header + (blocks b).size) stop vs tiled' in
    All-map (Within blocks at b) (SamePlace blocks (insert_after blocks b n size)) us
      (λ a inside.
        insert-place blocks b n size a (omega (arith, inside.1)) (omega (arith, inside.1))
          (ground (arith, inside.1)))
      (Tiled-left blocks prev at at stop b us vs (omega arith) tiled)

-- A block cut in two: both stand where it did.
pub insert-Tiled :
    (blocks : ℕ → Block) (prev b n size at stop : ℕ) (us vs : List ℕ)
    → n ≡ rest_of b size
    → (blocks n).size + size + header ≡ (blocks b).size
    → Tiled blocks prev at stop (us ++ (b ∷ vs))
    → Tiled (insert_after blocks b n size) prev at stop (us ++ (b ∷ n ∷ vs))
insert-Tiled blocks prev b n size at stop us vs place sum tiled =
    let blocks' = insert_after blocks b n size in
    let (here, p, next, tiled') = Tiled-right blocks prev at stop b us vs tiled in
    let follows = next-at blocks b (b + header + (blocks b).size) stop vs tiled' in
    let right =
      insert-right blocks b n size (b + header + (blocks b).size) stop vs (omega arith)
        (omega arith) next tiled' in
    let (free, size_b) = insert-rest blocks b n size b in
    let (free_n, size_n) = insert-rest blocks b n size n in
    let next_b = insert-next blocks b n size b in
    let next_n = insert-next blocks b n size n in
    let follow : ((blocks b).next ≡ 0) ⊎ ((blocks b).next ≡ b + header + (blocks b).size) =
      elim follows [ inl e ↦ inl (next ∙ e) | inr e ↦ inr (next ∙ e) ] in
    let at_end = b + header + (blocks b).size in
    let before_b : (blocks' b).prev ≡ (blocks b).prev =
      back-same blocks b n size b at_end (omega arith) (omega arith) follow in
    let before_n = back-new blocks b n size at_end (omega arith) follow in
    let end : n + header + (blocks' n).size ≡ b + header + (blocks b).size = ground arith in
    Tiled-graft blocks blocks' prev at stop stop b us vs (n ∷ vs)
      (insert-left blocks prev b n size at stop us vs (omega arith) tiled) tiled
      (refl, before_b ∙ p, ground arith, (ground arith, before_n, ground arith, rw end right))
