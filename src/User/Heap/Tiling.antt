-- ===== src/User/Heap/Tiling.antt =====
-- The blocks of the heap fill its memory in the order of their addresses, each linked to the next.
use icariusos.Base.{ℕ, ◌+◌, ◌≤◌, ◌≡◌, refl, ◌∙◌, arith, List, [], ◌∷◌, ◌++◌, All}
use icariusos.User.Heap.{Block, header}
use icariusos.User.Heap.Lists.{first, last_of}

-- The blocks of a list fill the memory from an address to another.
abbrev pub Tiled : (ℕ → Block) → ℕ → ℕ → ℕ → List ℕ → Type 0
Tiled blocks prev at stop [] = at ≡ stop
Tiled blocks prev at stop (b ∷ bs) =
    (b ≡ at)
    × ((blocks b).prev ≡ prev)
    × ((blocks b).next ≡ first bs)
    × Tiled blocks b (b + header + (blocks b).size) stop bs

-- The same extent and neighbours.
abbrev pub SamePlace : (ℕ → Block) → (ℕ → Block) → ℕ → Type 0
SamePlace blocks blocks' a =
    ((blocks' a).size ≡ (blocks a).size)
    × ((blocks' a).next ≡ (blocks a).next)
    × ((blocks' a).prev ≡ (blocks a).prev)

-- A block lies in a stretch of memory.
abbrev pub Within : (ℕ → Block) → ℕ → ℕ → ℕ → Type 0
Within blocks at stop b = (at ≤ b) × (b + header + (blocks b).size ≤ stop)

pub Tiled-eq :
    (blocks blocks' : ℕ → Block) (prev at stop : ℕ) (bs : List ℕ)
    → All (SamePlace blocks blocks') bs
    → Tiled blocks prev at stop bs
    → Tiled blocks' prev at stop bs
Tiled-eq blocks blocks' prev at stop [] same tiled = tiled
Tiled-eq blocks blocks' prev at stop (b ∷ bs) ((size, next, before), rest) (here, p, n, tiled) = (
  here,
  before ∙ p,
  next ∙ n,
  rw size (Tiled-eq blocks blocks' b (b + header + (blocks b).size) stop bs rest tiled),
)

pub Tiled-upto :
    (blocks : ℕ → Block) (prev at stop : ℕ) (bs : List ℕ) → Tiled blocks prev at stop bs → at ≤ stop
Tiled-upto blocks prev at stop [] tiled = omega arith
Tiled-upto blocks prev at stop (b ∷ bs) (here, p, n, tiled) =
    let rest = Tiled-upto blocks b (b + header + (blocks b).size) stop bs tiled in omega arith

pub Tiled-Within :
    (blocks : ℕ → Block) (prev from at stop : ℕ) (bs : List ℕ)
    → from ≤ at
    → Tiled blocks prev at stop bs
    → All (Within blocks from stop) bs
Tiled-Within blocks prev from at stop [] le tiled = tt
Tiled-Within blocks prev from at stop (b ∷ bs) le (here, p, n, tiled) =
    let rest = Tiled-upto blocks b (b + header + (blocks b).size) stop bs tiled in
    (
      (omega arith, omega arith),
      Tiled-Within blocks b from (b + header + (blocks b).size) stop bs (omega arith) tiled,
    )

-- The blocks behind one of the list, and the block itself.
pub Tiled-right :
    (blocks : ℕ → Block) (prev at stop b : ℕ) (xs ys : List ℕ)
    → Tiled blocks prev at stop (xs ++ (b ∷ ys))
    → Tiled blocks (last_of prev xs) b stop (b ∷ ys)
Tiled-right blocks prev at stop b [] ys (here, p, n, tiled) = (refl, p, n, tiled)
Tiled-right blocks prev at stop b (x ∷ xs) ys (here, p, n, tiled) =
    Tiled-right blocks x (x + header + (blocks x).size) stop b xs ys tiled

-- The blocks in front of one of the list.
Tiled-at :
    (blocks : ℕ → Block) (prev at stop b : ℕ) (xs ys : List ℕ)
    → Tiled blocks prev at stop (xs ++ (b ∷ ys))
    → at ≤ b
Tiled-at blocks prev at stop b [] ys (here, p, n, tiled) = omega arith
Tiled-at blocks prev at stop b (x ∷ xs) ys (here, p, n, tiled) =
    let rest = Tiled-at blocks x (x + header + (blocks x).size) stop b xs ys tiled in omega arith

pub Tiled-left :
    (blocks : ℕ → Block) (prev from at stop b : ℕ) (xs ys : List ℕ)
    → from ≤ at
    → Tiled blocks prev at stop (xs ++ (b ∷ ys))
    → All (Within blocks from b) xs
Tiled-left blocks prev from at stop b [] ys le tiled = tt
Tiled-left blocks prev from at stop b (x ∷ xs) ys le (here, p, n, tiled) =
    let rest = Tiled-at blocks x (x + header + (blocks x).size) stop b xs ys tiled in
    (
      (omega arith, rest),
      Tiled-left blocks x from (x + header + (blocks x).size) stop b xs ys (omega arith) tiled,
    )

pub first-front : (b : ℕ) (xs ys zs : List ℕ) → first (xs ++ (b ∷ ys)) ≡ first (xs ++ (b ∷ zs))
first-front b [] ys zs = refl
first-front b (x ∷ xs) ys zs = refl

-- Blocks with the same places up to one of the list, which begins where it did.
pub Tiled-graft :
    (blocks blocks' : ℕ → Block) (prev at stop stop' b : ℕ) (xs ys zs : List ℕ)
    → All (SamePlace blocks blocks') xs
    → Tiled blocks prev at stop (xs ++ (b ∷ ys))
    → Tiled blocks' (last_of prev xs) b stop' (b ∷ zs)
    → Tiled blocks' prev at stop' (xs ++ (b ∷ zs))
Tiled-graft blocks blocks' prev at stop stop' b [] ys zs same (here, p, n, tiled)
      (here', p', n', tiled') =
    (here, p', n', tiled')
Tiled-graft blocks blocks' prev at stop stop' b (x ∷ xs) ys zs ((size, next, before), rest)
      (here, p, n, tiled) graft =
    (
      here,
      before ∙ p,
      next ∙ n ∙ first-front b xs ys zs,
      rw size (
          Tiled-graft blocks blocks' x (x + header + (blocks x).size) stop stop' b xs ys zs rest
            tiled graft),
    )

pub Tiled-first :
    (blocks : ℕ → Block) (prev at stop t : ℕ) (xs ys : List ℕ)
    → Tiled blocks prev at stop (xs ++ (t ∷ ys))
    → first (xs ++ (t ∷ ys)) ≡ at
Tiled-first blocks prev at stop t [] ys (here, p, n, tiled) = here
Tiled-first blocks prev at stop t (x ∷ xs) ys (here, p, n, tiled) = here
