-- ===== src/User/Heap/Removal.antt =====
-- A block that leaves the free list.
use icariusos.Base.{ℕ, ◌≡◌, ◌≢◌, ◌∙◌, arith, List, [], ◌∷◌, ◌++◌, All, All-map, All-zip, Distinct}
use icariusos.User.Heap.{Block, unlink}
use icariusos.User.Heap.Lists.{
  first, last_of, Linked, SameLinks, Linked-eq, unlink-prev, unlink-next,
}

pub All-right {ℓ} : (P : ℕ → Type ℓ) (xs ys : List ℕ) → All P (xs ++ ys) → All P ys
All-right P [] ys all = all
All-right P (x ∷ xs) ys (h, all) = All-right P xs ys all

pub All-left {ℓ} : (P : ℕ → Type ℓ) (xs ys : List ℕ) → All P (xs ++ ys) → All P xs
All-left P [] ys all = tt
All-left P (x ∷ xs) ys (h, all) = (h, All-left P xs ys all)

pub All-last {ℓ} : (P : ℕ → Type ℓ) (x : ℕ) (xs : List ℕ) → All P (x ∷ xs) → P (last_of x xs)
All-last P x [] (h, all) = h
All-last P x (y ∷ ys) (h, all) = All-last P y ys all

pub All-append {ℓ} : (P : ℕ → Type ℓ) (xs ys : List ℕ) → All P xs → All P ys → All P (xs ++ ys)
All-append P [] ys left right = right
All-append P (x ∷ xs) ys (h, left) right = (h, All-append P xs ys left right)

-- The list without the one in the middle.
pub All-without {ℓ} :
    (P : ℕ → Type ℓ) (xs : List ℕ) (b : ℕ) (ys : List ℕ) → All P (xs ++ (b ∷ ys)) → All P (xs ++ ys)
All-without P [] b ys (h, all) = all
All-without P (x ∷ xs) b ys (h, all) = (h, All-without P xs b ys all)

pub Distinct-without :
    (xs : List ℕ) (b : ℕ) (ys : List ℕ) → Distinct (xs ++ (b ∷ ys)) → Distinct (xs ++ ys)
Distinct-without [] b ys (alone, distinct) = distinct
Distinct-without (x ∷ xs) b ys (alone, distinct) =
    (All-without (λ y. x ≢ y) xs b ys alone, Distinct-without xs b ys distinct)

pub Linked-prev :
    (blocks : ℕ → Block) (prev b : ℕ) (xs ys : List ℕ)
    → Linked blocks prev (xs ++ (b ∷ ys))
    → (blocks b).prev_free ≡ last_of prev xs
Linked-prev blocks prev b [] ys (p, n, linked) = p
Linked-prev blocks prev b (x ∷ xs) ys (p, n, linked) = Linked-prev blocks x b xs ys linked

pub Linked-next :
    (blocks : ℕ → Block) (prev b : ℕ) (xs ys : List ℕ)
    → Linked blocks prev (xs ++ (b ∷ ys))
    → (blocks b).next_free ≡ first ys
Linked-next blocks prev b [] ys (p, n, linked) = n
Linked-next blocks prev b (x ∷ xs) ys (p, n, linked) = Linked-next blocks x b xs ys linked

unlink-rest :
    (blocks : ℕ → Block) (b : ℕ) (ys : List ℕ)
    → All (λ y. ((blocks b).prev_free ≢ y) × ((blocks b).next_free ≢ y)) ys
    → All (SameLinks blocks (unlink blocks b)) ys
unlink-rest blocks b [] apart = tt
unlink-rest blocks b (y ∷ ys) ((before, after), rest) = (
  (ground (arith, unlink-prev blocks b y), ground (arith, unlink-next blocks b y)),
  unlink-rest blocks b ys rest,
)

-- The first of the list goes.
unlink-first :
    (blocks : ℕ → Block) (prev b : ℕ) (ys : List ℕ)
    → Distinct ys
    → All (λ y. (y ≢ 0) × (prev ≢ y)) ys
    → (blocks b).prev_free ≡ prev
    → (blocks b).next_free ≡ first ys
    → Linked blocks b ys
    → Linked (unlink blocks b) prev ys
unlink-first blocks prev b [] distinct apart p n linked = tt
unlink-first blocks prev b (y ∷ ys) (alone, distinct) ((there, ne), rest) p n
      (before, after, linked) =
    (
      ground (arith, unlink-prev blocks b y),
      ground (arith, unlink-next blocks b y),
      Linked-eq blocks (unlink blocks b) y ys
          (unlink-rest blocks b ys (
            All-map (λ z. (y ≢ z) × ((z ≢ 0) × (prev ≢ z)))
              (λ z. ((blocks b).prev_free ≢ z) × ((blocks b).next_free ≢ z)) ys
              (λ z h. (rw p h.1.1, rw n h.0))
              (All-zip (λ z. y ≢ z) (λ z. (z ≢ 0) × (prev ≢ z)) ys alone rest)))
          linked,
    )

-- The link of the block in front, which goes past the one that is gone.
unlink-step :
    (blocks : ℕ → Block) (x b : ℕ) (xs ys : List ℕ)
    → x ≢ 0
    → All (λ y. x ≢ y) (xs ++ (b ∷ ys))
    → (blocks x).next_free ≡ first (xs ++ (b ∷ ys))
    → (blocks b).prev_free ≡ last_of x xs
    → (blocks b).next_free ≡ first ys
    → (unlink blocks b x).next_free ≡ first (xs ++ ys)
unlink-step blocks x b [] ys there alone link p n = ground (arith, unlink-next blocks b x)
unlink-step blocks x b (y ∷ xs) ys there alone link p n =
    let other : x ≢ last_of y xs =
      All-last (λ z. x ≢ z) y xs (All-left (λ z. x ≢ z) (y ∷ xs) (b ∷ ys) alone) in
    ground (arith, unlink-next blocks b x)

unlink-front :
    (blocks : ℕ → Block) (x b : ℕ) (xs ys : List ℕ)
    → All (λ y. x ≢ y) (xs ++ (b ∷ ys))
    → (blocks b).next_free ≡ first ys
    → (unlink blocks b x).prev_free ≡ (blocks x).prev_free
unlink-front blocks x b xs [] alone n = ground (arith, unlink-prev blocks b x)
unlink-front blocks x b xs (y ∷ ys) alone n =
    let (ne, (other, rest)) = All-right (λ z. x ≢ z) xs (b ∷ y ∷ ys) alone in
    ground (arith, unlink-prev blocks b x)

-- Unlinking a block of a linked list leaves the list without it.
pub unlink-Linked :
    (blocks : ℕ → Block) (prev b : ℕ) (xs ys : List ℕ)
    → Distinct (xs ++ (b ∷ ys))
    → All (λ y. (y ≢ 0) × (prev ≢ y)) (xs ++ (b ∷ ys))
    → Linked blocks prev (xs ++ (b ∷ ys))
    → Linked (unlink blocks b) prev (xs ++ ys)
unlink-Linked blocks prev b [] ys (alone, distinct) (h, apart) (p, n, linked) =
    unlink-first blocks prev b ys distinct apart p n linked
unlink-Linked blocks prev b (x ∷ xs) ys (alone, distinct) ((there, ne), apart) (p, n, linked) =
    let before = Linked-prev blocks x b xs ys linked in
    let after = Linked-next blocks x b xs ys linked in
    let nonzero =
      All-map (λ y. (y ≢ 0) × (prev ≢ y)) (λ y. y ≢ 0) (xs ++ (b ∷ ys)) (λ y h. h.0) apart in
    (
      unlink-front blocks x b xs ys alone after ∙ p,
      unlink-step blocks x b xs ys there alone n before after,
      unlink-Linked blocks x b xs ys distinct
          (All-zip (λ y. y ≢ 0) (λ y. x ≢ y) (xs ++ (b ∷ ys)) nonzero alone) linked,
    )
