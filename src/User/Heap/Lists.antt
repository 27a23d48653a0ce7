-- ===== src/User/Heap/Lists.antt =====
-- The free list: a list of blocks that are linked both ways.
use icariusos.Base.{
  ℕ, ◌≡◌, ◌≢◌, ◌⊎◌, inl, inr, refl, sym, ap, ◌∙◌, arith, not, ◌&&◌, List, [], ◌∷◌, ◌++◌, All,
  All-map, All-zip, Distinct, ◌==◌, if◌then◌else◌,
}
use icariusos.User.Heap.{Block, is_null, push_free, unlink}

-- The first of a list of pointers, or NULL, and the last, or another.
abbrev pub first : List ℕ → ℕ
first [] = 0
first (x ∷ xs) = x

abbrev pub last_of : ℕ → List ℕ → ℕ
last_of d [] = d
last_of d (x ∷ xs) = last_of x xs

pub last_of-end : (d t : ℕ) (xs zs : List ℕ) → last_of d (xs ++ (t ∷ zs)) ≡ last_of t zs
last_of-end d t [] zs = refl
last_of-end d t (x ∷ xs) zs = last_of-end x t xs zs

-- A pointer of a list.
abbrev pub Among : ℕ → List ℕ → Type 0
Among b [] = ⊥
Among b (x ∷ xs) = (b ≡ x) ⊎ Among b xs

pub Among-All {ℓ} : (P : ℕ → Type ℓ) (b : ℕ) (xs : List ℕ) → All P xs → Among b xs → P b
Among-All P b [] all among = elim among [ ]
Among-All P b (x ∷ xs) (h, all) (inl e) = rw e h
Among-All P b (x ∷ xs) (h, all) (inr among) = Among-All P b xs all among

pub All-Among {ℓ} : (P : ℕ → Type ℓ) (xs : List ℕ) → ((x : ℕ) → Among x xs → P x) → All P xs
All-Among P [] f = tt
All-Among P (x ∷ xs) f = (f x (inl refl), All-Among P xs (λ y among. f y (inr among)))

-- The pointers in front of one of a list, and those behind it.
pub Among-halves :
    (b : ℕ) (xs : List ℕ) → Among b xs → (us : List ℕ) × (vs : List ℕ) × (xs ≡ us ++ (b ∷ vs))
Among-halves b [] among = elim among [ ]
Among-halves b (x ∷ xs) (inl e) = ([], xs, rw e refl)
Among-halves b (x ∷ xs) (inr among) =
    let (us, vs, e) = Among-halves b xs among in (x ∷ us, vs, ap (λ zs. x ∷ zs) e)

pub Among-middle : (b : ℕ) (us vs : List ℕ) → Among b (us ++ (b ∷ vs))
Among-middle b [] vs = inl refl
Among-middle b (u ∷ us) vs = inr (Among-middle b us vs)

-- One more behind a pointer of the list.
pub Among-insert :
    (a b n : ℕ) (us vs : List ℕ) → Among a (us ++ (b ∷ vs)) → Among a (us ++ (b ∷ n ∷ vs))
Among-insert a b n [] vs (inl e) = inl e
Among-insert a b n [] vs (inr among) = inr (inr among)
Among-insert a b n (u ∷ us) vs (inl e) = inl e
Among-insert a b n (u ∷ us) vs (inr among) = inr (Among-insert a b n us vs among)

pub Among-inserted : (b n : ℕ) (us vs : List ℕ) → Among n (us ++ (b ∷ n ∷ vs))
Among-inserted b n [] vs = inr (inl refl)
Among-inserted b n (u ∷ us) vs = inr (Among-inserted b n us vs)

-- The links of the blocks of a list, behind a block or NULL.
abbrev pub Linked : (ℕ → Block) → ℕ → List ℕ → Type 0
Linked blocks prev [] = Unit
Linked blocks prev (f ∷ fs) =
    ((blocks f).prev_free ≡ prev) × ((blocks f).next_free ≡ first fs) × Linked blocks f fs

-- The same links.
abbrev pub SameLinks : (ℕ → Block) → (ℕ → Block) → ℕ → Type 0
SameLinks blocks blocks' a =
    ((blocks' a).prev_free ≡ (blocks a).prev_free) × ((blocks' a).next_free ≡ (blocks a).next_free)

pub Linked-eq :
    (blocks blocks' : ℕ → Block) (prev : ℕ) (fs : List ℕ)
    → All (SameLinks blocks blocks') fs
    → Linked blocks prev fs
    → Linked blocks' prev fs
Linked-eq blocks blocks' prev [] same linked = tt
Linked-eq blocks blocks' prev (f ∷ fs) ((before, after), rest) (p, n, linked) =
    (before ∙ p, after ∙ n, Linked-eq blocks blocks' f fs rest linked)

-- A block in front.
push_free-links :
    (blocks : ℕ → Block) (free_list b a : ℕ)
    → a ≢ b
    → (a ≢ free_list) ⊎ (free_list ≡ 0)
    → SameLinks blocks (push_free blocks free_list b) a
unfolding push_free
push_free-links blocks free_list b a ne (inl other) = (ground arith, ground arith)
push_free-links blocks free_list b a ne (inr none) = (ground arith, ground arith)

pub push_free-Linked :
    (blocks : ℕ → Block) (b : ℕ) (fs : List ℕ)
    → All (λ f. (f ≢ 0) × (f ≢ b)) fs
    → Distinct fs
    → Linked blocks 0 fs
    → Linked (push_free blocks (first fs) b) 0 (b ∷ fs)
unfolding push_free
push_free-Linked blocks b [] apart distinct linked = (ground arith, ground arith, tt)
push_free-Linked blocks b (f ∷ fs) ((there, ne), rest) (alone, distinct) (p, n, linked) = (
  ground arith,
  ground arith,
  (
    ground arith,
    ground (arith, n),
    Linked-eq blocks (push_free blocks f b) f fs
        (All-map (λ x. (f ≢ x) × ((x ≢ 0) × (x ≢ b))) (SameLinks blocks (push_free blocks f b)) fs
          (λ x h. push_free-links blocks f b x h.1.1 (inl (λ e. h.0 (sym e))))
          (All-zip (λ x. f ≢ x) (λ x. (x ≢ 0) × (x ≢ b)) fs alone rest))
        linked,
  ),
)

-- What `unlink` does to the links.
pub unlink-prev :
    (blocks : ℕ → Block) (b a : ℕ)
    → (unlink blocks b a).prev_free ≡ (
        if not (is_null (blocks b).next_free) && (a == (blocks b).next_free)
        then (blocks b).prev_free
        else (blocks a).prev_free)
unfolding unlink
unlink-prev blocks b a = ground arith

pub unlink-next :
    (blocks : ℕ → Block) (b a : ℕ)
    → (unlink blocks b a).next_free ≡ (
        if not (is_null (blocks b).prev_free) && (a == (blocks b).prev_free)
        then (blocks b).next_free
        else (blocks a).next_free)
unfolding unlink
unlink-next blocks b a = ground arith
