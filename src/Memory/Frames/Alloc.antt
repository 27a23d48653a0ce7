-- ===== src/Memory/Frames/Alloc.antt =====
-- `pfa_alloc` takes the first free frame.
use icariusos.Base.{
  ℕ, zero, suc, ◌+◌, ◌*◌, ◌<◌, ◌≤◌, ◌≡◌, ◌≢◌, ◌⊎◌, inl, inr, refl, ap, sym, ◌∙◌, arith, true, false,
  List, Bool-cases, ◌==◌, if◌then◌else◌,
}
use native.Mathlib.Decide.{ℕ_discrete}
use icariusos.Memory.Frames.{page_size, max_frames, pfa_set, alloc_from, pfa_alloc}
use icariusos.Memory.Frames.Bitmap.{IsBitmap, used, pfa_test-used, used-pfa_set}

-- `f` is the first free frame from `start` on.
pub record IsFirst (b : List ℕ) (start f : ℕ) : Type 0 where
  pub from : start ≤ f
  pub below : f < max_frames
  pub free : used b f ≡ false
  pub first : (g : ℕ) → start ≤ g → g < f → used b g ≡ true

-- The two outcomes: the address of the first free frame, which is marked, or 0 when none is free.
abbrev pub Outcome : List ℕ → ℕ → ℕ × List ℕ → Type 0
Outcome b start r =
    ((f : ℕ) × IsFirst b start f × (r ≡ (f * page_size, pfa_set b f)))
    ⊎ (((g : ℕ) → start ≤ g → g < max_frames → used b g ≡ true) × (r ≡ (0, b)))

alloc_from-free :
    (b : List ℕ) (rounds f : ℕ)
    → f < max_frames
    → used b f ≡ false
    → alloc_from b (suc rounds) f ≡ (f * page_size, pfa_set b f)
unfolding alloc_from
alloc_from-free b rounds f h free =
    rw (pfa_test-used b f, free) (ap (λ (a : ℕ). (a, pfa_set b f)) (omega arith))

alloc_from-used :
    (b : List ℕ) (rounds f : ℕ)
    → used b f ≡ true
    → alloc_from b (suc rounds) f ≡ alloc_from b rounds (f + 1)
unfolding alloc_from
alloc_from-used b rounds f u = rw (pfa_test-used b f, u)

alloc_from-none : (b : List ℕ) (start : ℕ) → alloc_from b zero start ≡ (0, b)
unfolding alloc_from
alloc_from-none b start = refl

alloc_from-Outcome :
    (b : List ℕ) (rounds start : ℕ)
    → start + rounds ≡ max_frames
    → Outcome b start (alloc_from b rounds start)
alloc_from-Outcome b zero start e = inr (λ g lo hi. absurd (omega arith), alloc_from-none b start)
alloc_from-Outcome b (suc rounds) start e = elim (Bool-cases (used b start)) [
  | inr free ↦ inl (
    start,
    record {
      from = omega arith;
      below = omega arith;
      free = free;
      first = λ g lo hi. absurd (omega arith);
    },
    alloc_from-free b rounds start (omega arith) free,
  )
  | inl u ↦
      rw (alloc_from-used b rounds start u)
        (go (alloc_from-Outcome b rounds (start + 1) (omega arith)) u)
]
  where
    covers :
        (h : ℕ)
        → used b start ≡ true
        → ((g : ℕ) → start + 1 ≤ g → g < h → used b g ≡ true)
        → (g : ℕ) → start ≤ g
        → g < h
        → used b g ≡ true
    covers h u later g lo hi = elim (ℕ_discrete start g) [
      | yes same ↦ rw (← same) u
      | no differ ↦ later g (omega arith) hi
    ]

    go : {r : ℕ × List ℕ} → Outcome b (start + 1) r → used b start ≡ true → Outcome b start r
    go (inl (f, is, e)) u = inl (
      f,
      record {
        from = omega (arith, is.from);
        below = is.below;
        free = is.free;
        first = covers f u is.first;
      },
      e,
    )
    go (inr (all, e)) u = inr (covers max_frames u all, e)

-- `pfa_alloc` takes the first free frame, marks it and returns its address; with no free frame it
-- returns 0 and changes nothing.
pub pfa_alloc-Outcome : (b : List ℕ) → Outcome b 0 (pfa_alloc b)
unfolding pfa_alloc
pfa_alloc-Outcome b = alloc_from-Outcome b max_frames 0 refl

-- A frame is taken whenever one is free, so the returned frame was free before and is used after,
-- and no other frame changes.
pub pfa_alloc-fresh :
    (b : List ℕ) (g : ℕ)
    → IsBitmap b
    → g < max_frames
    → used b g ≡ false
    → let (addr, b') = pfa_alloc b in
      (f : ℕ) × (addr ≡ f * page_size)
      × (f < max_frames)
      × (used b f ≡ false)
      × ((other : ℕ) → used b' other ≡ (if other == f then true else used b other))
pfa_alloc-fresh b g v h free = go (pfa_alloc-Outcome b)
  where
    go :
        {r : ℕ × List ℕ}
        → Outcome b 0 r
        → (f : ℕ) × (r.0 ≡ f * page_size)
          × (f < max_frames)
          × (used b f ≡ false)
          × ((other : ℕ) → used r.1 other ≡ (if other == f then true else used b other))
    go (inl (f, is, e)) =
        (f, rw e, is.below, is.free, λ other. rw e (used-pfa_set b v f is.below other))
    go (inr (all, e)) = cc (all g (omega arith) h)

-- Two allocations in a row never return one frame twice: where both succeed the addresses differ.
pub pfa_alloc-ne :
    (b : List ℕ)
    → IsBitmap b
    → (pfa_alloc b).0 ≢ 0
    → (pfa_alloc (pfa_alloc b).1).0 ≢ 0
    → (pfa_alloc b).0 ≢ (pfa_alloc (pfa_alloc b).1).0
pfa_alloc-ne b v n n' = go (pfa_alloc-Outcome b) n (pfa_alloc-Outcome (pfa_alloc b).1) n'
  where
    go : {r r' : ℕ × List ℕ} → Outcome b 0 r → r.0 ≢ 0 → Outcome r.1 0 r' → r'.0 ≢ 0 → r.0 ≢ r'.0
    go (inr (all, e)) n o n' eq = n (ap (λ t. t.0) e)
    go (inl (f, is, e)) n (inr (all, e')) n' eq = n' (ap (λ t. t.0) e')
    go (inl (f, is, e)) n (inl (f', is', e')) n' eq =
        let same : f ≡ f' =
          omega (arith, ap (λ (t : ℕ × List ℕ). t.0) e, ap (λ (t : ℕ × List ℕ). t.0) e') in
        let free : used (pfa_set b f) f' ≡ false =
          ap (λ (t : ℕ × List ℕ). used t.1 f') (sym e) ∙ is'.free in
        ground (arith, used-pfa_set b v f is.below f')

-- When frame 0 is the first free one, its address is the 0 that also says that no frame is free;
-- the frame is marked all the same.
pub pfa_alloc-frame_zero : (b : List ℕ) → used b 0 ≡ false → pfa_alloc b ≡ (0, pfa_set b 0)
unfolding pfa_alloc
pfa_alloc-frame_zero b free = alloc_from-free b 1023 0 (omega arith) free
