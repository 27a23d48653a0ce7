-- ===== src/Base/Ring.antt =====
-- The cells of a circular buffer, as the queue that they hold. The byte FIFO, the ready queue and
-- the wait queue of the kernel all keep a write index, a read index and a count over a fixed array.
use Prim.Native.Nat.{ℕ, zero, suc, ◌+◌, ◌-◌, ◌%◌, ◌≤◌, ◌<◌}
use mathlib.Core.Path.{◌≡◌, refl, sym, ◌∙◌, ap, ap₂}
use mathlib.Core.Logic.{◌≢◌}
use mathlib.Core.List.{List, [], ◌∷◌, ◌++◌}
use native.Mathlib.Nat.{mod-add-mod, mod-eq_of_lt, mod-eq-sub-mod, add-zero}
use native.Mathlib.Omega.{arith}
use icariusos.Base.Tests.{ltb, if◌then◌else◌}
use icariusos.Base.Lists.{length, get_or, set, get_or-set_self, get_or-set_ne}

module _ {ℓ} {A : Type ℓ} (default : A) (cap : ℕ) where
  -- The `n` cells from index `h` on, oldest first, going round at `cap`.
  abbrev pub window : List A → ℕ → ℕ → List A
  window buf h zero = []
  window buf h (suc n) = get_or buf h default ∷ window buf ((h + 1) % cap) n

  pub length-window : (buf : List A) (h n : ℕ) → length (window buf h n) ≡ n
  length-window buf h zero = refl
  length-window buf h (suc n) = ap suc (length-window buf ((h + 1) % cap) n)

  -- The code tests and decrements a count, `window` matches on it.
  pub window_pos :
      (buf : List A) (h n : ℕ)
      → n ≢ 0
      → window buf h n ≡ get_or buf h default ∷ window buf ((h + 1) % cap) (n - 1)
  window_pos buf h zero p = absurd (p refl)
  window_pos buf h (suc n) p = ap (λ k. window buf h (suc k)) (omega arith)

-- An index that has gone round at most once.
round-once : (i cap : ℕ) → i < cap + cap → i % cap ≡ (if ltb i cap then i else i - cap)
round-once i cap h =
    let below : i < cap → i % cap ≡ i = mod-eq_of_lt in
    let above : cap ≤ i → i % cap ≡ i - cap =
      λ le. mod-eq-sub-mod le ∙ mod-eq_of_lt (omega arith) in
    ground (arith, below, above)

-- Fewer than `cap` steps round do not come back to the start.
ahead-ne : {cap h k : ℕ} → h < cap → suc k < cap → (h + suc k) % cap ≢ h
ahead-ne {cap} {h} {k} start few = ground (arith, round-once (h + suc k) cap)

-- The first of several steps may go round by itself.
first-step : (cap h n : ℕ) → ((h + 1) % cap + n) % cap ≡ (h + suc n) % cap
first-step cap h n = rw mod-add-mod (ap (λ i. i % cap) (omega arith))

module _ {ℓ} {A : Type ℓ} (default : A) (cap : ℕ) where
  -- A write just behind a window makes it longer by that cell.
  pub window-set_behind :
      (buf : List A) (x : A) (n h i : ℕ)
      → cap ≤ length buf
      → h < cap
      → n < cap
      → i ≡ (h + n) % cap
      → window default cap (set buf i x) h (suc n) ≡ window default cap buf h n ++ (x ∷ [])
  window-set_behind buf x zero h i fits start room at_end =
      let here : i ≡ h = rw (at_end, add-zero) (mod-eq_of_lt start) in
      ap (λ c. c ∷ []) (rw here (get_or-set_self buf h x default (omega arith)))
  window-set_behind buf x (suc n) h i fits start room at_end =
      let other : i ≢ h = rw at_end (ahead-ne start room) in
      let at_end' : i ≡ ((h + 1) % cap + n) % cap = at_end ∙ sym (first-step cap h n) in
      let rest =
        window-set_behind buf x n ((h + 1) % cap) i fits (omega arith) (omega arith) at_end' in
      rw (get_or-set_ne buf i h x default other, rest)

  -- A write to the cell that a reader has just passed leaves the window before it alone.
  pub window-set_passed :
      (buf : List A) (x : A) (n h j i : ℕ)
      → i < cap
      → suc j + n ≤ cap
      → h ≡ (i + suc j) % cap
      → window default cap (set buf i x) h n ≡ window default cap buf h n
  window-set_passed buf x zero h j i hi room e = refl
  window-set_passed buf x (suc n) h j i hi room e =
      let after : ((i + suc j) % cap + 1) % cap ≡ (i + suc (suc j)) % cap =
        rw mod-add-mod (ap (λ t. t % cap) (omega arith)) in
      ap₂ ◌∷◌
        (get_or-set_ne buf i h x default
          (λ same. ahead-ne {h = i} {k = j} hi (omega arith) (sym e ∙ sym same)))
        (window-set_passed buf x n ((h + 1) % cap) (suc j) i hi (omega arith)
          (ap (λ t. (t + 1) % cap) e ∙ after))
