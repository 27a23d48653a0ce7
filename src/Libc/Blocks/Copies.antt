-- ===== src/Libc/Blocks/Copies.antt =====
-- What the copying and filling functions leave at every address.
use icariusos.Base.{
  ℕ, zero, suc, ◌+◌, ◌-◌, ◌%◌, ◌≤◌, ◌≡◌, ◌∙◌, arith, ◌&&◌, ◌⊎◌, inl, inr, ltb, leb, if◌then◌else◌,
}
use icariusos.Libc.Blocks.{Bytes, store, memset, memset_loop, memcpy, memmove, move_up, move_down}

-- The memory in which `count` bytes from `d` on are those that were at `s`.
abbrev pub moved : ℕ → ℕ → ℕ → Bytes → Bytes
moved d s count m a = if leb d a && ltb a (d + count) then m (s + (a - d)) else m a

move_up-at :
    (rounds i d s : ℕ) (m : Bytes) (a : ℕ)
    → d ≤ s
    → move_up rounds i d s m a ≡ moved (d + i) (s + i) rounds m a
unfolding move_up
move_up-at zero i d s m a le = ground arith
move_up-at (suc rounds) i d s m a le =
    let m' = store m (d + i) (m (s + i)) in move_up-at rounds (i + 1) d s m' a le ∙ grind arith

move_down-at :
    (count d s : ℕ) (m : Bytes) (a : ℕ) → s ≤ d → move_down count d s m a ≡ moved d s count m a
unfolding move_down
move_down-at zero d s m a le = ground arith
move_down-at (suc i) d s m a le =
    let m' = store m (d + i) (m (s + i)) in move_down-at i d s m' a le ∙ grind arith

-- `memmove` leaves at the destination the bytes that stood at the source, however the two overlap,
-- and changes no other byte.
pub memmove-at : (d s count : ℕ) (m : Bytes) (a : ℕ) → memmove d s count m a ≡ moved d s count m a
unfolding memmove
memmove-at d s count m a = grind (arith, move_up-at count 0 d s m a, move_down-at count d s m a)

-- `memcpy` does the same where the destination does not begin inside the source.
pub memcpy-at :
    (d s count : ℕ) (m : Bytes) (a : ℕ)
    → (d ≤ s) ⊎ (s + count ≤ d)
    → memcpy d s count m a ≡ moved d s count m a
unfolding memcpy
memcpy-at d s zero m a apart = ground arith
memcpy-at d s (suc n) m a apart =
    let m' = store m d (m s) in
    let apart' : (d + 1 ≤ s + 1) ⊎ (s + 1 + n ≤ d + 1) = elim apart [
      | inl below ↦ inl (omega arith)
      | inr above ↦ inr (omega arith)
    ] in
    memcpy-at (d + 1) (s + 1) n m' a apart' ∙ grind arith

memset_loop-at :
    (rounds i p value : ℕ) (m : Bytes) (a : ℕ)
    → memset_loop rounds i p value m a
      ≡ (if leb (p + i) a && ltb a (p + i + rounds) then value % 256 else m a)
unfolding memset_loop
memset_loop-at zero i p value m a = ground arith
memset_loop-at (suc rounds) i p value m a =
    memset_loop-at rounds (i + 1) p value (store m (p + i) (value % 256)) a ∙ ground arith

-- `memset` leaves the low byte of the value at each of the `num` addresses, and changes no other.
pub memset-at :
    (p value num : ℕ) (m : Bytes) (a : ℕ)
    → memset p value num m a ≡ (if leb p a && ltb a (p + num) then value % 256 else m a)
unfolding memset
memset-at p value num m a = grind (arith, memset_loop-at num 0 p value m a)
