-- ===== src/Libc/Strings/Reverses.antt =====
-- What `sreverse` leaves at every address.
use icariusos.Base.{
  ◌⊎◌, ℕ, zero, suc, ◌+◌, ◌-◌, ◌%◌, ◌^◌, ◌<◌, ◌≤◌, ◌≡◌, ◌≢◌, sym, ap, ◌∙◌, arith, ltb, leb,
  Bool-cases, inl, inr, ◌&&◌, some, if◌then◌else◌,
}
use icariusos.Libc.Blocks.{Bytes}
use icariusos.Libc.Strings.{swapped, sreverse_loop, sreverse}

-- The memory with the bytes from address `x` to address `y` in the other order.
abbrev pub flipped : ℕ → ℕ → Bytes → Bytes
flipped x y m a = if leb x a && leb a y then m (x + y - a) else m a

pub flipped-outside : (x y a : ℕ) (m : Bytes) → (a < x) ⊎ (y < a) → flipped x y m a ≡ m a
flipped-outside x y a m (inl below) = ground arith
flipped-outside x y a m (inr above) = ground arith

pub flipped-inside : (x y a : ℕ) (m : Bytes) → x ≤ a → a ≤ y → flipped x y m a ≡ m (x + y - a)
flipped-inside x y a m above below = ground arith

swapped-other : (x y a : ℕ) (m : Bytes) → a ≢ x → a ≢ y → swapped m x y a ≡ m a
swapped-other x y a m nx ny = ground arith

-- A swap of the two ends, then the bytes between them.
flipped-swapped :
    (x y x' y' a : ℕ) (m : Bytes)
    → x < y
    → x' ≡ x + 1
    → y' + 1 ≡ y
    → flipped x' y' (swapped m x y) a ≡ flipped x y m a
flipped-swapped x y x' y' a m lt ex ey = elim (Bool-cases (leb x' a && leb a y')) [
  | inl e ↦
      let above : x' ≤ a = ground arith in
      let below : a ≤ y' = ground arith in
      flipped-inside x' y' a (swapped m x y) above below
      ∙ swapped-other x y (x' + y' - a) m (λ e. omega arith) (λ e. omega arith)
      ∙ ap m (omega arith)
      ∙ sym (flipped-inside x y a m (omega arith) (omega arith))
  | inr n ↦ rw n (grind arith)
]

sreverse_loop-flipped :
    (fuel start end str : ℕ) (m : Bytes)
    → start ≤ end + 1
    → end + 1 < fuel + fuel + start
    → (r : Bytes) × ((sreverse_loop fuel start end str m ≡ some r)
        × ((a : ℕ) → r a ≡ flipped (str + start) (str + end) m a))
unfolding sreverse_loop
sreverse_loop-flipped zero start end str m ordered enough = absurd (omega arith)
sreverse_loop-flipped (suc fuel) start end str m ordered enough =
    elim (Bool-cases (ltb start end)) [
      | inl e ↦
          let m' = swapped m (str + start) (str + end) in
          let (r, (is, at)) =
            sreverse_loop-flipped fuel (start + 1) (end - 1) str m' (ground arith) (ground arith) in
          (
            r,
            (
              rw e is,
              λ a.
                  at a
                  ∙ flipped-swapped (str + start) (str + end) (str + (start + 1)) (str + (end - 1))
                      a m (ground arith) (omega arith) (ground arith),
            ),
          )
      | inr n ↦ (m, (rw n, λ a. grind arith))
    ]

-- With fuel for its characters, `sreverse` of a text that is not empty puts the characters into the
-- other order in place, and changes no other byte.
pub sreverse-flipped :
    (fuel str length : ℕ) (m : Bytes)
    → 0 < length
    → length < 2 ^ 32
    → length ≤ fuel
    → (r : Bytes) × ((sreverse fuel str length m ≡ some r)
        × ((a : ℕ) → r a ≡ flipped (str + 0) (str + (length - 1)) m a))
unfolding sreverse
sreverse-flipped fuel str length m some_char fits enough =
    let last : (length + (2 ^ 32 - 1)) % 2 ^ 32 ≡ length - 1 = omega arith in
    rw last (sreverse_loop-flipped fuel 0 (length - 1) str m (omega arith) (omega arith))
