-- ===== src/Memory/Frames/Bitmap.antt =====
-- Setting, clearing and testing one frame: each touches that frame's bit alone.
use icariusos.Base.{
  ℕ, zero, suc, ◌*◌, ◌/◌, ◌%◌, ◌^◌, ◌<◌, ◌≤◌, ◌≡◌, ◌∙◌, arith, bit_and, bit_or, Bool, true, false,
  not, List, get_or, length, length-set, get_or-set_self, get_or-set_ne, replicate, ◌==◌,
  if◌then◌else◌,
}
use icariusos.Base.Bits.{
  bit, bit-zero, bit-le-one, bit-bit_and, bit-bit_or, bit-pow, bit-complement, bit_and-pow,
}
use native.Mathlib.Nat.{one-le-pow, pow-le-pow_right, pow-suc}
use native.Mathlib.Decide.{ℕ_discrete}
use icariusos.Memory.Frames.{
  max_frames, bitmap_size, one_shl, complement, pfa_init, pfa_set, pfa_clear, pfa_test,
}

-- The bitmap has its 32 words.
abbrev pub IsBitmap : List ℕ → Type 0
IsBitmap b = length b ≡ bitmap_size

pub set-IsBitmap : (b : List ℕ) (frame : ℕ) → IsBitmap b → IsBitmap (pfa_set b frame)
unfolding pfa_set
set-IsBitmap b frame v = length-set b (frame / 32) _ ∙ v

pub clear-IsBitmap : (b : List ℕ) (frame : ℕ) → IsBitmap b → IsBitmap (pfa_clear b frame)
unfolding pfa_clear
clear-IsBitmap b frame v = length-set b (frame / 32) _ ∙ v

-- A frame is used when its bit is 1.
unfoldable pub used : List ℕ → ℕ → Bool
used b frame = bit (frame % 32) (get_or b (frame / 32) 0) == 1

pow-lt : (k : ℕ) → k < 32 → one_shl k < 2 ^ 32
pow-lt k h = omega (
  arith,
  pow-le-pow_right {n = 2} (omega arith) {i = suc k} {j = 32} h,
  pow-suc 2 k,
  one-le-pow k 2,
)

test_bit : (b m : ℕ) → b ≤ 1 → 0 < m → not (b * m == 0) ≡ (b == 1)
test_bit zero m h p = ground arith
test_bit (suc zero) m h p = ground arith
test_bit (suc (suc b)) m h p = absurd (omega arith)

-- `pfa_test` reads the frame's bit.
pub pfa_test-used : (b : List ℕ) (frame : ℕ) → pfa_test b frame ≡ used b frame
unfolding pfa_test used
pfa_test-used b frame =
    let offset : ℕ = frame % 32 in
    let w : ℕ = get_or b (frame / 32) 0 in
    rw (bit_and-pow offset w) (
      test_bit (bit offset w) (2 ^ offset) (bit-le-one offset w)
        (one-le-pow offset 2 (omega arith)))

set_bit : (w i j : ℕ) → bit j (bit_or w (one_shl i)) ≡ (if j == i then 1 else bit j w)
set_bit w i j = ground (arith, bit-bit_or j w (one_shl i), bit-pow j i, bit-le-one j w)

clear_bit :
    (w i j : ℕ)
    → i < 32
    → j < 32
    → bit j (bit_and w (complement (one_shl i))) ≡ (if j == i then 0 else bit j w)
clear_bit w i j hi hj = ground (
  arith,
  bit-bit_and j w (complement (one_shl i)),
  bit-complement 32 j (one_shl i) (pow-lt i hi) hj,
  bit-pow j i,
  bit-le-one j w,
)

module _ (b : List ℕ) (v : IsBitmap b) (frame : ℕ) (h : frame < max_frames) where
  index_in : frame / 32 < length b
  index_in = omega (arith, v)

  -- Setting a frame marks it used and changes no other frame.
  pub used-pfa_set :
      (other : ℕ) → used (pfa_set b frame) other ≡ (if other == frame then true else used b other)
  unfolding used pfa_set
  used-pfa_set other =
      let w : ℕ = get_or b (frame / 32) 0 in
      let word : ℕ = bit_or w (one_shl (frame % 32)) in
      elim (ℕ_discrete (frame / 32) (other / 32)) [
        | yes same ↦
            rw (← same, get_or-set_self b (frame / 32) word 0 index_in)
              (ground (arith, set_bit w (frame % 32) (other % 32)))
        | no differ ↦ rw (get_or-set_ne b (frame / 32) (other / 32) word 0 differ) (ground arith)
      ]

  -- Clearing a frame marks it free and changes no other frame.
  pub used-pfa_clear :
      (other : ℕ)
      → used (pfa_clear b frame) other ≡ (if other == frame then false else used b other)
  unfolding used pfa_clear
  used-pfa_clear other =
      let w : ℕ = get_or b (frame / 32) 0 in
      let word : ℕ = bit_and w (complement (one_shl (frame % 32))) in
      elim (ℕ_discrete (frame / 32) (other / 32)) [
        | yes same ↦
            rw (← same, get_or-set_self b (frame / 32) word 0 index_in)
              (ground (arith, clear_bit w (frame % 32) (other % 32)))
        | no differ ↦ rw (get_or-set_ne b (frame / 32) (other / 32) word 0 differ) (ground arith)
      ]

used_replicate : (n i j : ℕ) → j < 32 → i < n → bit j (get_or (replicate n 0xFFFF_FFFF) i 0) ≡ 1
used_replicate zero i j h p = absurd (omega arith)
used_replicate (suc n) zero j h p = omega (arith, bit-complement 32 j 0 (omega arith) h, bit-zero j)
used_replicate (suc n) (suc i) j h p = used_replicate n i j h (omega arith)

-- `pfa_init` marks all frames used.
pub used-pfa_init : (frame : ℕ) → frame < max_frames → used pfa_init frame ≡ true
unfolding used pfa_init
used-pfa_init frame h =
    rw (used_replicate bitmap_size (frame / 32) (frame % 32) (omega arith) (omega arith))
