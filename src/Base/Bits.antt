-- ===== src/Base/Bits.antt =====
-- `&`, `|` and `~` on unsigned words at variables: one equation for the lowest bit, masks, and
-- single bits.
use Prim.Native.Nat.{ℕ, zero, suc, ◌+◌, ◌-◌, ◌*◌, ◌/◌, ◌%◌, ◌^◌, ◌≤◌, ◌<◌, min, max}
use Prim.Native.Nat.{bit_and, bit_or, bit_and-bitwise, bit_or-bitwise, bitwise, digits}
use mathlib.Core.Path.{◌≡◌, refl, sym, ap, ap₂, ◌∙◌}
use native.Mathlib.Nat.{le_refl, pow-suc, one-le-pow, div-add-mod', mod-lt}
use native.Mathlib.Omega.{arith}
use icariusos.Base.Tests.{◌==◌, if◌then◌else◌}

module _ (at_end : ℕ → ℕ) (on_bits : ℕ → ℕ → ℕ) where
  -- More digits than the number has change nothing.
  digits-zero : (n b : ℕ) → digits at_end on_bits n 0 b ≡ at_end b
  digits-zero zero b = refl
  digits-zero (suc n) b = refl

  digits-grow :
      (n k a b : ℕ) → a ≤ n → digits at_end on_bits (n + k) a b ≡ digits at_end on_bits n a b
  digits-grow n k zero b h = digits-zero (n + k) b ∙ sym (digits-zero n b)
  digits-grow zero k (suc a) b h = absurd (omega arith)
  digits-grow (suc n) k (suc a) b h =
      let more : suc n + k ≡ suc (n + k) = omega arith in
      rw (more, digits-grow n k (suc a / 2) (b / 2) (omega arith))

  bitwise-low :
      (a b : ℕ)
      → bitwise at_end on_bits (suc a) b
        ≡ bitwise at_end on_bits (suc a / 2) (b / 2) * 2 + on_bits (suc a % 2) (b % 2)
  bitwise-low a b =
      let whole : suc a / 2 + (a - suc a / 2) ≡ a = omega arith in
      ap (λ t. t * 2 + on_bits (suc a % 2) (b % 2))
        (ap (λ n. digits at_end on_bits n (suc a / 2) (b / 2)) (omega arith)
          ∙ digits-grow (suc a / 2) (a - suc a / 2) (suc a / 2) (b / 2) (le_refl _))

pub bit_and-low : (a b : ℕ) → bit_and a b ≡ bit_and (a / 2) (b / 2) * 2 + min (a % 2) (b % 2)
bit_and-low zero b = simp bit_and-bitwise (omega arith)
bit_and-low (suc a) b = simp bit_and-bitwise (bitwise-low (λ t. 0) min a b)

pub bit_or-low : (a b : ℕ) → bit_or a b ≡ bit_or (a / 2) (b / 2) * 2 + max (a % 2) (b % 2)
bit_or-low zero b = simp bit_or-bitwise (omega arith)
bit_or-low (suc a) b = simp bit_or-bitwise (bitwise-low (λ t. t) max a b)

pub zero-bit_and : (b : ℕ) → bit_and 0 b ≡ 0
zero-bit_and b = bit_and-bitwise 0 b

pub zero-bit_or : (b : ℕ) → bit_or 0 b ≡ b
zero-bit_or b = bit_or-bitwise 0 b

-- The number at one bit.
abbrev pub bit : ℕ → ℕ → ℕ
bit zero a = a % 2
bit (suc i) a = bit i (a / 2)

pub bit-le-one : (i a : ℕ) → bit i a ≤ 1
bit-le-one zero a = omega arith
bit-le-one (suc i) a = bit-le-one i (a / 2)

pub bit-bit_and : (i a b : ℕ) → bit i (bit_and a b) ≡ min (bit i a) (bit i b)
bit-bit_and zero a b = omega (arith, bit_and-low a b)
bit-bit_and (suc i) a b =
    let half : bit_and a b / 2 ≡ bit_and (a / 2) (b / 2) = omega (arith, bit_and-low a b) in
    rw half (bit-bit_and i (a / 2) (b / 2))

pub bit-bit_or : (i a b : ℕ) → bit i (bit_or a b) ≡ max (bit i a) (bit i b)
bit-bit_or zero a b = omega (arith, bit_or-low a b)
bit-bit_or (suc i) a b =
    let half : bit_or a b / 2 ≡ bit_or (a / 2) (b / 2) = omega (arith, bit_or-low a b) in
    rw half (bit-bit_or i (a / 2) (b / 2))

pub bit-zero : (i : ℕ) → bit i 0 ≡ 0
bit-zero zero = refl
bit-zero (suc i) = bit-zero i

pub bit-pow : (i k : ℕ) → bit i (2 ^ k) ≡ (if i == k then 1 else 0)
bit-pow zero zero = refl
bit-pow zero (suc k) = ground (arith, pow-suc 2 k)
bit-pow (suc i) zero = ground (arith, bit-zero i)
bit-pow (suc i) (suc k) =
    let half : 2 ^ suc k / 2 ≡ 2 ^ k = omega (arith, pow-suc 2 k) in
    rw half (ground (arith, bit-pow i k))

-- `~w` of a word of n bits.
pub bit-complement : (n i w : ℕ) → w < 2 ^ n → i < n → bit i (2 ^ n - 1 - w) ≡ 1 - bit i w
bit-complement zero i w h p = absurd (omega arith)
bit-complement (suc n) zero w h p = omega (arith, pow-suc 2 n)
bit-complement (suc n) (suc i) w h p =
    let half : (2 ^ suc n - 1 - w) / 2 ≡ 2 ^ n - 1 - w / 2 = omega (arith, pow-suc 2 n) in
    rw half (bit-complement n i (w / 2) (omega (arith, pow-suc 2 n)) (omega arith))

-- Testing one bit by a mask.
bit_and-zero : (n a : ℕ) → a ≤ n → bit_and a 0 ≡ 0
bit_and-zero n zero h = refl
bit_and-zero zero (suc a) h = absurd (omega arith)
bit_and-zero (suc n) (suc a) h =
    omega (arith, bit_and-low (suc a) 0, bit_and-zero n (suc a / 2) (omega arith))

bit_or-zero : (n a : ℕ) → a ≤ n → bit_or a 0 ≡ a
bit_or-zero n zero h = refl
bit_or-zero zero (suc a) h = absurd (omega arith)
bit_or-zero (suc n) (suc a) h =
    omega (arith, bit_or-low (suc a) 0, bit_or-zero n (suc a / 2) (omega arith))

pub bit_and-pow : (k w : ℕ) → bit_and w (2 ^ k) ≡ bit k w * 2 ^ k
bit_and-pow zero w = omega (arith, bit_and-low w 1, bit_and-zero (w / 2) (w / 2) (le_refl _))
bit_and-pow (suc k) w =
    let half : 2 ^ suc k / 2 ≡ 2 ^ k = omega (arith, pow-suc 2 k) in
    omega (
      arith,
      bit_and-low w (2 ^ suc k),
      ap (bit_and (w / 2)) half,
      bit_and-pow k (w / 2),
      pow-suc 2 k,
      ap (λ (t : ℕ). bit k (w / 2) * t) (pow-suc 2 k),
    )

double-pow : (q k : ℕ) → q * 2 ^ suc k ≡ q * 2 ^ k * 2
double-pow q k = omega (arith, ap (λ (t : ℕ). q * t) (pow-suc 2 k))

-- A mask of the k low bits.
bit_and-mask_fields : (k q r : ℕ) → r < 2 ^ k → bit_and (q * 2 ^ k + r) (2 ^ k - 1) ≡ r
bit_and-mask_fields zero q r h = omega (arith, bit_and-zero (q * 1 + r) (q * 1 + r) (le_refl _))
bit_and-mask_fields (suc k) q r h =
    let word : (q * 2 ^ suc k + r) / 2 ≡ q * 2 ^ k + r / 2 = omega (arith, double-pow q k) in
    let mask : (2 ^ suc k - 1) / 2 ≡ 2 ^ k - 1 = omega (arith, pow-suc 2 k, one-le-pow k 2) in
    omega (
      arith,
      bit_and-low (q * 2 ^ suc k + r) (2 ^ suc k - 1),
      ap₂ bit_and word mask,
      bit_and-mask_fields k q (r / 2) (omega (arith, pow-suc 2 k)),
      pow-suc 2 k,
      one-le-pow k 2,
      double-pow q k,
    )

pub bit_and-low_mask : (k w : ℕ) → bit_and w (2 ^ k - 1) ≡ w % 2 ^ k
bit_and-low_mask k w =
    ap (λ t. bit_and t (2 ^ k - 1)) (sym (div-add-mod' w (2 ^ k)))
    ∙ bit_and-mask_fields k (w / 2 ^ k) (w % 2 ^ k) (mod-lt w (one-le-pow k 2 (omega arith)))

-- A mask of the n bits from bit k on.
pub bit_and-high_mask :
    (k n q r : ℕ)
    → q < 2 ^ n
    → r < 2 ^ k
    → bit_and (q * 2 ^ k + r) ((2 ^ n - 1) * 2 ^ k) ≡ q * 2 ^ k
bit_and-high_mask zero n q r hq hr =
    let word : q * 1 + r ≡ 0 * 2 ^ n + q = omega arith in
    let mask : (2 ^ n - 1) * 1 ≡ 2 ^ n - 1 = omega arith in
    omega (arith, ap₂ bit_and word mask, bit_and-mask_fields n 0 q hq)
bit_and-high_mask (suc k) n q r hq hr =
    let word : (q * 2 ^ suc k + r) / 2 ≡ q * 2 ^ k + r / 2 = omega (arith, double-pow q k) in
    let mask : (2 ^ n - 1) * 2 ^ suc k / 2 ≡ (2 ^ n - 1) * 2 ^ k =
      omega (arith, double-pow (2 ^ n - 1) k) in
    omega (
      arith,
      bit_and-low (q * 2 ^ suc k + r) ((2 ^ n - 1) * 2 ^ suc k),
      ap₂ bit_and word mask,
      bit_and-high_mask k n q (r / 2) hq (omega (arith, pow-suc 2 k)),
      double-pow q k,
      double-pow (2 ^ n - 1) k,
    )

-- Two disjoint fields.
pub bit_or-fields : (k q r : ℕ) → r < 2 ^ k → bit_or (q * 2 ^ k) r ≡ q * 2 ^ k + r
bit_or-fields zero q r h =
    let none : r ≡ 0 = omega arith in
    rw none (omega (arith, bit_or-zero (q * 1) (q * 1) (le_refl _)))
bit_or-fields (suc k) q r h =
    let word : q * 2 ^ suc k / 2 ≡ q * 2 ^ k = omega (arith, double-pow q k) in
    omega (
      arith,
      bit_or-low (q * 2 ^ suc k) r,
      ap (λ (t : ℕ). bit_or t (r / 2)) word,
      bit_or-fields k q (r / 2) (omega (arith, pow-suc 2 k)),
      double-pow q k,
    )
