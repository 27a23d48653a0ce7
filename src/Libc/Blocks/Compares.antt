-- ===== src/Libc/Blocks/Compares.antt =====
-- `memcmp` as a test of equality.
use icariusos.Base.{
  ℕ, zero, suc, ◌+◌, ◌<◌, ◌≡◌, refl, ap, ◌∙◌, sym, arith, ◌↔◌, ◌==◌, Bool-cases, ==_iff, inl, inr,
}
use icariusos.Libc.Blocks.{Bytes, difference, memcmp}

pub difference-zero : (x y : ℕ) → x < 256 → y < 256 → (difference x y ≡ 0) ↔ (x ≡ y)
difference-zero x y hx hy = (λ e. omega arith, λ e. omega arith)

-- Two blocks hold the same bytes.
abbrev pub Agree : Bytes → ℕ → ℕ → ℕ → Type 0
Agree m p q num = (i : ℕ) → i < num → m (p + i) ≡ m (q + i)

Agree-cons :
    (m : Bytes) (p q num : ℕ) → m p ≡ m q → Agree m (p + 1) (q + 1) num → Agree m p q (suc num)
Agree-cons m p q num first rest zero lt =
    let p0 : p + 0 ≡ p = omega arith in let q0 : q + 0 ≡ q = omega arith in rw (p0, q0) first
Agree-cons m p q num first rest (suc i) lt =
    let p1 : p + suc i ≡ p + 1 + i = omega arith in
    let q1 : q + suc i ≡ q + 1 + i = omega arith in rw (p1, q1) (rest i (omega arith))

Agree-head : (m : Bytes) (p q num : ℕ) → Agree m p q (suc num) → m p ≡ m q
Agree-head m p q num h =
    let p0 : p + 0 ≡ p = omega arith in
    let q0 : q + 0 ≡ q = omega arith in sym (ap m p0) ∙ h 0 (omega arith) ∙ ap m q0

Agree-tail : (m : Bytes) (p q num : ℕ) → Agree m p q (suc num) → Agree m (p + 1) (q + 1) num
Agree-tail m p q num h i lt =
    let p1 : p + 1 + i ≡ p + suc i = omega arith in
    let q1 : q + 1 + i ≡ q + suc i = omega arith in rw (p1, q1) (h (suc i) (omega arith))

-- Where all bytes are bytes, `memcmp` returns 0 exactly when the two blocks hold the same bytes.
pub memcmp-zero :
    (p q num : ℕ) (m : Bytes) → ((a : ℕ) → m a < 256) → (memcmp p q num m ≡ 0) ↔ Agree m p q num
unfolding memcmp
memcmp-zero p q zero m bytes = (λ e i lt. absurd (omega arith), λ h. refl)
memcmp-zero p q (suc num) m bytes =
    let rest = memcmp-zero (p + 1) (q + 1) num m bytes in
    let first = difference-zero (m p) (m q) (bytes p) (bytes q) in
    let same = ==_iff (m p) (m q) in
    elim (Bool-cases (m p == m q)) [
      | inl e ↦
          rw e
            (λ r. Agree-cons m p q num (same.0 e) (rest.0 r), λ h. rest.1 (Agree-tail m p q num h))
      | inr n ↦ rw n (
        λ r. absurd (ground (arith, first.0 r)),
        λ h. absurd (ground (arith, Agree-head m p q num h)),
      )
    ]
