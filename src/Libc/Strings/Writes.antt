-- ===== src/Libc/Strings/Writes.antt =====
-- What `strncpy` leaves at every address.
use icariusos.Base.{
  ℕ, zero, suc, ◌+◌, ◌-◌, ◌<◌, ◌≤◌, ◌≡◌, ◌≢◌, ◌⊎◌, refl, ap, ◌∙◌, arith, ◌==◌, ltb, leb, Bool-cases,
  inl, inr, false, ◌&&◌, List, [], ◌∷◌, length, get_or, if◌then◌else◌,
}
use icariusos.Libc.Blocks.{Bytes, store}
use icariusos.Libc.Strings.{CString, strncpy, strncpy_copy, strncpy_fill}

-- A write outside a text leaves it there.
CString-store :
    (m : Bytes) (p x v : ℕ) (s : List ℕ)
    → (x < p) ⊎ (p + length s < x)
    → CString m p s
    → CString (store m x v) p s
CString-store m p x v [] apart holds = grind arith
CString-store m p x v (c ∷ s) apart (first, (nz, holds)) = (
  grind arith,
  (
    nz,
    CString-store m (p + 1) x v s
        (elim apart [ inl below ↦ inl (omega arith) | inr above ↦ inr (omega arith) ]) holds,
  ),
)

get_or-pos : (c : ℕ) (s : List ℕ) (k : ℕ) → k ≢ 0 → get_or (c ∷ s) k 0 ≡ get_or s (k - 1) 0
get_or-pos c s zero nz = absurd (nz refl)
get_or-pos c s (suc k) nz = ap (λ (i : ℕ). get_or s i 0) (omega arith)

get_or-past : (s : List ℕ) (k : ℕ) → length s ≤ k → get_or s k 0 ≡ 0
get_or-past [] k h = refl
get_or-past (c ∷ s) zero h = absurd (omega arith)
get_or-past (c ∷ s) (suc k) h = get_or-past s k (omega arith)

strncpy_fill-at :
    (rounds i dest : ℕ) (m : Bytes) (a : ℕ)
    → strncpy_fill rounds i dest m a
      ≡ (if leb (dest + i) a && ltb a (dest + i + rounds) then 0 else m a)
unfolding strncpy_fill
strncpy_fill-at zero i dest m a = ground arith
strncpy_fill-at (suc rounds) i dest m a =
    strncpy_fill-at rounds (i + 1) dest (store m (dest + i) 0) a ∙ ground arith

-- One more character in front of those that were written.
written-cons :
    (d k k' c a v : ℕ) (s : List ℕ) (m : Bytes)
    → k' ≡ k + 1
    → v ≡ (if leb (d + 1) a && ltb a (d + 1 + k) then get_or s (a - (d + 1)) 0 else store m d c a)
    → v ≡ (if leb d a && ltb a (d + k') then get_or (c ∷ s) (a - d) 0 else m a)
written-cons d k k' c a v s m more is = elim (Bool-cases (a == d)) [
  | inl e ↦
      let here : a ≡ d = ground arith in
      let none : a - d ≡ 0 = omega arith in is ∙ rw none (ground arith)
  | inr n ↦
      let other : a ≢ d = ground arith in
      let back : a - d - 1 ≡ a - (d + 1) = omega arith in
      let value : d < a → get_or (c ∷ s) (a - d) 0 ≡ get_or s (a - (d + 1)) 0 =
        λ lt. get_or-pos c s (a - d) (λ e. omega arith) ∙ ap (λ (i : ℕ). get_or s i 0) back in
      is ∙ ground (arith, value)
]

-- What the copying loop has left to fill, and what it has written.
strncpy_copy-at :
    (rounds i dest src : ℕ) (m : Bytes) (s : List ℕ) (a : ℕ)
    → CString m (src + i) s
    → (dest ≤ src) ⊎ (src + i + length s < dest)
    → let (left, m') = strncpy_copy rounds i dest src m in
      (left ≡ rounds - length s)
      × (m' a ≡ (
          if leb (dest + i) a && ltb a (dest + i + (rounds - left))
          then get_or s (a - (dest + i)) 0
          else m a))
unfolding strncpy_copy
strncpy_copy-at zero i dest src m s a holds apart = (omega arith, ground arith)
strncpy_copy-at (suc rounds) i dest src m [] a holds apart = rw holds (omega arith, ground arith)
strncpy_copy-at (suc rounds) i dest src m (c ∷ s) a (first, (nz, holds)) apart =
    let c0 : (m (src + i) == 0) ≡ false = ground arith in
    let next : src + (i + 1) ≡ src + i + 1 = omega arith in
    let m' = store m (dest + i) (m (src + i)) in
    let apart' : (dest ≤ src) ⊎ (src + (i + 1) + length s < dest) = elim apart [
      | inl below ↦ inl below
      | inr above ↦ inr (omega arith)
    ] in
    let away : (dest + i < src + i + 1) ⊎ (src + i + 1 + length s < dest + i) = elim apart [
      | inl below ↦ inl (omega arith)
      | inr above ↦ inr (omega arith)
    ] in
    let rest =
      strncpy_copy-at rounds (i + 1) dest src m' s a
        (rw next (CString-store m (src + i + 1) (dest + i) (m (src + i)) s away holds)) apart' in
    let at : dest + (i + 1) ≡ dest + i + 1 = omega arith in
    rw c0 (
      omega (arith, rest.0),
      written-cons (dest + i) (rounds - (strncpy_copy rounds (i + 1) dest src m').0) _ c a _ s m
          (omega (arith, rest.0)) (rest.1 ∙ rw (at, first)),
    )

-- NULs behind what was copied.
filled-behind :
    (dest n k len a w g v : ℕ)
    → k ≡ n - len
    → w ≡ (if leb dest a && ltb a (dest + (n - k)) then g else v)
    → (len ≤ a - dest → g ≡ 0)
    → (if leb (dest + (n - k)) a && ltb a (dest + (n - k) + k) then 0 else w)
      ≡ (if leb dest a && ltb a (dest + n) then g else v)
filled-behind dest n k len a w g v e is past = ground (arith, past)

-- `strncpy` of a text to a place that does not begin inside it leaves there the first `n` characters,
-- with NULs behind a text that is shorter, and changes no other byte.
pub strncpy-at :
    (dest src n : ℕ) (m : Bytes) (s : List ℕ) (a : ℕ)
    → CString m src s
    → (dest ≤ src) ⊎ (src + length s < dest)
    → strncpy dest src n m a
      ≡ (if leb dest a && ltb a (dest + n) then get_or s (a - dest) 0 else m a)
unfolding strncpy
strncpy-at dest src n m s a holds apart =
    let here : src + 0 ≡ src = omega arith in
    let start : dest + 0 ≡ dest = omega arith in
    let apart' : (dest ≤ src) ⊎ (src + 0 + length s < dest) = rw here apart in
    let (left, written) = strncpy_copy-at n 0 dest src m s a (rw here holds) apart' in
    let m' = (strncpy_copy n 0 dest src m).1 in
    let k = (strncpy_copy n 0 dest src m).0 in
    strncpy_fill-at k (n - k) dest m' a
    ∙ filled-behind dest n k (length s) a (m' a) (get_or s (a - dest) 0) (m a) left
        (written ∙ rw start) (get_or-past s (a - dest))
