-- ===== src/Libc/Strings/Measures.antt =====
-- Lengths and comparisons of texts.
use icariusos.Base.{
  ℕ, zero, suc, ◌+◌, ◌<◌, ◌≡◌, refl, sym, ap, ap₂, ◌∙◌, arith, ◌↔◌, ◌==◌, Bool-cases, inl, inr,
  true, false, not, ◌&&◌, List, [], ◌∷◌, length, drop, get_or, some,
}
use icariusos.Libc.Blocks.{Bytes, difference}
use icariusos.Libc.Blocks.Compares.{difference-zero}
use icariusos.Libc.Strings.{CString, strcmp, strlen, strlen_loop}

strlen_loop-CString :
    (fuel n str : ℕ) (m : Bytes) (s : List ℕ)
    → CString m (str + n) s
    → length s < fuel
    → strlen_loop fuel n str m ≡ some (n + length s)
unfolding strlen_loop
strlen_loop-CString zero n str m s holds enough = absurd (omega arith)
strlen_loop-CString (suc fuel) n str m [] holds enough = rw holds (ap some (omega arith))
strlen_loop-CString (suc fuel) n str m (c ∷ s) (first, (some_char, holds)) enough =
    let c0 : (c == 0) ≡ false = ground arith in
    let next : str + (n + 1) ≡ str + n + 1 = omega arith in
    rw (first, c0)
      (strlen_loop-CString fuel (n + 1) str m s (rw next holds) (omega arith)
        ∙ ap some (omega arith))

-- With fuel for the text and its NUL, `strlen` returns the length of the text.
pub strlen-CString :
    (fuel str : ℕ) (m : Bytes) (s : List ℕ)
    → CString m str s
    → length s < fuel
    → strlen fuel str m ≡ some (length s)
unfolding strlen
strlen-CString fuel str m s holds enough =
    let here : str + 0 ≡ str = omega arith in
    strlen_loop-CString fuel 0 str m s (rw here holds) enough ∙ ap some (omega arith)

-- Where the loop stops, at different bytes or at the end of the first text.
strcmp-stop :
    (fuel p q : ℕ) (m : Bytes) (P : Type 0)
    → ((a : ℕ) → m a < 256)
    → (not (m p == 0) && (m p == m q)) ≡ false
    → (m p ≡ m q) ↔ P
    → (r : ℕ) × ((strcmp (suc fuel) p q m ≡ some r) × ((r ≡ 0) ↔ P))
unfolding strcmp
strcmp-stop fuel p q m P bytes stop same =
    let zero_iff = difference-zero (m p) (m q) (bytes p) (bytes q) in
    (difference (m p) (m q), (rw stop, (λ r. same.0 (zero_iff.0 r), λ h. zero_iff.1 (same.1 h))))

strcmp-next :
    (fuel p q : ℕ) (m : Bytes)
    → (not (m p == 0) && (m p == m q)) ≡ true
    → strcmp (suc fuel) p q m ≡ strcmp fuel (p + 1) (q + 1) m
unfolding strcmp
strcmp-next fuel p q m go = rw go

-- With fuel for the first text and its NUL, `strcmp` of two texts returns, and returns 0 exactly
-- when the texts are equal.
pub strcmp-zero :
    (fuel p q : ℕ) (m : Bytes) (s t : List ℕ)
    → ((a : ℕ) → m a < 256)
    → CString m p s
    → CString m q t
    → length s < fuel
    → (r : ℕ) × ((strcmp fuel p q m ≡ some r) × ((r ≡ 0) ↔ (s ≡ t)))
strcmp-zero zero p q m s t bytes hs ht enough = absurd (omega arith)
strcmp-zero (suc fuel) p q m [] [] bytes hs ht enough =
    strcmp-stop fuel p q m _ bytes (ground arith) (λ e. refl, λ e. hs ∙ sym ht)
strcmp-zero (suc fuel) p q m [] (d ∷ t) bytes hs (hd, (nz, ht)) enough =
    strcmp-stop fuel p q m _ bytes (ground arith)
      (λ e. absurd (omega arith), λ e. absurd (omega (arith, ap length e)))
strcmp-zero (suc fuel) p q m (c ∷ s) [] bytes (hc, (nz, hs)) ht enough =
    strcmp-stop fuel p q m _ bytes (ground arith)
      (λ e. absurd (omega arith), λ e. absurd (omega (arith, ap length e)))
strcmp-zero (suc fuel) p q m (c ∷ s) (d ∷ t) bytes (hc, (nz, hs)) (hd, (nz', ht)) enough =
    elim (Bool-cases (m p == m q)) [
      | inl e ↦
          let (r, (is, same)) = strcmp-zero fuel (p + 1) (q + 1) m s t bytes hs ht (omega arith) in
          let heads : c ≡ d = ground arith in
          (
            r,
            (
              strcmp-next fuel p q m (ground arith) ∙ is,
              (λ z. ap₂ ◌∷◌ heads (same.0 z), λ l. same.1 (ap (drop 1) l)),
            ),
          )
      | inr n ↦
          strcmp-stop fuel p q m _ bytes (ground arith)
            (λ e. absurd (ground arith), λ l. hc ∙ ap (λ k. get_or k 0 0) l ∙ sym hd)
    ]
