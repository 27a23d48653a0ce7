-- ===== src/Libc/Numbers/RoundTrip.antt =====
-- A number that is printed and read again.
use icariusos.Base.{
  ℕ, zero, suc, ◌+◌, ◌-◌, ◌*◌, ◌/◌, ◌%◌, ◌^◌, ◌<◌, ◌≤◌, ◌≡◌, ◌≢◌, inl, inr, refl, sym, ap, ◌∙◌,
  arith, ==_cases, true, false, some, leb, ltb, ◌==◌,
}
use native.Mathlib.Nat.{pow-suc}
use icariusos.Libc.Blocks.{Bytes, store}
use icariusos.Libc.Strings.{sreverse}
use icariusos.Libc.Strings.Reverses.{flipped, flipped-inside, flipped-outside, sreverse-flipped}
use icariusos.Libc.Numbers.{digit, digits_loop, utoa, atoi_loop, atoi}

-- The number that `k` decimal digits spell, the last one first.
backwards : Bytes → ℕ → ℕ → ℕ
backwards m p zero = 0
backwards m p (suc k) = (m p - 48) + 10 * backwards m (p + 1) k

-- A byte is a decimal digit.
abbrev IsDigit : ℕ → Type 0
IsDigit c = (48 ≤ c) × (c ≤ 57)

-- What the loop of the digits leaves: the digits of the number from an index on.
abbrev Spelled : ℕ → ℕ → ℕ → ℕ → Bytes → ℕ × Bytes → Type 0
Spelled fuel i num str m (n, r) =
    (i ≤ n)
    × (n < i + fuel)
    × (backwards r (str + i) (n - i) ≡ num)
    × ((a : ℕ) → str + i ≤ a → a < str + n → IsDigit (r a))
    × ((a : ℕ) → a < str + i → r a ≡ m a)

loop-end :
    (fuel i num str : ℕ) (m : Bytes) → num ≡ 0 → digits_loop (suc fuel) i num 10 str m ≡ some (i, m)
unfolding digits_loop
loop-end fuel i num str m e = let stop : (num == 0) ≡ true = ground arith in rw stop refl

loop-step :
    (fuel i num str : ℕ) (m : Bytes)
    → num ≢ 0
    → digits_loop (suc fuel) i num 10 str m
      ≡ digits_loop fuel (i + 1) (num / 10) 10 str (store m (str + i) (digit (num % 10)))
unfolding digits_loop
loop-step fuel i num str m ne = let more : (num == 0) ≡ false = ground arith in rw more refl

backwards-none : (m : Bytes) (p i : ℕ) → backwards m p (i - i) ≡ 0
unfolding backwards
backwards-none m p i = let none_left : i - i ≡ 0 = omega arith in ap (backwards m p) none_left

-- One digit more.
Spelled-step :
    (fuel i num str n : ℕ) (m r : Bytes)
    → Spelled fuel (i + 1) (num / 10) str (store m (str + i) (digit (num % 10))) (n, r)
    → Spelled (suc fuel) i num str m (n, r)
unfolding backwards
Spelled-step fuel i num str n m r (le, lt, value, digits, same) =
    let here : r (str + i) ≡ num % 10 + 48 = same (str + i) (omega arith) ∙ ground arith in
    let one : n - i ≡ suc (n - (i + 1)) = omega arith in
    let next : str + i + 1 ≡ str + (i + 1) = omega arith in
    let rest : backwards r (str + i + 1) (n - (i + 1)) ≡ num / 10 =
      ap (λ q. backwards r q (n - (i + 1))) next ∙ value in
    (
      omega arith,
      omega arith,
      ap (backwards r (str + i)) one ∙ omega arith,
      (λ a low high. elim (==_cases a (str + i)) [
        | inl e ↦ rw (e, here) (omega arith, omega arith)
        | inr ne ↦ digits a (omega arith) high
      ]),
      (λ a below. same a (omega arith) ∙ ground arith),
    )

abbrev Run : ℕ → ℕ → ℕ → ℕ → Bytes → Type 0
Run fuel i num str m =
    (result : ℕ × Bytes) × (digits_loop (suc fuel) i num 10 str m ≡ some result)
    × Spelled (suc fuel) i num str m result

Run-end : (fuel i num str : ℕ) (m : Bytes) → num ≡ 0 → Run fuel i num str m
Run-end fuel i num str m e = (
  (i, m),
  loop-end fuel i num str m e,
  (
    omega arith,
    omega arith,
    backwards-none m (str + i) i ∙ sym e,
    (λ a low high. absurd (omega arith)),
    (λ a below. refl),
  ),
)

-- The loop of the digits ends, and leaves them behind what is there.
digits_loop-Spelled : (fuel i num str : ℕ) (m : Bytes) → num < 10 ^ fuel → Run fuel i num str m
digits_loop-Spelled zero i num str m lt = Run-end zero i num str m (omega arith)
digits_loop-Spelled (suc fuel) i num str m lt = elim (==_cases num 0) [
  | inl e ↦ Run-end (suc fuel) i num str m e
  | inr ne ↦
      let fewer : num / 10 < 10 ^ fuel = omega (arith, pow-suc 10 fuel) in
      let ((n, r), run, spelled) =
        digits_loop-Spelled fuel (i + 1) (num / 10) str (store m (str + i) (digit (num % 10)))
          fewer in
      (
        (n, r),
        loop-step (suc fuel) i num str m ne ∙ run,
        Spelled-step (suc fuel) i num str n m r spelled,
      )
]

-- Reading the digits in the other order: the number of those read so far.
atoi-stop : (fuel str res : ℕ) (q : Bytes) → q str ≡ 0 → atoi_loop (suc fuel) str res q ≡ some res
unfolding atoi_loop
atoi-stop fuel str res q e = rw e refl

atoi-step :
    (fuel str res : ℕ) (q : Bytes)
    → IsDigit (q str)
    → res * 10 + (q str - 48) < 2 ^ 31
    → atoi_loop (suc fuel) str res q ≡ atoi_loop fuel (str + 1) (res * 10 + (q str - 48)) q
unfolding atoi_loop
atoi-step fuel str res q (low, high) fits =
    let above : leb 48 (q str) ≡ true = ground arith in
    let below : leb (q str) 57 ≡ true = ground arith in
    let held : ltb (res * 10 + (q str - 48)) (2 ^ 31) ≡ true = ground arith in
    rw (above, below, held) refl

-- The text holds the digits in the other order, and then a NUL.
abbrev Turned : Bytes → Bytes → ℕ → ℕ → Type 0
Turned r q str n =
    ((k : ℕ) → k < n → q (str + k) ≡ r (str + (n - 1 - k)))
    × (q (str + n) ≡ 0)
    × ((a : ℕ) → str ≤ a → a < str + n → IsDigit (r a))

backwards-step :
    (r : Bytes) (str n j : ℕ)
    → j < n
    → backwards r (str + (n - (j + 1))) (j + 1)
      ≡ (r (str + (n - 1 - j)) - 48) + 10 * backwards r (str + (n - j)) j
unfolding backwards
backwards-step r str n j lt =
    let count : j + 1 ≡ suc j = omega arith in
    let at : str + (n - (j + 1)) ≡ str + (n - 1 - j) = omega arith in
    let next : str + (n - 1 - j) + 1 ≡ str + (n - j) = omega arith in
    ap (backwards r (str + (n - (j + 1)))) count
    ∙ ap (λ p. backwards r p (suc j)) at
    ∙ ap (λ p. (r (str + (n - 1 - j)) - 48) + 10 * backwards r p j) next

-- The first digits of a number are no more than the number.
backwards-le : (r : Bytes) (p k j : ℕ) → backwards r (p + k) j ≤ backwards r p (k + j)
unfolding backwards
backwards-le r p zero j =
    let here : p + 0 ≡ p = omega arith in
    let all : 0 + j ≡ j = omega arith in rw (here, all) (omega arith)
backwards-le r p (suc k) j =
    let next : p + suc k ≡ p + 1 + k = omega arith in
    let count : suc k + j ≡ suc (k + j) = omega arith in
    rw (next, count) (omega (arith, backwards-le r (p + 1) k j))

backwards-first :
    (r : Bytes) (str n j : ℕ) → j ≤ n → backwards r (str + (n - j)) j ≤ backwards r (str + 0) n
backwards-first r str n j le =
    let all : n - j + j ≡ n = omega arith in
    let here : str + 0 ≡ str = omega arith in
    rw here (omega (arith, backwards-le r str (n - j) j, ap (backwards r str) all))

one-on : (str j : ℕ) → str + j + 1 ≡ str + (j + 1)
one-on str j = omega arith

atoi-backwards :
    (fuel j n str res : ℕ) (r q : Bytes)
    → Turned r q str n
    → j ≤ n
    → n < j + fuel
    → backwards r (str + 0) n < 2 ^ 31
    → res ≡ backwards r (str + (n - j)) j
    → atoi_loop fuel (str + j) res q ≡ some (backwards r (str + 0) n)
atoi-backwards zero j n str res r q turned le lt fits so_far = absurd (omega arith)
atoi-backwards (suc fuel) j n str res r q (turned, end, digits) le lt fits so_far =
    elim (==_cases j n) [
      | inl e ↦
          let none_left : str + (n - j) ≡ str + 0 = omega arith in
          let stop : q (str + j) ≡ 0 = ap (λ k. q (str + k)) e ∙ end in
          atoi-stop fuel (str + j) res q stop
          ∙ ap some
              (so_far ∙ ap (λ p. backwards r p j) none_left ∙ ap (λ k. backwards r (str + 0) k) e)
      | inr ne ↦
          let here = turned j (omega arith) in
          let is_digit = digits (str + (n - 1 - j)) (omega arith) (omega arith) in
          let number = backwards-step r str n j (omega arith) in
          let first = backwards-first r str n (j + 1) (omega arith) in
          let res' = res * 10 + (q (str + j) - 48) in
          let next : res' ≡ backwards r (str + (n - (j + 1))) (j + 1) = omega arith in
          let digit_here : IsDigit (q (str + j)) = (omega arith, omega arith) in
          atoi-step fuel (str + j) res q digit_here (omega arith)
          ∙ ap (λ p. atoi_loop fuel p res' q) (one-on str j)
          ∙ atoi-backwards fuel (j + 1) n str res' r q (turned, end, digits) (omega arith)
              (omega arith) fits next
    ]

mirror : (str n k : ℕ) → k < n → str + 0 + (str + (n - 1)) - (str + k) ≡ str + (n - 1 - k)
mirror str n k lt = omega arith

begin : (r : Bytes) (p : ℕ) → 0 ≡ backwards r p 0
unfolding backwards
begin r p = refl

some-digit : (r : Bytes) (p n num : ℕ) → backwards r p (n - 0) ≡ num → num ≢ 0 → 0 < n
unfolding backwards
some-digit r p zero num value ne = absurd (ne (sym value))
some-digit r p (suc n) num value ne = omega arith

Turned-at :
    (r q : Bytes) (str n : ℕ)
    → 0 < n
    → ((a : ℕ) → str ≤ a → a < str + n → IsDigit (r a))
    → ((a : ℕ) → q a ≡ flipped (str + 0) (str + (n - 1)) (store r (str + n) 0) a)
    → Turned r q str n
Turned-at r q str n some_digit digits at = (
  (λ k lt.
      at (str + k)
      ∙ flipped-inside (str + 0) (str + (n - 1)) (str + k) (store r (str + n) 0) (omega arith)
          (omega arith)
      ∙ ap (store r (str + n) 0) (mirror str n k lt)
      ∙ ground arith),
  at (str + n)
      ∙ flipped-outside (str + 0) (str + (n - 1)) (str + n) (store r (str + n) 0)
          (inr (omega arith))
      ∙ ground arith,
  digits,
)

utoa-digits :
    (fuel num str n : ℕ) (m r : Bytes)
    → num ≢ 0
    → digits_loop fuel 0 num 10 str m ≡ some (n, r)
    → utoa fuel num str 10 m ≡ sreverse fuel str n (store r (str + n) 0)
unfolding utoa
utoa-digits fuel num str n m r ne run =
    let more : (num == 0) ≡ false = ground arith in rw (more, run) refl

utoa-zero :
    (fuel str : ℕ) (m : Bytes) → utoa fuel 0 str 10 m ≡ some (store (store m str 48) (str + 1) 0)
unfolding utoa
utoa-zero fuel str m = refl

atoi-zero :
    (fuel str : ℕ) (m : Bytes)
    → atoi (suc (suc fuel)) str (store (store m str 48) (str + 1) 0) ≡ some 0
unfolding atoi
atoi-zero fuel str m =
    let q = store (store m str 48) (str + 1) 0 in
    let zero_here : q str ≡ 48 = ground arith in
    let end : q (str + 1) ≡ 0 = ground arith in
    let digit_here : IsDigit (q str) = (omega arith, omega arith) in
    let none_yet : 0 * 10 + (q str - 48) ≡ 0 = omega arith in
    atoi-step (suc fuel) str 0 q digit_here (omega arith)
    ∙ ap (λ k. atoi_loop (suc fuel) (str + 1) k q) none_yet
    ∙ atoi-stop fuel (str + 1) 0 q end

-- With fuel, below 2^32, for its digits, `utoa` writes a number below 2^31 in base 10, and `atoi` reads
-- that number back from the text, with no overflow of its `int`.
pub utoa-atoi :
    (fuel num str : ℕ) (m : Bytes)
    → num < 10 ^ fuel
    → num < 2 ^ 31
    → fuel < 2 ^ 32
    → (q : Bytes) × (utoa (suc fuel) num str 10 m ≡ some q)
      × (atoi (suc (suc fuel)) str q ≡ some num)
unfolding atoi
utoa-atoi fuel num str m few word enough = elim (==_cases num 0) [
  | inl e ↦ (
    store (store m str 48) (str + 1) 0,
    ap (λ k. utoa (suc fuel) k str 10 m) e ∙ utoa-zero (suc fuel) str m,
    atoi-zero fuel str m ∙ ap some (sym e),
  )
  | inr ne ↦
      let ((n, r), run, (le, lt, value, digits, same)) = digits_loop-Spelled fuel 0 num str m few in
      let positive : 0 < n = some-digit r (str + 0) n num value ne in
      let (q, (is, at)) =
        sreverse-flipped (suc fuel) str n (store r (str + n) 0) positive (omega arith)
          (omega arith) in
      let is_digits : (a : ℕ) → str ≤ a → a < str + n → IsDigit (r a) =
        λ a low high. digits a (omega arith) high in
      let turned = Turned-at r q str n positive is_digits at in
      let start : 0 ≡ backwards r (str + (n - 0)) 0 = begin r (str + (n - 0)) in
      let here : str ≡ str + 0 = omega arith in
      let all : n ≡ n - 0 = omega arith in
      let whole : backwards r (str + 0) n ≡ num = ap (backwards r (str + 0)) all ∙ value in
      (
        q,
        utoa-digits (suc fuel) num str n m r ne run ∙ is,
        ap (λ p. atoi_loop (suc (suc fuel)) p 0 q) here
            ∙ atoi-backwards (suc (suc fuel)) 0 n str 0 r q turned (omega arith) (omega arith)
                (omega arith) start
            ∙ ap some whole,
      )
]
