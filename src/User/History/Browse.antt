-- ===== src/User/History/Browse.antt =====
-- Walking through the history with the arrow keys.
use icariusos.Base.{
  ℕ, zero, suc, ◌+◌, ◌-◌, ◌%◌, ◌<◌, ◌≤◌, ◌≡◌, ◌≢◌, inl, inr, refl, sym, ap, ap₂, ◌∙◌, arith,
  Bool-cases, ==_cases, true, false, List, [], Option, none, some, length, get_or, ◌==◌,
  if◌then◌else◌,
}
use mathlib.Core.Path.{subst}
use icariusos.Base.Ring.{window, length-window}
use icariusos.User.History.{
  History, Line, history_size, oldest_index, history_get_older, history_get_newer,
}
use icariusos.User.History.Contents.{IsValid, lines}

-- The cursor stands on a line of the history, or behind the last one.
abbrev pub At : History → ℕ → Type 0
At h p = (p ≤ h.count) × (h.cursor ≡ (oldest_index h + p) % history_size)

get_or-window :
    (buf : List Line) (h n p : ℕ)
    → h < history_size
    → p < n
    → get_or (window [] history_size buf h n) p [] ≡ get_or buf ((h + p) % history_size) []
get_or-window buf h zero p start lt = absurd (omega arith)
get_or-window buf h (suc n) zero start lt = ap (λ i. get_or buf i []) (omega arith)
get_or-window buf h (suc n) (suc p) start lt =
    get_or-window buf ((h + 1) % history_size) n p (omega arith) (omega arith)
    ∙ ap (λ i. get_or buf i []) (omega arith)

-- The abstract walk: a position among the lines, `length lines` for the empty line behind them.
abbrev pub older : List Line → ℕ → Option Line × ℕ
older ls p = if length ls == 0 then (none, p) else (some (get_or ls (p - 1) []), p - 1)

abbrev pub newer : List Line → ℕ → Option Line × ℕ
newer ls p =
    if length ls == 0
    then (none, p)
    else (if p == length ls
        then (some [], p)
        else (if p + 1 == length ls
            then (some [], p + 1)
            else (some (get_or ls (p + 1) []), p + 1)))

abbrev pub moved : History → ℕ → History
moved h p = record h { cursor = (oldest_index h + p) % history_size }

stays : (h : History) (p : ℕ) → At h p → h ≡ moved h p
stays h p (le, at) = ap (λ c. record h { cursor = c }) at

shown :
    (h : History) (p : ℕ)
    → IsValid h
    → p < h.count
    → get_or h.entries ((oldest_index h + p) % history_size) [] ≡ get_or (lines h) p []
shown h p (size, head, few, cursor) lt =
    sym (get_or-window h.entries (oldest_index h) h.count p (omega arith) lt)

-- One step up, from the oldest line, and from another place.
older-first :
    (h : History)
    → IsValid h
    → 0 < h.count
    → At h 0
    → history_get_older (some h) ≡ (some (get_or (lines h) 0 []), some (moved h 0))
unfolding history_get_older
older-first h valid there at =
    let (size, head, few, cursor) = valid in
    let some_lines : (h.count == 0) ≡ false = ground arith in
    let begin : oldest_index h ≡ (oldest_index h + 0) % history_size = omega arith in
    let first : (h.cursor == oldest_index h) ≡ true = ground (arith, at.1) in
    rw (some_lines, first)
      (ap₂ (λ l k. (some l, some k)) (ap (λ i. get_or h.entries i []) begin ∙ shown h 0 valid there)
        (stays h 0 at))

older-later :
    (h : History) (q : ℕ)
    → IsValid h
    → h.count < history_size
    → At h (suc q)
    → history_get_older (some h) ≡ (some (get_or (lines h) q []), some (moved h q))
unfolding history_get_older
older-later h q valid room (le, at) =
    let (size, head, few, cursor) = valid in
    let some_lines : (h.count == 0) ≡ false = ground arith in
    let other : h.cursor ≢ oldest_index h = omega arith in
    let later : (h.cursor == oldest_index h) ≡ false = ground arith in
    let step : (h.cursor + history_size - 1) % history_size ≡ (oldest_index h + q) % history_size =
      omega arith in
    rw (some_lines, later, step)
      (ap (λ l. (some l, some (moved h q))) (shown h q valid (omega arith)))

-- One step down.
newer-end :
    (h : History)
    → IsValid h
    → 0 < h.count
    → At h h.count
    → history_get_newer (some h) ≡ (some [], some (moved h h.count))
unfolding history_get_newer
newer-end h valid there (le, at) =
    let (size, head, few, cursor) = valid in
    let some_lines : (h.count == 0) ≡ false = ground arith in
    let here : (h.cursor == h.head) ≡ true = ground arith in
    rw (some_lines, here) (ap (λ k. (some [], some k)) (stays h h.count (le, at)))

newer-step :
    (h : History) (p : ℕ)
    → IsValid h
    → h.count < history_size
    → p < h.count
    → At h p
    → history_get_newer (some h) ≡ (
      (if p + 1 == h.count then some [] else some (get_or (lines h) (p + 1) [])),
      some (moved h (p + 1)),
    )
unfolding history_get_newer
newer-step h p valid room lt (le, at) =
    let (size, head, few, cursor) = valid in
    let some_lines : (h.count == 0) ≡ false = ground arith in
    let other : (h.cursor == h.head) ≡ false = ground arith in
    let step : (h.cursor + 1) % history_size ≡ (oldest_index h + (p + 1)) % history_size =
      omega arith in
    elim (==_cases (p + 1) h.count) [
      | inl e ↦
          let last : ((oldest_index h + (p + 1)) % history_size == h.head) ≡ true = ground arith in
          let count : (p + 1 == h.count) ≡ true = ground arith in
          rw (some_lines, other, step, last, count) refl
      | inr e ↦
          let more : ((oldest_index h + (p + 1)) % history_size == h.head) ≡ false = ground arith in
          let count : (p + 1 == h.count) ≡ false = ground arith in
          rw (some_lines, other, step, more, count)
            (ap (λ l. (some l, some (moved h (p + 1)))) (shown h (p + 1) valid (omega arith)))
    ]

-- A result of the walk, as the history after it.
abbrev result : History → Option Line × ℕ → Option Line × Option History
result h r = (r.0, some (moved h r.1))

lines-length : (h : History) → length (lines h) ≡ h.count
lines-length h = length-window [] history_size h.entries (oldest_index h) h.count

walk-empty :
    (h : History) (p : ℕ)
    → h.count ≡ 0
    → At h p
    → (history_get_older (some h) ≡ result h (older (lines h) p))
      × (history_get_newer (some h) ≡ result h (newer (lines h) p))
unfolding history_get_older history_get_newer
walk-empty h p e at =
    let none_held : (h.count == 0) ≡ true = ground arith in
    (
      rw (lines-length h, none_held) (ap (λ k. (none, some k)) (stays h p at)),
      rw (lines-length h, none_held) (ap (λ k. (none, some k)) (stays h p at)),
    )

older-held :
    (h : History) (p : ℕ)
    → 0 < h.count
    → older (lines h) p ≡ (some (get_or (lines h) (p - 1) []), p - 1)
older-held h p there =
    let held : (h.count == 0) ≡ false = ground arith in rw (lines-length h, held) refl

walk-older :
    (h : History) (p : ℕ)
    → IsValid h
    → 0 < h.count
    → h.count < history_size
    → At h p
    → history_get_older (some h) ≡ result h (older (lines h) p)
walk-older h zero valid there room at =
    older-first h valid there at ∙ ap (result h) (sym (older-held h 0 there))
walk-older h (suc q) valid there room at =
    let back : suc q - 1 ≡ q = omega arith in
    older-later h q valid room at
    ∙ ap (λ k. result h (some (get_or (lines h) k []), k)) (sym back)
    ∙ ap (result h) (sym (older-held h (suc q) there))

newer-next :
    (h : History) (p : ℕ)
    → (h.count == 0) ≡ false
    → (p == h.count) ≡ false
    → newer (lines h) p
      ≡ ((if p + 1 == h.count then some [] else some (get_or (lines h) (p + 1) [])), p + 1)
newer-next h p held other = elim (Bool-cases (p + 1 == h.count)) [
  | inl e ↦ rw (lines-length h, held, other, e) refl
  | inr e ↦ rw (lines-length h, held, other, e) refl
]

walk-newer :
    (h : History) (p : ℕ)
    → IsValid h
    → 0 < h.count
    → h.count < history_size
    → At h p
    → history_get_newer (some h) ≡ result h (newer (lines h) p)
walk-newer h p valid there room at =
    let held : (h.count == 0) ≡ false = ground arith in
    elim (==_cases p h.count) [
      | inl e ↦
          let end : newer (lines h) h.count ≡ (some [], h.count) =
            let same : (h.count == h.count) ≡ true = ground arith in
            rw (lines-length h, held, same) refl in
          newer-end h valid there (subst (λ k. At h k) e at)
          ∙ ap (result h) (sym end ∙ ap (newer (lines h)) (sym e))
      | inr ne ↦
          let lt : p < h.count = omega (arith, at.0) in
          let other : (p == h.count) ≡ false = ground arith in
          let next : newer (lines h) p ≡ (
            (if p + 1 == h.count then some [] else some (get_or (lines h) (p + 1) [])),
            p + 1,
          ) =
            newer-next h p held other in
          newer-step h p valid room lt at ∙ ap (result h) (sym next)
    ]

-- With fewer than 256 lines in a valid history and the cursor at a position among them, one step up or
-- down shows the line, and ends at the position, of the walk over the list of the lines: up stops at the
-- oldest line, down at the empty line behind the last.
pub history-walk :
    (h : History) (p : ℕ)
    → IsValid h
    → h.count < history_size
    → At h p
    → (history_get_older (some h) ≡ ((older (lines h) p).0, some (moved h (older (lines h) p).1)))
      × (history_get_newer (some h) ≡ ((newer (lines h) p).0, some (moved h (newer (lines h) p).1)))
history-walk h p valid room at = elim (==_cases h.count 0) [
  | inl e ↦ walk-empty h p e at
  | inr ne ↦
      let there : 0 < h.count = omega arith in
      (walk-older h p valid there room at, walk-newer h p valid there room at)
]

-- With 256 lines, the position behind the last line is that of the oldest: right after a new line the
-- first step up shows the oldest line, not the new one, and leaves the history as it is, and a step down
-- shows the empty line.
pub history-full :
    (h : History)
    → IsValid h
    → h.count ≡ history_size
    → h.cursor ≡ h.head
    → (history_get_older (some h) ≡ (some (get_or (lines h) 0 []), some h))
      × (history_get_newer (some h) ≡ (some [], some h))
unfolding history_get_older history_get_newer
history-full h valid full at =
    let (size, head, few, cursor) = valid in
    let some_lines : (h.count == 0) ≡ false = ground arith in
    let first : (h.cursor == oldest_index h) ≡ true = ground arith in
    let here : (h.cursor == h.head) ≡ true = ground arith in
    let begin : oldest_index h ≡ (oldest_index h + 0) % history_size = omega arith in
    (
      rw (some_lines, first)
          (ap (λ l. (some l, some h))
            (ap (λ i. get_or h.entries i []) begin ∙ shown h 0 valid (omega arith))),
      rw (some_lines, here) refl,
    )
