-- ===== src/User/Readline/Buffer.antt =====
-- The line that is typed stays in its buffer.
use icariusos.Base.{
  ℕ, zero, suc, ◌-◌, ◌<◌, ◌≤◌, ◌≡◌, inl, inr, refl, ap, ◌∙◌, arith, Bool-cases, ==_cases, true, not,
  ◌&&◌, List, [], ◌∷◌, Option, none, some, length, get_or, set, replicate, length-replicate,
  length-set, get_or-set_self, get_or-set_ne, ltb, ◌==◌, Returns, Returns-bind,
}
use icariusos.User.History.{History, Line, history_add, history_get_older, history_get_newer}
use icariusos.User.History.Contents.{HoldsValid, history_add-IsValid}
use icariusos.User.Readline.{
  Key, enter, backspace, esc, up, down, left, right, other, Readline, buffer_size, text_of,
  store_at, copy_line, recall, going_on, unless_line, press_enter, press_backspace, press_other,
  press, translate_sc_into_event, take_scancode, key_loop, readline,
}

-- The next character goes inside the buffer, whose last byte is NUL, and the history is valid.
abbrev pub IsReady : Readline → Type 0
IsReady s =
    (length s.buffer ≡ buffer_size)
    × (s.pos < buffer_size)
    × (get_or s.buffer (buffer_size - 1) 0 ≡ 0)
    × HoldsValid s.history

abbrev Copied : ℕ → List ℕ → List ℕ → Type 0
Copied n buffer out =
    (length out ≡ length buffer) × ((i : ℕ) → n ≤ i → get_or out i 0 ≡ get_or buffer i 0)

Copied-cons :
    (n c b : ℕ) (buffer out : List ℕ) → Copied n buffer out → Copied (suc n) (b ∷ buffer) (c ∷ out)
Copied-cons n c b buffer out (size, same) = (ap suc size, λ i le. below i le)
  where
    below : (i : ℕ) → suc n ≤ i → get_or (c ∷ out) i 0 ≡ get_or (b ∷ buffer) i 0
    below zero le = absurd (omega arith)
    below (suc i) le = same i (omega arith)

-- The copy fits, and leaves the rest of the buffer alone.
copy_line-Copied :
    (n : ℕ) (line : Line) (buffer : List ℕ)
    → n ≤ length buffer
    → Returns (copy_line n line buffer) (Copied n buffer)
unfolding copy_line
copy_line-Copied zero line buffer fits = (refl, λ i le. refl)
copy_line-Copied (suc n) line [] fits = absurd (omega arith)
copy_line-Copied (suc n) [] (b ∷ buffer) fits =
    Returns-bind (Copied n buffer) (Copied (suc n) (b ∷ buffer)) (copy_line n [] buffer) _
      (λ out is. Copied-cons n 0 b buffer out is) (copy_line-Copied n [] buffer (omega arith))
copy_line-Copied (suc n) (c ∷ line) (b ∷ buffer) fits =
    Returns-bind (Copied n buffer) (Copied (suc n) (b ∷ buffer)) (copy_line n line buffer) _
      (λ out is. Copied-cons n c b buffer out is) (copy_line-Copied n line buffer (omega arith))

-- A NUL ends the text.
length-text_of :
    (buffer : List ℕ) (i : ℕ)
    → i < length buffer
    → get_or buffer i 0 ≡ 0
    → length (text_of buffer) ≤ i
length-text_of [] i lt nul = absurd (omega arith)
length-text_of (b ∷ buffer) zero lt nul =
    let stop : (b == 0) ≡ true = ground arith in rw stop (omega arith)
length-text_of (b ∷ buffer) (suc i) lt nul =
    let rest = length-text_of buffer i (omega arith) nul in
    elim (Bool-cases (b == 0)) [ inl e ↦ rw e (omega arith) | inr e ↦ rw e (omega arith) ]

older-HoldsValid : (h : Option History) → HoldsValid h → HoldsValid (history_get_older h).1
unfolding history_get_older
older-HoldsValid none v = v
older-HoldsValid (some h) v = ground arith

newer-HoldsValid : (h : Option History) → HoldsValid h → HoldsValid (history_get_newer h).1
unfolding history_get_newer
newer-HoldsValid none v = v
newer-HoldsValid (some h) v = ground arith

add-HoldsValid : (h : Option History) (line : Line) → HoldsValid h → HoldsValid (history_add h line)
add-HoldsValid none line v = absurd v
add-HoldsValid (some h) line v = history_add-IsValid h line v

recall-IsReady : (cmd : Option Line) (s : Readline) → IsReady s → Returns (recall cmd s) IsReady
unfolding recall
recall-IsReady none s ready = ready
recall-IsReady (some cmd) s (size, inside, nul, history) =
    Returns-bind (Copied (buffer_size - 1) s.buffer) IsReady
      (copy_line (buffer_size - 1) cmd s.buffer) _
      (λ out (length_eq, same).
        let last = same (buffer_size - 1) (omega arith) in
        let short = length-text_of out (buffer_size - 1) (omega arith) (last ∙ nul) in
        (length_eq ∙ size, omega arith, last ∙ nul, history))
      (copy_line-Copied (buffer_size - 1) cmd s.buffer (omega arith))

set-nul :
    (buffer : List ℕ) (pos i : ℕ)
    → i < length buffer
    → get_or buffer i 0 ≡ 0
    → get_or (set buffer pos 0) i 0 ≡ 0
set-nul buffer pos i lt nul = elim (==_cases pos i) [
  | inl e ↦ rw e (get_or-set_self buffer i 0 0 lt)
  | inr ne ↦ get_or-set_ne buffer pos i 0 0 ne ∙ nul
]

pub store_at-inside :
    (buffer : List ℕ) (pos c : ℕ)
    → pos < length buffer
    → store_at buffer pos c ≡ some (set buffer pos c)
unfolding store_at
store_at-inside buffer pos c lt =
    let room : ltb pos (length buffer) ≡ true = ground arith in rw room

-- A line, or none, and a state in which the buffer is ready.
abbrev Held : Option Line × Readline → Type 0
Held (line, s) = IsReady s

enter-IsReady : (s : Readline) → IsReady s → Returns (press_enter s) (λ r. IsReady r.1)
unfolding press_enter
enter-IsReady s (size, inside, nul, history) = rw (store_at-inside s.buffer s.pos 0 (omega arith)) (
  length-set s.buffer s.pos 0 ∙ size,
  inside,
  set-nul s.buffer s.pos (buffer_size - 1) (omega arith) nul,
  add-HoldsValid s.history (text_of (set s.buffer s.pos 0)) history,
)

backspace-IsReady : (s : Readline) → IsReady s → IsReady (press_backspace s)
unfolding press_backspace
backspace-IsReady s (size, inside, nul, history) = elim (Bool-cases (s.pos == 0)) [
  | inl e ↦ rw e (size, inside, nul, history)
  | inr e ↦ rw e (size, omega arith, nul, history)
]

other-IsReady : (ascii : ℕ) (s : Readline) → IsReady s → Returns (press_other ascii s) IsReady
unfolding press_other
other-IsReady ascii s (size, inside, nul, history) =
    elim (Bool-cases (not (ascii == 0) && ltb s.pos (buffer_size - 1))) [
      | inl e ↦
          let room : s.pos < buffer_size - 1 = ground arith in
          rw (e, store_at-inside s.buffer s.pos ascii (omega arith))
            (
              length-set s.buffer s.pos ascii ∙ size,
              omega arith,
              get_or-set_ne s.buffer s.pos (buffer_size - 1) ascii 0 (omega arith) ∙ nul,
              history,
            )
      | inr e ↦ rw e (size, inside, nul, history)
    ]

going_on-Held : (run : Option Readline) → Returns run IsReady → Returns (going_on run) Held
going_on-Held none h = h
going_on-Held (some s) h = h

press-IsReady :
    (key : Key) (ascii : ℕ) (s : Readline) → IsReady s → Returns (press key ascii s) Held
unfolding press
press-IsReady enter ascii s ready =
    Returns-bind (λ r. IsReady r.1) Held (press_enter s) _ (λ r h. h) (enter-IsReady s ready)
press-IsReady backspace ascii s ready = backspace-IsReady s ready
press-IsReady up ascii s (size, inside, nul, history) = going_on-Held _ (
    recall-IsReady (history_get_older s.history).0
      (record s { history = (history_get_older s.history).1 })
      (size, inside, nul, older-HoldsValid s.history history))
press-IsReady down ascii s (size, inside, nul, history) = going_on-Held _ (
    recall-IsReady (history_get_newer s.history).0
      (record s { history = (history_get_newer s.history).1 })
      (size, inside, nul, newer-HoldsValid s.history history))
press-IsReady esc ascii s ready = going_on-Held _ (other-IsReady ascii s ready)
press-IsReady left ascii s ready = going_on-Held _ (other-IsReady ascii s ready)
press-IsReady right ascii s ready = going_on-Held _ (other-IsReady ascii s ready)
press-IsReady other ascii s ready = going_on-Held _ (other-IsReady ascii s ready)

take-IsReady : (scancode : ℕ) (s : Readline) → IsReady s → Returns (take_scancode scancode s) Held
unfolding take_scancode
take-IsReady scancode s ready =
    let (event, shift) = translate_sc_into_event scancode s.shift in
    elim (Bool-cases event.pressed) [
      | inl e ↦ rw e (press-IsReady event.code event.ascii (record s { shift = shift }) ready)
      | inr e ↦ rw e ready
    ]

unless_line-Held :
    (rest : Readline → Option (Option Line × Readline)) (r : Option Line × Readline)
    → ((s : Readline) → IsReady s → Returns (rest s) Held)
    → Held r
    → Returns (unless_line rest r) Held
unless_line-Held rest (none, s) go h = go s h
unless_line-Held rest (some line, s) go h = h

key_loop-IsReady :
    (scancodes : List ℕ) (s : Readline) → IsReady s → Returns (key_loop scancodes s) Held
unfolding key_loop
key_loop-IsReady [] s ready = ready
key_loop-IsReady (scancode ∷ scancodes) s ready =
    Returns-bind Held Held (take_scancode scancode s) (unless_line (key_loop scancodes))
      (λ r h. unless_line-Held (key_loop scancodes) r (key_loop-IsReady scancodes) h)
      (take-IsReady scancode s ready)

-- Whatever the keyboard sends, with a valid history `readline` stores nothing outside its buffer of 256
-- bytes, and leaves the next position inside it, a NUL at its end and the history valid.
pub readline-IsReady :
    (scancodes : List ℕ) (s : Readline)
    → HoldsValid s.history
    → Returns (readline scancodes s) (λ (line, s'). IsReady s')
unfolding readline
readline-IsReady scancodes s history =
    key_loop-IsReady scancodes (record s { pos = 0; buffer = replicate buffer_size 0 })
      (length-replicate {A = ℕ} buffer_size 0, omega arith, refl, history)
