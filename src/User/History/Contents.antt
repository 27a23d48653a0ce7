-- ===== src/User/History/Contents.antt =====
-- What the history holds.
use icariusos.Base.{
  ℕ, zero, suc, ◌+◌, ◌-◌, ◌%◌, ◌<◌, ◌≤◌, ◌≡◌, sym, ap, ◌∙◌, arith, true, false, ◌&&◌, ◌||◌, List,
  [], ◌∷◌, ◌++◌, Option, none, some, length, get_or, set, take, drop, ltb, ◌==◌, if◌then◌else◌,
  length-set,
}
use icariusos.Base.Ring.{window, length-window, window-set_behind}
use icariusos.User.History.{
  History, Line, history_size, history_line_max, same_line, oldest_index, last_line, write_line,
  history_add,
}

-- The indices are those of the buffer, and the count is not above its size.
abbrev pub IsValid : History → Type 0
IsValid h =
    (length h.entries ≡ history_size)
    × (h.head < history_size)
    × (h.count ≤ history_size)
    × (h.cursor < history_size)

abbrev pub HoldsValid : Option History → Type 0
HoldsValid none = ⊥
HoldsValid (some h) = IsValid h

-- The lines held, oldest first.
abbrev pub lines : History → List Line
lines h = window [] history_size h.entries (oldest_index h) h.count

abbrev pub lines_or : Option History → List Line
lines_or none = []
lines_or (some h) = lines h

-- The abstract history: the last 256 lines, each cut to 255 bytes, without empty lines and without
-- one that is the last one again.
abbrev pub newest : List Line → Line
newest [] = []
newest (l ∷ []) = l
newest (l ∷ m ∷ ls) = newest (m ∷ ls)

abbrev pub remember : List Line → Line → List Line
remember ls line =
    if (length line == 0) || (ltb 0 (length ls) && same_line (newest ls) line)
    then ls
    else (if ltb (length ls) history_size then ls else drop 1 ls)
      ++ (take (history_line_max - 1) line ∷ [])

-- The last cell of a window.
window-last :
    (buf : List Line) (h n : ℕ)
    → h < history_size
    → n < history_size
    → newest (window [] history_size buf h (suc n)) ≡ get_or buf ((h + n) % history_size) []
window-last buf h zero start few = ap (λ i. get_or buf i []) (omega arith)
window-last buf h (suc n) start few =
    window-last buf ((h + 1) % history_size) n (omega arith) (omega arith)
    ∙ ap (λ i. get_or buf i []) (omega arith)

lines-newest : (h : History) → IsValid h → 0 < h.count → newest (lines h) ≡ last_line h
lines-newest h (size, head, few, cursor) some_lines =
    let n = h.count - 1 in
    let last = window-last h.entries (oldest_index h) n (omega arith) (omega arith) in
    let count : suc n ≡ h.count = omega arith in
    let at_end : (oldest_index h + n) % history_size ≡ (h.head + history_size - 1) % history_size =
      omega arith in
    ap (λ k. newest (window [] history_size h.entries (oldest_index h) k)) (sym count)
    ∙ last
    ∙ ap (λ i. get_or h.entries i []) at_end

write_line-IsValid : (h : History) (line : Line) → IsValid h → IsValid (write_line h line)
unfolding write_line
write_line-IsValid h line (size, head, few, cursor) = (
  length-set h.entries h.head (take (history_line_max - 1) line) ∙ size,
  omega arith,
  ground arith,
  omega arith,
)

-- A line more, where there is room, and in place of the oldest one, where there is none.
write_line-room :
    (h : History) (line : Line)
    → IsValid h
    → h.count < history_size
    → lines (write_line h line) ≡ lines h ++ (take (history_line_max - 1) line ∷ [])
unfolding write_line
write_line-room h line (size, head, few, cursor) room =
    let more : ltb h.count history_size ≡ true = ground arith in
    let same : ((h.head + 1) % history_size + history_size - (h.count + 1)) % history_size
        ≡ oldest_index h =
      omega arith in
    let behind =
      window-set_behind [] history_size h.entries (take (history_line_max - 1) line) h.count
        (oldest_index h) h.head (omega arith) (omega arith) room (omega arith) in
    let count : h.count + 1 ≡ suc h.count = omega arith in
    rw (more, same)
      (ap
          (λ k.
            window [] history_size (set h.entries h.head (take (history_line_max - 1) line))
              (oldest_index h) k)
          count
        ∙ behind)

write_line-full :
    (h : History) (line : Line)
    → IsValid h
    → h.count ≡ history_size
    → lines (write_line h line) ≡ drop 1 (lines h) ++ (take (history_line_max - 1) line ∷ [])
unfolding write_line
write_line-full h line (size, head, few, cursor) full =
    let none_left : ltb h.count history_size ≡ false = ground arith in
    let next = (h.head + 1) % history_size in
    let old : (h.head + history_size - history_size) % history_size ≡ h.head = omega arith in
    let new : (next + history_size - history_size) % history_size ≡ next = omega arith in
    let behind =
      window-set_behind [] history_size h.entries (take (history_line_max - 1) line) 255 next h.head
        (omega arith) (omega arith) (omega arith) (omega arith) in
    rw (none_left, full, new, old) behind

-- From a valid history `history_add` keeps it valid.
pub history_add-IsValid :
    (h : History) (line : Line) → IsValid h → HoldsValid (history_add (some h) line)
unfolding history_add
history_add-IsValid h line valid = let kept = write_line-IsValid h line valid in ground arith

-- From a valid history `history_add` stays valid and leaves it with the lines that the abstract history
-- has: the last 256, each cut to 255 bytes, without an empty line and without one that repeats the last.
pub history_add_refines :
    (h : History) (line : Line)
    → IsValid h
    → HoldsValid (history_add (some h) line)
      × (lines_or (history_add (some h) line) ≡ remember (lines h) line)
unfolding history_add
history_add_refines h line valid =
    let (size, head, few, cursor) = valid in
    let count : length (lines h) ≡ h.count =
      length-window [] history_size h.entries (oldest_index h) h.count in
    let last = lines-newest h valid in
    let room = write_line-room h line valid in
    let full = write_line-full h line valid in
    (history_add-IsValid h line valid, ground (arith, count, last, room, full))
