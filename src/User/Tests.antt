-- ===== src/User/Tests.antt =====
-- The theorems on the parts of the user library at concrete values, and runs of its functions.
use icariusos.Base.{
  ℕ, ◌≤◌, ◌≡◌, ◌⊎◌, inl, refl, arith, true, false, [], ◌∷◌, ◌++◌, All, map, set, get_or, replicate,
  Option, none, some, ◌==◌, if◌then◌else◌, Returns,
}
use icariusos.User.History.{History, history_add, history_get_older, history_get_newer}
use icariusos.User.History.Contents.{
  IsValid, HoldsValid, lines, lines_or, remember, history_add_refines,
}
use icariusos.User.History.Browse.{older, newer, moved, history-walk, history-full}
use icariusos.User.Readline.{Readline, scancode_ascii, readline}
use icariusos.User.Readline.Buffer.{IsReady, readline-IsReady}
use icariusos.User.Readline.Typing.{Plain, plain_ascii, readline-typed}
use icariusos.User.Heap.{Heap, find_best_fit_free_block, take_block, malloc}
use icariusos.User.Heap.Search.{FreeList, Beaten, find_best_fit_free_block-Beaten}
use icariusos.User.Heap.Lists.{Among}
use icariusos.User.Heap.Claims.{Valid}
use icariusos.User.Heap.Allocation.{Answered, malloc-Answered}

-- A free block of 104 bytes, then a block of 8 bytes in use.
abbrev hole : ℕ
hole = 0x80_0000

abbrev used : ℕ
used = 0x80_0080

abbrev two_blocks : Heap
two_blocks = record {
  blocks = λ a.
      if a == hole
      then record {
        size = 104;
        is_free = true;
        next = used;
        prev = 0;
        next_free = 0;
        prev_free = 0;
      }
      else record {
        size = 8;
        is_free = false;
        next = 0;
        prev = hole;
        next_free = 0;
        prev_free = 0;
      };
  heap_head = hole;
  heap_tail = used;
  free_list = hole;
  heap_curr = 0x80_00A0;
  memory = λ a. 0;
  errno = 0;
}

two_blocks-FreeList : FreeList two_blocks (hole ∷ [])
two_blocks-FreeList = (refl, (refl, refl, tt), ((omega arith, omega arith), tt), (tt, tt))

two_blocks-Valid : Valid two_blocks (hole ∷ used ∷ []) (hole ∷ [])
two_blocks-Valid = (
  (refl, refl, refl, (refl, refl, refl, refl)),
  refl,
  refl,
  omega arith,
  two_blocks-FreeList,
  ((inl refl, refl), tt),
)

malloc-Answered_example : Answered 2 40 two_blocks (hole ∷ used ∷ []) (hole ∷ [])
malloc-Answered_example =
    malloc-Answered 2 40 two_blocks (hole ∷ used ∷ []) (hole ∷ []) (omega arith) (omega arith)
      (omega arith) two_blocks-Valid

find_best_fit_free_block-Beaten_example :
    (r : ℕ) × (find_best_fit_free_block 2 40 two_blocks ≡ some r)
    × All (Beaten two_blocks.blocks 40 r) (hole ∷ [])
    × ((r ≡ 0) ⊎ (Among r (hole ∷ []) × (40 ≤ (two_blocks.blocks r).size)))
find_best_fit_free_block-Beaten_example =
    find_best_fit_free_block-Beaten 2 40 two_blocks (hole ∷ []) (omega arith) (omega arith)
      two_blocks-FreeList

-- The block of 104 bytes is split for a request of 40, and the rest is what the next one gets.
pointer : Option (ℕ × Heap) → Option ℕ
pointer none = none
pointer (some (p, h)) = some p

second : Option (ℕ × Heap) → Option ℕ
second none = none
second (some (p, h)) = pointer (malloc 3 16 h)

run_first : pointer (malloc 2 40 two_blocks) ≡ some 0x80_0018
unfolding pointer malloc take_block
run_first = refl

run_second : second (malloc 2 40 two_blocks) ≡ some 0x80_0058
unfolding second pointer malloc take_block
run_second = refl

-- A history of two lines, `a` and `b`, with the cursor behind them.
abbrev two_lines : History
two_lines = record {
  entries = set (set (replicate 256 []) 0 (97 ∷ [])) 1 (98 ∷ []);
  head = 2;
  count = 2;
  cursor = 2;
}

two_lines-IsValid : IsValid two_lines
two_lines-IsValid = (refl, omega arith, omega arith, omega arith)

history_add_refines_example :
    HoldsValid (history_add (some two_lines) (99 ∷ []))
    × (lines_or (history_add (some two_lines) (99 ∷ [])) ≡ remember (lines two_lines) (99 ∷ []))
history_add_refines_example = history_add_refines two_lines (99 ∷ []) two_lines-IsValid

history-walk_example :
    (history_get_older (some two_lines)
      ≡ ((older (lines two_lines) 2).0, some (moved two_lines (older (lines two_lines) 2).1)))
    × (history_get_newer (some two_lines)
        ≡ ((newer (lines two_lines) 2).0, some (moved two_lines (newer (lines two_lines) 2).1)))
history-walk_example = history-walk two_lines 2 two_lines-IsValid (omega arith) (omega arith, refl)

-- All slots taken.
abbrev full_history : History
full_history = record { entries = replicate 256 (97 ∷ []); head = 7; count = 256; cursor = 7 }

history-full_example :
    (history_get_older (some full_history)
      ≡ (some (get_or (lines full_history) 0 []), some full_history))
    × (history_get_newer (some full_history) ≡ (some [], some full_history))
history-full_example =
    history-full full_history (refl, omega arith, omega arith, omega arith) refl refl

-- A prompt before the first key.
abbrev fresh : Readline
fresh = record {
  pos = 0;
  buffer = replicate 256 7;
  shift = false;
  history = some two_lines;
  screen = [];
}

readline-IsReady_example :
    Returns (readline (0x48 ∷ 0x1E ∷ 0x1C ∷ []) fresh) (λ (line, s'). IsReady s')
readline-IsReady_example = readline-IsReady (0x48 ∷ 0x1E ∷ 0x1C ∷ []) fresh two_lines-IsValid

-- The keys `h` and `i`.
hi-Plain : All Plain (0x23 ∷ 0x17 ∷ [])
unfolding scancode_ascii
hi-Plain = (
  (
    omega arith,
    (λ e. absurd (omega arith)),
    refl,
    (λ e. absurd (omega arith)),
    (λ e. absurd (omega arith)),
  ),
  (
    (
      omega arith,
      (λ e. absurd (omega arith)),
      refl,
      (λ e. absurd (omega arith)),
      (λ e. absurd (omega arith)),
    ),
    tt,
  ),
)

readline-typed_example :
    (s' : Readline) × (readline ((0x23 ∷ 0x17 ∷ []) ++ (0x1C ∷ [])) fresh
      ≡ some (some (map plain_ascii (0x23 ∷ 0x17 ∷ [])), s'))
readline-typed_example = readline-typed (0x23 ∷ 0x17 ∷ []) [] fresh hi-Plain (omega arith) refl
