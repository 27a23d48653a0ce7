-- ===== src/User/History.antt =====
-- src/x86/user/libc/history.c and src/x86/user/libc/include/history.h: the lines that the shell
-- remembers. A line is the bytes in front of its NUL, a NULL `self` is `none`, and the line of
-- `history_add` is not NULL: `strlen` has read it before the code asks.
pub mod Contents
pub mod Browse
use icariusos.Base.{
  ℕ, zero, suc, ◌+◌, ◌-◌, ◌%◌, Bool, true, false, ◌&&◌, ◌||◌, List, [], ◌∷◌, Option, none, some,
  length, get_or, set, take, ltb, ◌==◌, if◌then◌else◌,
}

abbrev pub history_size : ℕ
history_size = 256

abbrev pub history_line_max : ℕ
history_line_max = 256

abbrev pub Line : Type 0
Line = List ℕ

pub record History : Type 0 where
  pub entries : List Line
  pub head : ℕ
  pub count : ℕ
  pub cursor : ℕ

-- `strcmp` of two lines is 0.
abbrev pub same_line : Line → Line → Bool
same_line [] [] = true
same_line [] (d ∷ t) = false
same_line (c ∷ s) [] = false
same_line (c ∷ s) (d ∷ t) = (c == d) && same_line s t

-- The index of the oldest line, and of the last one.
abbrev pub oldest_index : History → ℕ
oldest_index self = (self.head + history_size - self.count) % history_size

abbrev pub last_line : History → Line
last_line self = get_or self.entries ((self.head + history_size - 1) % history_size) []

-- The line goes into the slot at the head, over the oldest one where all are taken.
unfoldable pub write_line : History → Line → History
write_line self line =
    let head' = (self.head + 1) % history_size in
    record {
      entries = set self.entries self.head (take (history_line_max - 1) line);
      head = head';
      count = if ltb self.count history_size then self.count + 1 else self.count;
      cursor = head';
    }

unfoldable pub history_add : Option History → Line → Option History
unfolding write_line
history_add none line = none
history_add (some self) line =
    if length line == 0
    then some self
    else (if ltb 0 self.count && same_line (last_line self) line
        then some self
        else some (write_line self line))

-- The line that is shown, or NULL.
unfoldable pub history_get_older : Option History → Option Line × Option History
history_get_older none = (none, none)
history_get_older (some self) =
    let older_index = (self.cursor + history_size - 1) % history_size in
    if self.count == 0
    then (none, some self)
    else (if self.cursor == oldest_index self
        then (some (get_or self.entries (oldest_index self) []), some self)
        else (
          some (get_or self.entries older_index []),
          some (record self { cursor = older_index }),
        ))

unfoldable pub history_get_newer : Option History → Option Line × Option History
history_get_newer none = (none, none)
history_get_newer (some self) =
    let next_index = (self.cursor + 1) % history_size in
    if self.count == 0
    then (none, some self)
    else (if self.cursor == self.head then (some [], some self) else (
      (if next_index == self.head then some [] else some (get_or self.entries next_index [])),
      some (record self { cursor = next_index }),
    ))
