-- ===== src/User/Readline.antt =====
-- src/x86/user/libc/kbd.c and src/x86/user/libc/readline.c: a line that is typed, from scan codes to
-- the history. The scan codes that `read` gives are a list, which ends where `read` fails. The static
-- variables `shift`, `buffer` and `icarsh_history` are part of the state, and what is written to the
-- screen is a list.
pub mod Buffer
pub mod Typing
use icariusos.Base.{
  ℕ, zero, suc, ◌+◌, ◌-◌, ◌%◌, Bool, true, false, not, ◌&&◌, ◌||◌, List, [], ◌∷◌, ◌++◌, Option,
  none, some, length, get_or, set, replicate, ltb, leb, ◌==◌, if◌then◌else◌, ◌>>=◌,
}
use icariusos.User.History.{
  History, Line, history_line_max, history_add, history_get_older, history_get_newer,
}

pub data Key : Type 0 where
  enter : Key
  backspace : Key
  esc : Key
  up : Key
  down : Key
  left : Key
  right : Key
  other : Key

pub record KeyEvent : Type 0 where
  pub pressed : Bool
  pub ascii : ℕ
  pub code : Key

-- The tables have 128 entries; those behind the ones written out are 0.
unfoldable pub scancode_ascii : List ℕ
scancode_ascii =
    0 ∷ 27 ∷ 49 ∷ 50 ∷ 51 ∷ 52 ∷ 53 ∷ 54 ∷ 55 ∷ 56 ∷ 57 ∷ 48 ∷ 45 ∷ 61 ∷ 8 ∷ 9 ∷ 113 ∷ 119 ∷ 101
    ∷ 114 ∷ 116 ∷ 122 ∷ 117 ∷ 105 ∷ 111 ∷ 112 ∷ 91 ∷ 93 ∷ 10 ∷ 0 ∷ 97 ∷ 115 ∷ 100 ∷ 102 ∷ 103 ∷ 104
    ∷ 106 ∷ 107 ∷ 108 ∷ 58 ∷ 39 ∷ 96 ∷ 0 ∷ 92 ∷ 121 ∷ 120 ∷ 99 ∷ 118 ∷ 98 ∷ 110 ∷ 109 ∷ 44 ∷ 46 ∷ 47
    ∷ 0 ∷ 42 ∷ 0 ∷ 32 ∷ []

unfoldable pub scancode_ascii_shift : List ℕ
scancode_ascii_shift =
    0 ∷ 27 ∷ 33 ∷ 34 ∷ 35 ∷ 36 ∷ 37 ∷ 38 ∷ 47 ∷ 40 ∷ 41 ∷ 61 ∷ 63 ∷ 96 ∷ 8 ∷ 9 ∷ 81 ∷ 87 ∷ 69 ∷ 82
    ∷ 84 ∷ 90 ∷ 85 ∷ 73 ∷ 79 ∷ 80 ∷ 123 ∷ 125 ∷ 10 ∷ 0 ∷ 65 ∷ 83 ∷ 68 ∷ 70 ∷ 71 ∷ 72 ∷ 74 ∷ 75 ∷ 76
    ∷ 58 ∷ 34 ∷ 126 ∷ 0 ∷ 124 ∷ 89 ∷ 88 ∷ 67 ∷ 86 ∷ 66 ∷ 78 ∷ 77 ∷ 60 ∷ 58 ∷ 95 ∷ 0 ∷ 42 ∷ 0 ∷ 32
    ∷ []

abbrev pub key_of : ℕ → Key
key_of code =
    if code == 0x1C
    then enter
    else (if code == 0x0E
        then backspace
        else (if code == 0x01
            then esc
            else (if code == 0x48
                then up
                else (if code == 0x50
                    then down
                    else (if code == 0x4B
                        then left
                        else (if code == 0x4D then right else other))))))

-- The event, and the flag for the shift keys.
unfoldable pub translate_sc_into_event : ℕ → Bool → KeyEvent × Bool
translate_sc_into_event scancode shift =
    let is_keyup = leb 0x80 scancode in
    let code = scancode % 0x80 in
    let ch = if shift then get_or scancode_ascii_shift code 0 else get_or scancode_ascii code 0 in
    if (code == 0x2A) || (code == 0x36)
    then (record { pressed = false; ascii = 0; code = other }, not is_keyup)
    else (
      record { pressed = not is_keyup; ascii = if is_keyup then 0 else ch; code = key_of code },
      shift,
    )

-- What goes to the screen: a character, a character taken back, or the 256 bytes from a line on.
pub data Echo : Type 0 where
  shown : ℕ → Echo
  rubbed : Echo
  recalled : Line → Echo

abbrev pub buffer_size : ℕ
buffer_size = 256

pub record Readline : Type 0 where
  pub pos : ℕ
  pub buffer : List ℕ
  pub shift : Bool
  pub history : Option History
  pub screen : List Echo

-- The bytes in front of the first NUL.
abbrev pub text_of : List ℕ → Line
text_of [] = []
text_of (c ∷ cs) = if c == 0 then [] else c ∷ text_of cs

-- A byte stored in the buffer; behind its end, `none`.
unfoldable pub store_at : List ℕ → ℕ → ℕ → Option (List ℕ)
store_at buffer pos c = if ltb pos (length buffer) then some (set buffer pos c) else none

-- `strncpy`, with the bytes that are left to store; behind the end of the buffer, `none`.
unfoldable pub copy_line : ℕ → Line → List ℕ → Option (List ℕ)
copy_line zero line buffer = some buffer
copy_line (suc n) line [] = none
copy_line (suc n) [] (b ∷ buffer) = copy_line n [] buffer >>= λ rest. some (0 ∷ rest)
copy_line (suc n) (c ∷ line) (b ∷ buffer) = copy_line n line buffer >>= λ rest. some (c ∷ rest)

-- A line of the history takes the place of what was typed.
unfoldable pub recall : Option Line → Readline → Option Readline
unfolding copy_line
recall none self = some self
recall (some cmd) self = copy_line (buffer_size - 1) cmd self.buffer >>= λ buffer.
    some (record self {
      buffer = buffer;
      pos = length (text_of buffer);
      screen = self.screen ++ (replicate self.pos rubbed ++ (recalled cmd ∷ []));
    })

unfoldable pub press_enter : Readline → Option (Line × Readline)
unfolding store_at
press_enter self = store_at self.buffer self.pos 0 >>= λ buffer. some (
  text_of buffer,
  record self {
    buffer = buffer;
    history = history_add self.history (text_of buffer);
    screen = self.screen ++ (shown 10 ∷ []);
  },
)

unfoldable pub press_backspace : Readline → Readline
press_backspace self =
    if self.pos == 0
    then self
    else record self { pos = self.pos - 1; screen = self.screen ++ (rubbed ∷ []) }

unfoldable pub press_other : ℕ → Readline → Option Readline
unfolding store_at
press_other ascii self =
    let written = store_at self.buffer self.pos ascii >>= λ buffer. some (record self {
      buffer = buffer;
      pos = self.pos + 1;
      screen = self.screen ++ (shown ascii ∷ []);
    }) in
    if not (ascii == 0) && ltb self.pos (buffer_size - 1) then written else some self

-- The loop goes on.
abbrev pub going_on : Option Readline → Option (Option Line × Readline)
going_on run = run >>= λ self. some (none, self)

-- What a key that is pressed does; a line, where the loop ends. `none`: a write outside the buffer.
unfoldable pub press : Key → ℕ → Readline → Option (Option Line × Readline)
unfolding press_enter press_backspace press_other recall
press enter ascii self = press_enter self >>= λ (line, self'). some (some line, self')
press backspace ascii self = some (none, press_backspace self)
press up ascii self =
    let (cmd, history) = history_get_older self.history in
    going_on (recall cmd (record self { history = history }))
press down ascii self =
    let (cmd, history) = history_get_newer self.history in
    going_on (recall cmd (record self { history = history }))
press esc ascii self = going_on (press_other ascii self)
press left ascii self = going_on (press_other ascii self)
press right ascii self = going_on (press_other ascii self)
press other ascii self = going_on (press_other ascii self)

unfoldable pub take_scancode : ℕ → Readline → Option (Option Line × Readline)
unfolding translate_sc_into_event press
take_scancode scancode self =
    let (event, shift) = translate_sc_into_event scancode self.shift in
    let held = record self { shift = shift } in
    let pressed = press event.code event.ascii held in
    if event.pressed then pressed else some (none, held)

-- Whether a scan code ends the line, and with what the loop goes on otherwise.
abbrev pub unless_line :
    (Readline → Option (Option Line × Readline))
    → Option Line × Readline
    → Option (Option Line × Readline)
unless_line rest (none, self) = rest self
unless_line rest (some line, self) = some (some line, self)

-- The line, or NULL, and the state.
unfoldable pub key_loop : List ℕ → Readline → Option (Option Line × Readline)
unfolding take_scancode
key_loop [] self = some (none, self)
key_loop (scancode ∷ scancodes) self =
    take_scancode scancode self >>= unless_line (key_loop scancodes)

-- `readline` without a prompt.
unfoldable pub readline : List ℕ → Readline → Option (Option Line × Readline)
unfolding key_loop
readline scancodes self =
    key_loop scancodes (record self { pos = 0; buffer = replicate buffer_size 0 })
