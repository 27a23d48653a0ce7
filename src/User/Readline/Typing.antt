-- ===== src/User/Readline/Typing.antt =====
-- A line that is typed is the line that is read.
use icariusos.Base.{
  ℕ, zero, suc, ◌+◌, ◌-◌, ◌%◌, ◌<◌, ◌≡◌, ◌≢◌, refl, sym, ap, ◌∙◌, arith, true, false, not, ◌&&◌,
  ◌||◌, List, [], ◌∷◌, ◌++◌, map, Option, none, some, length, get_or, set, take, replicate, All,
  append-nil, append_assoc, length-append, length-set, ltb, leb, ◌==◌,
}
use icariusos.User.History.{Line, history_add}
use icariusos.User.Readline.Buffer.{store_at-inside}
use icariusos.User.Readline.{
  shown, other, Readline, buffer_size, scancode_ascii, text_of, key_of, press_enter, press_other,
  press, translate_sc_into_event, take_scancode, key_loop, readline,
}

-- The character of a key without shift.
abbrev pub plain_ascii : ℕ → ℕ
plain_ascii scancode = get_or scancode_ascii scancode 0

-- A key that is pressed, that has a character, and none of its own meaning.
abbrev pub Plain : ℕ → Type 0
Plain scancode =
    (scancode < 0x80)
    × (plain_ascii scancode ≢ 0)
    × (key_of scancode ≡ other)
    × (scancode ≢ 0x2A)
    × (scancode ≢ 0x36)

-- The state behind one, where there is room.
typed : ℕ → Readline → Readline
typed scancode s = record s {
  shift = false;
  buffer = set s.buffer s.pos (plain_ascii scancode);
  pos = s.pos + 1;
  screen = s.screen ++ (shown (plain_ascii scancode) ∷ []);
}

other-typed :
    (scancode : ℕ) (s : Readline)
    → plain_ascii scancode ≢ 0
    → s.pos < buffer_size - 1
    → s.pos < length s.buffer
    → press_other (plain_ascii scancode) (record s { shift = false }) ≡ some (typed scancode s)
unfolding press_other typed
other-typed scancode s there room inside =
    let c = plain_ascii scancode in
    let writes : (not (c == 0) && ltb s.pos (buffer_size - 1)) ≡ true = ground arith in
    rw (writes, store_at-inside s.buffer s.pos c inside)

take-Plain :
    (scancode : ℕ) (s : Readline)
    → Plain scancode
    → s.shift ≡ false
    → s.pos < buffer_size - 1
    → s.pos < length s.buffer
    → take_scancode scancode s ≡ some (none, typed scancode s)
unfolding take_scancode translate_sc_into_event press typed
take-Plain scancode s (low, there, plain, left_shift, right_shift) no_shift room inside =
    let code : scancode % 0x80 ≡ scancode = omega arith in
    let down : leb 0x80 scancode ≡ false = ground arith in
    let not_shift : (scancode == 0x2A) || (scancode == 0x36) ≡ false = ground arith in
    rw (code, no_shift, down, not_shift, plain) (rw (other-typed scancode s there room inside))

take-set :
    (b : List ℕ) (pos c : ℕ)
    → pos < length b
    → take (suc pos) (set b pos c) ≡ take pos b ++ (c ∷ [])
take-set [] pos c lt = absurd (omega arith)
take-set (x ∷ b) zero c lt = refl
take-set (x ∷ b) (suc pos) c lt = ap (λ t. x ∷ t) (take-set b pos c (omega arith))

text_of-set :
    (b : List ℕ) (pos : ℕ)
    → pos < length b
    → All (λ c. c ≢ 0) (take pos b)
    → text_of (set b pos 0) ≡ take pos b
text_of-set [] pos lt there = absurd (omega arith)
text_of-set (x ∷ b) zero lt there = refl
text_of-set (x ∷ b) (suc pos) lt (ne, there) =
    let more : (x == 0) ≡ false = ground arith in
    rw more (ap (λ t. x ∷ t) (text_of-set b pos (omega arith) there))

All-snoc : (cs : List ℕ) (c : ℕ) → All (λ x. x ≢ 0) cs → c ≢ 0 → All (λ x. x ≢ 0) (cs ++ (c ∷ []))
All-snoc [] c all ne = (ne, tt)
All-snoc (x ∷ cs) c (h, all) ne = (h, All-snoc cs c all ne)

-- What has been typed stands in the buffer.
abbrev Holds : Readline → List ℕ → Type 0
Holds s cs =
    (length s.buffer ≡ buffer_size)
    × (s.pos ≡ length cs)
    × (take s.pos s.buffer ≡ cs)
    × All (λ c. c ≢ 0) cs
    × (s.shift ≡ false)

typed-Holds :
    (scancode : ℕ) (s : Readline) (cs : List ℕ)
    → Plain scancode
    → length cs < buffer_size - 1
    → Holds s cs
    → Holds (typed scancode s) (cs ++ (plain_ascii scancode ∷ []))
unfolding typed
typed-Holds scancode s cs (low, there, plain, left_shift, right_shift) room
      (size, pos, text, all, no_shift) =
    let c = plain_ascii scancode in
    let count = length-append cs (c ∷ []) in
    let at : s.pos + 1 ≡ suc s.pos = omega arith in
    (
      length-set s.buffer s.pos c ∙ size,
      omega arith,
      ap (λ n. take n (set s.buffer s.pos c)) at
          ∙ take-set s.buffer s.pos c (omega arith)
          ∙ ap (λ t. t ++ (c ∷ [])) text,
      All-snoc cs c all there,
      refl,
    )

-- The loop over one more scan code.
loop-next :
    (scancode : ℕ) (scancodes : List ℕ) (s s' : Readline)
    → take_scancode scancode s ≡ some (none, s')
    → key_loop (scancode ∷ scancodes) s ≡ key_loop scancodes s'
unfolding key_loop
loop-next scancode scancodes s s' run = rw run

-- The run ends with a line.
abbrev Gives : Line → Option (Option Line × Readline) → Type 0
Gives line run = (s' : Readline) × (run ≡ some (some line, s'))

loop-enter :
    (scancodes : List ℕ) (s : Readline)
    → s.shift ≡ false
    → s.pos < length s.buffer
    → Gives (text_of (set s.buffer s.pos 0)) (key_loop (0x1C ∷ scancodes) s)
unfolding key_loop take_scancode translate_sc_into_event press press_enter
loop-enter scancodes s no_shift inside =
    let buffer = set s.buffer s.pos 0 in
    (
      record s {
        buffer = buffer;
        history = history_add s.history (text_of buffer);
        screen = s.screen ++ (shown 10 ∷ []);
      },
      rw (store_at-inside s.buffer s.pos 0 inside),
    )

key_loop-Holds :
    (codes scancodes cs : List ℕ) (s : Readline)
    → All Plain codes
    → length cs + length codes < buffer_size
    → Holds s cs
    → Gives (cs ++ map plain_ascii codes) (key_loop (codes ++ (0x1C ∷ scancodes)) s)
key_loop-Holds [] scancodes cs s plain room (size, pos, text, all, no_shift) =
    let (s', ends) = loop-enter scancodes s no_shift (omega arith) in
    let line : text_of (set s.buffer s.pos 0) ≡ cs ++ [] =
      text_of-set s.buffer s.pos (omega arith) (rw text all) ∙ text ∙ sym (append-nil cs) in
    (s', ends ∙ ap (λ l. some (some l, s')) line)
key_loop-Holds (code ∷ codes) scancodes cs s (here, plain) room holds =
    let c = plain_ascii code in
    let (size, pos, text, all, no_shift) = holds in
    let count = length-append cs (c ∷ []) in
    let next =
      loop-next code (codes ++ (0x1C ∷ scancodes)) s (typed code s)
        (take-Plain code s here no_shift (omega arith) (omega arith)) in
    let (s', ends) =
      key_loop-Holds codes scancodes (cs ++ (c ∷ [])) (typed code s) plain (omega arith)
        (typed-Holds code s cs here (omega arith) holds) in
    (
      s',
      next ∙ ends ∙ ap (λ l. some (some l, s')) (append_assoc cs (c ∷ []) (map plain_ascii codes)),
    )

-- Fewer than 256 keys with a character, pressed without shift, and then the enter key: `readline`
-- returns, with the line of their characters, in order, whatever was in its buffer and whatever comes
-- after.
pub readline-typed :
    (codes scancodes : List ℕ) (s : Readline)
    → All Plain codes
    → length codes < buffer_size
    → s.shift ≡ false
    → (s' : Readline) × (readline (codes ++ (0x1C ∷ scancodes)) s
        ≡ some (some (map plain_ascii codes), s'))
unfolding readline
readline-typed codes scancodes s plain room no_shift =
    key_loop-Holds codes scancodes [] (record s { pos = 0; buffer = replicate buffer_size 0 }) plain
      (omega arith) (refl, refl, refl, tt, no_shift)
