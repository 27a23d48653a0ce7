-- ===== src/Devices/Keyboard.antt =====
-- src/x86/driver/keyboard.c: the translation of scan codes. The two static flags are a record; a
-- read behind the end of a table is `none`. The table for AltGr is read nowhere.
use icariusos.Base.{
  ℕ, zero, suc, ◌≤◌, ◌<◌, ◌≡◌, ◌⊎◌, inl, inr, refl, arith, Bool, Bool-cases, true, false, not, ◌&&◌,
  ◌||◌, List, [], ◌∷◌, Option, none, some, length, get_elem?, leb, ◌==◌, if◌then◌else◌, ◌>>=◌,
}

pub record Flags : Type 0 where
  pub shift : Bool
  pub caps_lock : Bool

unfoldable pub qwertz_lower : List ℕ
qwertz_lower =
    0 ∷ 0 ∷ 49 ∷ 50 ∷ 51 ∷ 52 ∷ 53 ∷ 54 ∷ 55 ∷ 56 ∷ 57 ∷ 48 ∷ 223 ∷ 180 ∷ 8 ∷ 9 ∷ 113 ∷ 119 ∷ 101
    ∷ 114 ∷ 116 ∷ 122 ∷ 117 ∷ 105 ∷ 111 ∷ 112 ∷ 252 ∷ 43 ∷ 13 ∷ 0 ∷ 97 ∷ 115 ∷ 100 ∷ 102 ∷ 103 ∷ 104
    ∷ 106 ∷ 107 ∷ 108 ∷ 246 ∷ 228 ∷ 94 ∷ 0 ∷ 60 ∷ 121 ∷ 120 ∷ 99 ∷ 118 ∷ 98 ∷ 110 ∷ 109 ∷ 44 ∷ 46
    ∷ 45 ∷ 0 ∷ 0 ∷ 0 ∷ 32 ∷ 0 ∷ []

unfoldable pub qwertz_upper : List ℕ
qwertz_upper =
    0 ∷ 0 ∷ 33 ∷ 34 ∷ 167 ∷ 36 ∷ 37 ∷ 38 ∷ 47 ∷ 40 ∷ 41 ∷ 61 ∷ 63 ∷ 96 ∷ 8 ∷ 9 ∷ 81 ∷ 87 ∷ 69 ∷ 82
    ∷ 84 ∷ 90 ∷ 85 ∷ 73 ∷ 79 ∷ 80 ∷ 220 ∷ 42 ∷ 10 ∷ 0 ∷ 65 ∷ 83 ∷ 68 ∷ 70 ∷ 71 ∷ 72 ∷ 74 ∷ 75 ∷ 76
    ∷ 214 ∷ 196 ∷ 94 ∷ 0 ∷ 62 ∷ 89 ∷ 88 ∷ 67 ∷ 86 ∷ 66 ∷ 78 ∷ 77 ∷ 59 ∷ 58 ∷ 95 ∷ 0 ∷ 0 ∷ 0 ∷ 32 ∷ 0
    ∷ []

-- The entry of the table that the flags choose.
unfoldable pub table_entry : ℕ → Flags → Option ℕ
table_entry scancode flags =
    let shifted = flags.shift || (flags.caps_lock && leb 16 scancode && leb scancode 40) in
    if shifted then get_elem? qwertz_upper scancode else get_elem? qwertz_lower scancode

-- The character, or 0, and the flags.
unfoldable pub kbd_translate : ℕ → Flags → Option (ℕ × Flags)
unfolding table_entry
kbd_translate scancode flags =
    let ascii = table_entry scancode flags >>= λ c. some (c, flags) in
    if (scancode == 0x2A) || (scancode == 0x36)
    then some (0, record flags { shift = true })
    else (if (scancode == 0xAA) || (scancode == 0xB6)
        then some (0, record flags { shift = false })
        else (if scancode == 0x3A
            then some (0, record flags { caps_lock = not flags.caps_lock })
            else (if leb 0x80 scancode then some (0, flags) else ascii)))

-- A code between the last entry of the tables and the key releases.
abbrev pub Unmapped : ℕ → Type 0
Unmapped scancode = (59 ≤ scancode) × (scancode < 0x80)

-- A code with an entry, or of a key that is released.
abbrev pub Mapped : ℕ → Type 0
Mapped scancode = (scancode < 59) ⊎ (0x80 ≤ scancode)

pub length-tables : (length qwertz_lower ≡ 59) × (length qwertz_upper ≡ 59)
unfolding qwertz_lower qwertz_upper
length-tables = (refl, refl)

get_elem-Option :
    (xs : List ℕ) (i : ℕ)
    → ((i < length xs) × ((c : ℕ) × (get_elem? xs i ≡ some c)))
      ⊎ ((length xs ≤ i) × (get_elem? xs i ≡ none))
get_elem-Option [] i = inr (omega arith, refl)
get_elem-Option (x ∷ xs) zero = inl (omega arith, (x, refl))
get_elem-Option (x ∷ xs) (suc i) = elim (get_elem-Option xs i) [
  | inl (lt, found) ↦ inl (omega arith, found)
  | inr (le, e) ↦ inr (omega arith, e)
]

entry-cases :
    (table : List ℕ) (scancode : ℕ)
    → length table ≡ 59
    → ((scancode < 59) × ((c : ℕ) × (get_elem? table scancode ≡ some c)))
      ⊎ ((59 ≤ scancode) × (get_elem? table scancode ≡ none))
entry-cases table scancode size = elim (get_elem-Option table scancode) [
  | inl (lt, found) ↦ inl (omega arith, found)
  | inr (le, e) ↦ inr (omega arith, e)
]

table_entry-cases :
    (scancode : ℕ) (flags : Flags)
    → ((scancode < 59) × ((c : ℕ) × (table_entry scancode flags ≡ some c)))
      ⊎ ((59 ≤ scancode) × (table_entry scancode flags ≡ none))
unfolding table_entry
table_entry-cases scancode flags =
    let (low, up) = length-tables in
    elim (Bool-cases (flags.shift || (flags.caps_lock && leb 16 scancode && leb scancode 40))) [
      | inl e ↦ rw e (entry-cases qwertz_upper scancode up)
      | inr e ↦ rw e (entry-cases qwertz_lower scancode low)
    ]

-- For every scan code of a byte and every state of the flags, the translation reads behind the end of
-- a table exactly for the codes 59 to 127: for those it does, and for every other code it gives a
-- character.
pub kbd_translate-Unmapped :
    (scancode : ℕ) (flags : Flags)
    → scancode < 256
    → (Unmapped scancode × (kbd_translate scancode flags ≡ none))
      ⊎ (Mapped scancode
          × ((c : ℕ) × (flags' : Flags) × (kbd_translate scancode flags ≡ some (c, flags'))))
unfolding kbd_translate
kbd_translate-Unmapped scancode flags byte =
    elim (Bool-cases ((scancode == 0x2A) || (scancode == 0x36))) [
      | inl e ↦ rw e (inr (ground arith, (0, record flags { shift = true }, refl)))
      | inr a ↦ rw a (elim (Bool-cases ((scancode == 0xAA) || (scancode == 0xB6))) [
        | inl e ↦ rw e (inr (ground arith, (0, record flags { shift = false }, refl)))
        | inr b ↦ rw b (elim (Bool-cases (scancode == 0x3A)) [
          | inl e ↦
              rw e (inr (ground arith, (0, record flags { caps_lock = not flags.caps_lock }, refl)))
          | inr c ↦ rw c (elim (Bool-cases (leb 0x80 scancode)) [
            | inl e ↦ rw e (inr (inr (ground arith), (0, flags, refl)))
            | inr d ↦ rw d (elim (table_entry-cases scancode flags) [
              | inl (lt, (c, e)) ↦ inr (inl lt, (c, flags, rw e refl))
              | inr (le, e) ↦ inl ((le, ground arith), rw e refl)
            ])
          ])
        ])
      ])
    ]
