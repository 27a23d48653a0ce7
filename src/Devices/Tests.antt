-- ===== src/Devices/Tests.antt =====
-- The theorems on the devices at concrete values.
use icariusos.Base.{ℕ, ◌≡◌, ◌⊎◌, arith, false, not, none, some, ◌==◌, if◌then◌else◌}
use icariusos.Devices.Keyboard.{Flags, Unmapped, Mapped, kbd_translate, kbd_translate-Unmapped}
use icariusos.Devices.Clock.{Date, cmos_time, is_summer_de}
use icariusos.Devices.Clock.Summer.{summer, is_early, is_night_behind, is_summer_de-summer}

-- F1, which the tables end in front of.
abbrev unshifted : Flags
unshifted = record { shift = false; caps_lock = false }

kbd_translate-Unmapped_example :
    (Unmapped 0x3B × (kbd_translate 0x3B unshifted ≡ none))
    ⊎ (Mapped 0x3B
        × ((c : ℕ) × (flags' : Flags) × (kbd_translate 0x3B unshifted ≡ some (c, flags'))))
kbd_translate-Unmapped_example = kbd_translate-Unmapped 0x3B unshifted (omega arith)

-- The 31st of March 2025, a Monday, at four o'clock.
abbrev registers : ℕ → ℕ → ℕ
registers n r =
    if r == 32
    then 0x20
    else (if r == 9
        then 0x25
        else (if r == 8
            then 0x03
            else (if r == 7 then 0x31 else (if r == 6 then 2 else (if r == 4 then 4 else 0)))))

abbrev monday : Date
monday = record { weekday = 2; day = 31; month = 3; year = 2025 }

abbrev century : ℕ
century = 20

is_summer_de-summer_example :
    let hour = (cmos_time registers 0).0.hour in
    (is_summer_de registers 0 monday).0 ≡ (
      if is_early monday
      then false
      else (if is_night_behind monday hour then not (summer monday hour) else summer monday hour))
is_summer_de-summer_example =
    is_summer_de-summer registers 0 monday (omega arith) (omega arith) (omega arith) (omega arith)
