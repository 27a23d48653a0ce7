-- ===== src/Devices/Clock.antt =====
-- src/x86/driver/cmos.c and src/x86/driver/rtc.c: the clock. What the registers of the CMOS hold each
-- time that `_dump_cmos` reads them all is the parameter `registers`, and the state is how often that
-- was. An `int32_t` is its bits; a name is the bytes in front of its NUL.
pub mod Summer
use icariusos.Base.{
  ℕ, zero, suc, ◌+◌, ◌-◌, ◌*◌, ◌/◌, ◌%◌, ◌^◌, ◌<◌, ◌≤◌, ◌≡◌, ◌↔◌, refl, arith, Bool, true, false,
  not, ◌&&◌, ◌||◌, List, [], ◌∷◌, bit_and, ltb, leb, ◌==◌, if◌then◌else◌,
}

pub record Date : Type 0 where
  pub weekday : ℕ
  pub day : ℕ
  pub month : ℕ
  pub year : ℕ

pub record Time : Type 0 where
  pub hour : ℕ
  pub minute : ℕ
  pub second : ℕ

unfoldable pub bcd_to_decimal : ℕ → ℕ
bcd_to_decimal bcd = bcd % 256 / 16 * 10 + bcd % 16

-- The number of reads so far goes in and out; a register is a byte.
unfoldable pub cmos_time : (ℕ → ℕ → ℕ) → ℕ → Time × ℕ
unfolding bcd_to_decimal
cmos_time registers n =
    let value : ℕ → ℕ = λ r. registers n r % 256 in
    (
      record {
        hour = bcd_to_decimal (value 4);
        minute = bcd_to_decimal (value 2);
        second = bcd_to_decimal (value 0);
      },
      n + 1,
    )

unfoldable pub cmos_date : (ℕ → ℕ → ℕ) → ℕ → Date × ℕ
unfolding bcd_to_decimal
cmos_date registers n =
    let value : ℕ → ℕ = λ r. registers n r % 256 in
    (
      record {
        weekday = bcd_to_decimal (value 6);
        day = bcd_to_decimal (value 7);
        month = bcd_to_decimal (value 8);
        year = value 32 * 10 + bcd_to_decimal (value 9);
      },
      n + 1,
    )

unfoldable pub is_last_sunday : ℕ → ℕ → Bool
is_last_sunday day weekday = ltb (31 + weekday) (day + 7)

-- The clock is read again where the hour matters.
unfoldable pub is_summer_de : (ℕ → ℕ → ℕ) → ℕ → Date → Bool × ℕ
unfolding is_last_sunday cmos_time
is_summer_de registers n date =
    let is_last = is_last_sunday date.day date.weekday in
    let (now, m) = cmos_time registers n in
    let read = if is_last then m else n in
    if ltb date.month 3 || ltb 10 date.month
    then (false, n)
    else (if ltb 3 date.month && ltb date.month 10
        then (true, n)
        else (if date.month == 3
            then (is_last && leb 2 now.hour, read)
            else (not (is_last && leb 3 now.hour), read)))

-- "UTC", "Europe/Berlin" and "America/New_York".
abbrev pub utc : List ℕ
utc = 85 ∷ 84 ∷ 67 ∷ []

abbrev pub europe_berlin : List ℕ
europe_berlin = 69 ∷ 117 ∷ 114 ∷ 111 ∷ 112 ∷ 101 ∷ 47 ∷ 66 ∷ 101 ∷ 114 ∷ 108 ∷ 105 ∷ 110 ∷ []

abbrev pub america_new_york : List ℕ
america_new_york =
    65 ∷ 109 ∷ 101 ∷ 114 ∷ 105 ∷ 99 ∷ 97 ∷ 47 ∷ 78 ∷ 101 ∷ 119 ∷ 95 ∷ 89 ∷ 111 ∷ 114 ∷ 107 ∷ []

abbrev pub timezones : List (List ℕ × ℕ)
timezones = (utc, 0) ∷ (europe_berlin, 2) ∷ (america_new_york, 2 ^ 32 - 4) ∷ []

-- `strcmp` of two names is 0.
abbrev pub same_name : List ℕ → List ℕ → Bool
same_name [] [] = true
same_name [] (d ∷ t) = false
same_name (c ∷ s) [] = false
same_name (c ∷ s) (d ∷ t) = (c == d) && same_name s t

abbrev pub offset_in : List (List ℕ × ℕ) → List ℕ → ℕ
offset_in [] name = 0
offset_in ((zone, offset) ∷ rest) name = if same_name name zone then offset else offset_in rest name

unfoldable pub resolve_timezone_offset : (ℕ → ℕ → ℕ) → ℕ → List ℕ → ℕ × ℕ
unfolding cmos_date is_summer_de
resolve_timezone_offset registers n name =
    let (date, m) = cmos_date registers n in
    let (summer, k) = is_summer_de registers m date in
    if same_name name europe_berlin
    then ((if summer then 2 else 1), k)
    else (offset_in timezones name, n)

unfoldable pub rtc_now : (ℕ → ℕ → ℕ) → ℕ → ℕ → Time × ℕ
unfolding cmos_time
rtc_now registers timezone_offset n =
    let (time, m) = cmos_time registers n in
    (record time { hour = (time.hour + timezone_offset) % 2 ^ 32 }, m)

-- Two decimal digits, each in its half of a byte.
abbrev pub bcd : ℕ → ℕ
bcd n = n / 10 * 16 + n % 10

-- A number below 100 survives its two digits.
pub bcd_to_decimal-bcd : (n : ℕ) → n < 100 → bcd_to_decimal (bcd n) ≡ n
unfolding bcd_to_decimal
bcd_to_decimal-bcd n small = omega arith

-- Where the registers of century and year hold two digits each, the year that is read is the year
-- only in the first century: the digits of the century are not decoded, and count ten.
pub cmos_date-year :
    (registers : ℕ → ℕ → ℕ) (n century year : ℕ)
    → century < 100
    → year < 100
    → registers n 32 ≡ bcd century
    → registers n 9 ≡ bcd year
    → ((cmos_date registers n).0.year ≡ century * 100 + year) ↔ (century ≡ 0)
unfolding cmos_date bcd_to_decimal
cmos_date-year registers n century year c y at_century at_year =
    (λ e. ground arith, λ e. ground arith)
