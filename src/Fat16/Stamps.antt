-- ===== src/Fat16/Stamps.antt =====
-- The packed times and dates of a directory entry: `fat16_time_t`, `fat16_date_t` and the functions of
-- src/x86/driver/fat16/fat16.c between them and 16 bits. The fields are not negative.
use icariusos.Base.{
  ℕ, bit_and, bit_or, ◌+◌, ◌-◌, ◌*◌, ◌/◌, ◌%◌, ◌^◌, ◌<◌, ◌≡◌, arith, ◌==◌, false, if◌then◌else◌,
}
use icariusos.Base.Bits.{zero-bit_or, bit_and-low_mask, bit_or-fields}
use icariusos.Fat16.Layout.{word}

pub record Time : Type 0 where
  pub hour : ℕ
  pub minute : ℕ
  pub second : ℕ

pub record Date : Type 0 where
  pub day : ℕ
  pub month : ℕ
  pub year : ℕ

unfoldable pub get_unpacked_time : ℕ → Time
get_unpacked_time time = record {
  second = bit_and time 0x1F * 2;
  minute = bit_and (time / 2 ^ 5) 0x3F;
  hour = bit_and (time / 2 ^ 11) 0x1F;
}

unfoldable pub get_packed_time : Time → ℕ
get_packed_time time =
    bit_or (bit_or (bit_and time.hour 0x1F * 2 ^ 11) (bit_and time.minute 0x3F * 2 ^ 5))
      (bit_and (time.second / 2) 0x1F)
    % 2 ^ 16

unfoldable pub get_unpacked_date : ℕ → Date
get_unpacked_date date =
    let original_year = bit_and (date / 2 ^ 9) 0x7F in
    record {
      day = bit_and date 0x1F;
      month = bit_and (date / 2 ^ 5) 0x0F;
      year = if original_year == 0 then 0 else original_year + 1980;
    }

-- `date.year - 1980` in the two's complement of 32 bits.
unfoldable pub get_packed_date : Date → ℕ
get_packed_date date =
    let with_year = bit_or 0 (bit_and (word (date.year + (2 ^ 32 - 1980))) 0x7F * 2 ^ 9) in
    bit_or (bit_or with_year (bit_and date.month 0x0F * 2 ^ 5)) (bit_and date.day 0x1F) % 2 ^ 16

time_fields :
    (h m s : ℕ)
    → h < 2 ^ 5
    → m < 2 ^ 6
    → s < 2 ^ 5
    → bit_or (bit_or (h * 2 ^ 11) (m * 2 ^ 5)) s % 2 ^ 16 ≡ h * 2 ^ 11 + m * 2 ^ 5 + s
time_fields h m s hh hm hs =
    let upper : h * 2 ^ 11 + m * 2 ^ 5 ≡ (h * 2 ^ 6 + m) * 2 ^ 5 = omega arith in
    rw (bit_or-fields 11 h (m * 2 ^ 5) (omega arith), upper, bit_or-fields 5 (h * 2 ^ 6 + m) s hs)
      (omega arith)

date_fields :
    (y m d : ℕ)
    → y < 2 ^ 7
    → m < 2 ^ 4
    → d < 2 ^ 5
    → bit_or (bit_or (bit_or 0 (y * 2 ^ 9)) (m * 2 ^ 5)) d % 2 ^ 16 ≡ y * 2 ^ 9 + m * 2 ^ 5 + d
date_fields y m d hy hm hd =
    let upper : y * 2 ^ 9 + m * 2 ^ 5 ≡ (y * 2 ^ 4 + m) * 2 ^ 5 = omega arith in
    rw
      (
        zero-bit_or (y * 2 ^ 9),
        bit_or-fields 9 y (m * 2 ^ 5) (omega arith),
        upper,
        bit_or-fields 5 (y * 2 ^ 4 + m) d hd,
      )
      (omega arith)

-- Unpacking a time and packing it again gives back the 16 bits.
pub get_packed_time-get_unpacked_time :
    (time : ℕ) → time < 2 ^ 16 → get_packed_time (get_unpacked_time time) ≡ time
unfolding get_packed_time get_unpacked_time
get_packed_time-get_unpacked_time time small =
    let half : time % 2 ^ 5 * 2 / 2 ≡ time % 2 ^ 5 = omega arith in
    let hour : time / 2 ^ 11 % 2 ^ 5 % 2 ^ 5 ≡ time / 2 ^ 11 = omega arith in
    let minute : time / 2 ^ 5 % 2 ^ 6 % 2 ^ 6 ≡ time / 2 ^ 5 % 2 ^ 6 = omega arith in
    let second : time % 2 ^ 5 % 2 ^ 5 ≡ time % 2 ^ 5 = omega arith in
    rw
      (
        bit_and-low_mask 5 time,
        bit_and-low_mask 6 (time / 2 ^ 5),
        bit_and-low_mask 5 (time / 2 ^ 11),
        half,
        bit_and-low_mask 5 (time / 2 ^ 11 % 2 ^ 5),
        bit_and-low_mask 6 (time / 2 ^ 5 % 2 ^ 6),
        bit_and-low_mask 5 (time % 2 ^ 5),
        hour,
        minute,
        second,
        time_fields (time / 2 ^ 11) (time / 2 ^ 5 % 2 ^ 6) (time % 2 ^ 5) (omega arith)
            (omega arith) (omega arith),
      )
      (omega arith)

-- A date after 1980 and before 2108, with a day below 32 and a month below 16, is the same once it is
-- packed and unpacked.
pub get_unpacked_date-get_packed_date :
    (day month year : ℕ)
    → day < 32
    → month < 16
    → 1980 < year
    → year < 2108
    → get_unpacked_date (get_packed_date (record { day = day; month = month; year = year }))
      ≡ record { day = day; month = month; year = year }
unfolding get_packed_date get_unpacked_date
get_unpacked_date-get_packed_date day month year hd hm low high =
    let since : (year + (2 ^ 32 - 1980)) % 2 ^ 32 % 2 ^ 7 ≡ year - 1980 = omega arith in
    let month' : month % 2 ^ 4 ≡ month = omega arith in
    let day' : day % 2 ^ 5 ≡ day = omega arith in
    let n = (year - 1980) * 2 ^ 9 + month * 2 ^ 5 + day in
    let year_back : n / 2 ^ 9 % 2 ^ 7 ≡ year - 1980 = omega arith in
    let month_back : n / 2 ^ 5 % 2 ^ 4 ≡ month = omega arith in
    let day_back : n % 2 ^ 5 ≡ day = omega arith in
    let there : ((year - 1980) == 0) ≡ false = ground arith in
    let whole : year - 1980 + 1980 ≡ year = omega arith in
    rw (
      bit_and-low_mask 7 (word (year + (2 ^ 32 - 1980))),
      bit_and-low_mask 4 month,
      bit_and-low_mask 5 day,
      since,
      month',
      day',
      date_fields (year - 1980) month day (omega arith) hm hd,
      bit_and-low_mask 5 n,
      bit_and-low_mask 4 (n / 2 ^ 5),
      bit_and-low_mask 7 (n / 2 ^ 9),
      year_back,
      month_back,
      day_back,
      there,
      whole,
    )
