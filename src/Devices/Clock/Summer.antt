-- ===== src/Devices/Clock/Summer.antt =====
-- Summer time in Germany.
use icariusos.Base.{
  ℕ, ◌+◌, ◌-◌, ◌%◌, ◌<◌, ◌≤◌, ◌≡◌, arith, Bool, not, ◌&&◌, ◌||◌, ltb, leb, ◌==◌, if◌then◌else◌,
}
use icariusos.Devices.Clock.{Date, cmos_time, is_last_sunday, is_summer_de}

-- The last Sunday of a month of 31 days, from one day of it and its weekday. Weekdays count from 1, a
-- Sunday, as the names of the days in src/x86/include/rtc.h are read by src/x86/kernel.c.
abbrev pub last_sunday : ℕ → ℕ → ℕ
last_sunday day weekday = 31 - (weekday + 30 - day) % 7

-- From two o'clock on the last Sunday of March to three o'clock on the last of October.
abbrev pub summer : Date → ℕ → Bool
summer date hour =
    let sunday = last_sunday date.day date.weekday in
    if date.month == 3
    then ltb sunday date.day || ((date.day == sunday) && leb 2 hour)
    else (if date.month == 10
        then ltb date.day sunday || ((date.day == sunday) && ltb hour 3)
        else ltb 3 date.month && ltb date.month 10)

-- A month of change whose last Sunday is its 25th day.
abbrev pub is_early : Date → Bool
is_early date =
    (last_sunday date.day date.weekday == 25) && ((date.month == 3) || (date.month == 10))

-- A night behind the last Sunday, in the hours before the change.
abbrev pub is_night_behind : Date → ℕ → Bool
is_night_behind date hour =
    ltb (last_sunday date.day date.weekday) date.day
    && (((date.month == 3) && ltb hour 2) || ((date.month == 10) && ltb hour 3))

-- For a day from 1 to 31 and a weekday from 1, a Sunday, to 7: where the month is March or October
-- and its last Sunday the 25th, the code has no summer time in the whole of March and summer time
-- in the whole of October. On every other date it has summer time when it is, but for the nights
-- behind the last Sunday, before two o'clock in March and before three in October, when it has the
-- contrary.
pub is_summer_de-summer :
    (registers : ℕ → ℕ → ℕ) (n : ℕ) (date : Date)
    → 1 ≤ date.day
    → date.day < 32
    → 1 ≤ date.weekday
    → date.weekday < 8
    → let hour = (cmos_time registers n).0.hour in
      (is_summer_de registers n date).0 ≡ (
        if is_early date
        then date.month == 10
        else (if is_night_behind date hour then not (summer date hour) else summer date hour))
unfolding is_summer_de is_last_sunday
is_summer_de-summer registers n date start day low high = ground arith
