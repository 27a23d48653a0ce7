-- ===== src/Libc/Numbers.antt =====
-- The conversions of src/x86/lib/stdlib.c between numbers and texts, on the memory of Libc/Blocks. An
-- `int` is its bits. `reverse_string` is the loop of `sreverse` in Libc/Strings.
pub mod RoundTrip
use icariusos.Base.{
  ℕ, zero, suc, ◌+◌, ◌-◌, ◌*◌, ◌/◌, ◌%◌, ◌^◌, Bool, true, false, ◌&&◌, ◌||◌, Option, none, some,
  ltb, leb, ◌==◌, if◌then◌else◌, ◌>>=◌,
}
use icariusos.Libc.Blocks.{Bytes, store}
use icariusos.Libc.Strings.{sreverse}

-- The character of a digit.
abbrev pub digit : ℕ → ℕ
digit rem = if ltb 9 rem then rem - 10 + 97 else rem + 48

-- The digits from the last on, from index `i` on; how many there are then, and the memory.
unfoldable pub digits_loop : ℕ → ℕ → ℕ → ℕ → ℕ → Bytes → Option (ℕ × Bytes)
digits_loop zero i num base str m = none
digits_loop (suc fuel) i num base str m =
    let rest =
      digits_loop fuel (i + 1) (num / base) base str (store m (str + i) (digit (num % base))) in
    if num == 0 then some (i, m) else rest

-- The base is not 0.
unfoldable pub utoa : ℕ → ℕ → ℕ → ℕ → Bytes → Option Bytes
unfolding digits_loop
utoa fuel num str base m =
    let digits =
      digits_loop fuel 0 num base str m >>= λ (i, m'). sreverse fuel str i (store m' (str + i) 0) in
    if num == 0 then some (store (store m str 48) (str + 1) 0) else digits

unfoldable pub itoa : ℕ → ℕ → ℕ → ℕ → Bytes → Option Bytes
unfolding digits_loop
itoa fuel value str base m =
    let is_negative = leb (2 ^ 31) value && (base == 10) in
    let uvalue = if is_negative then 2 ^ 32 - value else value in
    let digits = digits_loop fuel 0 uvalue base str m >>= λ (i, m').
    if is_negative
    then sreverse fuel str (i + 1) (store (store m' (str + i) 45) (str + i + 1) 0)
    else sreverse fuel str i (store m' (str + i) 0) in
    if ltb base 2 || ltb 36 base
    then some (store m str 0)
    else (if value == 0 then some (store (store m str 48) (str + 1) 0) else digits)

-- `atoi`, with what has been read. A number that an `int` does not hold is an overflow, which is
-- undefined: `none`, as where the fuel ran out.
unfoldable pub atoi_loop : ℕ → ℕ → ℕ → Bytes → Option ℕ
atoi_loop zero str res m = none
atoi_loop (suc fuel) str res m =
    let value = res * 10 + (m str - 48) in
    let rest = atoi_loop fuel (str + 1) value m in
    let next = if ltb value (2 ^ 31) then rest else none in
    if leb 48 (m str) && leb (m str) 57 then next else some res

unfoldable pub atoi : ℕ → ℕ → Bytes → Option ℕ
unfolding atoi_loop
atoi fuel str m = atoi_loop fuel str 0 m
