-- ===== src/Libc/Strings.antt =====
-- The string functions of src/x86/lib/string.c, on the memory of Libc/Blocks. A loop that runs to a
-- NUL is given fuel, and is `none` where that runs out.
pub mod Measures
pub mod Reverses
pub mod Writes
use icariusos.Base.{
  ◌>>=◌, ℕ, zero, suc, ◌+◌, ◌-◌, ◌%◌, ◌^◌, ◌≡◌, ◌≢◌, Bool, true, false, ◌&&◌, not, List, [], ◌∷◌,
  Option, none, some, ltb, ◌==◌, if◌then◌else◌,
}
use icariusos.Libc.Blocks.{Bytes, store, difference}

-- The text that the memory holds from an address on, up to a NUL.
abbrev pub CString : Bytes → ℕ → List ℕ → Type 0
CString m p [] = m p ≡ 0
CString m p (c ∷ s) = (m p ≡ c) × ((c ≢ 0) × CString m (p + 1) s)

unfoldable pub strcmp : ℕ → ℕ → ℕ → Bytes → Option ℕ
strcmp zero str1 str2 m = none
strcmp (suc fuel) str1 str2 m =
    let rest = strcmp fuel (str1 + 1) (str2 + 1) m in
    if not (m str1 == 0) && (m str1 == m str2) then rest else some (difference (m str1) (m str2))

unfoldable pub strlen_loop : ℕ → ℕ → ℕ → Bytes → Option ℕ
strlen_loop zero length str m = none
strlen_loop (suc fuel) length str m =
    let rest = strlen_loop fuel (length + 1) str m in
    if m (str + length) == 0 then some length else rest

unfoldable pub strlen : ℕ → ℕ → Bytes → Option ℕ
unfolding strlen_loop
strlen fuel str m = strlen_loop fuel 0 str m

-- `slen` of src/x86/lib/stdlib.c is the same loop.
unfoldable pub slen : ℕ → ℕ → Bytes → Option ℕ
unfolding strlen_loop
slen fuel str m = strlen_loop fuel 0 str m

-- The pointer to the first such character, or NULL; the outer `none`: the fuel ran out.
unfoldable pub sptr : ℕ → ℕ → ℕ → Bytes → Option (Option ℕ)
sptr zero str c m = none
sptr (suc fuel) str c m =
    let rest = sptr fuel (str + 1) c m in
    if m str == 0 then some none else (if m str == c then some (some str) else rest)

-- The loop of `scmp`, from index `i` on.
unfoldable pub scmp_loop : ℕ → ℕ → ℕ → ℕ → Bytes → Option Bool
scmp_loop zero i s1 s2 m = none
scmp_loop (suc fuel) i s1 s2 m =
    let rest = scmp_loop fuel (i + 1) s1 s2 m in
    if not (m (s1 + i) == 0) && not (m (s2 + i) == 0)
    then (if m (s1 + i) == m (s2 + i) then rest else some false)
    else some true

unfoldable pub scmp : ℕ → ℕ → ℕ → Bytes → Option Bool
unfolding slen scmp_loop
scmp fuel s1 s2 m = do
  s1_len ← slen fuel s1 m
  s2_len ← slen fuel s2 m
  if not (s1_len == s2_len) then some false else scmp_loop fuel 0 s1 s2 m

-- The two loops of `strncpy`; `rounds` is `n - i`. The first stops at a NUL and says where.
unfoldable pub strncpy_copy : ℕ → ℕ → ℕ → ℕ → Bytes → ℕ × Bytes
strncpy_copy zero i dest src m = (zero, m)
strncpy_copy (suc rounds) i dest src m =
    let rest = strncpy_copy rounds (i + 1) dest src (store m (dest + i) (m (src + i))) in
    if m (src + i) == 0 then (suc rounds, m) else rest

unfoldable pub strncpy_fill : ℕ → ℕ → ℕ → Bytes → Bytes
strncpy_fill zero i dest m = m
strncpy_fill (suc rounds) i dest m = strncpy_fill rounds (i + 1) dest (store m (dest + i) 0)

unfoldable pub strncpy : ℕ → ℕ → ℕ → Bytes → Bytes
unfolding strncpy_copy strncpy_fill
strncpy dest src n m =
    let (left, m') = strncpy_copy n 0 dest src m in strncpy_fill left (n - left) dest m'

-- The swaps of `sreverse`.
abbrev pub swapped : Bytes → ℕ → ℕ → Bytes
swapped m x y = store (store m x (m y)) y (m x)

unfoldable pub sreverse_loop : ℕ → ℕ → ℕ → ℕ → Bytes → Option Bytes
sreverse_loop zero start end str m = none
sreverse_loop (suc fuel) start end str m =
    let rest = sreverse_loop fuel (start + 1) (end - 1) str (swapped m (str + start) (str + end)) in
    if ltb start end then rest else some m

-- `length - 1` is a `size_t`.
unfoldable pub sreverse : ℕ → ℕ → ℕ → Bytes → Option Bytes
unfolding sreverse_loop
sreverse fuel str length m = sreverse_loop fuel 0 ((length + (2 ^ 32 - 1)) % 2 ^ 32) str m

-- The three steps of `scat`: to the end of `dest`, the copy, the NUL.
unfoldable pub find_end : ℕ → ℕ → Bytes → Option ℕ
find_end zero dest m = none
find_end (suc fuel) dest m =
    let rest = find_end fuel (dest + 1) m in if m dest == 0 then some dest else rest

unfoldable pub scat_copy : ℕ → ℕ → ℕ → Bytes → Option Bytes
scat_copy zero dest src m = none
scat_copy (suc fuel) dest src m =
    let rest = scat_copy fuel (dest + 1) (src + 1) (store m dest (m src)) in
    if m src == 0 then some (store m dest 0) else rest

unfoldable pub scat : ℕ → ℕ → ℕ → Bytes → Option Bytes
unfolding find_end scat_copy
scat fuel dest src m = do dest ← find_end fuel dest m; scat_copy fuel dest src m
