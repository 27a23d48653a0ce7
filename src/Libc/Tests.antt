-- ===== src/Libc/Tests.antt =====
-- The memory and string functions on small memories.
use icariusos.Base.{
  zero, suc, All, ℕ, ◌+◌, ◌-◌, ◌<◌, ◌≡◌, inr, refl, arith, List, [], ◌∷◌, get_or, Option, none,
  some, ltb, leb, ◌&&◌, if◌then◌else◌, map, false,
}
use icariusos.Libc.Numbers.{utoa, atoi}
use icariusos.Libc.Numbers.RoundTrip.{utoa-atoi}
use icariusos.Libc.Blocks.{Bytes, memset16, memmove}
use icariusos.Libc.Blocks.Copies.{moved, memmove-at}
use icariusos.Libc.Strings.{CString, strcmp, strncpy, sreverse, scat, scmp, sptr}
use icariusos.Libc.Strings.Reverses.{flipped, sreverse-flipped}
use icariusos.Libc.Strings.Writes.{strncpy-at}

abbrev abac : List ℕ
abac = 65 ∷ 66 ∷ 65 ∷ 67 ∷ []

abbrev abad : List ℕ
abad = 65 ∷ 66 ∷ 65 ∷ 68 ∷ []

-- "ABAC" at 10 and "ABAD" at 20, and NULs everywhere else.
abbrev texts : Bytes
texts a =
    if leb 10 a && ltb a 14
    then get_or abac (a - 10) 0
    else if leb 20 a && ltb a 24
    then get_or abad (a - 20) 0
    else 0

abbrev shown : Option Bytes → List ℕ → List ℕ
shown none at = []
shown (some m) at = map m at

memmove-overlap :
    map (memmove 11 10 4 texts) (10 ∷ 11 ∷ 12 ∷ 13 ∷ 14 ∷ []) ≡ (65 ∷ 65 ∷ 66 ∷ 65 ∷ 67 ∷ [])
unfolding memmove
memmove-overlap = refl

memset16-two :
    map (memset16 10 0x1234 2 texts) (10 ∷ 11 ∷ 12 ∷ 13 ∷ 14 ∷ [])
    ≡ (0x34 ∷ 0x12 ∷ 0x34 ∷ 0x12 ∷ 0 ∷ [])
unfolding memset16
memset16-two = refl

strcmp-less : strcmp 9 10 20 texts ≡ some 0xFFFF_FFFF
unfolding strcmp
strcmp-less = refl

scat-texts : shown (scat 9 10 20 texts) (10 ∷ 13 ∷ 14 ∷ 17 ∷ 18 ∷ []) ≡ (65 ∷ 67 ∷ 65 ∷ 68 ∷ 0 ∷ [])
unfolding scat
scat-texts = refl

scmp-texts : scmp 9 10 20 texts ≡ some false
unfolding scmp
scmp-texts = refl

sptr-third : sptr 9 10 67 texts ≡ some (some 13)
unfolding sptr
sptr-third = refl

get_or-bytes : (s : List ℕ) (k : ℕ) → All (λ c. c < 256) s → get_or s k 0 < 256
get_or-bytes [] k h = omega arith
get_or-bytes (c ∷ s) zero (first, h) = first
get_or-bytes (c ∷ s) (suc k) (first, h) = get_or-bytes s k h

letters : (d : ℕ) → d < 256 → All (λ c. c < 256) (65 ∷ 66 ∷ 65 ∷ d ∷ [])
letters d h = (omega arith, (omega arith, (omega arith, (h, tt))))

texts-bytes : (a : ℕ) → texts a < 256
texts-bytes a =
    let first = get_or-bytes abac (a - 10) (letters 67 (omega arith)) in
    let second = get_or-bytes abad (a - 20) (letters 68 (omega arith)) in ground arith

first_text : CString texts 10 abac
first_text = (
  refl,
  (
    λ e. omega arith,
    (refl, (λ e. omega arith, (refl, (λ e. omega arith, (refl, (λ e. omega arith, refl)))))),
  ),
)

second_text : CString texts 20 abad
second_text = (
  refl,
  (
    λ e. omega arith,
    (refl, (λ e. omega arith, (refl, (λ e. omega arith, (refl, (λ e. omega arith, refl)))))),
  ),
)

memmove-at_example : memmove 11 10 4 texts 13 ≡ moved 11 10 4 texts 13
memmove-at_example = memmove-at 11 10 4 texts 13

sreverse-flipped_example :
    (r : Bytes) × ((sreverse 4 10 4 texts ≡ some r)
      × ((a : ℕ) → r a ≡ flipped (10 + 0) (10 + (4 - 1)) texts a))
sreverse-flipped_example = sreverse-flipped 4 10 4 texts (omega arith) (omega arith) (omega arith)

strncpy-at_example :
    strncpy 30 10 8 texts 33
    ≡ (if leb 30 33 && ltb 33 (30 + 8) then get_or abac (33 - 30) 0 else texts 33)
strncpy-at_example = strncpy-at 30 10 8 texts abac 33 first_text (inr (omega arith))

utoa-atoi_example : (q : Bytes) × (utoa 4 345 100 10 (λ a. 0) ≡ some q) × (atoi 5 100 q ≡ some 345)
utoa-atoi_example = utoa-atoi 3 345 100 (λ a. 0) (omega arith) (omega arith) (omega arith)
