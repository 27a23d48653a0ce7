-- ===== src/Libc/Blocks.antt =====
-- The memory functions of src/x86/lib/string.c. Memory is the byte at each address; no block goes
-- round the end of the address space. The pointer that a function returns is its first argument.
pub mod Copies
pub mod Compares
use icariusos.Base.{
  ℕ, zero, suc, ◌+◌, ◌-◌, ◌*◌, ◌/◌, ◌%◌, ◌^◌, Bool, ◌||◌, ltb, ◌==◌, if◌then◌else◌,
}

abbrev pub Bytes : Type 0
Bytes = ℕ → ℕ

-- `*address = value` for an `unsigned char*`.
abbrev pub store : Bytes → ℕ → ℕ → Bytes
store m address value = λ a. if a == address then value else m a

-- The `int` that is the difference of two bytes, as the word that holds it.
abbrev pub difference : ℕ → ℕ → ℕ
difference x y = (x + (2 ^ 32 - y)) % 2 ^ 32

-- `for (i = 0; i < num; i++) p[i] = value`, with the rounds that are left.
unfoldable pub memset_loop : ℕ → ℕ → ℕ → ℕ → Bytes → Bytes
memset_loop zero i p value m = m
memset_loop (suc rounds) i p value m =
    memset_loop rounds (i + 1) p value (store m (p + i) (value % 256))

unfoldable pub memset : ℕ → ℕ → ℕ → Bytes → Bytes
unfolding memset_loop
memset p value num m = memset_loop num 0 p value m

-- The elements are `uint16_t`, low byte first.
unfoldable pub memset16_loop : ℕ → ℕ → ℕ → ℕ → Bytes → Bytes
memset16_loop zero i p value m = m
memset16_loop (suc rounds) i p value m =
    memset16_loop rounds (i + 1) p value
      (store (store m (p + 2 * i) (value % 256)) (p + 2 * i + 1) (value / 256 % 256))

unfoldable pub memset16 : ℕ → ℕ → ℕ → Bytes → Bytes
unfolding memset16_loop
memset16 p value num m = memset16_loop num 0 p value m

unfoldable pub memcpy : ℕ → ℕ → ℕ → Bytes → Bytes
memcpy dest src zero m = m
memcpy dest src (suc n) m = memcpy (dest + 1) (src + 1) n (store m dest (m src))

-- The two loops of `memmove`.
unfoldable pub move_up : ℕ → ℕ → ℕ → ℕ → Bytes → Bytes
move_up zero i d s m = m
move_up (suc rounds) i d s m = move_up rounds (i + 1) d s (store m (d + i) (m (s + i)))

unfoldable pub move_down : ℕ → ℕ → ℕ → Bytes → Bytes
move_down zero d s m = m
move_down (suc i) d s m = move_down i d s (store m (d + i) (m (s + i)))

unfoldable pub memmove : ℕ → ℕ → ℕ → Bytes → Bytes
unfolding move_up move_down
memmove d s count m =
    if (d == s) || (count == 0)
    then m
    else if ltb d s
    then move_up count 0 d s m
    else move_down count d s m

unfoldable pub memcmp : ℕ → ℕ → ℕ → Bytes → ℕ
memcmp p1 p2 zero m = 0
memcmp p1 p2 (suc num) m =
    let rest = memcmp (p1 + 1) (p2 + 1) num m in
    if m p1 == m p2 then rest else difference (m p1) (m p2)
