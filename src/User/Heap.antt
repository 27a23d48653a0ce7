-- ===== src/User/Heap.antt =====
-- src/x86/user/libc/malloc/malloc.c: the heap of a program, blocks in the order of their addresses,
-- and among them the list of the free ones. A block is named by the address of its header, and NULL
-- is 0: the code reads no block through NULL. Headers and payloads are kept apart, `blocks` and
-- `memory`; `memcpy` and `memset` of user/libc/string.c act on the payloads.
pub mod Lists
pub mod Search
pub mod Tiling
pub mod Removal
pub mod Claims
pub mod Grants
pub mod Splits
pub mod Cuts
pub mod Growth
pub mod Allocation
use icariusos.Base.{
  ℕ, zero, suc, ◌+◌, ◌-◌, ◌*◌, ◌/◌, ◌%◌, ◌^◌, Bool, true, false, not, ◌&&◌, ◌||◌, Option, none,
  some, ltb, leb, ◌==◌, if◌then◌else◌, ◌>>=◌,
}
use icariusos.Errno.{enomem, einval}
use icariusos.Libc.Blocks.{Bytes, store}

pub record Block : Type 0 where
  pub size : ℕ
  pub is_free : Bool
  pub next : ℕ
  pub prev : ℕ
  pub next_free : ℕ
  pub prev_free : ℕ

-- The static variables of the file, the headers, the payloads and `errno`.
pub record Heap : Type 0 where
  pub blocks : ℕ → Block
  pub heap_head : ℕ
  pub heap_tail : ℕ
  pub free_list : ℕ
  pub heap_curr : ℕ
  pub memory : Bytes
  pub errno : ℕ

-- `sizeof(heap_block_t)`, and the smallest payload that is worth splitting off.
abbrev pub header : ℕ
header = 24

abbrev pub min_block_size : ℕ
min_block_size = 32

abbrev pub user_heap_start : ℕ
user_heap_start = 0x80_0000

abbrev pub user_heap_end : ℕ
user_heap_end = 0xBF_FFFF

-- ALIGN8
abbrev pub align8 : ℕ → ℕ
align8 x = (x + 7) % 2 ^ 32 / 8 * 8

abbrev pub is_null : ℕ → Bool
is_null p = p == 0

-- One header changed.
abbrev pub put : (ℕ → Block) → ℕ → Block → ℕ → Block
put blocks b block a = if a == b then block else blocks a

-- A header changed where the pointer is not NULL.
abbrev pub put_unless : Bool → (ℕ → Block) → ℕ → Block → ℕ → Block
put_unless skip blocks b block a = if skip then blocks a else put blocks b block a

unfoldable pub find_loop : ℕ → (ℕ → Block) → ℕ → ℕ → ℕ → Option ℕ
find_loop zero blocks aligned_size iter best = none
find_loop (suc fuel) blocks aligned_size iter best =
    let fits =
      leb aligned_size (blocks iter).size
      && (is_null best || leb (blocks iter).size (blocks best).size) in
    let best' = if fits then iter else best in
    let rest = find_loop fuel blocks aligned_size (blocks iter).next_free best' in
    if is_null iter
    then some best
    else (if ltb iter user_heap_start || leb user_heap_end iter
        then some best
        else (if iter == (blocks iter).next_free then some best' else rest))

unfoldable pub find_best_fit_free_block : ℕ → ℕ → Heap → Option ℕ
unfolding find_loop
find_best_fit_free_block fuel aligned_size h =
    let search = find_loop fuel h.blocks aligned_size h.free_list 0 in
    if aligned_size == 0 then some 0 else search

-- The new head of the free list, in front of the old one.
unfoldable pub push_free : (ℕ → Block) → ℕ → ℕ → ℕ → Block
push_free blocks free_list b =
    let linked = put blocks b (record (blocks b) { next_free = free_list; prev_free = 0 }) in
    put_unless (is_null free_list) linked free_list (record (linked free_list) { prev_free = b })

-- The rest of a block, a free block of its own.
unfoldable pub carve : (ℕ → Block) → ℕ → ℕ → ℕ → ℕ → Block
carve blocks block new_block aligned_size = put blocks new_block (record (blocks new_block) {
  is_free = true;
  size = (blocks block).size - aligned_size - header;
})

-- The new block behind the one it is cut from, which shrinks.
unfoldable pub insert_after : (ℕ → Block) → ℕ → ℕ → ℕ → ℕ → Block
insert_after blocks block new_block aligned_size =
    let after = (blocks block).next in
    let placed = put blocks new_block (record (blocks new_block) { next = after; prev = block }) in
    let bridged =
      put_unless (is_null after) placed after (record (placed after) { prev = new_block }) in
    put bridged block (record (bridged block) { next = new_block; size = aligned_size })

unfoldable pub split_block : ℕ → ℕ → Heap → Heap
unfolding carve push_free insert_after
split_block block aligned_size h =
    let new_block = block + header + aligned_size in
    let pushed = push_free (carve h.blocks block new_block aligned_size) h.free_list new_block in
    let split = insert_after pushed block new_block aligned_size in
    if ltb user_heap_end (new_block + header) then h else record h {
      blocks = split;
      free_list = new_block;
      heap_tail = if is_null (split new_block).next then new_block else h.heap_tail;
    }

-- The links of the neighbours of a free block lead past it.
unfoldable pub unlink : (ℕ → Block) → ℕ → ℕ → Block
unlink blocks b =
    let before = (blocks b).prev_free in
    let after = (blocks b).next_free in
    let forward =
      put_unless (is_null before) blocks before (record (blocks before) { next_free = after }) in
    put_unless (is_null after) forward after (record (forward after) { prev_free = before })

unfoldable pub remove_from_free_list : ℕ → Heap → Heap
unfolding unlink
remove_from_free_list b h =
    let linked = unlink h.blocks b in
    if is_null b then h else record h {
      blocks = put linked b (record (linked b) { next_free = 0; prev_free = 0 });
      free_list = if is_null (h.blocks b).prev_free then (h.blocks b).next_free else h.free_list;
    }

-- The pointer that is returned, or NULL.
unfoldable pub make_new_block : ℕ → Heap → ℕ × Heap
make_new_block aligned_size h =
    let b = h.heap_curr in
    let fresh : Block = record {
      size = aligned_size;
      is_free = false;
      next = 0;
      prev = h.heap_tail;
      next_free = 0;
      prev_free = 0;
    } in
    let tail = h.heap_tail in
    let next_curr = (b + (aligned_size + header) % 2 ^ 32) % 2 ^ 32 in
    let joined =
      put_unless (is_null h.heap_head) h.blocks tail (record (h.blocks tail) { next = b }) in
    if leb user_heap_end next_curr then (0, record h { errno = enomem }) else (
      b + header,
      record h {
        blocks = put joined b fresh;
        heap_head = if is_null h.heap_head then b else h.heap_head;
        heap_tail = b;
        heap_curr = next_curr;
      },
    )

-- A free block that is given out.
unfoldable pub claim_block : ℕ → Heap → Heap
unfolding remove_from_free_list
claim_block b h =
    let removed = remove_from_free_list b h in
    record removed { blocks = put removed.blocks b (record (removed.blocks b) { is_free = false }) }

-- A free block that fits, split where it is large, taken from the free list.
unfoldable pub take_block : ℕ → ℕ → Heap → ℕ × Heap
unfolding split_block claim_block
take_block best aligned_size h =
    let split =
      if leb ((aligned_size + header + min_block_size) % 2 ^ 32) (h.blocks best).size
      then split_block best aligned_size h
      else h in
    (best + header, claim_block best split)

unfoldable pub malloc : ℕ → ℕ → Heap → Option (ℕ × Heap)
unfolding find_best_fit_free_block
malloc fuel size h =
    let search = find_best_fit_free_block fuel (align8 size) h >>= λ best.
    some
      (if is_null best then make_new_block (align8 size) h else take_block best (align8 size) h) in
    if size == 0 then some (0, record h { errno = einval }) else search

-- A free block leaves the free list on its way into another block; its own links stay.
unfoldable pub drop_free : ℕ → Heap → Heap
unfolding unlink
drop_free b h = record h {
  blocks = unlink h.blocks b;
  free_list = if h.free_list == b then (h.blocks b).next_free else h.free_list;
}

-- `left` takes the block behind it in.
unfoldable pub merge : ℕ → ℕ → Heap → Heap
merge left gone h =
    let after = (h.blocks gone).next in
    let grown = put h.blocks left (record (h.blocks left) {
      size = ((h.blocks left).size + (h.blocks gone).size + header) % 2 ^ 32;
      next = after;
    }) in
    record h {
      blocks = put_unless (is_null after) grown after (record (grown after) { prev = left });
    }

unfoldable pub merge_right : ℕ → Heap → Heap
unfolding drop_free merge
merge_right b h =
    let next_block = (h.blocks b).next in
    if not (is_null next_block) && (h.blocks next_block).is_free
    then merge b next_block (drop_free next_block h)
    else h

-- The block that is free in the end, and the heap.
unfoldable pub merge_left : ℕ → Heap → ℕ × Heap
unfolding drop_free merge
merge_left b h =
    let prev_block = (h.blocks b).prev in
    if not (is_null prev_block) && (h.blocks prev_block).is_free
    then (prev_block, merge prev_block b (drop_free prev_block h))
    else (b, h)

unfoldable pub free_block : ℕ → Heap → Heap
unfolding merge_right merge_left push_free
free_block b h =
    let marked = record h { blocks = put h.blocks b (record (h.blocks b) { is_free = true }) } in
    let (merged, h') = merge_left b (merge_right b marked) in
    record h' { blocks = push_free h'.blocks h'.free_list merged; free_list = merged }

-- The header stands in front of the payload.
abbrev pub block_of : ℕ → ℕ
block_of ptr = (ptr + (2 ^ 32 - header)) % 2 ^ 32

unfoldable pub free : ℕ → Heap → Heap
unfolding free_block
free ptr h =
    let b = block_of ptr in
    if is_null ptr
      || ((h.blocks b).size == 0)
      || ltb b user_heap_start
      || leb user_heap_end b
      || (h.blocks b).is_free
    then h
    else free_block b h

-- The payload of `user/libc/string.c`: `memset` and `memcpy`, byte by byte.
unfoldable pub memory_set : ℕ → ℕ → ℕ → Bytes → Bytes
memory_set ptr value zero m = m
memory_set ptr value (suc n) m = memory_set (ptr + 1) value n (store m ptr (value % 256))

unfoldable pub memory_copy : ℕ → ℕ → ℕ → ℕ → Bytes → Bytes
memory_copy zero i dest src m = m
memory_copy (suc n) i dest src m = memory_copy n (i + 1) dest src (store m (dest + i) (m (src + i)))

unfoldable pub calloc : ℕ → ℕ → ℕ → Heap → Option (ℕ × Heap)
unfolding malloc memory_set
calloc fuel nmemb size h =
    let total_bytes = nmemb * size % 2 ^ 32 in
    let clear = malloc fuel total_bytes h >>= λ (ptr, h'). some (
      ptr,
      if is_null ptr
          then record h' { errno = enomem }
          else record h' { memory = memory_set ptr 0 total_bytes h'.memory },
    ) in
    if (nmemb == 0) || (size == 0)
    then malloc fuel 0 h
    else (if ltb ((2 ^ 32 - 1) / size) nmemb then some (0, record h { errno = enomem }) else clear)

unfoldable pub realloc : ℕ → ℕ → ℕ → Heap → Option (ℕ × Heap)
unfolding malloc free memory_copy
realloc fuel ptr size h =
    let held = (h.blocks (block_of ptr)).size in
    let move = malloc fuel size h >>= λ (new_block, h').
    let bytes = (h'.blocks (block_of ptr)).size in
    let copied = record h' { memory = memory_copy bytes 0 new_block ptr h'.memory } in
    some (if is_null new_block then (0, h') else (new_block, free ptr copied)) in
    if is_null ptr
    then malloc fuel size h
    else (if size == 0
        then some (0, free ptr h)
        else (if leb size held then some (ptr, h) else move))
