-- ===== src/Memory/Chunks.antt =====
-- src/x86/memory/heap.c: the heap of the kernel, chunks of 4 KiB in pages that `_heap_grow` maps. A
-- block is named by the address of its header, and NULL is 0. The payloads are not kept.
pub mod Rows
pub mod Release
use icariusos.Base.{
  ℕ, zero, suc, ◌+◌, ◌-◌, ◌*◌, ◌/◌, ◌%◌, ◌^◌, Bool, true, false, not, ◌&&◌, ◌||◌, List, Option,
  none, some, ltb, leb, ◌==◌, if◌then◌else◌, ◌>>=◌,
}
use icariusos.Memory.Frames.{page_size, pfa_alloc}
use icariusos.Memory.Paging.{page_map_dir}

pub record Chunk : Type 0 where
  pub size : ℕ
  pub is_free : Bool
  pub chunk_span : ℕ
  pub prev : ℕ
  pub next : ℕ

-- `heap_t`, whose `start_addr` and `end_addr` are constants from `heap_init` on, the headers, the page
-- directory and the bitmap of the frames.
pub record KernelHeap : Type 0 where
  pub chunks : ℕ → Chunk
  pub next_addr : ℕ
  pub last_block : ℕ
  pub used_chunks : ℕ
  pub free_chunks : ℕ
  pub directory : List ℕ
  pub bitmap : List ℕ

abbrev pub chunk_size : ℕ
chunk_size = 4096

abbrev pub kernel_heap_start : ℕ
kernel_heap_start = 0xC100_0000

abbrev pub kernel_heap_max : ℕ
kernel_heap_max = 0xC2BF_FFFF

-- `sizeof(heap_block_t)`
abbrev pub chunk_header : ℕ
chunk_header = 20

-- PAGE_PS | PAGE_WRITABLE | PAGE_PRESENT
abbrev pub heap_page_flags : ℕ
heap_page_flags = 0x83

abbrev pub put_chunk : (ℕ → Chunk) → ℕ → Chunk → ℕ → Chunk
put_chunk chunks b chunk a = if a == b then chunk else chunks a

unfoldable pub heap_init : KernelHeap → KernelHeap
heap_init self = record self { next_addr = kernel_heap_start; last_block = 0 }

-- `_init_heap_block`
abbrev pub fresh_chunk : ℕ → ℕ → Chunk
fresh_chunk size prev = record {
  size = size;
  is_free = true;
  chunk_span = 1;
  prev = prev;
  next = 0;
}

-- The link to the next block, where there is a block.
abbrev pub link : (ℕ → Chunk) → ℕ → ℕ → ℕ → Chunk
link chunks prev next a =
    if prev == 0 then chunks a else put_chunk chunks prev (record (chunks prev) { next = next }) a

-- The loop of `_heap_grow`; the last block, and the headers.
unfoldable pub grow_loop : ℕ → ℕ → ℕ → (ℕ → Chunk) → ℕ × (ℕ → Chunk)
grow_loop zero virt_addr prev chunks = (prev, chunks)
grow_loop (suc rounds) virt_addr prev chunks =
    grow_loop rounds ((virt_addr + chunk_size) % 2 ^ 32) virt_addr
      (link (put_chunk chunks virt_addr (fresh_chunk chunk_size prev)) prev virt_addr)

-- `none` is the panic without a frame.
unfoldable pub heap_grow : KernelHeap → Option KernelHeap
unfolding grow_loop
heap_grow self =
    let (phys_addr, bitmap) = pfa_alloc self.bitmap in
    let (last, chunks) =
      grow_loop (page_size / chunk_size) self.next_addr self.last_block self.chunks in
    if phys_addr == 0
    then none
    else some (record {
      chunks = chunks;
      next_addr = (self.next_addr + page_size) % 2 ^ 32;
      last_block = last;
      used_chunks = self.used_chunks;
      free_chunks = (self.free_chunks + page_size / chunk_size) % 2 ^ 32;
      directory = page_map_dir self.directory self.next_addr phys_addr heap_page_flags;
      bitmap = bitmap;
    })

-- The free blocks in a row from `curr` on, at most `needed`: how many, and what stands behind them.
unfoldable pub free_run : ℕ → ℕ → (ℕ → Chunk) → ℕ × ℕ
free_run zero curr chunks = (0, curr)
free_run (suc needed) curr chunks =
    let (n, end) = free_run needed (chunks curr).next chunks in
    if not (curr == 0) && (chunks curr).is_free then (n + 1, end) else (0, curr)

-- The first row of free blocks that is long enough, or NULL; the outer `none`: the fuel ran out.
unfoldable pub find_row : ℕ → ℕ → ℕ → (ℕ → Chunk) → Option ℕ
unfolding free_run
find_row zero needed curr chunks = none
find_row (suc fuel) needed curr chunks =
    let rest = find_row fuel needed (chunks curr).next chunks in
    if curr == 0
    then some 0
    else (if (chunks curr).is_free && ((free_run needed curr chunks).0 == needed)
        then some curr
        else rest)

-- The other blocks of a row are taken; the heap grows behind its last block. What stands behind the row.
unfoldable pub take_row : ℕ → ℕ → KernelHeap → Option (ℕ × KernelHeap)
unfolding heap_grow
take_row zero block self = some (block, self)
take_row (suc rounds) block self =
    let taken = record self {
      chunks = put_chunk self.chunks block (record (self.chunks block) { is_free = false });
    } in
    let grown = if (taken.chunks block).next == 0 then heap_grow taken else some taken in
    grown >>= λ self'. take_row rounds (self'.chunks block).next self'

-- A row becomes one block.
unfoldable pub take_chunks : ℕ → ℕ → KernelHeap → Option (ℕ × KernelHeap)
unfolding take_row
take_chunks start_block needed self =
    let marked = record self {
      chunks =
          put_chunk self.chunks start_block
            (record (self.chunks start_block) { is_free = false; chunk_span = needed });
    } in
    do
      (next_free, row) ← take_row (needed - 1) (marked.chunks start_block).next marked
      let back =
          if next_free == 0
          then row.chunks
          else put_chunk row.chunks next_free (record (row.chunks next_free) { prev = start_block })
      let joined = record row {
        chunks = put_chunk back start_block (record (back start_block) { next = next_free });
      }
      grown ← if next_free == 0 then heap_grow joined else some joined
      some (
        start_block + chunk_header,
        record grown {
          free_chunks = (grown.free_chunks + (2 ^ 32 - needed)) % 2 ^ 32;
          used_chunks = (grown.used_chunks + needed) % 2 ^ 32;
        },
      )

-- Whole passes over the list, each but the first with a page more; `passes` bounds them and `fuel` one.
unfoldable pub malloc_passes : ℕ → ℕ → ℕ → KernelHeap → Option (ℕ × KernelHeap)
unfolding find_row take_chunks heap_grow
malloc_passes zero fuel needed self = none
malloc_passes (suc passes) fuel needed self =
    find_row fuel needed kernel_heap_start self.chunks >>= λ start_block.
    if start_block == 0
    then (heap_grow self >>= λ self'. malloc_passes passes fuel needed self')
    else take_chunks start_block needed self

-- A pointer, or NULL.
unfoldable pub kmalloc : ℕ → ℕ → ℕ → KernelHeap → Option (ℕ × KernelHeap)
unfolding malloc_passes heap_grow
kmalloc passes fuel size self =
    let total = (size + chunk_header) % 2 ^ 32 in
    let needed = (total + chunk_size - 1) % 2 ^ 32 / chunk_size in
    let total_chunks = (self.free_chunks + self.used_chunks) % 2 ^ 32 in
    let ready =
      if (total_chunks == 0) || ltb (self.free_chunks * 100 % 2 ^ 32 / total_chunks) 20
      then heap_grow self
      else some self in
    if ltb kernel_heap_max ((self.next_addr + total) % 2 ^ 32)
    then some (0, self)
    else (ready >>= λ self'. malloc_passes passes fuel needed self')

-- The loop of `_free`: the last of the blocks, and the headers.
unfoldable pub split_loop : ℕ → ℕ → (ℕ → Chunk) → ℕ × (ℕ → Chunk)
split_loop zero iter chunks = (iter, chunks)
split_loop (suc rounds) iter chunks =
    let new_block = iter + chunk_size in
    let made = put_chunk chunks new_block (fresh_chunk chunk_size iter) in
    split_loop rounds new_block (put_chunk made iter (record (made iter) { next = new_block }))

-- The freed blocks and the one behind them, linked.
unfoldable pub close_row : ℕ → ℕ → (ℕ → Chunk) → ℕ → Chunk
close_row last next_block chunks =
    let ended = put_chunk chunks last (record (chunks last) { next = next_block }) in
    if next_block == 0
    then ended
    else put_chunk ended next_block (record (ended next_block) { prev = last })

unfoldable pub kfree : ℕ → KernelHeap → KernelHeap
unfolding split_loop close_row
kfree ptr self =
    let curr = ptr - chunk_header in
    let chunks = (self.chunks curr).chunk_span in
    let freed =
      put_chunk self.chunks curr (record (self.chunks curr) { is_free = true; chunk_span = 1 }) in
    let (last, split) = split_loop (chunks - 1) curr freed in
    if ptr == 0 then self else record self {
      chunks = close_row last (self.chunks curr).next split;
      free_chunks = (self.free_chunks + chunks) % 2 ^ 32;
      used_chunks = (self.used_chunks + (2 ^ 32 - chunks)) % 2 ^ 32;
    }
