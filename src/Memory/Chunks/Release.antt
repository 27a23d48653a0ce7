-- ===== src/Memory/Chunks/Release.antt =====
-- A block of the kernel heap that is freed.
use icariusos.Base.{
  ℕ, suc, ◌+◌, ◌-◌, ◌%◌, ◌^◌, ◌<◌, ◌≡◌, ◌≢◌, ◌⊎◌, inl, inr, refl, sym, ap, ◌∙◌, arith, true, false,
  not, ◌&&◌, ==_cases, ◌==◌, if◌then◌else◌,
}
use icariusos.Memory.Chunks.Rows.{
  Row, last_at, split-else, split-last, split-Row, Row-eq, Row-free_run,
}
use icariusos.Memory.Chunks.{
  Chunk, KernelHeap, chunk_header, put_chunk, free_run, split_loop, close_row, kfree,
}

-- The headers after `kfree` of a block of `n + 1` chunks.
freed : KernelHeap → ℕ → ℕ → Chunk
freed self curr =
    put_chunk self.chunks curr (record (self.chunks curr) { is_free = true; chunk_span = 1 })

abbrev after : KernelHeap → ℕ → ℕ → ℕ → Chunk
after self curr n =
    close_row (last_at curr n) (self.chunks curr).next (split_loop n curr (freed self curr)).1

kfree-run :
    (self : KernelHeap) (curr n : ℕ)
    → (self.chunks curr).chunk_span ≡ suc n
    → kfree (curr + chunk_header) self ≡ record self {
      chunks = after self curr n;
      free_chunks = (self.free_chunks + suc n) % 2 ^ 32;
      used_chunks = (self.used_chunks + (2 ^ 32 - suc n)) % 2 ^ 32;
    }
unfolding kfree freed
kfree-run self curr n span =
    let start : curr + chunk_header - chunk_header ≡ curr = omega arith in
    let pointer : (curr + chunk_header == 0) ≡ false = ground arith in
    let rounds : suc n - 1 ≡ n = omega arith in
    rw (pointer, start, span, rounds, split-last n curr (freed self curr)) refl

-- Closing the row changes the link of its last block, and the link back of the one behind it.
close-else :
    (last next a : ℕ) (chunks : ℕ → Chunk)
    → a ≢ last
    → (next ≡ 0) ⊎ (a ≢ next)
    → close_row last next chunks a ≡ chunks a
unfolding close_row
close-else last next a chunks other (inl e) = ground arith
close-else last next a chunks other (inr ne) = ground arith

close-last :
    (last next : ℕ) (chunks : ℕ → Chunk)
    → last ≢ next
    → close_row last next chunks last ≡ record (chunks last) { next = next }
unfolding close_row
close-last last next chunks ne = ground arith

freed-at :
    (self : KernelHeap) (curr : ℕ)
    → freed self curr curr ≡ record (self.chunks curr) { is_free = true; chunk_span = 1 }
unfolding freed
freed-at self curr = ground arith

freed-else : (self : KernelHeap) (curr a : ℕ) → a ≢ curr → freed self curr a ≡ self.chunks a
unfolding freed
freed-else self curr a ne = ground arith

-- The block behind one of `n + 1` chunks, if there is one, lies outside it.
abbrev pub Apart : KernelHeap → ℕ → ℕ → Type 0
Apart self curr n = ((self.chunks curr).next < curr) ⊎ (last_at curr n < (self.chunks curr).next)

after-Row :
    (self : KernelHeap) (curr n : ℕ)
    → 0 < curr
    → Apart self curr n
    → Row (after self curr n) (self.chunks curr).prev curr n
after-Row self curr n there apart =
    let start = freed-at self curr in
    let out = (split_loop n curr (freed self curr)).1 in
    let next = (self.chunks curr).next in
    let last = last_at curr n in
    let e = close-last last next out (λ e. ground arith) in
    Row-eq out (after self curr n) n (self.chunks curr).prev curr
      (λ a low high. close-else last next a out (λ e. omega arith) (inr (λ e. ground arith)))
      (λ a at. rw at (ap (λ k. k.is_free) e, ap (λ k. k.chunk_span) e, ap (λ k. k.prev) e))
      (split-Row n (self.chunks curr).prev curr (freed self curr)
        (ap (λ k. k.is_free) start, ap (λ k. k.chunk_span) start, ap (λ k. k.prev) start))

close-next :
    (last next : ℕ) (chunks : ℕ → Chunk)
    → next ≢ 0
    → last ≢ next
    → close_row last next chunks next ≡ record (chunks next) { prev = last }
unfolding close_row
close-next last next chunks there ne = ground arith

-- The header of a block outside the freed one: only the link back of the one behind it is new.
abbrev pub beside : KernelHeap → ℕ → ℕ → ℕ → Chunk
beside self curr n a =
    let next = (self.chunks curr).next in
    if not (next == 0) && (a == next)
    then record (self.chunks a) { prev = last_at curr n }
    else self.chunks a

after-beside :
    (self : KernelHeap) (curr n a : ℕ)
    → Apart self curr n
    → (a < curr) ⊎ (last_at curr n < a)
    → after self curr n a ≡ beside self curr n a
after-beside self curr n a apart out =
    let next = (self.chunks curr).next in
    let split = (split_loop n curr (freed self curr)).1 in
    let kept : split a ≡ self.chunks a =
      split-else n curr a (freed self curr) out ∙ freed-else self curr a (λ e. ground arith) in
    let other : a ≢ last_at curr n = ground arith in
    elim (==_cases next 0) [
      | inl none_behind ↦
          let no_link : (not (next == 0) && (a == next)) ≡ false = ground arith in
          rw no_link (close-else (last_at curr n) next a split other (inl none_behind) ∙ kept)
      | inr behind ↦ elim (==_cases a next) [
        | inl here ↦
            let its_link : (not (next == 0) && (a == next)) ≡ true = ground arith in
            rw its_link (
              ap (close_row (last_at curr n) next split) here
              ∙ close-next (last_at curr n) next split behind (λ e. ground arith)
              ∙ ap (λ b. record (split b) { prev = last_at curr n }) (sym here)
              ∙ ap (λ (k : Chunk). record k { prev = last_at curr n }) kept)
        | inr elsewhere ↦
            let no_link : (not (next == 0) && (a == next)) ≡ false = ground arith in
            rw no_link (close-else (last_at curr n) next a split other (inr elsewhere) ∙ kept)
      ]
    ]

-- `kfree` of the payload of a block of `n + 1` chunks, with the block behind it, if there is one,
-- outside of them, leaves that many free blocks of one chunk each in its place, linked behind one
-- another and on to the block that stood behind it, so that a request for as many chunks finds a row
-- there. Outside of them it changes no header but that of the block behind, and there the link back
-- alone, which is to the last of the new blocks; and the free and used chunks together are as many as
-- before, in 32 bits.
pub kfree-Row :
    (self : KernelHeap) (curr n a : ℕ)
    → 0 < curr
    → (self.chunks curr).chunk_span ≡ suc n
    → suc n < 2 ^ 32
    → Apart self curr n
    → (a < curr) ⊎ (last_at curr n < a)
    → let freed_heap = kfree (curr + chunk_header) self in
      Row freed_heap.chunks (self.chunks curr).prev curr n
      × ((freed_heap.chunks (last_at curr n)).next ≡ (self.chunks curr).next)
      × ((free_run (suc n) curr freed_heap.chunks).0 ≡ suc n)
      × (freed_heap.chunks a ≡ beside self curr n a)
      × ((freed_heap.free_chunks + freed_heap.used_chunks) % 2 ^ 32
          ≡ (self.free_chunks + self.used_chunks) % 2 ^ 32)
kfree-Row self curr n a there span few apart out =
    let row = after-Row self curr n there apart in
    let end =
      close-last (last_at curr n) (self.chunks curr).next (split_loop n curr (freed self curr)).1
        (λ e. ground arith) in
    rw (kfree-run self curr n span) (
      row,
      ap (λ k. k.next) end,
      Row-free_run (after self curr n) n (self.chunks curr).prev curr there row,
      after-beside self curr n a apart out,
      omega arith,
    )
