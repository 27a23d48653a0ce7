-- ===== src/Memory/Chunks/Rows.antt =====
-- Free blocks behind one another, as `kfree` makes them.
use icariusos.Base.{
  ℕ, zero, suc, ◌+◌, ◌*◌, ◌<◌, ◌≤◌, ◌≡◌, ◌⊎◌, inl, inr, refl, ap, ◌∙◌, arith, true, false, ◌==◌,
}
use icariusos.Memory.Chunks.{Chunk, chunk_size, put_chunk, fresh_chunk, free_run, split_loop}

-- Free blocks of one chunk each, behind one another; where the last one leads is open.
abbrev pub Row : (ℕ → Chunk) → ℕ → ℕ → ℕ → Type 0
Row chunks prev b zero =
    ((chunks b).is_free ≡ true) × ((chunks b).chunk_span ≡ 1) × ((chunks b).prev ≡ prev)
Row chunks prev b (suc n) =
    ((chunks b).is_free ≡ true)
    × ((chunks b).chunk_span ≡ 1)
    × ((chunks b).prev ≡ prev)
    × ((chunks b).next ≡ b + chunk_size)
    × Row chunks b (b + chunk_size) n

-- The last block of such a row.
abbrev pub last_at : ℕ → ℕ → ℕ
last_at b n = b + n * chunk_size

-- One round of the loop.
split_round : ℕ → (ℕ → Chunk) → ℕ → Chunk
split_round iter chunks =
    let made = put_chunk chunks (iter + chunk_size) (fresh_chunk chunk_size iter) in
    put_chunk made iter (record (made iter) { next = iter + chunk_size })

round-here :
    (iter : ℕ) (chunks : ℕ → Chunk)
    → ((split_round iter chunks iter).is_free ≡ (chunks iter).is_free)
      × ((split_round iter chunks iter).chunk_span ≡ (chunks iter).chunk_span)
      × ((split_round iter chunks iter).prev ≡ (chunks iter).prev)
      × ((split_round iter chunks iter).next ≡ iter + chunk_size)
unfolding split_round
round-here iter chunks = (ground arith, ground arith, ground arith, ground arith)

round-next :
    (iter : ℕ) (chunks : ℕ → Chunk)
    → split_round iter chunks (iter + chunk_size) ≡ fresh_chunk chunk_size iter
unfolding split_round
round-next iter chunks = ground arith

round-else :
    (iter a : ℕ) (chunks : ℕ → Chunk)
    → (a < iter) ⊎ (iter + chunk_size < a)
    → split_round iter chunks a ≡ chunks a
unfolding split_round
round-else iter a chunks (inl below) = ground arith
round-else iter a chunks (inr above) = ground arith

pub split-else :
    (n iter a : ℕ) (chunks : ℕ → Chunk)
    → (a < iter) ⊎ (last_at iter n < a)
    → (split_loop n iter chunks).1 a ≡ chunks a
unfolding split_loop split_round
split-else zero iter a chunks out = refl
split-else (suc n) iter a chunks (inl below) =
    split-else n (iter + chunk_size) a (split_round iter chunks) (inl (omega arith))
    ∙ round-else iter a chunks (inl below)
split-else (suc n) iter a chunks (inr above) =
    split-else n (iter + chunk_size) a (split_round iter chunks) (inr (omega arith))
    ∙ round-else iter a chunks (inr (omega arith))

pub split-last : (n iter : ℕ) (chunks : ℕ → Chunk) → (split_loop n iter chunks).0 ≡ last_at iter n
unfolding split_loop split_round
split-last zero iter chunks = omega arith
split-last (suc n) iter chunks =
    split-last n (iter + chunk_size) (split_round iter chunks) ∙ omega arith

-- The loop leaves a row.
pub split-Row :
    (n prev iter : ℕ) (chunks : ℕ → Chunk)
    → Row chunks prev iter 0
    → Row (split_loop n iter chunks).1 prev iter n
unfolding split_loop split_round
split-Row zero prev iter chunks row = row
split-Row (suc n) prev iter chunks (free, span, back) =
    let round = split_round iter chunks in
    let (free', span', back', next') = round-here iter chunks in
    let same = split-else n (iter + chunk_size) iter round (inl (omega arith)) in
    let new = round-next iter chunks in
    (
      ap (λ k. k.is_free) same ∙ free' ∙ free,
      ap (λ k. k.chunk_span) same ∙ span' ∙ span,
      ap (λ k. k.prev) same ∙ back' ∙ back,
      ap (λ k. k.next) same ∙ next',
      split-Row n iter (iter + chunk_size) round
          (ap (λ k. k.is_free) new, ap (λ k. k.chunk_span) new, ap (λ k. k.prev) new),
    )

-- A row stays one where only the link of its last block changes.
pub Row-eq :
    (chunks chunks' : ℕ → Chunk) (n prev b : ℕ)
    → ((a : ℕ) → b ≤ a → a < last_at b n → chunks' a ≡ chunks a)
    → ((a : ℕ)
        → a ≡ last_at b n
        → ((chunks' a).is_free ≡ (chunks a).is_free)
          × ((chunks' a).chunk_span ≡ (chunks a).chunk_span)
          × ((chunks' a).prev ≡ (chunks a).prev))
    → Row chunks prev b n
    → Row chunks' prev b n
Row-eq chunks chunks' zero prev b same end (free, span, back) =
    let (free', span', back') = end b (omega arith) in (free' ∙ free, span' ∙ span, back' ∙ back)
Row-eq chunks chunks' (suc n) prev b same end (free, span, back, next, row) =
    let e = same b (omega arith) (omega arith) in
    (
      ap (λ k. k.is_free) e ∙ free,
      ap (λ k. k.chunk_span) e ∙ span,
      ap (λ k. k.prev) e ∙ back,
      ap (λ k. k.next) e ∙ next,
      Row-eq chunks chunks' n b (b + chunk_size) (λ a low high. same a (omega arith) (omega arith))
          (λ a at. end a (omega arith)) row,
    )

run-step :
    (chunks : ℕ → Chunk) (n b : ℕ)
    → 0 < b
    → (chunks b).is_free ≡ true
    → (free_run (suc n) b chunks).0 ≡ (free_run n (chunks b).next chunks).0 + 1
unfolding free_run
run-step chunks n b there free =
    let nonzero : (b == 0) ≡ false = ground arith in rw (nonzero, free) refl

-- A row is found by a request for as many chunks as it has.
pub Row-free_run :
    (chunks : ℕ → Chunk) (n prev b : ℕ)
    → 0 < b
    → Row chunks prev b n
    → (free_run (suc n) b chunks).0 ≡ suc n
unfolding free_run
Row-free_run chunks zero prev b there (free, span, back) = ground arith
Row-free_run chunks (suc n) prev b there (free, span, back, next, row) =
    run-step chunks (suc n) b there free
    ∙ ap (λ c. (free_run (suc n) c chunks).0 + 1) next
    ∙ ap (λ k. k + 1) (Row-free_run chunks n b (b + chunk_size) (omega arith) row)
    ∙ omega arith
