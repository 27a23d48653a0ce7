-- ===== src/Fifo/Invariant.antt =====
-- The representation invariant of `fifo_t`, and that its functions keep it.
use icariusos.Base.{
  ℕ, ◌+◌, ◌%◌, ◌<◌, ◌≤◌, ◌≡◌, arith, bit_and, Option, none, some, length, length-set,
}
use icariusos.Base.Bits.{bit_and-low_mask}
use icariusos.Fifo.{Fifo, fifo_buffer_mask, fifo_buffer_size, fifo_init, fifo_enqueue, fifo_dequeue}

pub record IsValid (f : Fifo) : Type 0 where
  pub storage : length f.buffer ≡ fifo_buffer_size
  pub head_in : f.head < fifo_buffer_size
  pub tail_in : f.tail < fifo_buffer_size
  pub count_in : f.count ≤ fifo_buffer_size
  pub behind : f.head ≡ (f.tail + f.count) % fifo_buffer_size

abbrev pub HoldsValid : Option Fifo → Type 0
HoldsValid none = ⊥
HoldsValid (some f) = IsValid f

-- `& FIFO_BUFFER_MASK` goes round at the size of the buffer, and the result fits a byte.
pub step_round : (i : ℕ) → bit_and (i + 1) fifo_buffer_mask % 256 ≡ (i + 1) % fifo_buffer_size
step_round i = omega (arith, bit_and-low_mask 7 (i + 1))

-- `fifo_enqueue` keeps the invariant of a FIFO: 128 bytes of storage, both indices in range, and
-- the write index count steps ahead of the read index.
pub enqueue-IsValid : (f : Fifo) (byte : ℕ) → IsValid f → HoldsValid (fifo_enqueue (some f) byte).1
unfolding fifo_enqueue
enqueue-IsValid f byte v = ground (arith, step_round f.head, length-set f.buffer f.head byte)

-- `fifo_dequeue` keeps the invariant of a FIFO.
pub dequeue-IsValid : (f : Fifo) → IsValid f → HoldsValid (fifo_dequeue (some f)).2
unfolding fifo_dequeue
dequeue-IsValid f v = ground (arith, step_round f.tail)

pub init-IsValid : (f : Fifo) → length f.buffer ≡ fifo_buffer_size → HoldsValid (fifo_init (some f))
unfolding fifo_init
init-IsValid f h = ground arith
