-- ===== src/Fifo.antt =====
-- src/x86/ds/fifo.c and src/x86/include/fifo.h: the byte FIFO behind the keyboard and the mouse.
-- `Fifo` is `fifo_t`; a NULL `self` is `none`. A function that writes through `self` returns the new
-- FIFO, beside its result. The counters are `uint8_t`, so each increment wraps at 256.
pub mod Invariant
pub mod Refinement
mod Tests
use icariusos.Base.{
  ℕ, ◌+◌, ◌-◌, ◌%◌, bit_and, Bool, true, false, Option, none, some, List, ◌||◌, get_or, set, ◌==◌,
  if◌then◌else◌,
}

abbrev pub fifo_buffer_size : ℕ
fifo_buffer_size = 128

abbrev pub fifo_buffer_mask : ℕ
fifo_buffer_mask = fifo_buffer_size - 1

pub record Fifo : Type 0 where
  pub buffer : List ℕ
  pub head : ℕ
  pub tail : ℕ
  pub count : ℕ

-- `fifo_init` leaves the bytes of the buffer as they are.
pub fifo_init : Option Fifo → Option Fifo
fifo_init none = none
fifo_init (some self) = some (record self { head = 0; tail = 0; count = 0 })

pub fifo_is_empty : Fifo → Bool
fifo_is_empty self = self.count == 0

pub is_full : Fifo → Bool
is_full self = self.count == fifo_buffer_size

pub fifo_enqueue : Option Fifo → ℕ → Bool × Option Fifo
unfolding is_full
fifo_enqueue none byte = (false, none)
fifo_enqueue (some self) byte = if is_full self then (false, some self) else (
  true,
  some (record self {
    buffer = set self.buffer self.head byte;
    head = bit_and (self.head + 1) fifo_buffer_mask % 256;
    count = (self.count + 1) % 256;
  }),
)

-- The byte is what goes through `data`, if anything does. `count--` runs only at a count above 0.
pub fifo_dequeue : Option Fifo → Bool × Option ℕ × Option Fifo
unfolding fifo_is_empty
fifo_dequeue none = (false, none, none)
fifo_dequeue (some self) = if fifo_is_empty self then (false, none, some self) else (
  true,
  some (get_or self.buffer self.tail 0),
  some (record self {
    tail = bit_and (self.tail + 1) fifo_buffer_mask % 256;
    count = self.count - 1;
  }),
)
