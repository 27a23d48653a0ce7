-- ===== src/Fifo/Refinement.antt =====
-- A valid FIFO behaves as a queue of at most 128 bytes.
use icariusos.Base.{
  ℕ, ◌≡◌, refl, arith, Bool, true, false, Option, none, some, List, [], ◌∷◌, ◌++◌, length, ltb,
  if◌then◌else◌,
}
use icariusos.Base.Ring.{window, length-window, window_pos, window-set_behind}
use icariusos.Fifo.{Fifo, fifo_buffer_size, fifo_enqueue, fifo_dequeue}
use icariusos.Fifo.Invariant.{IsValid, HoldsValid, step_round, enqueue-IsValid, dequeue-IsValid}

-- The bytes held, oldest first.
abbrev pub contents : Fifo → List ℕ
contents f = window 0 fifo_buffer_size f.buffer f.tail f.count

abbrev pub contents_or : Option Fifo → List ℕ
contents_or none = []
contents_or (some f) = contents f

-- The abstract queue.
abbrev pub queue_put : List ℕ → ℕ → Bool × List ℕ
queue_put q byte = if ltb (length q) fifo_buffer_size then (true, q ++ (byte ∷ [])) else (false, q)

abbrev pub queue_get : List ℕ → Bool × Option ℕ × List ℕ
queue_get [] = (false, none, [])
queue_get (x ∷ q) = (true, some x, q)

-- From a valid FIFO `fifo_enqueue` puts the byte behind the others, unless 128 are held: then it
-- returns false and changes nothing.
pub enqueue_refines :
    (f : Fifo) (byte : ℕ)
    → IsValid f
    → let (done, f') = fifo_enqueue (some f) byte in
      (done, contents_or f') ≡ queue_put (contents f) byte
unfolding fifo_enqueue
enqueue_refines f byte v = ground (
  arith,
  length-window 0 fifo_buffer_size f.buffer f.tail f.count,
  window-set_behind 0 fifo_buffer_size f.buffer byte f.count f.tail f.head,
)

-- From a valid FIFO `fifo_dequeue` takes the oldest byte; from an empty one it returns false, gives
-- no byte and changes nothing.
pub dequeue_refines :
    (f : Fifo)
    → IsValid f
    → let (done, byte, f') = fifo_dequeue (some f) in
      (done, byte, contents_or f') ≡ queue_get (contents f)
unfolding fifo_dequeue
dequeue_refines f v =
    ground (arith, step_round f.tail, window_pos 0 fifo_buffer_size f.buffer f.tail f.count)

-- What the interrupt handlers and the readers of one FIFO do, in some order.
pub data Op : Type 0 where
  put : ℕ → Op
  get : Op

unfoldable pub run : Option Fifo → List Op → List (Bool × Option ℕ)
run f [] = []
run f (put x ∷ ops) = let (done, f') = fifo_enqueue f x in (done, none) ∷ run f' ops
run f (get ∷ ops) = let (done, byte, f') = fifo_dequeue f in (done, byte) ∷ run f' ops

unfoldable pub queue_run : List ℕ → List Op → List (Bool × Option ℕ)
queue_run q [] = []
queue_run q (put x ∷ ops) = let (done, q') = queue_put q x in (done, none) ∷ queue_run q' ops
queue_run q (get ∷ ops) = let (done, byte, q') = queue_get q in (done, byte) ∷ queue_run q' ops

run_refines_at :
    (ops : List Op) (f : Option Fifo) → HoldsValid f → run f ops ≡ queue_run (contents_or f) ops
unfolding run queue_run
run_refines_at ops none v = absurd v
run_refines_at [] (some f) v = refl
run_refines_at (put x ∷ ops) (some f) v = rw (
  run_refines_at ops (fifo_enqueue (some f) x).1 (enqueue-IsValid f x v),
  ← enqueue_refines f x v,
)
run_refines_at (get ∷ ops) (some f) v =
    rw (run_refines_at ops (fifo_dequeue (some f)).2 (dequeue-IsValid f v), ← dequeue_refines f v)

-- In every order of `fifo_enqueue` and `fifo_dequeue` from a valid FIFO, each call returns what the
-- bounded queue of the bytes held returns.
pub run_refines :
    (ops : List Op) (f : Fifo) → IsValid f → run (some f) ops ≡ queue_run (contents f) ops
run_refines ops f v = run_refines_at ops (some f) v
