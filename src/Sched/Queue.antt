-- ===== src/Sched/Queue.antt =====
-- The pointer queues of src/x86/scheduler/rr.c and wq.c: `_ready_queue` and `_wait_queue`, arrays of
-- eight `task_t*` with `_head`, `_tail` and `_count`. A pointer is `some` task's number, NULL is
-- `none`. The counters are `int32_t` that never fall below 0: `_count--` runs only above 0.
pub mod Laws
use icariusos.Base.{
  ℕ, ◌+◌, ◌-◌, ◌%◌, Option, none, some, List, ◌||◌, get_or, set, ◌==◌, leb, ltb, if◌then◌else◌,
}

pub record TaskQueue : Type 0 where
  pub slots : List (Option ℕ)
  pub head : ℕ
  pub tail : ℕ
  pub count : ℕ

-- The writes of `_rr_enqueue` and `_wq_enqueue`, behind their guards.
pub enqueue : ℕ → TaskQueue → ℕ → TaskQueue
enqueue max q task = record q {
  slots = set q.slots q.head (some task);
  head = (q.head + 1) % max;
  count = q.count + 1;
}

-- The writes of `_rr_dequeue` and `_wq_dequeue`, behind their guards.
abbrev pub take_slot : ℕ → TaskQueue → Option ℕ → Option ℕ × TaskQueue
take_slot max q none = (none, q)
take_slot max q (some task) = (
  some task,
  record q { slots = set q.slots q.tail none; tail = (q.tail + 1) % max; count = q.count - 1 },
)

-- `_rr_dequeue` and `_wq_dequeue`, which differ in `max` alone.
pub dequeue : ℕ → TaskQueue → Option ℕ × TaskQueue
dequeue max q =
    if q.count == 0 || ltb max q.count
    then (none, q)
    else take_slot max q (get_or q.slots q.tail none)
