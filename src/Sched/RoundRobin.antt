-- ===== src/Sched/RoundRobin.antt =====
-- src/x86/scheduler/rr.c: the ready queue, and the preemption of the running task.
pub mod Rotation
use icariusos.Errno.{einval}
use icariusos.Base.{
  ◌>>=◌, ℕ, ◌-◌, Bool, Option, none, some, List, [], ◌∷◌, ◌||◌, get_or, not, ◌==◌, leb,
  if◌then◌else◌,
}
use icariusos.Sched.Queue.{TaskQueue, enqueue, dequeue}
use icariusos.Sched.Tasks.{
  InterruptFrame, Kernel, Task, ready, is_ready, is_run, set_task, task_get_curr, task_set_curr,
  task_save, task_switch, process_get_curr,
}

abbrev pub rr_max : ℕ
rr_max = 8

unfoldable pub rr_enqueue : Option ℕ → Kernel → Kernel
rr_enqueue none k = k
rr_enqueue (some t) k =
    if leb rr_max k.ready_queue.count || not (is_ready (k.tasks t).state)
    then k
    else record k { ready_queue = enqueue rr_max k.ready_queue t }

unfoldable pub rr_dequeue : Kernel → Option ℕ × Kernel
rr_dequeue k = let (task, q) = dequeue rr_max k.ready_queue in (task, record k { ready_queue = q })

unfoldable pub rr_add : Option ℕ → Kernel → Kernel
unfolding rr_enqueue
rr_add none k = record k { errno = einval }
rr_add (some t) k = rr_enqueue (some t) k

-- The slot at `_head`, as the code reads it.
unfoldable pub rr_get : Kernel → Option ℕ
rr_get k =
    if k.ready_queue.count == 0 then none else get_or k.ready_queue.slots k.ready_queue.head none

-- The first branch of `rr_yield`: no current task. Its result is ignored but for what it writes.
abbrev pub adopt_first : Kernel → Option Kernel
adopt_first k =
    let (proc, k') = process_get_curr k in
    proc >>= λ p. some (task_set_curr (get_or (k'.processes p).tasks 0 none) k')

-- From `if (curr->state == TASK_STATE_RUN)` on, which reads through `curr`.
unfoldable pub requeue : Option ℕ → Kernel → Option Kernel
unfolding rr_enqueue
requeue none k = none
requeue (some t) k =
    if is_run (k.tasks t).state
    then some (rr_enqueue (some t) (set_task k t (record (k.tasks t) { state = ready })))
    else some k

unfoldable pub rr_yield : Option InterruptFrame → Kernel → Option Kernel
unfolding task_get_curr process_get_curr task_set_curr task_save requeue rr_dequeue task_switch
rr_yield frame k = do
  let (curr, k0) = task_get_curr k
  k1 ← elim curr [
    | none ↦ adopt_first k0
    | some t ↦ elim frame [ none ↦ some k0 | some f ↦ some (task_save f k0) ]
  ]
  k2 ← requeue curr k1
  let (next, k3) = rr_dequeue k2
  task_switch next k3
