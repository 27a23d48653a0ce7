-- ===== src/Sched/WaitQueue.antt =====
-- src/x86/scheduler/wq.c: the queue of blocked tasks, and their wake-up, with
-- src/x86/scheduler/scheduler.c, whose callbacks it goes through.
pub mod Wakeup
use icariusos.Errno.{einval}
use icariusos.Base.{
  ◌>>=◌, ℕ, zero, suc, Option, none, some, ◌||◌, not, leb, if◌then◌else◌, Bool, true, false,
}
use icariusos.Sched.Queue.{TaskQueue, enqueue, dequeue}
use icariusos.Sched.Tasks.{
  InterruptFrame, Kernel, Scheduler, WaitReason, is_block, same_reason, task_set_unblock,
}
use icariusos.Sched.RoundRobin.{rr_add, rr_yield}

abbrev pub wait_max : ℕ
wait_max = 8

pub wq_enqueue : Option ℕ → Kernel → Kernel
wq_enqueue none k = k
wq_enqueue (some t) k =
    if leb wait_max k.wait_queue.count || not (is_block (k.tasks t).state)
    then k
    else record k { wait_queue = enqueue wait_max k.wait_queue t }

pub wq_dequeue : Kernel → Option ℕ × Kernel
wq_dequeue k = let (task, q) = dequeue wait_max k.wait_queue in (task, record k { wait_queue = q })

pub wq_size : Kernel → ℕ
wq_size k = k.wait_queue.count

pub wq_push : Option ℕ → Kernel → Kernel
unfolding wq_enqueue
wq_push none k = record k { errno = einval }
wq_push (some t) k = wq_enqueue (some t) k

pub wq_pop : Kernel → Option ℕ × Kernel
unfolding wq_dequeue
wq_pop k = wq_dequeue k

-- `scheduler_get()->add_cb(task)`: a fault if no scheduler is selected or its callback is NULL.
pub scheduler_add : Option ℕ → Kernel → Option Kernel
unfolding rr_add
scheduler_add task k = k.curr_scheduler >>= λ s. if s.add_is_rr then some (rr_add task k) else none

-- `scheduler_schedule`, which does nothing where there is no scheduler or no callback.
pub scheduler_schedule : Option InterruptFrame → Kernel → Option Kernel
unfolding rr_yield
scheduler_schedule frame k = elim k.curr_scheduler [
  | none ↦ some k
  | some s ↦ if s.yield_is_rr then rr_yield frame k else some k
]

pub scheduler_select : Option Scheduler → Kernel → Kernel
scheduler_select none k = record k { errno = einval }
scheduler_select (some s) k = record k { curr_scheduler = some s }

-- One round of the loop of `wq_wakeup`, for the task that came out of the queue.
pub wake_one : WaitReason → Option ℕ → Kernel → Option Kernel
unfolding task_set_unblock scheduler_add wq_enqueue
wake_one reason none k = none
wake_one reason (some t) k =
    if same_reason (k.tasks t).waiting_on reason
    then scheduler_add (some t) (task_set_unblock (some t) k)
    else some (wq_enqueue (some t) k)

-- `while (i--)`.
pub wakeup_loop : WaitReason → ℕ → Kernel → Option Kernel
unfolding wq_dequeue wake_one
wakeup_loop reason zero k = some k
wakeup_loop reason (suc i) k =
    let (task, k') = wq_dequeue k in wake_one reason task k' >>= λ k''. wakeup_loop reason i k''

pub wq_wakeup : WaitReason → Kernel → Option Kernel
unfolding wq_size wakeup_loop
wq_wakeup reason k = wakeup_loop reason (wq_size k) k
