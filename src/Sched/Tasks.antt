-- ===== src/Sched/Tasks.antt =====
-- src/x86/process/task.c, the current-process pointer of src/x86/process/process.c, and the state
-- that the scheduler's files share. Tasks and processes are numbers into two stores, a pointer is
-- `some` number and NULL is `none`. A read or write through NULL is a fault: the result is `none`.
use icariusos.Errno.{einval, esrch}
use icariusos.Base.{
  ◌>>=◌, ℕ, ◌+◌, ◌-◌, ◌%◌, ◌^◌, Bool, true, false, Option, none, some, List, ◌==◌, if◌then◌else◌,
}
use icariusos.Sched.Queue.{TaskQueue}

pub data TaskState : Type 0 where
  ready run block terminate : TaskState

pub data WaitReason : Type 0 where
  no_wait keyboard no_use : WaitReason

abbrev pub is_ready : TaskState → Bool
is_ready ready = true
is_ready _ = false

abbrev pub is_run : TaskState → Bool
is_run run = true
is_run _ = false

abbrev pub is_block : TaskState → Bool
is_block block = true
is_block _ = false

abbrev pub same_reason : WaitReason → WaitReason → Bool
same_reason no_wait no_wait = true
same_reason keyboard keyboard = true
same_reason no_use no_use = true
same_reason _ _ = false

pub record Registers : Type 0 where
  pub edi : ℕ
  pub esi : ℕ
  pub ebp : ℕ
  pub ebx : ℕ
  pub edx : ℕ
  pub ecx : ℕ
  pub eax : ℕ
  pub eip : ℕ
  pub cs : ℕ
  pub eflags : ℕ
  pub esp : ℕ
  pub ss : ℕ

-- `interrupt_frame_t`.
pub record InterruptFrame : Type 0 where
  pub edi : ℕ
  pub esi : ℕ
  pub ebp : ℕ
  pub reserved : ℕ
  pub ebx : ℕ
  pub edx : ℕ
  pub ecx : ℕ
  pub eax : ℕ
  pub eip : ℕ
  pub cs : ℕ
  pub eflags : ℕ
  pub esp : ℕ
  pub ss : ℕ

pub record Task : Type 0 where
  pub stack_top : ℕ
  pub stack_bottom : ℕ
  pub registers : Registers
  pub parent : Option ℕ
  pub state : TaskState
  pub waiting_on : WaitReason

-- `process_t`, with the fields that scheduling and the task functions use.
pub record Process : Type 0 where
  pub tasks : List (Option ℕ)
  pub page_dir : Option ℕ
  pub task_count : ℕ

-- The callbacks of `scheduler_t`. `rr_init` is the one place that sets them.
pub record Scheduler : Type 0 where
  pub add_is_rr : Bool
  pub yield_is_rr : Bool

-- The globals: both stores, `curr_task`, `curr_process`, `errno`, the two queues, `_curr_scheduler`,
-- the CR3 register, and the registers that `asm_enter_task` was last given.
pub record Kernel : Type 0 where
  pub tasks : ℕ → Task
  pub processes : ℕ → Process
  pub curr_task : Option ℕ
  pub curr_process : Option ℕ
  pub errno : ℕ
  pub ready_queue : TaskQueue
  pub wait_queue : TaskQueue
  pub curr_scheduler : Option Scheduler
  pub cr3 : ℕ
  pub entered : Option Registers

abbrev pub update {ℓ} : {A : Type ℓ} → (ℕ → A) → ℕ → A → ℕ → A
update store p v q = if p == q then v else store q

abbrev pub set_task : Kernel → ℕ → Task → Kernel
set_task k p task = record k { tasks = update k.tasks p task }

unfoldable pub task_block_on : Option ℕ → WaitReason → Kernel → Kernel
task_block_on none reason k = k
task_block_on (some t) reason k = set_task k t (record (k.tasks t) { waiting_on = reason })

unfoldable pub task_set_block : Option ℕ → Kernel → Kernel
task_set_block none k = k
task_set_block (some t) k = set_task k t (record (k.tasks t) { state = block })

unfoldable pub task_set_unblock : Option ℕ → Kernel → Kernel
task_set_unblock none k = k
task_set_unblock (some t) k =
    if is_block (k.tasks t).state
    then set_task k t (record (k.tasks t) { waiting_on = no_wait; state = ready })
    else k

unfoldable pub task_set_curr : Option ℕ → Kernel → Kernel
task_set_curr none k = record k { errno = einval }
task_set_curr (some t) k = record k { curr_task = some t }

unfoldable pub task_get_curr : Kernel → Option ℕ × Kernel
task_get_curr k = elim k.curr_task [
  | none ↦ (none, record k { errno = esrch })
  | some t ↦ (some t, k)
]

unfoldable pub process_set_curr : Option ℕ → Kernel → Kernel
process_set_curr none k = record k { errno = einval }
process_set_curr (some p) k = record k { curr_process = some p }

unfoldable pub process_get_curr : Kernel → Option ℕ × Kernel
process_get_curr k = elim k.curr_process [
  | none ↦ (none, record k { errno = esrch })
  | some p ↦ (some p, k)
]

abbrev pub kernel_virtual_start : ℕ
kernel_virtual_start = 0xC000_0000

-- `v2p`, on 32-bit addresses.
abbrev pub v2p : ℕ → ℕ
v2p addr = (addr + 2 ^ 32 - kernel_virtual_start) % 2 ^ 32

-- The part of `task_restore_dir` behind its guard.
abbrev pub load_dir : Option ℕ → Kernel → Kernel
load_dir none k = k
load_dir (some dir) k = record k { cr3 = v2p dir }

unfoldable pub task_restore_dir : Option ℕ → Kernel → Option Kernel
task_restore_dir none k = some k
task_restore_dir (some t) k = (k.tasks t).parent >>= λ p. some (load_dir (k.processes p).page_dir k)

-- Behind the guard of `task_switch`, with the next task made the current one.
abbrev pub enter : ℕ → Kernel → Kernel
enter t k = record k { entered = some (k.tasks t).registers }

unfoldable pub task_switch : Option ℕ → Kernel → Option Kernel
unfolding task_set_curr process_set_curr task_restore_dir
task_switch none k = some k
task_switch (some t) k = do
  let running = task_set_curr (some t) (set_task k t (record (k.tasks t) { state = run }))
  let k' = process_set_curr (running.tasks t).parent running
  p ← (k'.tasks t).parent
  k'' ← elim (k'.processes p).page_dir [ none ↦ some k' | some dir ↦ task_restore_dir (some t) k' ]
  some (enter t k'')

unfoldable pub task_save : InterruptFrame → Kernel → Kernel
unfolding task_get_curr
task_save frame k =
    let (task, k') = task_get_curr k in
    elim task [
      | none ↦ k'
      | some t ↦ set_task k' t (record (k'.tasks t) {
        registers = record {
          edi = frame.edi;
          esi = frame.esi;
          ebp = frame.ebp;
          ebx = frame.ebx;
          edx = frame.edx;
          ecx = frame.ecx;
          eax = frame.eax;
          eip = frame.eip;
          cs = frame.cs;
          eflags = frame.eflags;
          esp = frame.esp;
          ss = frame.ss;
        };
      })
    ]
