-- ===== src/Sched/Tests.antt =====
-- The scheduler on concrete queues, and its theorems at them.
use icariusos.Base.{
  ◌≡◌, refl, arith, true, none, some, [], ◌∷◌, ◌++◌, Returns, replicate, ◌==◌, leb, if◌then◌else◌,
}
use icariusos.Sched.Queue.{TaskQueue}
use icariusos.Sched.Queue.Laws.{Holds}
use icariusos.Sched.Tasks.{
  TaskState, ready, run, block, WaitReason, no_wait, keyboard, no_use, Registers, InterruptFrame,
  Task, Kernel,
}
use icariusos.Sched.RoundRobin.{rr_max, rr_yield, rr_get}
use icariusos.Sched.RoundRobin.Rotation.{Rotated, rr_yield-Rotated, rr_yield-full}
use icariusos.Sched.WaitQueue.{wq_wakeup}
use icariusos.Sched.WaitQueue.Wakeup.{is_hit, Woken, CanWake, wq_wakeup-Woken}

abbrev registers : Registers
registers = record {
  edi = 0;
  esi = 0;
  ebp = 0;
  ebx = 0;
  edx = 0;
  ecx = 0;
  eax = 0;
  eip = 0x100;
  cs = 8;
  eflags = 0x202;
  esp = 0x9000;
  ss = 16;
}

abbrev frame : InterruptFrame
frame = record {
  edi = 1;
  esi = 2;
  ebp = 3;
  reserved = 0;
  ebx = 4;
  edx = 5;
  ecx = 6;
  eax = 7;
  eip = 0x200;
  cs = 0x1b;
  eflags = 0x202;
  esp = 0x8000;
  ss = 0x23;
}

abbrev task_in : TaskState → WaitReason → Task
task_in state reason = record {
  stack_top = 0x9000;
  stack_bottom = 0x1000;
  registers = registers;
  parent = some 1;
  state = state;
  waiting_on = reason;
}

abbrev no_tasks : TaskQueue
no_tasks = record { slots = replicate 8 none; head = 0; tail = 0; count = 0 }

-- Task 1 runs, 2 and 3 are ready, 4 and 6 wait for the keyboard, 5 for something else.
abbrev kernel : Kernel
kernel = record {
  tasks = λ t.
      if t == 1
      then task_in run no_wait
      else if leb t 3
      then task_in ready no_wait
      else if t == 5
      then task_in block no_use
      else task_in block keyboard;
  processes = λ p. record { tasks = some 1 ∷ []; page_dir = some 0xC080_0000; task_count = 1 };
  curr_task = some 1;
  curr_process = some 1;
  errno = 0;
  ready_queue = record {
    slots = some 3 ∷ replicate 6 none ++ (some 2 ∷ []);
    head = 1;
    tail = 7;
    count = 2;
  };
  wait_queue = record {
    slots = some 4 ∷ some 5 ∷ some 6 ∷ replicate 5 none;
    head = 3;
    tail = 0;
    count = 3;
  };
  curr_scheduler = some (record { add_is_rr = true; yield_is_rr = true });
  cr3 = 0;
  entered = none;
}

abbrev full_kernel : Kernel
full_kernel = record kernel {
  ready_queue = record {
    slots = some 2 ∷ some 3 ∷ some 4 ∷ some 5 ∷ some 6 ∷ some 7 ∷ some 8 ∷ some 9 ∷ [];
    head = 0;
    tail = 0;
    count = 8;
  };
}

-- `rr_get` reads the slot that the next task will be put into.
rr_get_reads_free_slot : rr_get kernel ≡ none
unfolding rr_get
rr_get_reads_free_slot = refl

ready-Holds : Holds rr_max kernel.ready_queue (2 ∷ 3 ∷ [])
ready-Holds = record {
  storage = refl;
  head_in = omega arith;
  tail_in = omega arith;
  counted = refl;
  count_in = omega arith;
  behind = refl;
  held = refl;
}

rr_yield-Rotated_example :
    Returns (rr_yield (some frame) kernel) (Rotated frame 1 2 1 (3 ∷ []) kernel)
rr_yield-Rotated_example =
    rr_yield-Rotated frame 1 2 1 (3 ∷ []) kernel refl refl ready-Holds (omega arith) (omega arith)
      refl

full-Holds : Holds rr_max full_kernel.ready_queue (2 ∷ 3 ∷ 4 ∷ 5 ∷ 6 ∷ 7 ∷ 8 ∷ 9 ∷ [])
full-Holds = record {
  storage = refl;
  head_in = omega arith;
  tail_in = omega arith;
  counted = refl;
  count_in = omega arith;
  behind = refl;
  held = refl;
}

rr_yield-full_example : Returns (rr_yield (some frame) full_kernel) (λ k'.
    (k'.curr_task ≡ some 2)
    × ((k'.tasks 1).state ≡ ready)
    × Holds rr_max k'.ready_queue (3 ∷ 4 ∷ 5 ∷ 6 ∷ 7 ∷ 8 ∷ 9 ∷ []))
rr_yield-full_example =
    rr_yield-full frame 1 2 1 (3 ∷ 4 ∷ 5 ∷ 6 ∷ 7 ∷ 8 ∷ 9 ∷ []) full_kernel refl refl full-Holds refl
      (omega arith) refl

kernel-CanWake :
    CanWake (is_hit keyboard kernel.tasks) keyboard (4 ∷ 5 ∷ 6 ∷ []) [] (2 ∷ 3 ∷ []) kernel
kernel-CanWake = record {
  scheduler = record { add_is_rr = true; yield_is_rr = true };
  selected = refl;
  adds = refl;
  queued = record {
    storage = refl;
    head_in = omega arith;
    tail_in = omega arith;
    counted = refl;
    count_in = omega arith;
    behind = refl;
    held = refl;
  };
  ready_tasks = ready-Holds;
  blocked = ((refl, refl), ((refl, refl), ((refl, refl), tt)));
  distinct = ((omega arith, (omega arith, tt)), ((omega arith, tt), (tt, tt)));
  room = omega arith;
}

wq_wakeup-Woken_example :
    Returns
      (wq_wakeup keyboard kernel)
      (Woken (is_hit keyboard kernel.tasks) (4 ∷ 5 ∷ 6 ∷ []) [] (2 ∷ 3 ∷ []) kernel)
wq_wakeup-Woken_example =
    wq_wakeup-Woken keyboard (4 ∷ 5 ∷ 6 ∷ []) (2 ∷ 3 ∷ []) kernel kernel-CanWake
