-- ===== src/Sched/RoundRobin/Rotation.antt =====
-- What one preemption does to the ready queue and to the tasks.
use icariusos.Base.{ℕ, ◌<◌, ◌≡◌, ◌≢◌, refl, arith, Option, none, some, List, [], ◌∷◌, ◌++◌, Returns}
use icariusos.Sched.Queue.{enqueue, dequeue}
use icariusos.Sched.Queue.Laws.{Holds, enqueue-Holds, dequeue-Holds}
use icariusos.Sched.Tasks.{
  InterruptFrame, Registers, Kernel, ready, run, set_task, update, v2p, task_get_curr, task_save,
  task_switch,
}
use icariusos.Sched.RoundRobin.{rr_max, rr_dequeue, requeue, rr_yield}

-- The registers that `task_save` takes from a frame.
abbrev pub saved : InterruptFrame → Registers
saved f = record {
  edi = f.edi;
  esi = f.esi;
  ebp = f.ebp;
  ebx = f.ebx;
  edx = f.edx;
  ecx = f.ecx;
  eax = f.eax;
  eip = f.eip;
  cs = f.cs;
  eflags = f.eflags;
  esp = f.esp;
  ss = f.ss;
}

-- `task_switch` in one step, to the task `t` of the process `p`.
abbrev pub switched : ℕ → ℕ → Kernel → Kernel
switched t p k = record k {
  tasks = update k.tasks t (record (k.tasks t) { state = run });
  curr_task = some t;
  curr_process = some p;
  cr3 = elim (k.processes p).page_dir [ none ↦ k.cr3 | some dir ↦ v2p dir ];
  entered = some (record (k.tasks t) { state = run }).registers;
}

pub task_switch-switched :
    (t p : ℕ) (k : Kernel)
    → (k.tasks t).parent ≡ some p
    → task_switch (some t) k ≡ some (switched t p k)
unfolding task_switch
task_switch-switched t p k e = ground arith

-- The running task goes to the end of the queue as a ready one.
requeue-running :
    (t : ℕ) (k : Kernel)
    → (k.tasks t).state ≡ run
    → k.ready_queue.count < rr_max
    → requeue (some t) k
      ≡ some (record (set_task k t (record (k.tasks t) { state = ready })) {
        ready_queue = enqueue rr_max k.ready_queue t;
      })
unfolding requeue
requeue-running t k e room = ground arith

-- With no free slot it is marked ready and goes nowhere.
requeue-full :
    (t : ℕ) (k : Kernel)
    → (k.tasks t).state ≡ run
    → k.ready_queue.count ≡ rr_max
    → requeue (some t) k ≡ some (set_task k t (record (k.tasks t) { state = ready }))
unfolding requeue
requeue-full t k e full = ground arith

module _ (f : InterruptFrame) (c n p : ℕ) (rest : List ℕ) (k : Kernel) where
  -- `c` with its registers saved, as `task_save` leaves it.
  abbrev kept : Kernel
  kept = set_task k c (record (k.tasks c) { registers = saved f })

  abbrev handed_back : Kernel
  handed_back = set_task kept c (record (kept.tasks c) { state = ready })

  abbrev dequeued : Kernel
  dequeued = record handed_back {
    ready_queue = (dequeue rr_max (enqueue rr_max k.ready_queue c)).1;
  }

  -- The kernel after one preemption of `c` in favour of `n`.
  abbrev after : Kernel
  after =
      switched n p
        (record handed_back { ready_queue = (dequeue rr_max (enqueue rr_max k.ready_queue c)).1 })

  -- What one preemption guarantees.
  pub record Rotated (k' : Kernel) : Type 0 where
    pub current : k'.curr_task ≡ some n
    pub running : (k'.tasks n).state ≡ run
    pub entered : k'.entered ≡ some (k.tasks n).registers
    pub queue : Holds rr_max k'.ready_queue (rest ++ (c ∷ []))
    pub saved_frame : (k'.tasks c).registers ≡ saved f
    pub waiting_turn : (k'.tasks c).state ≡ ready
    pub others : (u : ℕ) → c ≢ u → n ≢ u → k'.tasks u ≡ k.tasks u

  module _ (now : k.curr_task ≡ some c) where
    task_get_curr-now : task_get_curr k ≡ (some c, k)
    unfolding task_get_curr
    task_get_curr-now = rw now

    task_save-kept : task_save f k ≡ kept
    unfolding task_save
    task_save-kept = rw (task_get_curr-now, task_get_curr-now, task_save)

  module _ (now : k.curr_task ≡ some c) (running : (k.tasks c).state ≡ run)
      (waits : Holds rr_max k.ready_queue (n ∷ rest)) (room : k.ready_queue.count < rr_max)
      (ne : c ≢ n) (owned : (k.tasks n).parent ≡ some p) where
    both : Holds rr_max (enqueue rr_max k.ready_queue c) (n ∷ (rest ++ (c ∷ [])))
    both = enqueue-Holds rr_max k.ready_queue c (n ∷ rest) waits room

    taken :
        ((dequeue rr_max (enqueue rr_max k.ready_queue c)).0 ≡ some n)
        × Holds rr_max (dequeue rr_max (enqueue rr_max k.ready_queue c)).1 (rest ++ (c ∷ []))
    taken = dequeue-Holds rr_max (enqueue rr_max k.ready_queue c) n (rest ++ (c ∷ [])) both

    requeue-handed_back :
        requeue (some c) kept
        ≡ some (record handed_back { ready_queue = enqueue rr_max k.ready_queue c })
    requeue-handed_back = requeue-running c kept (ground arith) room

    rr_yield-after : rr_yield (some f) k ≡ some after
    unfolding rr_yield rr_dequeue
    rr_yield-after =
        rw
          (
            task_get_curr-now now,
            task_get_curr-now now,
            task_save-kept now,
            requeue-handed_back,
            taken.0,
          )
          (task_switch-switched n p dequeued (ground arith))

    after-Rotated : Rotated after
    after-Rotated = record {
      current = refl;
      running = ground arith;
      entered = ground arith;
      queue = taken.1;
      saved_frame = ground arith;
      waiting_turn = ground arith;
      others = λ u a b. ground arith;
    }

-- Preempting the running task `c`, while `n` is the oldest of the waiting tasks and the queue has a
-- free slot, does not fault: `c` keeps the registers of the frame and goes behind the other waiting
-- tasks as a ready one, `n` runs with its own registers, and no other task changes.
pub rr_yield-Rotated :
    (f : InterruptFrame) (c n p : ℕ) (rest : List ℕ) (k : Kernel)
    → k.curr_task ≡ some c
    → (k.tasks c).state ≡ run
    → Holds rr_max k.ready_queue (n ∷ rest)
    → k.ready_queue.count < rr_max
    → c ≢ n
    → (k.tasks n).parent ≡ some p
    → Returns (rr_yield (some f) k) (Rotated f c n p rest k)
rr_yield-Rotated f c n p rest k now running waits room ne owned =
    rw (rr_yield-after f c n p rest k now running waits room ne owned)
      (after-Rotated f c n p rest k now running waits room ne owned)

-- With eight tasks waiting the running task is not taken back into the queue: after the preemption
-- the seven younger ones wait, and the task that ran is ready but neither waiting nor running.
pub rr_yield-full :
    (f : InterruptFrame) (c n p : ℕ) (rest : List ℕ) (k : Kernel)
    → k.curr_task ≡ some c
    → (k.tasks c).state ≡ run
    → Holds rr_max k.ready_queue (n ∷ rest)
    → k.ready_queue.count ≡ rr_max
    → c ≢ n
    → (k.tasks n).parent ≡ some p
    → Returns (rr_yield (some f) k) (λ k'.
      (k'.curr_task ≡ some n) × ((k'.tasks c).state ≡ ready) × Holds rr_max k'.ready_queue rest)
unfolding rr_yield rr_dequeue
rr_yield-full f c n p rest k now running waits full ne owned =
    let get = task_get_curr-now f c n p rest k now in
    let k' = handed_back f c n p rest k in
    let taken = dequeue-Holds rr_max k.ready_queue n rest waits in
    let k'' = record k' { ready_queue = (dequeue rr_max k.ready_queue).1 } in
    rw
      (
        get,
        get,
        task_save-kept f c n p rest k now,
        requeue-full c (kept f c n p rest k) (ground arith) full,
        taken.0,
        task_switch-switched n p k'' (ground arith),
      )
      (refl, ground arith, taken.1)

-- Without a current task `rr_yield` reads the state of the task through NULL, whatever the frame.
pub rr_yield-null :
    (frame : Option InterruptFrame) (k : Kernel) → k.curr_task ≡ none → rr_yield frame k ≡ none
unfolding rr_yield task_get_curr requeue
rr_yield-null frame k e = ground arith
