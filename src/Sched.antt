-- ===== src/Sched.antt =====
-- Scheduling in the x86 kernel: tasks, the round-robin ready queue, the wait queue, and the switch
-- between schedulers (src/x86/process/task.c and src/x86/scheduler).
pub mod Queue
pub mod Tasks
pub mod RoundRobin
pub mod WaitQueue
mod Tests
