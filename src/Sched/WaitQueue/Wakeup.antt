-- ===== src/Sched/WaitQueue/Wakeup.antt =====
-- Who `wq_wakeup` wakes, in which order, and who goes on waiting.
use icariusos.Base.{
  ℕ, suc, ◌+◌, ◌<◌, ◌≤◌, ◌≡◌, ◌≢◌, refl, sym, ap, ◌∙◌, arith, inl, inr, Bool, true, false, not,
  some, List, [], ◌∷◌, ◌++◌, Returns, Returns-map, All, Distinct, select, All-select, All-map,
  All-zip, Bool-cases, length, length-append, append_assoc, append-nil,
}
use mathlib.Core.Path.{subst}
use icariusos.Sched.Queue.{enqueue, dequeue}
use icariusos.Sched.Queue.Laws.{Holds, enqueue-Holds, dequeue-Holds}
use icariusos.Sched.Tasks.{
  Kernel, Task, Scheduler, WaitReason, ready, block, no_wait, same_reason, update, set_task,
}
use icariusos.Sched.RoundRobin.{rr_max}
use icariusos.Sched.WaitQueue.{wait_max, wq_size, wake_one, wakeup_loop, wq_wakeup}

-- A blocked task once it is woken.
abbrev pub woken_task : Task → Task
woken_task t = record t { waiting_on = no_wait; state = ready }

module _ (reason : WaitReason) (t : ℕ) (k : Kernel) where
  abbrev added : Kernel
  added = record (set_task k t (woken_task (k.tasks t))) {
    ready_queue = enqueue rr_max k.ready_queue t;
  }

  wake_one-hit :
      (s : Scheduler)
      → k.curr_scheduler ≡ some s
      → s.add_is_rr ≡ true
      → same_reason (k.tasks t).waiting_on reason ≡ true
      → (k.tasks t).state ≡ block
      → k.ready_queue.count < rr_max
      → wake_one reason (some t) k ≡ some added
  unfolding wake_one
  wake_one-hit s e add hit blocked room = ground arith

  abbrev put_back : Kernel
  put_back = record k { wait_queue = enqueue wait_max k.wait_queue t }

  wake_one-miss :
      same_reason (k.tasks t).waiting_on reason ≡ false
      → (k.tasks t).state ≡ block
      → k.wait_queue.count < wait_max
      → wake_one reason (some t) k ≡ some put_back
  unfolding wake_one
  wake_one-miss miss blocked room = ground arith

update_ne : (store : ℕ → Task) (p q : ℕ) (v : Task) → p ≢ q → update store p v q ≡ store q
update_ne store p q v ne = ground arith

update_self : (store : ℕ → Task) (p : ℕ) (v : Task) → update store p v p ≡ v
update_self store p v = ground arith

abbrev pub is_hit : WaitReason → (ℕ → Task) → ℕ → Bool
is_hit reason tasks t = same_reason (tasks t).waiting_on reason

-- What a pass over the tasks `todo` does: those that wait for the reason become ready and go
-- behind the ready tasks, the others go behind `kept`, both in their order; no other task changes.
pub record Woken (hit : ℕ → Bool) (todo kept rs : List ℕ) (k k' : Kernel) : Type 0 where
  pub waiting : Holds wait_max k'.wait_queue (kept ++ select (λ t. not (hit t)) todo)
  pub ready_tasks : Holds rr_max k'.ready_queue (rs ++ select hit todo)
  pub woken : All (λ t. k'.tasks t ≡ woken_task (k.tasks t)) (select hit todo)
  pub others : (u : ℕ) → All (λ t. t ≢ u) (select hit todo) → k'.tasks u ≡ k.tasks u

-- What a pass needs: a selected scheduler, blocked tasks, and room for those that are woken.
pub record CanWake (hit : ℕ → Bool) (reason : WaitReason) (todo kept rs : List ℕ) (k : Kernel)
    : Type 0 where
  pub scheduler : Scheduler
  pub selected : k.curr_scheduler ≡ some scheduler
  pub adds : scheduler.add_is_rr ≡ true
  pub queued : Holds wait_max k.wait_queue (todo ++ kept)
  pub ready_tasks : Holds rr_max k.ready_queue rs
  pub blocked : All (λ t. ((k.tasks t).state ≡ block) × (is_hit reason k.tasks t ≡ hit t)) todo
  pub distinct : Distinct todo
  pub room : length rs + length (select hit todo) ≤ rr_max

module _ (hit : ℕ → Bool) (reason : WaitReason) (t : ℕ) (todo kept rs : List ℕ) (k : Kernel)
    (c : CanWake hit reason (t ∷ todo) kept rs k) where
  -- The kernel once `t` is out of the queue.
  abbrev out : Kernel
  out = record k { wait_queue = (dequeue wait_max k.wait_queue).1 }

  taken :
      ((dequeue wait_max k.wait_queue).0 ≡ some t) × Holds wait_max out.wait_queue (todo ++ kept)
  taken = dequeue-Holds wait_max k.wait_queue t (todo ++ kept) c.queued

  room_behind : out.wait_queue.count < wait_max
  room_behind = omega (arith, c.queued.counted, c.queued.count_in, taken.1.counted)

  longer : hit t ≡ true → length (select hit (t ∷ todo)) ≡ suc (length (select hit todo))
  longer h = rw h

  same_length : hit t ≡ false → length (select hit (t ∷ todo)) ≡ length (select hit todo)
  same_length h = rw h

  room_ahead : hit t ≡ true → k.ready_queue.count < rr_max
  room_ahead h = omega (arith, c.ready_tasks.counted, c.room, longer h)

  unlike : All (λ u. t ≢ u) (select hit todo)
  unlike = All-select _ hit todo c.distinct.0

  CanWake-hit : hit t ≡ true → CanWake hit reason todo kept (rs ++ (t ∷ [])) (added reason t out)
  CanWake-hit h = record {
    scheduler = c.scheduler;
    selected = c.selected;
    adds = c.adds;
    queued = taken.1;
    ready_tasks = enqueue-Holds rr_max k.ready_queue t rs c.ready_tasks (room_ahead h);
    blocked =
        All-map _ _ todo
          (λ u both. rw (update_ne k.tasks t u (woken_task (k.tasks t)) both.0) both.1)
          (All-zip _ _ todo c.distinct.0 c.blocked.1);
    distinct = c.distinct.1;
    room = omega (arith, c.room, longer h, length-append rs (t ∷ []));
  }

  CanWake-miss :
      hit t ≡ false → CanWake hit reason todo (kept ++ (t ∷ [])) rs (put_back reason t out)
  CanWake-miss h = record {
    scheduler = c.scheduler;
    selected = c.selected;
    adds = c.adds;
    queued =
        rw (← append_assoc todo kept (t ∷ []))
          (enqueue-Holds wait_max out.wait_queue t (todo ++ kept) taken.1 room_behind);
    ready_tasks = c.ready_tasks;
    blocked = c.blocked.1;
    distinct = c.distinct.1;
    room = omega (arith, c.room, same_length h);
  }

  Woken-hit :
      (k' : Kernel)
      → hit t ≡ true
      → Woken hit todo kept (rs ++ (t ∷ [])) (added reason t out) k'
      → Woken hit (t ∷ todo) kept rs k k'
  Woken-hit k' h w = record {
    waiting = rw h w.waiting;
    ready_tasks = rw (h, ← append_assoc rs (t ∷ []) (select hit todo)) w.ready_tasks;
    woken = rw h (
      w.others t (All-map _ _ (select hit todo) (λ u ne e. ne (sym e)) unlike)
          ∙ update_self k.tasks t (woken_task (k.tasks t)),
      All-map _ _ (select hit todo)
          (λ u both. both.1 ∙ ap woken_task (update_ne k.tasks t u (woken_task (k.tasks t)) both.0))
          (All-zip _ _ (select hit todo) unlike w.woken),
    );
    others = λ u ne.
        let (here, behind) = rw h at ne in
        w.others u behind ∙ update_ne k.tasks t u (woken_task (k.tasks t)) here;
  }

  Woken-miss :
      (k' : Kernel)
      → hit t ≡ false
      → Woken hit todo (kept ++ (t ∷ [])) rs (put_back reason t out) k'
      → Woken hit (t ∷ todo) kept rs k k'
  Woken-miss k' h w = record {
    waiting = rw (h, ← append_assoc kept (t ∷ []) (select (λ u. not (hit u)) todo)) w.waiting;
    ready_tasks = rw h w.ready_tasks;
    woken = rw h w.woken;
    others = λ u ne. w.others u (rw h at ne);
  }

module _ (hit : ℕ → Bool) (reason : WaitReason) where
  wakeup_loop-Woken :
      (todo kept rs : List ℕ) (k : Kernel)
      → CanWake hit reason todo kept rs k
      → Returns (wakeup_loop reason (length todo) k) (Woken hit todo kept rs k)
  unfolding wakeup_loop
  wakeup_loop-Woken [] kept rs k c = record {
    waiting = rw append-nil c.queued;
    ready_tasks = rw append-nil c.ready_tasks;
    woken = tt;
    others = λ u ne. refl;
  }
  wakeup_loop-Woken (t ∷ todo) kept rs k c =
      let away = out hit reason t todo kept rs k c in
      let got = taken hit reason t todo kept rs k c in
      let is = c.blocked.0 in
      elim (Bool-cases (hit t)) [
        | inl h ↦
            rw
              (
                got.0,
                wake_one-hit reason t away c.scheduler c.selected c.adds (is.1 ∙ h) is.0
                    (room_ahead hit reason t todo kept rs k c h),
              )
              (Returns-map _ _ _ (λ k'. Woken-hit hit reason t todo kept rs k c k' h)
                (wakeup_loop-Woken todo kept (rs ++ (t ∷ [])) (added reason t away)
                  (CanWake-hit hit reason t todo kept rs k c h)))
        | inr h ↦
            rw
              (
                got.0,
                wake_one-miss reason t away (is.1 ∙ h) is.0
                    (room_behind hit reason t todo kept rs k c),
              )
              (Returns-map _ _ _ (λ k'. Woken-miss hit reason t todo kept rs k c k' h)
                (wakeup_loop-Woken todo (kept ++ (t ∷ [])) rs (put_back reason t away)
                  (CanWake-miss hit reason t todo kept rs k c h)))
      ]

-- When the wait queue holds distinct blocked tasks, round robin is selected and the ready queue has
-- room, `wq_wakeup` does not fault: exactly the tasks that wait for the reason become ready, behind
-- the tasks that were, the others go on waiting, both in their old order, and no other task changes.
pub wq_wakeup-Woken :
    (reason : WaitReason) (tasks rs : List ℕ) (k : Kernel)
    → CanWake (is_hit reason k.tasks) reason tasks [] rs k
    → Returns (wq_wakeup reason k) (Woken (is_hit reason k.tasks) tasks [] rs k)
unfolding wq_wakeup wq_size
wq_wakeup-Woken reason tasks rs k c =
    let size : k.wait_queue.count ≡ length tasks =
      c.queued.counted ∙ ap length (append-nil tasks) in
    subst (λ n. Returns (wakeup_loop reason n k) (Woken (is_hit reason k.tasks) tasks [] rs k))
      (sym size) (wakeup_loop-Woken (is_hit reason k.tasks) reason tasks [] rs k c)
