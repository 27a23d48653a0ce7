-- ===== src/Sched/Queue/Laws.antt =====
-- What a pointer queue holds, and how its two operations change that.
use icariusos.Base.{
  ℕ, suc, ◌+◌, ◌-◌, ◌%◌, ◌<◌, ◌≤◌, ◌≡◌, refl, ap, ◌∙◌, arith, none, some, List, [], ◌∷◌, ◌++◌, map,
  length, length-append, length-set, get_or, set,
}
use native.Mathlib.Nat.{mod-add-mod}
use native.Mathlib.Numerals.{add-one}
use icariusos.Base.Ring.{window, window_pos, window-set_behind, window-set_passed}
use icariusos.Sched.Queue.{TaskQueue, enqueue, dequeue}

pub length-map {ℓ κ} :
    {A : Type ℓ} {B : Type κ} (f : A → B) (xs : List A) → length (map f xs) ≡ length xs
length-map f [] = refl
length-map f (x ∷ xs) = ap suc (length-map f xs)

map-snoc : (xs : List ℕ) (t : ℕ) → map some (xs ++ (t ∷ [])) ≡ map some xs ++ (some t ∷ [])
map-snoc [] t = refl
map-snoc (x ∷ xs) t = ap (λ r. some x ∷ r) (map-snoc xs t)

-- The queue holds these tasks, oldest first, from `tail` on.
pub record Holds (max : ℕ) (q : TaskQueue) (tasks : List ℕ) : Type 0 where
  pub storage : length q.slots ≡ max
  pub head_in : q.head < max
  pub tail_in : q.tail < max
  pub counted : q.count ≡ length tasks
  pub count_in : q.count ≤ max
  pub behind : q.head ≡ (q.tail + q.count) % max
  pub held : window none max q.slots q.tail q.count ≡ map some tasks

round_step : (max i n : ℕ) → ((i + n) % max + 1) % max ≡ (i + (n + 1)) % max
round_step max i n = rw mod-add-mod (ap (λ k. k % max) (omega arith))

-- A queue with a free slot takes a task in behind the others.
pub enqueue-Holds :
    (max : ℕ) (q : TaskQueue) (task : ℕ) (tasks : List ℕ)
    → Holds max q tasks
    → q.count < max
    → Holds max (enqueue max q task) (tasks ++ (task ∷ []))
unfolding enqueue
enqueue-Holds max q task tasks v room = record {
  storage = length-set q.slots q.head (some task) ∙ v.storage;
  head_in = omega arith;
  tail_in = v.tail_in;
  counted = omega (arith, v.counted, length-append tasks (task ∷ []));
  count_in = omega arith;
  behind = rw v.behind (round_step max q.tail q.count);
  held =
      rw (add-one q.count, map-snoc tasks task, ← v.held)
        (window-set_behind none max q.slots (some task) q.count q.tail q.head
          (omega (arith, v.storage)) v.tail_in room v.behind);
}

module _ (max : ℕ) (q : TaskQueue) (task : ℕ) (tasks : List ℕ)
    (v : Holds max q (task ∷ tasks)) where
  front :
      (get_or q.slots q.tail none ≡ some task)
      × (window none max q.slots ((q.tail + 1) % max) (q.count - 1) ≡ map some tasks)
  front = ground (arith, window_pos none max q.slots q.tail q.count)

  abbrev after : TaskQueue
  after = record q {
    slots = set q.slots q.tail none;
    tail = (q.tail + 1) % max;
    count = q.count - 1;
  }

  dequeue-cons : dequeue max q ≡ (some task, after)
  unfolding dequeue
  dequeue-cons = ground (arith, front)

  after-Holds : Holds max after tasks
  after-Holds = record {
    storage = length-set q.slots q.tail none ∙ v.storage;
    head_in = v.head_in;
    tail_in = omega arith;
    counted = omega arith;
    count_in = omega arith;
    behind = v.behind ∙ turn;
    held =
        window-set_passed none max q.slots none (q.count - 1) ((q.tail + 1) % max) 0 q.tail
          v.tail_in (omega arith) (ap (λ k. (q.tail + k) % max) refl)
        ∙ front.1;
  }
    where
      turn : (q.tail + q.count) % max ≡ ((q.tail + 1) % max + (q.count - 1)) % max
      turn = rw mod-add-mod (ap (λ k. k % max) (omega arith))

-- Taking a task out gives the oldest one and leaves the rest.
pub dequeue-Holds :
    (max : ℕ) (q : TaskQueue) (task : ℕ) (tasks : List ℕ)
    → Holds max q (task ∷ tasks)
    → ((dequeue max q).0 ≡ some task) × Holds max (dequeue max q).1 tasks
dequeue-Holds max q task tasks v =
    rw (dequeue-cons max q task tasks v) (refl, after-Holds max q task tasks v)

-- An empty queue gives no task and stays.
pub dequeue-empty : (max : ℕ) (q : TaskQueue) → Holds max q [] → dequeue max q ≡ (none, q)
unfolding dequeue
dequeue-empty max q v = ground arith
