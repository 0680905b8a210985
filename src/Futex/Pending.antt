-- ===== src/Futex/Pending.antt =====
-- Where the waiter of a task is.
use mos.Base.{
  ℕ, zero, suc, ◌+◌, ◌-◌, ◌≡◌, ◌≤◌, Bool, true, false, List, [], ◌∷◌, ◌++◌, ◌==◌, if◌then◌else◌,
  arith, refl, inl, inr, Bool-cases, ap, ◌∙◌, ltb,
}
use mos.Sched.{Timer, put_to_wait, timer_arm, timer_disarm, disarm, deadline}
use mos.Sched.Timers.{timers_of, timers_of-disarm, timers_of-insert_timer}
use mos.Sched.Processors.{put_to_ready_unsafe-keeps}
use mos.Futex.{
  Key, Waiter, Futex, matches, wake_task, wake_loop, wake_mask, remove, remove_task, enqueue,
  dequeue,
}

-- How many waiters a task has in the list.
unfoldable pub waiters_of : ℕ → List Waiter → ℕ
waiters_of t [] = 0
waiters_of t (w ∷ ws) = (if w.task == t then 1 else 0) + waiters_of t ws

-- A task that waits: its waiter is in the list until it is woken, and it has a timer at most.
pub record IsPending (t : ℕ) (s : Futex) : Type 0 where
  pub waiter : waiters_of t s.waiters ≡ (if s.woken t then 0 else 1)
  pub timer : timers_of t s.sched.timer_queue ≤ 1

waiters_of-append :
    (t : ℕ) (xs : List Waiter) (w : Waiter)
    → waiters_of t (xs ++ (w ∷ [])) ≡ waiters_of t xs + (if w.task == t then 1 else 0)
unfolding waiters_of
waiters_of-append t [] w = omega arith
waiters_of-append t (x ∷ xs) w = let rest = waiters_of-append t xs w in omega arith

waiters_of-remove : (t : ℕ) (xs : List Waiter) → waiters_of t (remove t xs) ≡ waiters_of t xs - 1
unfolding waiters_of remove
waiters_of-remove t [] = refl
waiters_of-remove t (x ∷ xs) =
    let rest = waiters_of-remove t xs in
    elim (Bool-cases (x.task == t)) [
      | inl h ↦ rw h (omega arith)
      | inr h ↦ rw h (ground (arith, h))
    ]

wake_task-timers :
    (t u : ℕ) (s : Futex)
    → timers_of t (wake_task u s).sched.timer_queue ≡ timers_of t s.sched.timer_queue
unfolding wake_task
wake_task-timers t u s =
    let (cur, timers, marks) = put_to_ready_unsafe-keeps u s.sched in ap (timers_of t) timers

wake_loop-waiters_of :
    (t k : ℕ) (key : Key) (bitset max_wake : ℕ) (ws : List Waiter) (s : Futex)
    → waiters_of t ws + k ≡ (if s.woken t then 0 else 1)
    → (waiters_of t (wake_loop key bitset max_wake ws s).1 + k
        ≡ (if (wake_loop key bitset max_wake ws s).2.woken t then 0 else 1))
      × (timers_of t (wake_loop key bitset max_wake ws s).2.sched.timer_queue
          ≡ timers_of t s.sched.timer_queue)
unfolding wake_loop wake_task waiters_of
wake_loop-waiters_of t k key bitset zero [] s h = (h, refl)
wake_loop-waiters_of t k key bitset (suc max_wake) [] s h = (h, refl)
wake_loop-waiters_of t k key bitset zero (w ∷ ws) s h = (h, refl)
wake_loop-waiters_of t k key bitset (suc max_wake) (w ∷ ws) s h =
    elim (Bool-cases (matches key bitset w)) [
      | inl hit ↦
          let (a, b) =
            wake_loop-waiters_of t k key bitset max_wake ws (wake_task w.task s) (woken h) in
          rw (wake_loop, hit) (a, b ∙ wake_task-timers t w.task s)
      | inr miss ↦
          let (a, b) =
            wake_loop-waiters_of t (k + (if w.task == t then 1 else 0)) key bitset (suc max_wake) ws
              s (omega arith) in
          rw (wake_loop, miss) (omega arith, b)
    ]
  where
    woken :
        (if w.task == t then 1 else 0) + waiters_of t ws + k ≡ (if s.woken t then 0 else 1)
        → waiters_of t ws + k ≡ (if (wake_task w.task s).woken t then 0 else 1)
    woken h = ground arith

-- A wake by another task keeps a task that waits pending, or woken and out of the list.
pub wake_mask-IsPending :
    (t : ℕ) (key : Key) (bitset max_wake : ℕ) (s : Futex)
    → IsPending t s
    → IsPending t (wake_mask key max_wake bitset s).1
unfolding wake_mask
wake_mask-IsPending t key bitset max_wake s p =
    let q = p.waiter in
    let (a, b) = wake_loop-waiters_of t 0 key bitset max_wake s.waiters s (omega arith) in
    let l = p.timer in record { waiter = omega arith; timer = omega arith }

pub enqueue-IsPending :
    (w : Waiter) (now ms : ℕ) (s : Futex)
    → waiters_of w.task s.waiters ≡ 0
    → timers_of w.task s.sched.timer_queue ≡ 0
    → IsPending w.task (enqueue w now ms s)
unfolding enqueue waiters_of put_to_wait timer_arm
enqueue-IsPending w now ms s e f = record {
  waiter = let a = waiters_of-append w.task s.waiters w in ground arith;
  timer = armed (ltb 0 ms);
}
  where
    armed :
        (b : Bool)
        → timers_of w.task (if b then timer_arm w.task now ms s.sched else s.sched).timer_queue ≤ 1
    armed true =
        let x : Timer = record { task = w.task; due = deadline now ms } in
        let n = timers_of-insert_timer w.task x (disarm w.task s.sched.timer_queue) in
        let d = timers_of-disarm w.task w.task s.sched.timer_queue in ground arith
    armed false = omega arith

pub dequeue-gone :
    (t : ℕ) (s : Futex)
    → IsPending t s
    → (waiters_of t (dequeue t s).waiters ≡ 0) × (timers_of t (dequeue t s).sched.timer_queue ≡ 0)
unfolding dequeue timer_disarm
dequeue-gone t s p =
    let r = waiters_of-remove t s.waiters in
    let d = timers_of-disarm t t s.sched.timer_queue in
    let q = p.waiter in let l = p.timer in (ground arith, ground arith)

-- `ps_futex_remove_task_unsafe` leaves no waiter of the task, and the waiters of the others.
waiters_of-remove_task :
    (u t : ℕ) (ws : List Waiter)
    → waiters_of u (remove_task t ws) ≡ (if u == t then 0 else waiters_of u ws)
unfolding waiters_of remove_task
waiters_of-remove_task u t [] = ground arith
waiters_of-remove_task u t (w ∷ ws) =
    let rest = waiters_of-remove_task u t ws in
    elim (Bool-cases (w.task == t)) [ inl h ↦ rw h (ground arith) | inr h ↦ rw h (ground arith) ]
