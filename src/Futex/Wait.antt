-- ===== src/Futex/Wait.antt =====
-- What a task that waits for a futex leaves behind, and that a wake reaches it.
use mos.Base.{ℕ, ◌≡◌, List, [], ◌∷◌, ◌==◌, inl, inr, Bool-cases, Option}
use mos.Sched.{deadline}
use mos.Sched.Timers.{timers_of}
use mos.Futex.{Waiter, Futex, Round, enqueue, dequeue, wait_loop, is_past, timeout_ms}
use mos.Futex.Pending.{waiters_of, IsPending, enqueue-IsPending, dequeue-gone}

-- What other tasks do in each round keeps the task pending, or wakes it.
pub data Keeps (t : ℕ) : List Round → Type 0 where
  kept_end : Keeps t []
  kept :
      {r : Round} {rs : List Round}
      → ((s : Futex) → IsPending t s → IsPending t (r.others s))
      → Keeps t rs
      → Keeps t (r ∷ rs)

-- However the wait of a futex ends, if what other tasks do while it sleeps leaves the waiter of the task in the list
-- until it is woken and sets no timer of it: the list holds no waiter of the task any more, which would
-- point into its stack, and the task has no timer.
pub wait_loop-gone :
    (val : ℕ) (deadline : Option ℕ) (w : Waiter) (rs : List Round) (s : Futex)
    → waiters_of w.task s.waiters ≡ 0
    → timers_of w.task s.sched.timer_queue ≡ 0
    → Keeps w.task rs
    → (waiters_of w.task (wait_loop val deadline w rs s).1.waiters ≡ 0)
      × (timers_of w.task (wait_loop val deadline w rs s).1.sched.timer_queue ≡ 0)
unfolding wait_loop
wait_loop-gone val deadline w [] s e f k = (e, f)
wait_loop-gone val deadline w (r ∷ rs) s e f (kept keep more) =
    let p = keep _ (enqueue-IsPending w r.now_arm (timeout_ms deadline r.now) s e f) in
    let slept = r.others (enqueue w r.now_arm (timeout_ms deadline r.now) s) in
    let (a, b) = dequeue-gone w.task slept p in
    let rest = wait_loop-gone val deadline w rs (dequeue w.task slept) a b more in
    elim (Bool-cases (is_past deadline r.now)) [
      | inl h ↦ rw (wait_loop, h) (e, f)
      | inr h ↦ elim (Bool-cases (r.value == val)) [
        | inr g ↦ rw (wait_loop, h, g) (e, f)
        | inl g ↦ elim (Bool-cases r.signal) [
          | inl i ↦ rw (wait_loop, h, g, i) (e, f)
          | inr i ↦ elim (Bool-cases (slept.woken w.task)) [
            | inl j ↦ rw (wait_loop, h, g, i, j) (a, b)
            | inr j ↦ elim (Bool-cases r.signal_after) [
              | inl l ↦ rw (wait_loop, h, g, i, j, l) (a, b)
              | inr l ↦ elim (Bool-cases (is_past deadline r.now_after)) [
                | inl m ↦ rw (wait_loop, h, g, i, j, l, m) (a, b)
                | inr m ↦ rw (wait_loop, h, g, i, j, l, m) rest
              ]
            ]
          ]
        ]
      ]
    ]
