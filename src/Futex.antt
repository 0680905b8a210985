-- ===== src/Futex.antt =====
-- src/ps/impl/ps_futex.c: the waiters of all futexes in one list, waking those of a key, and the wait of `futex_execute`
-- over the scheduler. The identity of a key is a number. Each task has one waiter at a time, on its stack, so
-- `woken` is by task. `ps_lock` makes each part of a call one step.
pub mod Wake
pub mod Pending
pub mod Wait
mod Tests
use mos.Base.{
  ℕ, zero, suc, ◌+◌, ◌-◌, ◌%◌, Bool, true, false, not, ◌&&◌, List, [], ◌∷◌, ◌++◌, Option, none,
  some, ltb, leb, ◌==◌, if◌then◌else◌, put, bit_and, u32_mod,
}
use mos.Sched.{Sched, Task, put_to_ready_unsafe, put_to_wait, timer_arm, timer_disarm}

pub record Key : Type 0 where
  pub kind : ℕ
  pub identity : ℕ
  pub object : ℕ
  pub offset : ℕ

pub record Waiter : Type 0 where
  pub task : ℕ
  pub key : Key
  pub bitset : ℕ

pub record Futex : Type 0 where
  pub waiters : List Waiter
  pub woken : ℕ → Bool
  pub sched : Sched

abbrev pub keys_equal : Key → Key → Bool
keys_equal a b =
    (a.kind == b.kind)
    && (a.identity == b.identity)
    && (a.object == b.object)
    && (a.offset == b.offset)

abbrev pub matches : Key → ℕ → Waiter → Bool
matches key bitset w = keys_equal w.key key && not (bit_and w.bitset bitset == 0)

-- One waiter is woken, apart from its place in the list.
unfoldable pub wake_task : ℕ → Futex → Futex
wake_task t s = record s { woken = put s.woken t true; sched = put_to_ready_unsafe t s.sched }

-- The loop of `futex_wake_mask_unsafe`: the count, the waiters that are left, and the state.
unfoldable pub wake_loop : Key → ℕ → ℕ → List Waiter → Futex → ℕ × List Waiter × Futex
wake_loop key bitset max_wake [] s = (0, [], s)
wake_loop key bitset zero (w ∷ ws) s = (0, w ∷ ws, s)
wake_loop key bitset (suc max_wake) (w ∷ ws) s =
    let hit = matches key bitset w in
    let (n, left, s') =
      wake_loop key bitset (if hit then max_wake else suc max_wake) ws
        (if hit then wake_task w.task s else s) in
    (if hit then n + 1 else n, if hit then left else w ∷ left, s')

unfoldable pub wake_mask : Key → ℕ → ℕ → Futex → ℕ × Futex
wake_mask key max_wake bitset s =
    let (n, left, s') = wake_loop key bitset max_wake s.waiters s in
    (n, record s' { waiters = left })

-- `list_remove_entry` of a task's waiter.
unfoldable pub remove : ℕ → List Waiter → List Waiter
remove t [] = []
remove t (w ∷ ws) = if w.task == t then ws else w ∷ remove t ws

-- `ps_futex_remove_task_unsafe`: every waiter of the task.
unfoldable pub remove_task : ℕ → List Waiter → List Waiter
remove_task t [] = []
remove_task t (w ∷ ws) = let rest = remove_task t ws in if w.task == t then rest else w ∷ rest

-- What one sleep meets: the times before and after, the futex word and the signals when the lock is held, what other
-- tasks do while the task sleeps, and the signals after it.
pub record Round : Type 0 where
  pub now : ℕ
  pub now_arm : ℕ
  pub value : ℕ
  pub signal : Bool
  pub others : Futex → Futex
  pub signal_after : Bool
  pub now_after : ℕ

pub data Result : Type 0 where
  woken_up : Result
  again : Result
  interrupted : Result
  timed_out : Result
  asleep : Result

abbrev pub is_past : Option ℕ → ℕ → Bool
is_past none now = false
is_past (some deadline) now = leb deadline now

abbrev pub timeout_ms : Option ℕ → ℕ → ℕ
timeout_ms none now = 0
timeout_ms (some deadline) now =
    if ltb (u32_mod - 1) (deadline - now) then u32_mod - 1 else deadline - now

-- The waiter goes to the end of the list, and its task to the wait queue.
unfoldable pub enqueue : Waiter → ℕ → ℕ → Futex → Futex
enqueue w now ms s =
    let armed = if ltb 0 ms then timer_arm w.task now ms s.sched else s.sched in
    let waits = put_to_wait w.task 0 armed in
    record s {
      waiters = s.waiters ++ (w ∷ []);
      woken = put s.woken w.task false;
      sched = record waits {
        tasks = put waits.tasks w.task (record (waits.tasks w.task) { interruptible = true });
      };
    }

-- After the sleep.
unfoldable pub dequeue : ℕ → Futex → Futex
dequeue t s = record s {
  waiters = if s.woken t then s.waiters else remove t s.waiters;
  sched = timer_disarm t s.sched;
}

-- The loop of `futex_execute` from `wait_again` on, for a futex word that should be `val`; it is asleep when the
-- rounds run out.
unfoldable pub wait_loop : ℕ → Option ℕ → Waiter → List Round → Futex → Result × Futex
wait_loop val deadline w [] s = (asleep, s)
wait_loop val deadline w (r ∷ rs) s =
    let slept = r.others (enqueue w r.now_arm (timeout_ms deadline r.now) s) in
    let after = dequeue w.task slept in
    let rest = wait_loop val deadline w rs after in
    if is_past deadline r.now
    then (timed_out, s)
    else if not (r.value == val)
    then (again, s)
    else if r.signal
    then (interrupted, s)
    else if slept.woken w.task
    then (woken_up, after)
    else if r.signal_after
    then (interrupted, after)
    else if is_past deadline r.now_after
    then (timed_out, after)
    else rest
