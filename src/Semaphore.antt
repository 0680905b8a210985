-- ===== src/Semaphore.antt =====
-- The semaphore of src/lib/impl/lock.c, `sem_t`. Each atomic access, and each pass under `wait_lock`, is
-- one operation; tasks in the wait queue are numbers. `count` is the part of the C `int` from 0 up.
pub mod Units
mod Tests
use mos.Base.{ℕ, ◌+◌, ◌-◌, Bool, not, Option, none, some, List, [], ◌∷◌, ◌++◌, ◌==◌, if◌then◌else◌}

pub record Semaphore : Type 0 where
  pub count : ℕ
  pub waiters : ℕ
  pub wait_list : List ℕ
  pub woken : List ℕ

-- `sem_init`.
abbrev pub init : ℕ → Semaphore
init n = record { count = n; waiters = 0; wait_list = []; woken = [] }

-- `sem_try_wait`; `none` if there is no unit.
unfoldable pub try_wait : Semaphore → Option Semaphore
try_wait s = if s.count == 0 then none else some (record s { count = s.count - 1 })

-- The slow path of `sem_wait`: the task is counted as a waiter, then tries and sleeps in turn.
unfoldable pub register : Semaphore → Semaphore
register s = record s { waiters = s.waiters + 1 }

unfoldable pub try_registered : Semaphore → Option Semaphore
try_registered s =
    if s.count == 0 then none else some (record s { count = s.count - 1; waiters = s.waiters - 1 })

unfoldable pub sleep : ℕ → Semaphore → Semaphore
sleep task s = record s { wait_list = s.wait_list ++ (task ∷ []) }

-- `sem_post`: the unit, whether waiters are seen, and then the wakeup of the first in the queue.
unfoldable pub post : Semaphore → Semaphore
post s = record s { count = s.count + 1 }

unfoldable pub sees_waiters : Semaphore → Bool
sees_waiters s = not (s.waiters == 0)

unfoldable pub wake_one : Semaphore → Semaphore
wake_one s = elim s.wait_list [
  | [] ↦ s
  | task ∷ tasks ↦ record s { wait_list = tasks; woken = task ∷ s.woken }
]
