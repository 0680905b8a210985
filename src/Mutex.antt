-- ===== src/Mutex.antt =====
-- The sleeping locks of src/lib/impl/lock.c: `lock_base` and the recursive mutex `rmutex_t` over it. Each atomic
-- access, and each pass under `wait_lock`, is one operation; tasks are their `psid`, never 0.
pub mod Nesting
mod Tests
use mos.Base.{
  ℕ, ◌+◌, ◌-◌, Bool, true, false, not, Option, none, some, List, [], ◌∷◌, ◌++◌, ltb, ◌==◌,
  if◌then◌else◌,
}

pub record RMutex : Type 0 where
  pub lock : ℕ
  pub waiters : ℕ
  pub wait_list : List ℕ
  pub woken : List ℕ
  pub holder : ℕ
  pub depth : ℕ

-- `rmutex_init`, with `lock_init` of its base.
abbrev pub init : RMutex
init = record { lock = 0; waiters = 0; wait_list = []; woken = []; holder = 0; depth = 0 }

-- `lock_try_acquire`; `none` if the lock is taken.
unfoldable pub try_acquire : RMutex → Option RMutex
try_acquire m = if m.lock == 0 then some (record m { lock = 1 }) else none

-- The slow path of `lock_base_acquire`.
unfoldable pub register : RMutex → RMutex
register m = record m { waiters = m.waiters + 1 }

unfoldable pub try_registered : RMutex → Option RMutex
try_registered m =
    if m.lock == 0 then some (record m { lock = 1; waiters = m.waiters - 1 }) else none

unfoldable pub sleep : ℕ → RMutex → RMutex
sleep task m = record m { wait_list = m.wait_list ++ (task ∷ []) }

-- `lock_base_release`: the store, whether waiters are seen, and then the wakeup of the first in the queue.
unfoldable pub base_release : RMutex → RMutex
base_release m = record m { lock = 0 }

unfoldable pub sees_waiters : RMutex → Bool
sees_waiters m = not (m.waiters == 0)

unfoldable pub wake_one : RMutex → RMutex
wake_one m = elim m.wait_list [
  | [] ↦ m
  | task ∷ tasks ↦ record m { wait_list = tasks; woken = task ∷ m.woken }
]

-- `rmutex_lock`: the task that holds it goes deeper; another acquires the base, and then writes its name.
unfoldable pub holds : ℕ → RMutex → Bool
holds task m = m.holder == task

unfoldable pub deepen : RMutex → RMutex
deepen m = record m { depth = m.depth + 1 }

unfoldable pub own : ℕ → RMutex → RMutex
own task m = record m { holder = task; depth = 1 }

-- `rmutex_unlock`; `none` is DIE, for a task that does not hold it. The outermost release writes the holder and
-- then releases the base.
unfoldable pub unlock : ℕ → RMutex → Option (Bool × RMutex)
unfolding base_release
unlock task m =
    let left = record m { depth = m.depth - 1 } in
    if not (m.holder == task)
    then none
    else if ltb 0 left.depth
    then some (false, left)
    else some (true, base_release (record left { holder = 0 }))
