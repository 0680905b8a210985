-- ===== src/Mutex/Nesting.antt =====
-- Mutual exclusion, nesting and wakeups of the recursive mutex, over any interleaving of its operations.
use mos.Base.{
  length-snoc, ℕ, ◌+◌, ◌-◌, ◌<◌, ◌≡◌, ◌⊎◌, true, false, none, some, List, [], ◌∷◌, ◌==◌,
  if◌then◌else◌, arith, length,
}
use mos.Mutex.{
  RMutex, init, try_acquire, register, try_registered, sleep, base_release, sees_waiters, wake_one,
  holds, deepen, own, unlock,
}

-- The mutex with what its users are at: `calls` is how many calls of `rmutex_lock` a task has not yet
-- released; `awake`, `releasing` and `waking` count the waiters outside the queue, the releases that have
-- not yet looked for waiters, and those that are about to wake one.
pub record Shared : Type 0 where
  pub mutex : RMutex
  pub calls : ℕ → ℕ
  pub awake : ℕ
  pub releasing : ℕ
  pub waking : ℕ

abbrev pub one_more : (ℕ → ℕ) → ℕ → ℕ → ℕ
one_more calls task t = if t == task then calls t + 1 else calls t

abbrev pub one_less : (ℕ → ℕ) → ℕ → ℕ → ℕ
one_less calls task t = if t == task then calls t - 1 else calls t

abbrev pub woke : List ℕ → ℕ → ℕ
woke [] awake = awake
woke (task ∷ tasks) awake = awake + 1

-- The name of the holder is written by the task that has the base, and read by others only to compare it
-- with their own, so acquiring and writing are one step.
pub data Step : Shared → Shared → Type 0 where
  deepens :
      (s : Shared) (task : ℕ)
      → 0 < task
      → holds task s.mutex ≡ true
      → Step s (record s { mutex = deepen s.mutex; calls = one_more s.calls task })
  acquires :
      (s : Shared) (task : ℕ) (m : RMutex)
      → 0 < task
      → holds task s.mutex ≡ false
      → try_acquire s.mutex ≡ some m
      → Step s (record s { mutex = own task m; calls = one_more s.calls task })
  registers : (s : Shared) → Step s (record s { mutex = register s.mutex; awake = s.awake + 1 })
  takes :
      (s : Shared) (task : ℕ) (m : RMutex)
      → 0 < task
      → 0 < s.awake
      → try_registered s.mutex ≡ some m
      → Step s (record s { mutex = own task m; calls = one_more s.calls task; awake = s.awake - 1 })
  sleeps :
      (s : Shared) (task : ℕ)
      → 0 < s.awake
      → try_registered s.mutex ≡ none
      → Step s (record s { mutex = sleep task s.mutex; awake = s.awake - 1 })
  unlocks :
      (s : Shared) (task : ℕ) (m : RMutex)
      → 0 < s.calls task
      → unlock task s.mutex ≡ some (false, m)
      → Step s (record s { mutex = m; calls = one_less s.calls task })
  releases :
      (s : Shared) (task : ℕ) (m : RMutex)
      → 0 < s.calls task
      → unlock task s.mutex ≡ some (true, m)
      → Step s (record s { mutex = m; calls = one_less s.calls task; releasing = s.releasing + 1 })
  looks :
      (s : Shared)
      → 0 < s.releasing
      → Step s (record s {
        releasing = s.releasing - 1;
        waking = (if sees_waiters s.mutex then s.waking + 1 else s.waking);
      })
  wakes :
      (s : Shared)
      → 0 < s.waking
      → Step s (record s {
        mutex = wake_one s.mutex;
        awake = woke s.mutex.wait_list s.awake;
        waking = s.waking - 1;
      })

pub data Reach : Shared → Type 0 where
  here : Reach (record { mutex = init; calls = λ t. 0; awake = 0; releasing = 0; waking = 0 })
  next : {s t : Shared} → Reach s → Step s t → Reach t

-- The calls of each task are those that the mutex records.
abbrev pub IsNested : Shared → Type 0
IsNested s =
    (((s.mutex.lock ≡ 0) × (s.mutex.holder ≡ 0) × (s.mutex.depth ≡ 0))
      ⊎ ((s.mutex.lock ≡ 1) × (0 < s.mutex.holder) × (0 < s.mutex.depth)))
    × ((t : ℕ) → s.calls t ≡ (if t == s.mutex.holder then s.mutex.depth else 0))

pub record IsServed (s : Shared) : Type 0 where
  pub waiters : s.mutex.waiters ≡ s.awake + length s.mutex.wait_list
  pub served :
      (length s.mutex.wait_list ≡ 0) ⊎ (0 < s.mutex.lock) ⊎ (0 < s.awake + s.releasing + s.waking)

Step-IsServed : {s t : Shared} → Step s t → IsServed s → IsServed t
unfolding try_acquire register try_registered sleep base_release sees_waiters wake_one holds deepen
    own unlock
Step-IsServed (deepens s task pos h) b = ground arith
Step-IsServed (acquires s task m pos h e) b = ground arith
Step-IsServed (registers s) b = ground arith
Step-IsServed (takes s task m pos h e) b = ground arith
Step-IsServed (sleeps s task h e) b = ground (arith, length-snoc task s.mutex.wait_list)
Step-IsServed (unlocks s task m h e) b = ground arith
Step-IsServed (releases s task m h e) b = ground arith
Step-IsServed (looks s h) b = ground arith
Step-IsServed (wakes s h) b = ground arith

Reach-IsServed : {s : Shared} → Reach s → IsServed s
Reach-IsServed here = ground arith
Reach-IsServed (next r step) = Step-IsServed step (Reach-IsServed r)

-- No wakeup is lost: in any state that is reached, if a task sleeps in the queue while the mutex is free, then a
-- waiter is awake to take it, or a release is about to look for waiters or to wake one.
pub Reach-awake :
    {s : Shared}
    → Reach s
    → 0 < length s.mutex.wait_list
    → s.mutex.lock ≡ 0
    → 0 < s.awake + s.releasing + s.waking
Reach-awake r asleep free = let b = Reach-IsServed r in ground arith
