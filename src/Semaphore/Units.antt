-- ===== src/Semaphore/Units.antt =====
-- Units of a semaphore are neither lost nor made up, and no wakeup is lost, over any interleaving of
-- its operations.
use mos.Base.{
  length-snoc, ℕ, ◌+◌, ◌-◌, ◌≤◌, ◌<◌, ◌≡◌, ◌⊎◌, none, some, List, [], ◌∷◌, if◌then◌else◌, arith,
  length,
}
use mos.Semaphore.{
  Semaphore, init, try_wait, register, try_registered, sleep, post, sees_waiters, wake_one,
}

-- The semaphore with what its users are at. `taken` and `posted` count the units; `awake` the waiters
-- that are not in the queue: registered and about to try, or woken and about to try again; `posting`
-- the posts that have added their unit and not yet looked for waiters, `waking` those that have seen some and
-- are about to wake one. A failed attempt and the sleep that follows it are one step: both are made
-- under `wait_lock`, which a wakeup needs too.
pub record Shared : Type 0 where
  pub sem : Semaphore
  pub taken : ℕ
  pub posted : ℕ
  pub awake : ℕ
  pub posting : ℕ
  pub waking : ℕ

-- A wakeup makes a waiter awake if there is one in the queue.
abbrev pub woke : List ℕ → ℕ → ℕ
woke [] awake = awake
woke (task ∷ tasks) awake = awake + 1

pub data Step : Shared → Shared → Type 0 where
  waits :
      (s : Shared) (s' : Semaphore)
      → try_wait s.sem ≡ some s'
      → Step s (record s { sem = s'; taken = s.taken + 1 })
  registers : (s : Shared) → Step s (record s { sem = register s.sem; awake = s.awake + 1 })
  takes :
      (s : Shared) (s' : Semaphore)
      → 0 < s.awake
      → try_registered s.sem ≡ some s'
      → Step s (record s { sem = s'; taken = s.taken + 1; awake = s.awake - 1 })
  sleeps :
      (s : Shared) (task : ℕ)
      → 0 < s.awake
      → try_registered s.sem ≡ none
      → Step s (record s { sem = sleep task s.sem; awake = s.awake - 1 })
  posts :
      (s : Shared)
      → Step s (record s { sem = post s.sem; posted = s.posted + 1; posting = s.posting + 1 })
  looks :
      (s : Shared)
      → 0 < s.posting
      → Step s (record s {
        posting = s.posting - 1;
        waking = (if sees_waiters s.sem then s.waking + 1 else s.waking);
      })
  wakes :
      (s : Shared)
      → 0 < s.waking
      → Step s (record s {
        sem = wake_one s.sem;
        awake = woke s.sem.wait_list s.awake;
        waking = s.waking - 1;
      })

pub data Reach (n : ℕ) : Shared → Type 0 where
  here :
      Reach n (record { sem = init n; taken = 0; posted = 0; awake = 0; posting = 0; waking = 0 })
  next : {s t : Shared} → Reach n s → Step s t → Reach n t

pub record IsBalanced (n : ℕ) (s : Shared) : Type 0 where
  pub units : s.sem.count + s.taken ≡ n + s.posted
  pub waiters : s.sem.waiters ≡ s.awake + length s.sem.wait_list
  pub served : (length s.sem.wait_list ≡ 0) ⊎ (s.sem.count ≤ s.awake + s.posting + s.waking)

wakes-IsBalanced :
    {n : ℕ} (s : Shared)
    → 0 < s.waking
    → IsBalanced n s
    → IsBalanced n (record s {
      sem = wake_one s.sem;
      awake = woke s.sem.wait_list s.awake;
      waking = s.waking - 1;
    })
unfolding wake_one
wakes-IsBalanced s h b = ground arith

Step-IsBalanced : {n : ℕ} {s t : Shared} → Step s t → IsBalanced n s → IsBalanced n t
unfolding try_wait register try_registered sleep post sees_waiters
Step-IsBalanced (waits s s' e) b = ground arith
Step-IsBalanced (registers s) b = ground arith
Step-IsBalanced (takes s s' h e) b = ground arith
Step-IsBalanced (sleeps s task h e) b = ground (arith, length-snoc task s.sem.wait_list)
Step-IsBalanced (posts s) b = ground arith
Step-IsBalanced (looks s h) b = ground arith
Step-IsBalanced (wakes s h) b = wakes-IsBalanced s h b

Reach-IsBalanced : {n : ℕ} {s : Shared} → Reach n s → IsBalanced n s
Reach-IsBalanced here = ground arith
Reach-IsBalanced (next r step) = Step-IsBalanced step (Reach-IsBalanced r)

-- After any interleaving of waits and posts of any number of tasks, the units that are left and those taken are
-- the initial ones and those posted, so no more are taken than there were.
pub Reach-units :
    {n : ℕ} {s : Shared}
    → Reach n s
    → (s.sem.count + s.taken ≡ n + s.posted) × (s.taken ≤ n + s.posted)
Reach-units r = let b = Reach-IsBalanced r in (b.units, omega (arith, b.units))

-- No wakeup is lost: in any state that is reached, if a unit is there while a task sleeps in the queue, then
-- a waiter is awake to take it, or a post is about to look for waiters or to wake one; and there are at
-- least as many of those as units.
pub Reach-served :
    {n : ℕ} {s : Shared}
    → Reach n s
    → 0 < length s.sem.wait_list
    → s.sem.count ≤ s.awake + s.posting + s.waking
Reach-served r asleep = let b = Reach-IsBalanced r in ground arith
