-- ===== src/Semaphore/Tests.antt =====
-- A semaphore of no units: task 7 sleeps, and another posts.
use mos.Base.{◌+◌, ◌≤◌, refl, [], ◌∷◌, arith}
use mos.Semaphore.{register, try_registered, sleep, post}
use mos.Semaphore.Units.{Shared, Reach, here, next, registers, sleeps, posts, Reach-served}

abbrev posted_once : Shared
posted_once = record {
  sem = record { count = 1; waiters = 1; wait_list = 7 ∷ []; woken = [] };
  taken = 0;
  posted = 1;
  awake = 0;
  posting = 1;
  waking = 0;
}

posted_once-Reach : Reach 0 posted_once
unfolding register try_registered sleep post
posted_once-Reach = next (next (next here (registers _)) (sleeps _ 7 (omega arith) refl)) (posts _)

Reach-served_example :
    posted_once.sem.count ≤ posted_once.awake + posted_once.posting + posted_once.waking
Reach-served_example = Reach-served posted_once-Reach (omega arith)
