-- ===== src/Futex/Tests.antt =====
-- Runs of the futexes.
use mos.Base.{ℕ, ◌≡◌, false, [], ◌∷◌, some, refl}
use mos.Sched.Tests.{two_tasks}
use mos.Futex.{Key, Waiter, Futex, Round, wake_loop, wake_mask, wait_loop}
use mos.Futex.Wake.{IsWoken, wake_mask-IsWoken}
use mos.Futex.Wait.{kept, kept_end, wait_loop-gone}
use mos.Futex.Pending.{waiters_of, wake_mask-IsPending}
use mos.Sched.Timers.{timers_of}

abbrev word : Key
word = record { kind = 0; identity = 5; object = 0; offset = 4096 }

abbrev waiter : ℕ → Waiter
waiter t = record { task = t; key = word; bitset = 1 }

-- The tasks 2 and 3 wait.
abbrev two_waiters : Futex
two_waiters = record { waiters = waiter 2 ∷ waiter 3 ∷ []; woken = λ t. false; sched = two_tasks }

-- While the task sleeps, three waiters are woken.
abbrev woken_round : Round
woken_round = record {
  now = 10;
  now_arm = 10;
  value = 7;
  signal = false;
  others = λ s. (wake_mask word 3 1 s).1;
  signal_after = false;
  now_after = 12;
}

wake_mask-IsWoken_example :
    IsWoken word 1 1 two_waiters.waiters two_waiters
      (wake_mask word 1 1 two_waiters).0
      (wake_mask word 1 1 two_waiters).1.waiters
      (wake_mask word 1 1 two_waiters).1
wake_mask-IsWoken_example = wake_mask-IsWoken word 1 1 two_waiters

wait_loop-gone_example :
    (waiters_of 1 (wait_loop 7 (some 20) (waiter 1) (woken_round ∷ []) two_waiters).1.waiters ≡ 0)
    × (timers_of 1
          (wait_loop 7 (some 20) (waiter 1) (woken_round ∷ []) two_waiters).1.sched.timer_queue
        ≡ 0)
unfolding waiters_of timers_of
wait_loop-gone_example =
    wait_loop-gone 7 (some 20) (waiter 1) (woken_round ∷ []) two_waiters refl refl
      (kept (wake_mask-IsPending 1 word 1 3) kept_end)

first_alone : (wake_mask word 1 1 two_waiters).1.waiters ≡ waiter 3 ∷ []
unfolding wake_mask wake_loop
first_alone = refl
