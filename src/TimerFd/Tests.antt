-- ===== src/TimerFd/Tests.antt =====
-- Runs of a periodic timer that was due at 5 ms every 2 ms, read at 10 ms.
use mos.Base.{◌+◌, ◌*◌, ◌-◌, ◌≤◌, ◌<◌, ◌≡◌, refl, ◌⊎◌, false, arith, min}
use mos.Base.{List, [], ◌∷◌}
use mos.TimerFd.Calls.{new_timer}
use mos.TimerFd.{Clock, Timer, now_of, update, expirations, next_due, uint64_max}
use mos.TimerFd.Expire.{IsSettled, update-IsSettled, update_exact}

abbrev clock : Clock
clock = record { now_us = 10000; wall_us = 70000; wall_generation = 1 }

abbrev periodic : Timer
periodic = record {
  due = 5000000;
  interval = 2000000;
  ticks = 0;
  generation = 0;
  clockid = 1;
  wall = false;
  cancel_on_set = false;
  canceled = false;
  notified = 0;
}

-- Due at 5, 7 and 9 ms, and next at 11 ms.
update-periodic :
    update clock periodic ≡ record periodic { due = 11000000; ticks = 3; notified = 1 }
unfolding update expirations next_due
update-periodic = refl

update_exact_example :
    let n = expirations periodic (now_of clock false) in
    (5000000 + (n - 1) * 2000000 ≤ now_of clock false)
    × (now_of clock false < 5000000 + n * 2000000)
    × ((update clock periodic).ticks ≡ min uint64_max (0 + n))
    × (((update clock periodic).due ≡ 5000000 + n * 2000000)
        ⊎ (((update clock periodic).due ≡ 0) × (uint64_max < 5000000 + n * 2000000)))
update_exact_example = update_exact clock periodic refl (omega arith) (omega arith) (omega arith)

update-IsSettled_example : IsSettled clock (update clock periodic)
update-IsSettled_example = update-IsSettled clock periodic

abbrev timers : List Timer
timers = periodic ∷ new_timer 0 ∷ []
