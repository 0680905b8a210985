-- ===== src/Sched/Tests.antt =====
-- Runs of the scheduler.
use mos.Base.{
  ℕ, ◌+◌, ◌-◌, ◌≡◌, true, false, not, ◌&&◌, ◌||◌, [], ◌∷◌, ◌==◌, if◌then◌else◌, leb, arith, refl,
  occurrences, some,
}
use mos.Sched.{
  task_sched, ready, waiting, is_dying, is_ready, Sched, first_available, put_to_ready_unsafe,
  put_to_wait, level_loop, get_next_task, fire_timers, prepare_timed_wait, deadline,
}
use mos.Sched.Queued.{runs, blocked}
use mos.Sched.Clock.{prepare_timed_wait-IsFired}
use mos.Sched.Timers.{IsTimed, timers_of, sorted_from, due_for}
use mos.Sched.Processors.{IsSound}
use mos.Sched.Choice.{IsHighest, get_next_task-IsHighest}
use mos.Sched.Steps.{here, next, woken, waits, Reach-apart}
use mos.Sched.Total.{task_sched-some}
use mos.Sched.Turn.{arrives, leaves, picks, is_served, is_served-ahead, ahead, picks_in, stays}

-- The tasks 1 and 2 are ready; each processor runs a task of its own.
abbrev pub two_tasks : Sched
two_tasks = record {
  tasks = λ t. record {
    status = ready;
    priority = 1;
    listed = (t == 1) || (t == 2);
    interruptible = false;
    terminate_requested = false;
    vm_lock_depth = 0;
    on_cpu = t - 9;
    affinity_mask = 0;
    param = 0;
  };
  current = λ cpu. cpu + 10;
  ready_queue = λ k. if k == 1 then 1 ∷ 2 ∷ [] else [];
  wait_queue = λ w. [];
  timer_queue = record { task = 2; due = 30 } ∷ [];
}

two_timers : IsTimed two_tasks.timer_queue
unfolding sorted_from timers_of
two_timers = record { sorted = refl; single = λ t. ground arith }

two_tasks-IsSound : IsSound two_tasks (λ t. 0)
unfolding occurrences runs blocked
two_tasks-IsSound = record {
  queued = record { in_ready = λ k t. ground arith; in_wait = λ w t. ground arith };
  timed = two_timers;
  exclusive = λ cpu t. ground arith;
}

Reach-apart_example :
    ((cpu other : ℕ)
      → (put_to_wait 1 0 (put_to_ready_unsafe 2 two_tasks)).current cpu
        ≡ (put_to_wait 1 0 (put_to_ready_unsafe 2 two_tasks)).current other
      → cpu ≡ other)
    × ((k t : ℕ)
        → occurrences t ((put_to_wait 1 0 (put_to_ready_unsafe 2 two_tasks)).ready_queue k) ≡ (
            if ((put_to_wait 1 0 (put_to_ready_unsafe 2 two_tasks)).tasks t).listed
              && runs ((put_to_wait 1 0 (put_to_ready_unsafe 2 two_tasks)).tasks t).status
              && (((put_to_wait 1 0 (put_to_ready_unsafe 2 two_tasks)).tasks t).priority == k)
            then 1
            else 0))
Reach-apart_example =
    Reach-apart (next (next here (woken 2 two_tasks)) (waits 1 0 (put_to_ready_unsafe 2 two_tasks)))
      (λ t. 0, two_tasks-IsSound)

get_next_task-IsHighest_example : IsHighest 0 (get_next_task 0 40 two_tasks)
get_next_task-IsHighest_example = get_next_task-IsHighest 0 40 two_tasks (λ t. 0) two_tasks-IsSound

prepare_timed_wait-IsFired_example :
    ((fire_timers 40 (prepare_timed_wait 1 5 10 two_tasks)).tasks 2).status ≡ (
      if 2 == 1
      then (if leb (deadline 5 10) 40 then ready else waiting)
      else if due_for 2 40 two_tasks.timer_queue && not (is_dying (two_tasks.tasks 2).status)
      then ready
      else (two_tasks.tasks 2).status)
prepare_timed_wait-IsFired_example =
    prepare_timed_wait-IsFired 1 5 10 40 two_tasks two_timers (omega arith) 2

is_served-ahead_example :
    is_served 2 (picks (λ t. true) ∷ arrives 3 ∷ leaves 1 ∷ picks (λ t. t == 2) ∷ []) (1 ∷ 2 ∷ [])
    ≡ true
unfolding occurrences ahead picks_in stays
is_served-ahead_example =
    is_served-ahead 2 (picks (λ t. true) ∷ arrives 3 ∷ leaves 1 ∷ picks (λ t. t == 2) ∷ [])
      (1 ∷ 2 ∷ []) (omega arith) refl (omega arith)

first_runs : (get_next_task 0 40 two_tasks).0 ≡ some 1
unfolding get_next_task level_loop first_available is_ready
first_runs = refl

task_sched-some_example : (s' : Sched) × (task_sched 0 40 two_tasks ≡ some s')
unfolding runs is_ready
task_sched-some_example =
    task_sched-some 0 1 40 two_tasks (λ t. 0) two_tasks-IsSound
      (record { queued = refl; level = omega arith; available = refl })
