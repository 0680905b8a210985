-- ===== src/Sched/Choice.antt =====
-- The choice of the next task.
use mos.Base.{
  ℕ, ◌≡◌, ◌<◌, Bool, true, false, ◌&&◌, if◌then◌else◌, arith, refl, inl, inr, Option, none, some,
  Option-cases, ltb,
}
use mos.Sched.{
  has_ready_task, ready_loop, take_turn, Sched, fire_timers, task_available, level_loop,
  first_available, get_next_task,
}
use mos.Sched.Queued.{runs}
use mos.Sched.Pick.{IsChoice, level_loop-IsChoice, first_available-IsIn, rotated-IsQueued}
use mos.Sched.Processors.{IsSound, fire_timers-IsSound}

-- What the choice of the next task gives: a task in the ready queues that is available, and no available one of a
-- higher priority; or nothing, and no task in the ready queues is available.
abbrev pub IsHighest : ℕ → Option ℕ × Sched → Type 0
IsHighest cpu (none, s) =
    (u : ℕ)
    → (s.tasks u).listed && runs (s.tasks u).status ≡ true
    → (s.tasks u).priority < 3
    → task_available cpu s u ≡ false
IsHighest cpu (some t, s) =
    ((s.tasks t).listed && runs (s.tasks t).status ≡ true)
    × (task_available cpu s t ≡ true)
    × ((u : ℕ)
        → (s.tasks u).listed && runs (s.tasks u).status ≡ true
        → (s.tasks t).priority < (s.tasks u).priority
        → (s.tasks u).priority < 3
        → task_available cpu s u ≡ false)

choice-IsHighest :
    (cpu : ℕ) (s : Sched) (home : ℕ → ℕ) (r : Option (ℕ × ℕ))
    → IsSound s home
    → IsChoice (task_available cpu s) s.ready_queue 3 r
    → IsHighest cpu (take_turn s r)
choice-IsHighest cpu s home none i all = λ u lu pu.
    let o = i.queued.in_ready (s.tasks u).priority u in all (s.tasks u).priority u pu (ground arith)
choice-IsHighest cpu s home (some (t, k)) i (low, first, above) =
    let (ok, there) = first_available-IsIn (task_available cpu s) (s.ready_queue k) t first in
    let o = i.queued.in_ready k t in
    (
      ground arith,
      ok,
      λ u lu higher pu.
          let p = i.queued.in_ready (s.tasks u).priority u in
          let e : (s.tasks t).priority ≡ k = ground arith in
          above (s.tasks u).priority u (omega arith) pu (ground arith),
    )

choice-IsSound :
    (cpu : ℕ) (s : Sched) (home : ℕ → ℕ) (r : Option (ℕ × ℕ))
    → IsSound s home
    → IsChoice (task_available cpu s) s.ready_queue 3 r
    → IsSound (take_turn s r).1 home
choice-IsSound cpu s home none i all = i
choice-IsSound cpu s home (some (t, k)) i (low, first, above) =
    let (ok, there) = first_available-IsIn (task_available cpu s) (s.ready_queue k) t first in
    record {
      queued = rotated-IsQueued t k s home there i.queued;
      timed = i.timed;
      exclusive = i.exclusive;
    }

fired_if-IsSound :
    (b : Bool) (now : ℕ) (s : Sched) (home : ℕ → ℕ)
    → IsSound s home
    → IsSound (if b then fire_timers now s else s) home
fired_if-IsSound true now s home i = fire_timers-IsSound now s home i
fired_if-IsSound false now s home i = i

pub get_next_task-IsSound :
    (cpu now : ℕ) (s : Sched) (home : ℕ → ℕ)
    → IsSound s home
    → IsSound (get_next_task cpu now s).1 home × IsHighest cpu (get_next_task cpu now s)
unfolding get_next_task
get_next_task-IsSound cpu now s home i =
    let s' = if (s.tasks (s.current cpu)).listed then fire_timers now s else s in
    let i' = fired_if-IsSound (s.tasks (s.current cpu)).listed now s home i in
    let c = level_loop-IsChoice 3 (task_available cpu s') s'.ready_queue in
    (choice-IsSound cpu s' home _ i' c, choice-IsHighest cpu s' home _ i' c)

-- `ps_get_next_task_unsafe` in a sound state gives a task of the ready queues that is available to the processor, while
-- none of a higher level is; or nothing, if no task in the ready queues is available. Timers have been
-- fired before, and the states are those after that.
pub get_next_task-IsHighest :
    (cpu now : ℕ) (s : Sched) (home : ℕ → ℕ)
    → IsSound s home
    → IsHighest cpu (get_next_task cpu now s)
get_next_task-IsHighest cpu now s home i = (get_next_task-IsSound cpu now s home i).1

-- `ps_has_ready_task` tells whether the scan of the levels would find a task above the idle level.
pub has_ready_task-level_loop :
    (cpu : ℕ) (s : Sched)
    → has_ready_task cpu s
      ≡ (elim (level_loop 3 (task_available cpu s) s.ready_queue) as (λ x. Bool) [
        | none ↦ false
        | some (t, i) ↦ ltb 0 i
      ])
unfolding has_ready_task ready_loop level_loop
has_ready_task-level_loop cpu s =
    let ok = task_available cpu s in
    elim (Option-cases (first_available ok (s.ready_queue 2))) [
      | inl e ↦ elim (Option-cases (first_available ok (s.ready_queue 1))) [
        | inl f ↦ elim (Option-cases (first_available ok (s.ready_queue 0))) [
          | inl g ↦ rw (has_ready_task, ready_loop, level_loop, e, f, g) refl
          | inr (t, g) ↦ rw (has_ready_task, ready_loop, level_loop, e, f, g) refl
        ]
        | inr (t, f) ↦ rw (has_ready_task, ready_loop, level_loop, e, f) refl
      ]
      | inr (t, e) ↦ rw (has_ready_task, ready_loop, level_loop, e) refl
    ]
