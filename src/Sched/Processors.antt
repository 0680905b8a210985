-- ===== src/Sched/Processors.antt =====
-- What a sound state of the scheduler is, and that waking and waiting keep it.
use mos.Base.{
  put-kept, ℕ, ◌+◌, ◌≡◌, List, [], ◌∷◌, ◌==◌, refl, inl, inr, put, Bool-cases, ltb, sym, ap, subst,
  ◌∙◌,
}
use mos.Sched.{
  is_dying, Task, Timer, Sched, put_to_ready_unsafe, put_to_wait, fire_loop, fire_timers,
}
use mos.Sched.Queued.{IsQueued, runs, blocked, put_to_ready_unsafe-IsQueued, put_to_wait-IsQueued}
use mos.Sched.Clock.{fire_loop-IsQueued, fire_loop-IsFired}
use mos.Sched.Timers.{IsTimed, later-IsTimed}

-- The queues tell the statuses, the timers stand in order, and a task is marked with the processor that runs it.
pub record IsSound (s : Sched) (home : ℕ → ℕ) : Type 0 where
  pub queued : IsQueued s home
  pub timed : IsTimed s.timer_queue
  pub exclusive : (cpu t : ℕ) → (s.current cpu == t) ≡ ((s.tasks t).on_cpu == cpu + 1)

-- Waking a task moves nothing between processors and changes no timer.
pub put_to_ready_unsafe-keeps :
    (a : ℕ) (s : Sched)
    → ((put_to_ready_unsafe a s).current ≡ s.current)
      × ((put_to_ready_unsafe a s).timer_queue ≡ s.timer_queue)
      × ((t : ℕ) → ((put_to_ready_unsafe a s).tasks t).on_cpu ≡ (s.tasks t).on_cpu)
unfolding put_to_ready_unsafe
put_to_ready_unsafe-keeps a s = elim (Bool-cases (is_dying (s.tasks a).status)) [
  | inl d ↦ rw (put_to_ready_unsafe, d) (refl, refl, λ t. refl)
  | inr d ↦ elim (Bool-cases (s.tasks a).listed) [
    | inl l ↦
        rw (put_to_ready_unsafe, d, l)
          (refl, refl, put-kept (λ (x : Task). x.on_cpu) s.tasks a _ refl)
    | inr l ↦
        rw (put_to_ready_unsafe, d, l)
          (refl, refl, put-kept (λ (x : Task). x.on_cpu) s.tasks a _ refl)
  ]
]

pub put_to_ready_unsafe-IsSound :
    (a : ℕ) (s : Sched) (home : ℕ → ℕ) → IsSound s home → IsSound (put_to_ready_unsafe a s) home
put_to_ready_unsafe-IsSound a s home i =
    let (cur, timers, marks) = put_to_ready_unsafe-keeps a s in
    record {
      queued = put_to_ready_unsafe-IsQueued a s home i.queued;
      timed = subst IsTimed (sym timers) i.timed;
      exclusive = λ cpu t. rw (cur, marks t) (i.exclusive cpu t);
    }

pub fire_loop-keeps :
    (now : ℕ) (xs : List Timer) (s : Sched)
    → ((fire_loop now xs s).current ≡ s.current)
      × ((t : ℕ) → ((fire_loop now xs s).tasks t).on_cpu ≡ (s.tasks t).on_cpu)
unfolding fire_loop
fire_loop-keeps now [] s = (refl, λ t. refl)
fire_loop-keeps now (x ∷ xs) s = elim (Bool-cases (ltb now x.due)) [
  | inl h ↦ rw (fire_loop, h) (refl, λ t. refl)
  | inr h ↦
      let (cur, timers, marks) = put_to_ready_unsafe-keeps x.task s in
      let (cur', marks') = fire_loop-keeps now xs (put_to_ready_unsafe x.task s) in
      rw (fire_loop, h) (cur' ∙ cur, λ t. marks' t ∙ marks t)
]

pub fire_timers-IsSound :
    (now : ℕ) (s : Sched) (home : ℕ → ℕ) → IsSound s home → IsSound (fire_timers now s) home
fire_timers-IsSound now s home i =
    let (cur, marks) = fire_loop-keeps now s.timer_queue s in
    let f = fire_loop-IsFired now 0 s.timer_queue s i.timed.sorted in
    record {
      queued = fire_loop-IsQueued now s.timer_queue s home i.queued;
      timed = subst IsTimed (sym f.left) (later-IsTimed now s.timer_queue i.timed);
      exclusive = λ cpu t. rw (cur, marks t) (i.exclusive cpu t);
    }

pub put_to_wait-IsSound :
    (t w : ℕ) (s : Sched) (home : ℕ → ℕ)
    → IsSound s home
    → IsSound (put_to_wait t w s) (put home t w)
unfolding put_to_wait
put_to_wait-IsSound t w s home i = record {
  queued = put_to_wait-IsQueued t w s home i.queued;
  timed = i.timed;
  exclusive = λ cpu u.
      i.exclusive cpu u
      ∙ ap (λ (n : ℕ). n == cpu + 1) (sym (put-kept (λ (x : Task). x.on_cpu) s.tasks t _ refl u));
}

-- The queues depend on the tasks only by these values.
pub retasked-IsQueued :
    (s : Sched) (tasks : ℕ → Task) (home : ℕ → ℕ)
    → ((u : ℕ) → (tasks u).listed ≡ (s.tasks u).listed)
    → ((u : ℕ) → runs (tasks u).status ≡ runs (s.tasks u).status)
    → ((u : ℕ) → blocked (tasks u).status ≡ blocked (s.tasks u).status)
    → ((u : ℕ) → (tasks u).priority ≡ (s.tasks u).priority)
    → IsQueued s home
    → IsQueued (record s { tasks = tasks }) home
retasked-IsQueued s tasks home l r b p q = record {
  in_ready = λ k u. rw (l u, r u, p u) (q.in_ready k u);
  in_wait = λ w u. rw (l u, b u) (q.in_wait w u);
}
