-- ===== src/Sched/Steps.antt =====
-- Processors run different tasks, in every state that the scheduler reaches.
use mos.Base.{
  put-kept, ℕ, ◌+◌, ◌≡◌, Bool, true, false, ◌&&◌, ◌==◌, if◌then◌else◌, arith, refl, inl, inr, put,
  Bool-cases, some, ltb, sym, ap, subst, ◌∙◌, occurrences,
}
use mos.Sched.{
  is_waiting, Task, Sched, put_to_ready_unsafe, put_to_ready, put_to_wait, fire_timers, timer_arm,
  timer_disarm, prepare_timed_wait, prepare_interruptible_wait, task_sched,
}
use mos.Sched.Queued.{runs, blocked}
use mos.Sched.Timers.{disarm-IsTimed, timer_arm-IsTimed}
use mos.Sched.Processors.{
  IsSound, put_to_ready_unsafe-IsSound, fire_timers-IsSound, put_to_wait-IsSound, retasked-IsQueued,
}
use mos.Sched.Switch.{task_sched-IsSound}

-- A step of the scheduler: a task is woken, by a timer or another task; a task goes to wait, with or without a time
-- limit; its timer is removed after the wait; a processor takes the next task.
pub data Step : Sched → Sched → Type 0 where
  woken : (t : ℕ) (s : Sched) → Step s (put_to_ready_unsafe t s)
  woken_if_waiting : (t : ℕ) (s : Sched) → Step s (put_to_ready t s)
  fired : (now : ℕ) (s : Sched) → Step s (fire_timers now s)
  waits : (t w : ℕ) (s : Sched) → Step s (put_to_wait t w s)
  waits_timed : (t now ms : ℕ) (s : Sched) → Step s (prepare_timed_wait t now ms s)
  waits_interruptibly :
      (t w now ms : ℕ) {s s' : Sched}
      → prepare_interruptible_wait false t w now ms s ≡ some s'
      → Step s s'
  finished : (t : ℕ) (s : Sched) → Step s (timer_disarm t s)
  switched : (cpu now : ℕ) {s s' : Sched} → task_sched cpu now s ≡ some s' → Step s s'

pub data Reach (s : Sched) : Sched → Type 0 where
  here : Reach s s
  next : {t u : Sched} → Reach s t → Step t u → Reach s u

-- Sound for some wait lists of the waiting tasks.
abbrev pub Sound : Sched → Type 0
Sound s = (home : ℕ → ℕ) × IsSound s home

timer_arm-IsSound :
    (t now ms : ℕ) (s : Sched) (home : ℕ → ℕ) → IsSound s home → IsSound (timer_arm t now ms s) home
unfolding timer_arm
timer_arm-IsSound t now ms s home i = record {
  queued = record { in_ready = i.queued.in_ready; in_wait = i.queued.in_wait };
  timed = timer_arm-IsTimed t now ms s i.timed;
  exclusive = i.exclusive;
}

interruptible-IsSound :
    (t : ℕ) (s : Sched) (home : ℕ → ℕ)
    → IsSound s home
    → IsSound
        (record s { tasks = put s.tasks t (record (s.tasks t) { interruptible = true }) })
        home
interruptible-IsSound t s home i = record {
  queued =
      retasked-IsQueued s _ home (put-kept (λ (x : Task). x.listed) s.tasks t _ refl)
        (put-kept (λ (x : Task). runs x.status) s.tasks t _ refl)
        (put-kept (λ (x : Task). blocked x.status) s.tasks t _ refl)
        (put-kept (λ (x : Task). x.priority) s.tasks t _ refl) i.queued;
  timed = i.timed;
  exclusive = λ cpu u.
      i.exclusive cpu u
      ∙ ap (λ (n : ℕ). n == cpu + 1) (sym (put-kept (λ (x : Task). x.on_cpu) s.tasks t _ refl u));
}

interruptibly-IsSound :
    (t w now ms : ℕ) (s s' : Sched) (home : ℕ → ℕ)
    → IsSound s home
    → prepare_interruptible_wait false t w now ms s ≡ some s'
    → IsSound s' (put home t w)
unfolding prepare_interruptible_wait
interruptibly-IsSound t w now ms s s' home i e =
    let s1 = if ms == 0 then s else timer_arm t now ms s in
    let s2 = put_to_wait t w s1 in
    let j = put_to_wait-IsSound t w s1 home (armed (ms == 0)) in
    let same : record s2 { tasks = put s2.tasks t (record (s2.tasks t) { interruptible = true }) }
        ≡ s' =
      ground arith in
    subst (λ (x : Sched). IsSound x (put home t w)) same
      (interruptible-IsSound t s2 (put home t w) j)
  where
    armed : (b : Bool) → IsSound (if b then s else timer_arm t now ms s) home
    armed true = i
    armed false = timer_arm-IsSound t now ms s home i

Step-Sound : {s s' : Sched} → Step s s' → Sound s → Sound s'
unfolding put_to_ready timer_disarm prepare_timed_wait prepare_interruptible_wait
Step-Sound (woken t s) (home, i) = (home, put_to_ready_unsafe-IsSound t s home i)
Step-Sound (woken_if_waiting t s) (home, i) = elim (Bool-cases (is_waiting (s.tasks t).status)) [
  | inl h ↦ (home, rw (put_to_ready, h) (put_to_ready_unsafe-IsSound t s home i))
  | inr h ↦ (home, rw (put_to_ready, h) i)
]
Step-Sound (fired now s) (home, i) = (home, fire_timers-IsSound now s home i)
Step-Sound (waits t w s) (home, i) = (put home t w, put_to_wait-IsSound t w s home i)
Step-Sound (waits_timed t now ms s) (home, i) = elim (Bool-cases (ltb 0 ms)) [
  | inl h ↦ (
    put home t 0,
    rw (prepare_timed_wait, h)
        (put_to_wait-IsSound t 0 _ home (timer_arm-IsSound t now ms s home i)),
  )
  | inr h ↦ (put home t 0, rw (prepare_timed_wait, h) (put_to_wait-IsSound t 0 s home i))
]
Step-Sound (waits_interruptibly t w now ms {s} {s'} e) (home, i) =
    (put home t w, interruptibly-IsSound t w now ms s s' home i e)
Step-Sound (finished t s) (home, i) = (
  home,
  record {
    queued = record { in_ready = i.queued.in_ready; in_wait = i.queued.in_wait };
    timed = disarm-IsTimed t s.timer_queue i.timed;
    exclusive = i.exclusive;
  },
)
Step-Sound (switched cpu now {s} {s'} e) (home, i) =
    (home, task_sched-IsSound cpu now s home s' i e)

Reach-Sound : {s s' : Sched} → Reach s s' → Sound s → Sound s'
Reach-Sound here i = i
Reach-Sound (next r step) i = Step-Sound step (Reach-Sound r i)

-- From a sound state, after any steps of any tasks and processors: two processors run the same task only if they are
-- one, and each task in a ready queue may run and is there once, in the queue of its priority alone.
pub Reach-apart :
    {s s' : Sched}
    → Reach s s'
    → Sound s
    → ((cpu other : ℕ) → s'.current cpu ≡ s'.current other → cpu ≡ other)
      × ((k t : ℕ)
          → occurrences t (s'.ready_queue k) ≡ (
              if (s'.tasks t).listed && runs (s'.tasks t).status && ((s'.tasks t).priority == k)
              then 1
              else 0))
Reach-apart {s' = s'} r i =
    let (home, j) = Reach-Sound r i in
    (
      λ cpu other e.
          let a = j.exclusive cpu (s'.current cpu) in
          let b = j.exclusive other (s'.current cpu) in ground arith,
      j.queued.in_ready,
    )
