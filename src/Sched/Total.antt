-- ===== src/Sched/Total.antt =====
-- A processor that has a task always finds one.
use mos.Base.{
  ==→≡, ==-self, ℕ, ◌≡◌, ◌<◌, Bool, true, false, ◌&&◌, ◌==◌, if◌then◌else◌, arith, refl, inl, inr,
  put, put-kept, Bool-cases, Option, none, some, ltb, sym, ap, subst, ◌∙◌, List, [], ◌∷◌,
}
use mos.Sched.{
  take_turn, ready, is_running, is_ready, is_dying, Task, Timer, Sched, put_to_ready_unsafe,
  fire_loop, fire_timers, task_available, get_next_task, switch_to, task_sched, set_status,
}
use mos.Sched.Queued.{runs}
use mos.Sched.Clock.{fire_loop-IsFired}
use mos.Sched.Processors.{IsSound, fire_loop-keeps}
use mos.Sched.Choice.{IsHighest, get_next_task-IsSound}
use mos.Sched.Switch.{yielded-IsSound}

if-tasks :
    (l : Bool) (x y : Sched) (tasks : ℕ → Task)
    → x.tasks ≡ tasks
    → y.tasks ≡ tasks
    → (if l then x else y).tasks ≡ tasks
if-tasks true x y tasks e f = e
if-tasks false x y tasks e f = f

put_to_ready_unsafe-tasks :
    (a : ℕ) (s : Sched)
    → is_dying (s.tasks a).status ≡ false
    → (put_to_ready_unsafe a s).tasks
      ≡ put s.tasks a (record (s.tasks a) { interruptible = false; status = ready })
unfolding put_to_ready_unsafe
put_to_ready_unsafe-tasks a s d =
    rw (put_to_ready_unsafe, d) (if-tasks (s.tasks a).listed _ _ _ refl refl)

-- A value of a task that waking it does not change.
module _ {A : Type 0} (f : Task → A)
    (same : (x : Task) → f (record x { interruptible = false; status = ready }) ≡ f x) where
  put_to_ready_unsafe-value :
      (a t : ℕ) (s : Sched) → f ((put_to_ready_unsafe a s).tasks t) ≡ f (s.tasks t)
  unfolding put_to_ready_unsafe
  put_to_ready_unsafe-value a t s = elim (Bool-cases (is_dying (s.tasks a).status)) [
    | inl d ↦ rw (put_to_ready_unsafe, d) refl
    | inr d ↦
        ap (λ (g : ℕ → Task). f (g t)) (put_to_ready_unsafe-tasks a s d)
        ∙ put-kept f s.tasks a _ (same (s.tasks a)) t
  ]

  fire_loop-value :
      (now : ℕ) (xs : List Timer) (t : ℕ) (s : Sched)
      → f ((fire_loop now xs s).tasks t) ≡ f (s.tasks t)
  unfolding fire_loop
  fire_loop-value now [] t s = refl
  fire_loop-value now (x ∷ xs) t s = elim (Bool-cases (ltb now x.due)) [
    | inl h ↦ rw (fire_loop, h) refl
    | inr h ↦
        rw (fire_loop, h)
          (fire_loop-value now xs t (put_to_ready_unsafe x.task s)
            ∙ put_to_ready_unsafe-value x.task t s)
  ]

-- A task in a ready queue that the processor may run.
pub record IsRunnable (cpu t : ℕ) (s : Sched) : Type 0 where
  pub queued : (s.tasks t).listed && runs (s.tasks t).status ≡ true
  pub level : (s.tasks t).priority < 3
  pub available : task_available cpu s t ≡ true

fire_timers-IsRunnable :
    (cpu t now : ℕ) (s : Sched) (home : ℕ → ℕ)
    → IsSound s home
    → IsRunnable cpu t s
    → IsRunnable cpu t (fire_timers now s)
unfolding is_ready runs
fire_timers-IsRunnable cpu t now s home i r =
    let l = fire_loop-value (λ (x : Task). x.listed) (λ x. refl) now s.timer_queue t s in
    let p = fire_loop-value (λ (x : Task). x.priority) (λ x. refl) now s.timer_queue t s in
    let q =
      fire_loop-value (λ (x : Task). x.terminate_requested) (λ x. refl) now s.timer_queue t s in
    let v = fire_loop-value (λ (x : Task). x.vm_lock_depth) (λ x. refl) now s.timer_queue t s in
    let c = fire_loop-value (λ (x : Task). x.on_cpu) (λ x. refl) now s.timer_queue t s in
    let m = fire_loop-value (λ (x : Task). x.affinity_mask) (λ x. refl) now s.timer_queue t s in
    let a = fire_loop-value (λ (x : Task). x.param) (λ x. refl) now s.timer_queue t s in
    let (cur, marks) = fire_loop-keeps now s.timer_queue s in
    let cur' = ap (λ (g : ℕ → ℕ). g cpu) cur in
    let st = (fire_loop-IsFired now 0 s.timer_queue s i.timed.sorted).status t in
    let o = r.queued in
    let lv = r.level in
    let ok = r.available in
    record {
      queued = rw (l, st) (ground arith);
      level = rw p lv;
      available = rw (st, q, v, c, m, p, a, cur') (ground arith);
    }

current-IsRunnable :
    (cpu : ℕ) (s : Sched)
    → IsRunnable cpu (s.current cpu) s
    → IsRunnable cpu (s.current cpu) (set_status (s.current cpu) ready s)
unfolding is_ready runs
current-IsRunnable cpu s r =
    let g = ==-self (s.current cpu) in
    let o = r.available in
    let q = r.queued in
    record { queued = rw g (ground arith); level = rw g r.level; available = rw g (ground arith) }

yielded-IsRunnable :
    (cpu t : ℕ) (s : Sched)
    → IsRunnable cpu t s
    → IsRunnable cpu t (
        if is_running (s.tasks (s.current cpu)).status
        then set_status (s.current cpu) ready s
        else s)
unfolding is_ready is_running runs
yielded-IsRunnable cpu t s r = elim (Bool-cases (is_running (s.tasks (s.current cpu)).status)) [
  | inl h ↦ rw h (elim (Bool-cases (t == s.current cpu)) [
    | inl g ↦
        let e = ==→≡ t (s.current cpu) g in
        subst (λ (u : ℕ). IsRunnable cpu u (set_status (s.current cpu) ready s)) (sym e)
          (current-IsRunnable cpu s (subst (λ (u : ℕ). IsRunnable cpu u s) e r))
    | inr g ↦
        let o = r.available in
        record { queued = rw g r.queued; level = rw g r.level; available = rw g (ground arith) }
  ])
  | inr h ↦ rw h r
]

fired_if-IsRunnable :
    (b : Bool) (cpu t now : ℕ) (s : Sched) (home : ℕ → ℕ)
    → IsSound s home
    → IsRunnable cpu t s
    → IsRunnable cpu t (if b then fire_timers now s else s)
fired_if-IsRunnable true cpu t now s home i r = fire_timers-IsRunnable cpu t now s home i r
fired_if-IsRunnable false cpu t now s home i r = r

chosen-some :
    (cpu t : ℕ) (r : Option ℕ × Sched)
    → IsHighest cpu r
    → IsRunnable cpu t r.1
    → (n : ℕ) × (r.0 ≡ some n)
chosen-some cpu t (none, s) h r =
    let no = h t r.queued r.level in let yes_ = r.available in absurd (ground arith)
chosen-some cpu t (some n, s) h r = (n, refl)

take_turn-IsRunnable :
    (cpu t : ℕ) (s : Sched) (o : Option (ℕ × ℕ))
    → IsRunnable cpu t s
    → IsRunnable cpu t (take_turn s o).1
take_turn-IsRunnable cpu t s none r = r
take_turn-IsRunnable cpu t s (some (u, k)) r = record {
  queued = r.queued;
  level = r.level;
  available = r.available;
}

switched :
    (cpu : ℕ) (r : Option ℕ × Sched) (n : ℕ)
    → r.0 ≡ some n
    → (s' : Sched) × ((elim r.0 as (λ x. Option Sched) [
      | none ↦ none
      | some u ↦ some (switch_to cpu u r.1)
    ])
        ≡ some s')
switched cpu r n e = (switch_to cpu n r.1, rw e refl)

-- `task_sched` on a sound state never dies for want of a task if some task in the ready queues may run on the processor,
-- which each processor's idle task is to ensure: it ends with a next task. The timers that are fired
-- before the choice do not get in the way.
pub task_sched-some :
    (cpu t now : ℕ) (s : Sched) (home : ℕ → ℕ)
    → IsSound s home
    → IsRunnable cpu t s
    → (s' : Sched) × (task_sched cpu now s ≡ some s')
unfolding task_sched get_next_task
task_sched-some cpu t now s home i r =
    let s1 =
      if is_running (s.tasks (s.current cpu)).status
      then set_status (s.current cpu) ready s
      else s in
    let i1 = yielded-IsSound (s.current cpu) s home i in
    let r1 = yielded-IsRunnable cpu t s r in
    let r2 = fired_if-IsRunnable (s1.tasks (s1.current cpu)).listed cpu t now s1 home i1 r1 in
    let (j, h) = get_next_task-IsSound cpu now s1 home i1 in
    let (n, e) =
      chosen-some cpu t (get_next_task cpu now s1) h (take_turn-IsRunnable cpu t _ _ r2) in
    switched cpu (get_next_task cpu now s1) n e
