-- ===== src/Sched/Switch.antt =====
-- The switch to the next task keeps the scheduler sound.
use mos.Base.{
  put-kept, ℕ, ◌+◌, ◌≡◌, true, false, ◌==◌, if◌then◌else◌, arith, refl, inl, inr, put, Bool-cases,
  Option, none, some, sym, ap, subst, ◌∙◌, ==→≡,
}
use mos.Sched.{
  stopped, dying, Status, running, ready, waiting, is_running, Task, Sched, task_available,
  switch_to, task_sched, set_status, set_on_cpu,
}
use mos.Sched.Queued.{IsQueued, runs, blocked}
use mos.Sched.Processors.{IsSound, retasked-IsQueued}
use mos.Sched.Choice.{IsHighest, get_next_task-IsSound}

runs-blocked : (x : Status) → runs x ≡ true → blocked x ≡ false
unfolding runs blocked
runs-blocked running e = refl
runs-blocked ready e = refl
runs-blocked waiting e = ground arith
runs-blocked stopped e = ground arith
runs-blocked dying e = refl

-- A status may change to another one that runs as well.
set_status-IsSound :
    (t : ℕ) (status : Status) (s : Sched) (home : ℕ → ℕ)
    → runs status ≡ true
    → runs (s.tasks t).status ≡ true
    → IsSound s home
    → IsSound (set_status t status s) home
set_status-IsSound t status s home new old i = record {
  queued =
      retasked-IsQueued s _ home (put-kept (λ (x : Task). x.listed) s.tasks t _ refl)
        (put-kept (λ (x : Task). runs x.status) s.tasks t _ (new ∙ sym old))
        (put-kept (λ (x : Task). blocked x.status) s.tasks t _
          (runs-blocked status new ∙ sym (runs-blocked _ old)))
        (put-kept (λ (x : Task). x.priority) s.tasks t _ refl) i.queued;
  timed = i.timed;
  exclusive = λ cpu u.
      i.exclusive cpu u
      ∙ ap (λ (n : ℕ). n == cpu + 1) (sym (put-kept (λ (x : Task). x.on_cpu) s.tasks t _ refl u));
}

set_on_cpu-IsQueued :
    (t on_cpu : ℕ) (s : Sched) (home : ℕ → ℕ)
    → IsQueued s home
    → IsQueued (set_on_cpu t on_cpu s) home
set_on_cpu-IsQueued t on_cpu s home q =
    retasked-IsQueued s _ home (put-kept (λ (x : Task). x.listed) s.tasks t _ refl)
      (put-kept (λ (x : Task). runs x.status) s.tasks t _ refl)
      (put-kept (λ (x : Task). blocked x.status) s.tasks t _ refl)
      (put-kept (λ (x : Task). x.priority) s.tasks t _ refl) q

moved-IsSound :
    (cpu t : ℕ) (s : Sched) (home : ℕ → ℕ)
    → (t == s.current cpu) ≡ false
    → ((s.tasks t).on_cpu == 0) ≡ true
    → IsSound s home
    → IsSound
        (set_on_cpu
          (s.current cpu)
          0
          (record (set_on_cpu t (cpu + 1) s) { current = put s.current cpu t }))
        home
moved-IsSound cpu t s home other idle i =
    let s1 = set_on_cpu t (cpu + 1) s in
    let q1 = set_on_cpu-IsQueued t (cpu + 1) s home i.queued in
    let s2 = record s1 { current = put s.current cpu t } in
    let q2 =
      set_on_cpu-IsQueued (s.current cpu) 0 s2 home
        (record { in_ready = q1.in_ready; in_wait = q1.in_wait }) in
    record {
      queued = q2;
      timed = i.timed;
      exclusive = λ c u.
          let o = i.exclusive c u in
          let p = i.exclusive c t in
          let q = i.exclusive cpu u in
          let zero_mark = ==→≡ (s.tasks t).on_cpu 0 idle in rw (marks u) (ground arith);
    }
  where
    marks :
        (u : ℕ)
        → ((set_on_cpu (s.current cpu) 0 (set_on_cpu t (cpu + 1) s)).tasks u).on_cpu
          ≡ (if u == s.current cpu then 0 else if u == t then cpu + 1 else (s.tasks u).on_cpu)
    marks u = elim (Bool-cases (u == s.current cpu)) [
      | inl h ↦ rw h refl
      | inr h ↦ elim (Bool-cases (u == t)) [ inl g ↦ rw (h, g) refl | inr g ↦ rw (h, g) refl ]
    ]

switch_to-IsSound :
    (cpu t : ℕ) (s : Sched) (home : ℕ → ℕ)
    → runs (s.tasks t).status ≡ true
    → task_available cpu s t ≡ true
    → IsSound s home
    → IsSound (switch_to cpu t s) home
unfolding switch_to runs
switch_to-IsSound cpu t s home r ok i =
    let j = set_status-IsSound t running s home refl r i in
    elim (Bool-cases (t == s.current cpu)) [
      | inl same ↦ rw (switch_to, same) j
      | inr other ↦
          let idle : ((s.tasks t).on_cpu == 0) ≡ true = ground arith in
          let mark =
            put-kept (λ (x : Task). x.on_cpu) s.tasks t (record (s.tasks t) { status = running })
              refl t in
          rw (switch_to, other)
            (moved-IsSound cpu t (set_status t running s) home other
              (ap (λ (n : ℕ). n == 0) mark ∙ idle) j)
    ]

switched-IsSound :
    (cpu : ℕ) (home : ℕ → ℕ) (r : Option ℕ × Sched) (s' : Sched)
    → IsSound r.1 home
    → IsHighest cpu r
    → (elim r.0 as (λ x. Option Sched) [ none ↦ none | some t ↦ some (switch_to cpu t r.1) ])
      ≡ some s'
    → IsSound s' home
switched-IsSound cpu home (none, s) s' i h e = ground arith
switched-IsSound cpu home (some t, s) s' i (l, ok, higher) e =
    let j = switch_to-IsSound cpu t s home (ground arith) ok i in
    let same : switch_to cpu t s ≡ s' = ground arith in subst (λ (x : Sched). IsSound x home) same j

-- The task that runs gives way.
pub yielded-IsSound :
    (t : ℕ) (s : Sched) (home : ℕ → ℕ)
    → IsSound s home
    → IsSound (if is_running (s.tasks t).status then set_status t ready s else s) home
unfolding is_running runs
yielded-IsSound t s home i = elim (Bool-cases (is_running (s.tasks t).status)) [
  | inl h ↦ rw h (set_status-IsSound t ready s home refl (was_running (s.tasks t).status h) i)
  | inr h ↦ rw h i
]
  where
    was_running : (x : Status) → is_running x ≡ true → runs x ≡ true
    was_running running e = refl
    was_running ready e = refl
    was_running waiting e = e
    was_running stopped e = e
    was_running dying e = e

pub task_sched-IsSound :
    (cpu now : ℕ) (s : Sched) (home : ℕ → ℕ) (s' : Sched)
    → IsSound s home
    → task_sched cpu now s ≡ some s'
    → IsSound s' home
unfolding task_sched
task_sched-IsSound cpu now s home s' i e =
    let (j, h) = get_next_task-IsSound cpu now _ home (yielded-IsSound (s.current cpu) s home i) in
    switched-IsSound cpu home _ s' j h e
