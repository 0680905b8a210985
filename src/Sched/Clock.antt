-- ===== src/Sched/Clock.antt =====
-- Firing the timers of waits.
use mos.Base.{
  ==→≡, ==-self, ℕ, ◌≡◌, ◌<◌, true, false, not, ◌&&◌, List, [], ◌∷◌, ◌==◌, if◌then◌else◌, arith,
  refl, inl, inr, Bool-cases, ltb, leb, ap, ◌∙◌,
}
use mos.Sched.{
  ready, waiting, is_dying, Timer, Sched, put_to_ready_unsafe, put_to_wait, fire_loop, fire_timers,
  disarm, insert_timer, timer_arm, deadline, prepare_timed_wait,
}
use mos.Sched.Queued.{IsQueued, put_to_ready_unsafe-IsQueued}
use mos.Sched.Timers.{
  sorted_from, due_for, later, later-all, due_for-none, due_for-timers_of, timers_of-disarm,
  due_for-insert_timer, IsTimed, timer_arm-IsTimed, due_for-disarm,
}

pub fire_loop-IsQueued :
    (now : ℕ) (xs : List Timer) (s : Sched) (home : ℕ → ℕ)
    → IsQueued s home
    → IsQueued (fire_loop now xs s) home
unfolding fire_loop
fire_loop-IsQueued now [] s home q = record { in_ready = q.in_ready; in_wait = q.in_wait }
fire_loop-IsQueued now (x ∷ xs) s home q = elim (Bool-cases (ltb now x.due)) [
  | inl h ↦ rw (fire_loop, h) (record { in_ready = q.in_ready; in_wait = q.in_wait })
  | inr h ↦
      rw (fire_loop, h)
        (fire_loop-IsQueued now xs (put_to_ready_unsafe x.task s) home
          (put_to_ready_unsafe-IsQueued x.task s home q))
]

put_to_ready_unsafe-status :
    (a t : ℕ) (s : Sched)
    → ((put_to_ready_unsafe a s).tasks t).status
      ≡ (if (a == t) && not (is_dying (s.tasks t).status) then ready else (s.tasks t).status)
unfolding put_to_ready_unsafe
put_to_ready_unsafe-status a t s = elim (Bool-cases (a == t)) [
  | inl h ↦
      let e : t ≡ a = ground arith in
      elim (Bool-cases (is_dying (s.tasks a).status)) [
        | inl d ↦ rw (e, put_to_ready_unsafe, d) (ground arith)
        | inr d ↦ elim (Bool-cases (s.tasks a).listed) [
          | inl l ↦ rw (e, put_to_ready_unsafe, d, l) (ground arith)
          | inr l ↦ rw (e, put_to_ready_unsafe, d, l) (ground arith)
        ]
      ]
  | inr h ↦ elim (Bool-cases (is_dying (s.tasks a).status)) [
    | inl d ↦ rw (put_to_ready_unsafe, d) (ground arith)
    | inr d ↦ elim (Bool-cases (s.tasks a).listed) [
      | inl l ↦ rw (put_to_ready_unsafe, d, l) (ground arith)
      | inr l ↦ rw (put_to_ready_unsafe, d, l) (ground arith)
    ]
  ]
]

-- What waking the tasks whose timers are due does.
pub record IsFired (now : ℕ) (s s' : Sched) (timers : List Timer) : Type 0 where
  pub left : s'.timer_queue ≡ later now timers
  pub status :
      (t : ℕ)
      → (s'.tasks t).status ≡ (
          if due_for t now timers && not (is_dying (s.tasks t).status)
          then ready
          else (s.tasks t).status)

pub fire_loop-IsFired :
    (now d : ℕ) (xs : List Timer) (s : Sched)
    → sorted_from d xs ≡ true
    → IsFired now s (fire_loop now xs s) xs
unfolding fire_loop later due_for sorted_from is_dying
fire_loop-IsFired now d [] s o = record { left = refl; status = λ t. refl }
fire_loop-IsFired now d (x ∷ xs) s o = elim (Bool-cases (ltb now x.due)) [
  | inl h ↦
      let rest = later-all now x.due xs (ground arith) (ground arith) in
      rw (fire_loop, h)
        (record {
          left = rw (h, rest) refl;
          status = λ t.
              let none = due_for-none t now x.due xs (ground arith) (ground arith) in ground arith;
        })
  | inr h ↦
      let r = fire_loop-IsFired now x.due xs (put_to_ready_unsafe x.task s) (ground arith) in
      rw (fire_loop, h)
        (record {
          left = rw h r.left;
          status = λ t. r.status t ∙ rw (put_to_ready_unsafe-status x.task t s) (woken t h);
        })
]
  where
    woken :
        (t : ℕ)
        → ltb now x.due ≡ false
        → (if due_for t now xs
              && not (
                  is_dying (
                    if (x.task == t) && not (is_dying (s.tasks t).status)
                    then ready
                    else (s.tasks t).status))
            then ready
            else if (x.task == t) && not (is_dying (s.tasks t).status)
            then ready
            else (s.tasks t).status)
          ≡ (if due_for t now (x ∷ xs) && not (is_dying (s.tasks t).status)
              then ready
              else (s.tasks t).status)
    woken t h = ground arith

-- A task that waits with a time limit, whatever timer it had before: when the timers are fired next, it is ready if the
-- time has come, and waits on if not; any other task is woken exactly if its own timer is due and it is
-- not dying. The timers stand in order, one at most for a task.
pub prepare_timed_wait-IsFired :
    (t now ms later_on : ℕ) (s : Sched)
    → IsTimed s.timer_queue
    → 0 < ms
    → (u : ℕ)
    → ((fire_timers later_on (prepare_timed_wait t now ms s)).tasks u).status ≡ (
        if u == t
        then (if leb (deadline now ms) later_on then ready else waiting)
        else if due_for u later_on s.timer_queue && not (is_dying (s.tasks u).status)
        then ready
        else (s.tasks u).status)
unfolding prepare_timed_wait timer_arm put_to_wait is_dying
prepare_timed_wait-IsFired t now ms later_on s i some_ms u =
    let x : Timer = record { task = t; due = deadline now ms } in
    let s1 = put_to_wait t 0 (timer_arm t now ms s) in
    let limited : ltb 0 ms ≡ true = ground arith in
    let e : prepare_timed_wait t now ms s ≡ s1 = rw limited refl in
    let a = timer_arm-IsTimed t now ms s i in
    let f = fire_loop-IsFired later_on 0 (insert_timer x (disarm t s.timer_queue)) s1 a.sorted in
    let due = due_for-insert_timer u later_on x (disarm t s.timer_queue) in
    let own = due_for-timers_of t later_on (disarm t s.timer_queue) in
    let gone = timers_of-disarm t t s.timer_queue in
    let one = i.single t in
    let other = due_for-disarm u t later_on s.timer_queue in
    ap (λ (v : Sched). ((fire_timers later_on v).tasks u).status) e
    ∙ f.status u
    ∙ rw due (elim (Bool-cases (u == t)) [
      | inl h ↦ let g : u ≡ t = ==→≡ u t h in rw (g, own (ground arith), ==-self t) (ground arith)
      | inr h ↦ rw (h, other h) (ground arith)
    ])
