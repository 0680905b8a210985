-- ===== src/Sched.antt =====
-- src/ps/impl/alg/ps_alg_rr.c and `task_sched` of src/ps/impl/sched/ps_switch.c: the queues of tasks, the timers of
-- waits, and the choice of the next task. Tasks, wait lists and parents are numbers; `listed` is that the
-- psid is not 0xffffffff. `timer_queue` is the timer tree in the order of its walk. `ps_lock` makes each
-- operation one step, and `task_sched` as well up to the end of the switch. A time is an argument.
pub mod Queued
pub mod Pick
pub mod Processors
pub mod Choice
pub mod Switch
pub mod Steps
pub mod Total
pub mod Timers
pub mod Clock
pub mod Turn
pub mod Tests
use mos.Base.{
  ℕ, zero, suc, ◌+◌, Bool, true, false, not, ◌&&◌, ◌||◌, Option, none, some, List, [], ◌∷◌, ◌++◌,
  ltb, leb, ◌==◌, if◌then◌else◌, put, delete, u64_mod, ◌-◌,
}
use mos.Base.Bits.{has_bit}

pub data Status : Type 0 where
  running : Status
  ready : Status
  waiting : Status
  stopped : Status
  dying : Status

unfoldable pub is_running : Status → Bool
is_running running = true
is_running ready = false
is_running waiting = false
is_running stopped = false
is_running dying = false

unfoldable pub is_ready : Status → Bool
is_ready running = false
is_ready ready = true
is_ready waiting = false
is_ready stopped = false
is_ready dying = false

unfoldable pub is_waiting : Status → Bool
is_waiting running = false
is_waiting ready = false
is_waiting waiting = true
is_waiting stopped = false
is_waiting dying = false

unfoldable pub is_dying : Status → Bool
is_dying running = false
is_dying ready = false
is_dying waiting = false
is_dying stopped = false
is_dying dying = true

pub record Task : Type 0 where
  pub status : Status
  pub priority : ℕ
  pub listed : Bool
  pub interruptible : Bool
  pub terminate_requested : Bool
  pub vm_lock_depth : ℕ
  pub on_cpu : ℕ
  pub affinity_mask : ℕ
  pub param : ℕ

pub record Timer : Type 0 where
  pub task : ℕ
  pub due : ℕ

pub record Sched : Type 0 where
  pub tasks : ℕ → Task
  pub current : ℕ → ℕ
  pub ready_queue : ℕ → List ℕ
  pub wait_queue : ℕ → List ℕ
  pub timer_queue : List Timer

-- `ps_task_available` on the processor `cpu`.
abbrev pub task_available : ℕ → Sched → ℕ → Bool
task_available cpu s t =
    let task = s.tasks t in
    let is_current = t == s.current cpu in
    (is_ready task.status || is_current)
    && (not task.terminate_requested || not (task.vm_lock_depth == 0))
    && (task.on_cpu == 0 || is_current)
    && (task.affinity_mask == 0 || has_bit task.affinity_mask cpu)
    && (not (task.priority == 0) || (task.param == cpu))

unfoldable pub first_available : (ℕ → Bool) → List ℕ → Option ℕ
first_available ok [] = none
first_available ok (t ∷ ts) = let rest = first_available ok ts in if ok t then some t else rest

abbrev pub rotate : ℕ → List ℕ → List ℕ
rotate t ts = delete t ts ++ (t ∷ [])

-- The levels below `i`, from the highest on: a task and its level.
unfoldable pub level_loop : ℕ → (ℕ → Bool) → (ℕ → List ℕ) → Option (ℕ × ℕ)
level_loop zero ok queues = none
level_loop (suc i) ok queues =
    let rest = level_loop i ok queues in
    elim (first_available ok (queues i)) [ none ↦ rest | some t ↦ some (t, i) ]

-- The levels from `i` down to 1.
unfoldable pub ready_loop : ℕ → (ℕ → Bool) → (ℕ → List ℕ) → Bool
ready_loop zero ok queues = false
ready_loop (suc i) ok queues =
    let rest = ready_loop i ok queues in
    elim (first_available ok (queues (suc i))) [ none ↦ rest | some t ↦ true ]

unfoldable pub has_ready_task : ℕ → Sched → Bool
has_ready_task cpu s = ready_loop 2 (task_available cpu s) s.ready_queue

unfoldable pub disarm : ℕ → List Timer → List Timer
disarm t [] = []
disarm t (x ∷ xs) = if x.task == t then xs else x ∷ disarm t xs

-- A timer goes behind those that are due at the same time.
unfoldable pub insert_timer : Timer → List Timer → List Timer
insert_timer x [] = x ∷ []
insert_timer x (y ∷ ys) = if ltb x.due y.due then x ∷ y ∷ ys else y ∷ insert_timer x ys

abbrev pub deadline : ℕ → ℕ → ℕ
deadline now delay = if ltb (u64_mod - 1 - now) delay then u64_mod - 1 else now + delay

unfoldable pub timer_arm : ℕ → ℕ → ℕ → Sched → Sched
timer_arm t now ms s = record s {
  timer_queue = insert_timer (record { task = t; due = deadline now ms }) (disarm t s.timer_queue);
}

unfoldable pub timer_disarm : ℕ → Sched → Sched
timer_disarm t s = record s { timer_queue = disarm t s.timer_queue }

-- `list_remove_entry` of the task's entry, in whatever queue it stands.
abbrev pub unlink : ℕ → (ℕ → List ℕ) → ℕ → List ℕ
unlink t queues k = delete t (queues k)

unfoldable pub put_to_ready_unsafe : ℕ → Sched → Sched
put_to_ready_unsafe t s =
    let task = s.tasks t in
    let tasks = put s.tasks t (record task { interruptible = false; status = ready }) in
    let left = unlink t s.ready_queue in
    if is_dying task.status
    then s
    else if task.listed
    then record s {
      tasks = tasks;
      ready_queue = put left task.priority (left task.priority ++ (t ∷ []));
      wait_queue = unlink t s.wait_queue;
    }
    else record s { tasks = tasks }

unfoldable pub put_to_ready : ℕ → Sched → Sched
put_to_ready t s = if is_waiting (s.tasks t).status then put_to_ready_unsafe t s else s

unfoldable pub put_to_wait : ℕ → ℕ → Sched → Sched
put_to_wait t w s =
    let task = s.tasks t in
    let left = unlink t s.wait_queue in
    record s {
      tasks = put s.tasks t (record task { interruptible = false; status = waiting });
      ready_queue = unlink t s.ready_queue;
      wait_queue = if task.listed then put left w (left w ++ (t ∷ [])) else left;
    }

-- The loop of `ps_fire_timers_unsafe` over the timers, the earliest first.
unfoldable pub fire_loop : ℕ → List Timer → Sched → Sched
fire_loop now [] s = record s { timer_queue = [] }
fire_loop now (x ∷ xs) s =
    let rest = fire_loop now xs (put_to_ready_unsafe x.task s) in
    if ltb now x.due then record s { timer_queue = x ∷ xs } else rest

abbrev pub fire_timers : ℕ → Sched → Sched
fire_timers now s = fire_loop now s.timer_queue s

-- The task that the scan found goes to the end of its queue.
abbrev pub take_turn : Sched → Option (ℕ × ℕ) → Option ℕ × Sched
take_turn s none = (none, s)
take_turn s (some (t, i)) =
    (some t, record s { ready_queue = put s.ready_queue i (rotate t (s.ready_queue i)) })

-- `ps_get_next_task_unsafe`, with its three levels.
unfoldable pub get_next_task : ℕ → ℕ → Sched → Option ℕ × Sched
get_next_task cpu now s =
    let s' = if (s.tasks (s.current cpu)).listed then fire_timers now s else s in
    take_turn s' (level_loop 3 (task_available cpu s') s'.ready_queue)

abbrev pub set_status : ℕ → Status → Sched → Sched
set_status t status s = record s { tasks = put s.tasks t (record (s.tasks t) { status = status }) }

abbrev pub set_on_cpu : ℕ → ℕ → Sched → Sched
set_on_cpu t on_cpu s = record s { tasks = put s.tasks t (record (s.tasks t) { on_cpu = on_cpu }) }

-- What `task_sched` and `ps_switch_finish` do once the next task is found.
unfoldable pub switch_to : ℕ → ℕ → Sched → Sched
switch_to cpu next s =
    let prev = s.current cpu in
    let s' = set_status next running s in
    if next == prev
    then s'
    else set_on_cpu prev 0
        (record (set_on_cpu next (cpu + 1) s') { current = put s.current cpu next })

-- `task_sched`; nothing is `DIE`.
unfoldable pub task_sched : ℕ → ℕ → Sched → Option Sched
task_sched cpu now s =
    let prev = s.current cpu in
    let (next, s') =
      get_next_task cpu now
        (if is_running (s.tasks prev).status then set_status prev ready s else s) in
    elim next [ none ↦ none | some t ↦ some (switch_to cpu t s') ]

-- `ps_prepare_timed_wait`, on the global wait list 0.
unfoldable pub prepare_timed_wait : ℕ → ℕ → ℕ → Sched → Sched
prepare_timed_wait t now ms s = put_to_wait t 0 (if ltb 0 ms then timer_arm t now ms s else s)

-- `ps_prepare_interruptible_wait`; `signal` is that a signal is pending that interrupts the wait or is waited for.
-- Nothing is -EINTR.
unfoldable pub prepare_interruptible_wait : Bool → ℕ → ℕ → ℕ → ℕ → Sched → Option Sched
prepare_interruptible_wait signal t w now ms s =
    let s' = put_to_wait t w (if ms == 0 then s else timer_arm t now ms s) in
    if signal
    then none
    else some (record s' { tasks = put s'.tasks t (record (s'.tasks t) { interruptible = true }) })
