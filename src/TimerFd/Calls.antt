-- ===== src/TimerFd/Calls.antt =====
-- The calls of src/fs/impl/timerfd.c around the operations on one timer: the tick of the clock over the
-- list `timerfds`, creation, `timerfd_read`, and the system calls with their copies to the caller.
use mos.Base.{
  ℕ, ◌≡◌, refl, Bool, false, ◌&&◌, ◌||◌, not, Option, none, some, List, [], ◌∷◌, ◌++◌, ltb, ◌==◌,
  if◌then◌else◌, Outcome, count, fails, einval, enomem, efault, eagain, eintr, eoverflow, arith,
  length,
}
use mos.Poll.{Ready, Round, found, nothing, interrupted, asleep, wait_loop}
use mos.TimerFd.{Clock, Timer, Spec, Request, update, take, get, settime}
use mos.TimerFd.Expire.{IsSettled, update-IsSettled, update_idempotent}

-- `timerfd_poll_timers`.
unfoldable pub poll_timers : Clock → List Timer → List Timer
poll_timers c [] = []
poll_timers c (t ∷ ts) = update c t ∷ poll_timers c ts

abbrev pub new_timer : ℕ → Timer
new_timer clockid = record {
  due = 0;
  interval = 0;
  ticks = 0;
  generation = 0;
  clockid = clockid;
  wall = false;
  cancel_on_set = false;
  canceled = false;
  notified = 0;
}

-- `sys_timerfd_create`: the result and the list of timers. `install` is what `anonfd_install` returned.
unfoldable pub create : ℕ → Bool → Bool → Outcome → List Timer → Outcome × List Timer
create clockid unknown_flag allocated install timers =
    if not (clockid == 0) && not (clockid == 1) && not (clockid == 7) || unknown_flag
    then (fails einval, timers)
    else if not allocated
    then (fails enomem, timers)
    else elim install [
      | count fd ↦ (count fd, timers ++ (new_timer clockid ∷ []))
      | fails e ↦ (fails e, timers)
    ]

-- The result of a read, with the ticks that it delivers.
pub data Result : Type 0 where
  delivers : ℕ → Result
  done : Outcome → Result
  unfinished : Result

-- `timerfd_read` of `size` bytes. The wait is `anonfd_read_wait`, that is `poll_wait_loop` over
-- `timerfd_take` at the time of each check; the rounds move the clock, which is part of the state.
unfoldable pub timed_take : Clock × Timer → Ready Outcome × (Clock × Timer)
timed_take (c, t) = let (r, t') = take c t in (r, (c, t'))

unfoldable pub read :
    Bool
    → Bool
    → ℕ
    → List (Round (Clock × Timer) Outcome)
    → Clock × Timer
    → Result × (Clock × Timer)
read nonblock copied size rounds s =
    let (r, s') = wait_loop timed_take nonblock rounds s in
    let result : Result = elim r [
      | found (count ticks) ↦ if copied then delivers ticks else done (fails efault)
      | found (fails e) ↦ done (fails e)
      | nothing ↦ done (fails eagain)
      | interrupted ↦ done (fails eintr)
      | asleep ↦ unfinished
    ] in
    if ltb size 8 then (done (fails einval), s) else (result, s')

-- `sys_timerfd_gettime64` of a descriptor that is a timer: the value, if it can be copied.
unfoldable pub gettime64 : Bool → Clock → Timer → Outcome × Option Spec × Timer
gettime64 copied c t =
    let (spec, t') = get c t in
    if copied then (count 0, some spec, t') else (fails efault, none, t')

-- `timerfd_copy32`: the legacy call refuses seconds that do not fit 32 bits.
unfoldable pub copy32 : Bool → Spec → Outcome × Option Spec
copy32 copied v =
    if ltb 0x7fffffff v.interval_sec || ltb 0x7fffffff v.value_sec
    then (fails eoverflow, none)
    else if copied
    then (count 0, some v)
    else (fails efault, none)

-- `sys_timerfd_gettime`.
unfoldable pub gettime : Bool → Clock → Timer → Outcome × Option Spec × Timer
gettime copied c t = let (spec, t') = get c t in let (r, out) = copy32 copied spec in (r, out, t')

-- `sys_timerfd_settime64`: `given` says whether the request can be read, `copied` whether the old value
-- can be written.
unfoldable pub settime64 :
    Bool
    → Bool
    → Clock
    → Bool
    → Bool
    → Bool
    → Bool
    → Request
    → Timer
    → Outcome × Option Spec × Timer
settime64 given copied c unknown_flag absolute cancel want_old r t =
    let (result, old, t') = settime c unknown_flag absolute cancel want_old r t in
    if not given then (fails efault, none, t) else elim result [
      | count n ↦ if want_old && not copied then (fails efault, none, t') else (count n, old, t')
      | fails e ↦ (fails e, none, t')
    ]

abbrev pub AllSettled : Clock → List Timer → Type 0
AllSettled c [] = Unit {0}
AllSettled c (t ∷ ts) = IsSettled c t × AllSettled c ts

-- After a tick of the clock every timer of the list is off or due strictly later, no change of the clock is left
-- to be noticed, and no timer is lost; a second tick at the same time changes nothing.
pub poll_timers-AllSettled :
    (c : Clock) (ts : List Timer)
    → AllSettled c (poll_timers c ts)
      × (length (poll_timers c ts) ≡ length ts)
      × (poll_timers c (poll_timers c ts) ≡ poll_timers c ts)
unfolding poll_timers
poll_timers-AllSettled c [] = (tt, refl, refl)
poll_timers-AllSettled c (t ∷ ts) =
    let rest = poll_timers-AllSettled c ts in
    ((update-IsSettled c t, rest.0), omega (arith, rest.1), rw (update_idempotent c t, rest.2) refl)
