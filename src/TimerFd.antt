-- ===== src/TimerFd.antt =====
-- src/fs/impl/timerfd.c: timers that are read as a count of expirations. The clock is an argument:
-- `Clock` holds what `time_now_us` and `time_wall_snapshot_us` return.
pub mod Expire
pub mod Calls
mod Tests
use mos.Base.{
  ℕ, ◌+◌, ◌-◌, ◌*◌, ◌/◌, ◌%◌, Bool, true, false, ◌&&◌, ◌||◌, not, Option, none, some, ltb, leb,
  ◌==◌, if◌then◌else◌, u64_mod, Errno, einval, ecanceled, Outcome, count, fails, ℤ, pos, negsuc,
}
use mos.Poll.{Ready, not_yet, ready}

abbrev pub uint64_max : ℕ
uint64_max = 0xffffffffffffffff

abbrev pub int64_max : ℕ
int64_max = 0x7fffffffffffffff

abbrev pub ns_per_sec : ℕ
ns_per_sec = 1000000000

pub record Clock : Type 0 where
  pub now_us : ℕ
  pub wall_us : ℕ
  pub wall_generation : ℕ

-- `struct timerfd_state`, its times in nanoseconds; `notified` counts the calls of `poll_notify`.
pub record Timer : Type 0 where
  pub due : ℕ
  pub interval : ℕ
  pub ticks : ℕ
  pub generation : ℕ
  pub clockid : ℕ
  pub wall : Bool
  pub cancel_on_set : Bool
  pub canceled : Bool
  pub notified : ℕ

abbrev pub now_of : Clock → Bool → ℕ
now_of c wall = (if wall then c.wall_us else c.now_us) * 1000 % u64_mod

-- The expirations of an overdue timer, and its next deadline.
unfoldable pub expirations : Timer → ℕ → ℕ
expirations t now = if t.interval == 0 then 1 else (1 + (now - t.due) / t.interval) % u64_mod

unfoldable pub next_due : Timer → ℕ → ℕ
next_due t now =
    let remaining = t.interval - (now - t.due) % t.interval in
    if t.interval == 0 then 0 else if ltb (uint64_max - now) remaining then 0 else now + remaining

-- `timerfd_update`.
unfoldable pub update : Clock → Timer → Timer
update c t =
    let generation = if t.wall then c.wall_generation else t.generation in
    let now = now_of c t.wall in
    let n = expirations t now in
    if t.cancel_on_set && not (generation == t.generation)
    then record t {
      generation = generation;
      canceled = true;
      ticks = 0;
      due = 0;
      notified = t.notified + 1;
    }
    else if t.due == 0 || ltb now t.due
    then t
    else record t {
      due = next_due t now;
      ticks = (if ltb (uint64_max - t.ticks) n then uint64_max else t.ticks + n);
      notified = t.notified + 1;
    }

-- `timerfd_take`: the ticks, or ECANCELED, once.
unfoldable pub take : Clock → Timer → Ready (Outcome) × Timer
take c t =
    let u = update c t in
    if u.canceled
    then (ready (fails ecanceled), record u { canceled = false })
    else if u.ticks == 0
    then (not_yet, u)
    else (ready (count u.ticks), record u { ticks = 0 })

-- `timerfd_poll` asked for FS_POLL_READ.
unfoldable pub poll : Clock → Timer → Bool × Timer
poll c t = let u = update c t in (not (u.ticks == 0) || u.canceled, u)

-- `timerfd_ns`, of signed seconds and nanoseconds.
unfoldable pub timerfd_ns : ℤ → ℤ → Option ℕ
timerfd_ns (negsuc s) nsec = none
timerfd_ns (pos s) (negsuc n) = none
timerfd_ns (pos s) (pos n) =
    if leb ns_per_sec n
    then none
    else if ltb ((int64_max - n) / ns_per_sec) s
    then some int64_max
    else some (s * ns_per_sec + n)

-- `struct timerfd_spec`.
pub record Spec : Type 0 where
  pub interval_sec : ℕ
  pub interval_nsec : ℕ
  pub value_sec : ℕ
  pub value_nsec : ℕ

-- `timerfd_get`.
unfoldable pub get : Clock → Timer → Spec × Timer
get c t =
    let u = update c t in
    let now = now_of c u.wall in
    let left = if ltb now u.due then u.due - now else 0 in
    (
      record {
        interval_sec = u.interval / ns_per_sec;
        interval_nsec = u.interval % ns_per_sec;
        value_sec = left / ns_per_sec;
        value_nsec = left % ns_per_sec;
      },
      u,
    )

-- The part of `timerfd_control` that arms the timer, under its lock: `absolute` and `cancel` are
-- TFD_TIMER_ABSTIME and TFD_TIMER_CANCEL_ON_SET, the times what `timerfd_ns` made of the request.
unfoldable pub arm : Clock → Bool → Bool → ℕ → ℕ → Timer → Option Timer
arm c absolute cancel due interval t =
    let wall = t.clockid == 0 && absolute in
    let now = now_of c wall in
    if not absolute && ltb (uint64_max - now) due
    then none
    else some (
        update c (record t {
          wall = wall;
          generation = (if wall then c.wall_generation else 0);
          cancel_on_set = wall && cancel;
          canceled = false;
          ticks = 0;
          interval = interval;
          due = (if due == 0 then 0 else if absolute then due else now + due);
        }))

-- `struct timerfd_spec` as the caller gives it.
pub record Request : Type 0 where
  pub interval_sec : ℤ
  pub interval_nsec : ℤ
  pub value_sec : ℤ
  pub value_nsec : ℤ

-- `timerfd_control` with a value, of a descriptor that is a timer: the result and, if it was asked for,
-- what `timerfd_get` found before.
unfoldable pub settime :
    Clock → Bool → Bool → Bool → Bool → Request → Timer → Outcome × Option Spec × Timer
settime c unknown_flag absolute cancel want_old r t =
    let (old, t1) = get c t in
    let seen = if want_old then t1 else t in
    let told = if want_old then some old else none in
    if unknown_flag then (fails einval, none, t) else elim (timerfd_ns r.value_sec r.value_nsec) [
      | none ↦ (fails einval, none, t)
      | some due ↦ elim (timerfd_ns r.interval_sec r.interval_nsec) [
        | none ↦ (fails einval, none, t)
        | some interval ↦ elim (arm c absolute cancel due interval seen) [
          | none ↦ (fails einval, told, seen)
          | some t2 ↦ (count 0, told, t2)
        ]
      ]
    ]
