-- ===== src/EventFd.antt =====
-- src/fs/impl/eventfd.c: a counter that writers add to and readers take from. Spinlocks make a
-- transfer one step; a wait is `poll_wait_loop` (Poll), with what other tasks do as its rounds.
pub mod Counter
mod Tests
use mos.Base.{
  ℕ, ◌+◌, ◌%◌, Bool, true, false, ◌&&◌, ◌||◌, not, List, ltb, ◌==◌, if◌then◌else◌, bit_and, bit_or,
  u64_mod, sub64, Outcome, count, fails, eagain, eintr, einval, efault, enomem, Option, none, some,
  ◌-◌,
}
use mos.Poll.{Ready, not_yet, ready, Round, Polled, found, nothing, interrupted, asleep, wait_loop}

abbrev pub uint64_max : ℕ
uint64_max = 0xffffffffffffffff

abbrev pub eventfd_max : ℕ
eventfd_max = uint64_max - 1

-- `eventfd_state`; `notified` counts the calls of `poll_notify`.
pub record EventFd : Type 0 where
  pub counter : ℕ
  pub semaphore : Bool
  pub uid : ℕ
  pub gid : ℕ
  pub notified : ℕ

-- `eventfd_wait`: a read, or a write of a value.
pub data Request : Type 0 where
  take : Request
  add : ℕ → Request

-- `eventfd_transfer`. What is ready is the value moved; the C result is its size, 8.
unfoldable pub transfer : Request → EventFd → Ready ℕ × EventFd
transfer (add v) s =
    if ltb (sub64 eventfd_max s.counter) v
    then (not_yet, s)
    else (ready v, record s { counter = (s.counter + v) % u64_mod; notified = s.notified + 1 })
transfer take s =
    let v = if s.semaphore then 1 else s.counter in
    if s.counter == 0
    then (not_yet, s)
    else (ready v, record s { counter = sub64 s.counter v; notified = s.notified + 1 })

-- The result of a call, with the value that a read delivers; `unfinished` if its wait does not end
-- within the rounds given.
pub data Result : Type 0 where
  done : Outcome → Result
  delivers : ℕ → Result
  unfinished : Result

-- `eventfd_transfer_wait`, with the `O_NONBLOCK` of the file.
unfoldable pub transfer_wait :
    Bool → Request → List (Round EventFd ℕ) → EventFd → Polled ℕ × EventFd
transfer_wait nonblock request rounds s = wait_loop (transfer request) nonblock rounds s

-- `eventfd_read` of `size` bytes; `copied` says whether the value can be written to the caller.
unfoldable pub read : Bool → Bool → ℕ → List (Round EventFd ℕ) → EventFd → Result × EventFd
read nonblock copied size rounds s =
    let (r, s') = transfer_wait nonblock take rounds s in
    let result : Result = elim r [
      | found v ↦ if copied then delivers v else done (fails efault)
      | nothing ↦ done (fails eagain)
      | interrupted ↦ done (fails eintr)
      | asleep ↦ unfinished
    ] in
    if ltb size 8 then (done (fails einval), s) else (result, s')

-- `eventfd_write` of the value `v` in `size` bytes; `copied` says whether it can be read from the caller.
unfoldable pub write : Bool → Bool → ℕ → ℕ → List (Round EventFd ℕ) → EventFd → Result × EventFd
write nonblock copied size v rounds s =
    let (r, s') = transfer_wait nonblock (add v) rounds s in
    let result : Result = elim r [
      | found _ ↦ done (count 8)
      | nothing ↦ done (fails eagain)
      | interrupted ↦ done (fails eintr)
      | asleep ↦ unfinished
    ] in
    if not (size == 8)
    then (done (fails einval), s)
    else if not copied
    then (done (fails efault), s)
    else if v == uint64_max
    then (done (fails einval), s)
    else (result, s')

abbrev pub poll_read : ℕ
poll_read = 1

abbrev pub poll_write : ℕ
poll_write = 2

-- `eventfd_poll`: the events asked for that are ready.
unfoldable pub poll : ℕ → EventFd → ℕ
poll events s =
    bit_or (if s.counter == 0 then 0 else bit_and events poll_read)
      (if ltb s.counter eventfd_max then bit_and events poll_write else 0)

-- The state that `sys_eventfd2` allocates.
unfoldable pub eventfd2_state : ℕ → Bool → ℕ → ℕ → EventFd
eventfd2_state initval semaphore uid gid = record {
  counter = initval;
  semaphore = semaphore;
  uid = uid;
  gid = gid;
  notified = 0;
}

-- `sys_eventfd2`. The flags are given by their bits: one that is not known, and EFD_SEMAPHORE.
-- `allocated` says whether the three objects could be, and `install` is what `fs_install_fd`
-- returned, a descriptor or an error (EMFILE where that is -1).
unfoldable pub eventfd2 : ℕ → Bool → Bool → Bool → Outcome → ℕ → ℕ → Outcome × Option EventFd
eventfd2 initval unknown_flag semaphore allocated install uid gid =
    if unknown_flag
    then (fails einval, none)
    else if not allocated
    then (fails enomem, none)
    else elim install [
      | count fd ↦ (count fd, some (eventfd2_state initval semaphore uid gid))
      | fails e ↦ (fails e, none)
    ]
