-- ===== src/RwLock.antt =====
-- The readers-writer lock of src/lib/impl/lock.c. The word `state` is given by its three fields: the
-- number of readers in the low 30 bits, RW_WRITER and RW_PENDING. Each atomic access of the word, and each
-- pass under `wait_lock`, is one operation; tasks in the wait queues are numbers.
pub mod Exclusion
mod Tests
use mos.Base.{
  ℕ, ◌+◌, Bool, true, false, ◌&&◌, ◌||◌, not, Option, none, some, List, [], ◌∷◌, ◌++◌, ltb, ◌==◌,
  if◌then◌else◌, add32, sub32,
}

-- RW_READERS, the largest number of readers.
abbrev pub rw_readers : ℕ
rw_readers = 0x3fffffff

pub record RwLock : Type 0 where
  pub readers : ℕ
  pub writer : Bool
  pub pending : Bool
  pub writers_waiting : ℕ
  pub reader_wait_list : List ℕ
  pub writer_wait_list : List ℕ
  pub woken : List ℕ

-- `rwlock_init`.
abbrev pub init : RwLock
init = record {
  readers = 0;
  writer = false;
  pending = false;
  writers_waiting = 0;
  reader_wait_list = [];
  writer_wait_list = [];
  woken = [];
}

-- An attempt to take the lock; `dies` is the kernel's DIE.
pub data Attempt : Type 0 where
  acquired : RwLock → Attempt
  busy dies : Attempt

-- `rwlock_try_read`.
unfoldable pub try_read : RwLock → Attempt
try_read l =
    if l.writer || l.pending
    then busy
    else if l.readers == rw_readers
    then dies
    else acquired (record l { readers = l.readers + 1 })

-- The slow path of `rwlock_read_lock` after an attempt that failed: the task is put to sleep.
unfoldable pub read_sleep : ℕ → RwLock → RwLock
read_sleep task l = record l { reader_wait_list = l.reader_wait_list ++ (task ∷ []) }

-- `lock_wake_one_unsafe` on either queue.
unfoldable pub wake_writer : RwLock → RwLock
wake_writer l = elim l.writer_wait_list [
  | [] ↦ l
  | task ∷ tasks ↦ record l { writer_wait_list = tasks; woken = task ∷ l.woken }
]

-- `while (lock_wake_one_unsafe(&rw->reader_wait_list));`
unfoldable pub wake_all : List ℕ → List ℕ → List ℕ
wake_all [] woken = woken
wake_all (task ∷ tasks) woken = wake_all tasks (task ∷ woken)

unfoldable pub wake_readers : RwLock → RwLock
wake_readers l = record l { reader_wait_list = []; woken = wake_all l.reader_wait_list l.woken }

-- The word is RW_PENDING and no more.
abbrev pub only_pending : RwLock → Bool
only_pending l = l.readers == 0 && not l.writer && l.pending

-- `rwlock_read_unlock` by a task that holds the lock: the new word, and whether the old one was
-- RW_PENDING | 1, in which case `read_unlock_wake` follows.
unfoldable pub read_unlock : RwLock → Bool × RwLock
read_unlock l =
    (l.readers == 1 && not l.writer && l.pending, record l { readers = sub32 l.readers 1 })

unfoldable pub read_unlock_wake : RwLock → RwLock
read_unlock_wake l = if only_pending l then wake_writer l else l

-- The first attempt of `rwlock_write_lock`, on the word 0.
unfoldable pub write_fast : RwLock → Attempt
write_fast l =
    if l.readers == 0 && not l.writer && not l.pending
    then acquired (record l { writer = true })
    else busy

-- It registers as a waiting writer and closes the gate for readers.
unfoldable pub write_register : RwLock → RwLock
write_register l = record l { writers_waiting = add32 l.writers_waiting 1; pending = true }

-- An attempt in its loop, with what follows if it succeeds: nothing else can change the word in between,
-- since both RW_WRITER and `wait_lock` are held.
unfoldable pub write_try : RwLock → Attempt
write_try l =
    let waiting = sub32 l.writers_waiting 1 in
    if only_pending l
    then acquired
        (record l { writer = true; writers_waiting = waiting; pending = not (waiting == 0) })
    else busy

unfoldable pub write_sleep : ℕ → RwLock → RwLock
write_sleep task l = record l { writer_wait_list = l.writer_wait_list ++ (task ∷ []) }

-- `rwlock_write_unlock`.
unfoldable pub write_unlock : RwLock → RwLock
write_unlock l =
    let left = record l { writer = false } in
    if ltb 0 l.writers_waiting then wake_writer left else wake_readers left
