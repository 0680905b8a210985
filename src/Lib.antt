-- ===== src/Lib.antt =====
-- mos is a Unix-like kernel. This library models and verifies parts of its core: the byte ring and
-- the pipes over it, the packet filter, the wait loop behind poll, event and timer descriptors, the
-- byte-range locks of fcntl, the readers-writer lock, the semaphore and
-- the recursive mutex, the buddy allocator of physical pages, the kernel's heap, the scheduler and the
-- futexes over it, circular lists, division, the patterns of file names, and numbers as text.
--
-- Each part is a module named for it, with the data and the operations of the source, and below it modules for
-- what is proved, and Tests with runs and examples.
--   CycleBuf    src/lib/impl/cyclebuf.c: `struct _cy_buf` is the record CycleBuf, `cyb_putbuf` is
--               putbuf, and so on (Ops). IsValid and contents (Inv) are the invariant and the abstract
--               queue. `cond_wait` and `cond_notify` of src/lib/impl/lock.c appear as the lock
--               words of the two events.
--   Pipe        src/fs/impl/pipe.c: the file operations `pipe_read`, `pipe_write`, `pipe_poll_common`,
--               `pipe_reopen`, `pipe_release` over a CycleBuf.
--   RwLock      src/lib/impl/lock.c: `rwlock_t`. Exclusion has the step relation of all users of one lock.
--   Semaphore   src/lib/impl/lock.c: `sem_t`. Units has the step relation of all users of one semaphore.
--   Mutex       src/lib/impl/lock.c: `lock_base` and `rmutex_t`. Nesting has the step relation of its users.
--   Bpf         src/lib/impl/bpf.c and src/lib/bpf.h: `mos_bpf_verify` is Verify.verify, `mos_bpf_run` is Run.run.
--   Poll        src/fs/impl/poll.c: `poll_wait_loop`, for any check over any state.
--   EventFd     src/fs/impl/eventfd.c: the counter; its waits are Poll.wait_loop.
--   TimerFd     src/fs/impl/timerfd.c: `timerfd_update` and what calls it, for one timer and
--               a given clock; Calls has the list of all timers and the system calls.
--   PosixLock   src/fs/impl/posix_lock.c: the table `ranges`, the scan for conflicts, carving and
--               granting, and `fs_posix_lock` as a whole (Request).
--   Phymm       src/mm/impl/phymm.c: the pages and the free lists are the record Phymm. Alloc has the searches,
--               splitting and the public calls, Init the walk of the memory map, and Usable
--               says which pages the map gives. IsValid and IsHeld (Inv)
--               are the invariant, and `cover` (Measure) is the abstract view: in how many
--               free blocks a page is.
--   Kmalloc     src/lib/impl/kmalloc.c: the heap's headers, bins and bitmap are the record Heap. IsTiled (Tiles) says how
--               blocks and sentinels fill the chunks, IsBinned (Queue) that the bins hold the free blocks,
--               IsHeap (Valid) is the invariant; Serve is about malloc, Give about free.
--   Sched       src/ps/impl/alg/ps_alg_rr.c, and `task_sched` of src/ps/impl/sched/ps_switch.c: the ready and wait queues,
--               the timers and the processors are the record Sched. IsQueued (Queued), IsTimed (Timers) and IsSound
--               (Processors) are the invariant, and Steps has the step relation of all tasks and processors.
--   Futex       src/ps/impl/ps_futex.c: `futex_wake_mask_unsafe` is wake_mask, and the wait of `futex_execute` is wait_loop,
--               over a Sched. IsPending (Pending) says where the waiter of a task is.
--   LinkedList  src/lib/impl/list.c: the links of all entries are the record Links. IsRing (Ring) relates them to the
--               list of the entries, and Refine has the operations on that list. The other parts take their
--               queues as lists.
--   Arith       src/lib/impl/klib.c: `__udivmoddi4` is udivmod, `__divdi3` is divdi3; `u64_divmod` of
--               src/lib/impl/kstring.c is divmod.
--   Text        src/lib/impl/kstring.c: `strglob` is Glob.strglob, Match.Matches says what a pattern means,
--               and Bracket.InClass what a bracket expression does; Number has `itoa`, `lltoa`, `atoi`, `strlen`
--               and `strrev`, Memory `memmove`, and Search `strstr`.
--   Base        lists over the native numbers, machine words, error numbers, bits.
--
-- Concurrency. Code under a spinlock is one step. A call that may sleep takes, for each sleep, what the other
-- tasks do meanwhile, as functions on the shared state; its theorems hold for any such functions
-- that keep what the theorem names. If its list of sleeps runs out before its wait ends, the call
-- is `asleep`. The readers-writer lock, the semaphore, the mutex and the
-- scheduler are given as step relations as well, and their properties hold in every state that is reached.
--
-- Bounds. Machine words are native numbers with their wrap-around written out. `mos_bpf_run` has fuel for as many
-- instructions as the filter has: the program counter only grows, so they are enough, and the
-- safety theorem shows that a verified filter does not run out. The loop of `ceil_log2` has 33 rounds, which are
-- enough for up to 2^31 pages. `buddy_add_free_range` has as many rounds as pages, each of which adds one at least;
-- the loops of the allocator over orders have one round for each order. The division has 64 rounds
-- of alignment and 65 of subtraction, `strglob` as many rounds as its pattern has characters, and the
-- fall to shorter borders in `strstr` as many as characters are matched; the search of a word for its lowest bit has
-- 32, those of the bins and their bitmap and of the scheduler's levels one round for each; that these are
-- enough is part of their theorems. `strlen`, `atoi` and the loops of `itoa` over digits have fuel for as
-- many characters as the buffer is taken to hold; the round trip shows that 34, with a sign and the NUL,
-- are enough for a number of 32 bits. What has no fuel is recursion on rounds that the source counts, or on
-- the data. `cyb_putbuf` and `pipe_write` are about fewer than 2^31 bytes, since the C result is an `int`.
-- The depth of the recursive mutex is not bounded here; in C it wraps after 2^32 nested locks of one task.
--
-- Addresses are natural numbers. The top of the heap's chunks wraps at the end of the address space as in the source,
-- and the theorem on malloc has the bound that keeps it from that. The other sums of addresses do
-- not wrap: what `vm_alloc` gives lies far enough below that end. The parts but
-- Kmalloc are told whether their allocations succeed, or given the storage.
--
-- Not modelled: the bytes of the heap's payloads (and so zalloc), copies
-- between user and kernel memory, descriptor tables, the life and the signals of tasks (their dying
-- queues too; a child that a fork puts first in its queue is no event of Turn), the balance of the timer tree,
-- whose walk is the list of timers, the keys of futexes (given with the call) and robust lists, readiness subscriptions beyond
-- the record of wakeups, the caches' reclaim and the figures of page use, and the listing of locks as text.
pub mod Base
pub mod CycleBuf
pub mod Pipe
pub mod RwLock
pub mod Semaphore
pub mod Mutex
pub mod Bpf
pub mod Poll
pub mod EventFd
pub mod TimerFd
pub mod PosixLock
pub mod Phymm
pub mod Arith
pub mod Text
pub mod Kmalloc
pub mod Sched
pub mod Futex
pub mod LinkedList
