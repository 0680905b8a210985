-- ===== src/RwLock/Exclusion.antt =====
-- Mutual exclusion and the preference of writers, over any interleaving of the lock's operations.
use mos.Base.{
  sub32, ℕ, ◌+◌, ◌-◌, ◌≤◌, ◌<◌, ◌≡◌, refl, ◌⊎◌, inl, inr, true, not, ◌&&◌, ◌||◌, ltb, ◌==◌, arith,
  u32_mod, Bool-cases,
}
use mos.RwLock.{
  RwLock, init, acquired, busy, dies, try_read, read_sleep, wake_writer, wake_readers, read_unlock,
  read_unlock_wake, write_fast, write_register, write_try, write_sleep, write_unlock, rw_readers,
}

-- The lock with what its users are at: how many read, how many write, and how many wait to write.
pub record Shared : Type 0 where
  pub lock : RwLock
  pub reading : ℕ
  pub writing : ℕ
  pub registered : ℕ

-- One operation by any task; a task releases only what it holds, and the number of waiting writers fits
-- its counter.
pub data Step : Shared → Shared → Type 0 where
  reads :
      (s : Shared) (l : RwLock)
      → try_read s.lock ≡ acquired l
      → Step s (record s { lock = l; reading = s.reading + 1 })
  read_sleeps :
      (s : Shared) (task : ℕ)
      → try_read s.lock ≡ busy
      → Step s (record s { lock = read_sleep task s.lock })
  read_unlocks :
      (s : Shared)
      → 0 < s.reading
      → Step s (record s { lock = (read_unlock s.lock).1; reading = s.reading - 1 })
  read_wakes : (s : Shared) → Step s (record s { lock = read_unlock_wake s.lock })
  writes_fast :
      (s : Shared) (l : RwLock)
      → write_fast s.lock ≡ acquired l
      → Step s (record s { lock = l; writing = s.writing + 1 })
  registers :
      (s : Shared)
      → s.registered + 1 < u32_mod
      → Step s (record s { lock = write_register s.lock; registered = s.registered + 1 })
  writes :
      (s : Shared) (l : RwLock)
      → 0 < s.registered
      → write_try s.lock ≡ acquired l
      → Step s (record s { lock = l; writing = s.writing + 1; registered = s.registered - 1 })
  write_sleeps :
      (s : Shared) (task : ℕ)
      → 0 < s.registered
      → write_try s.lock ≡ busy
      → Step s (record s { lock = write_sleep task s.lock })
  write_unlocks :
      (s : Shared)
      → 0 < s.writing
      → Step s (record s { lock = write_unlock s.lock; writing = s.writing - 1 })

pub data Reach : Shared → Type 0 where
  here : Reach (record { lock = init; reading = 0; writing = 0; registered = 0 })
  next : {s t : Shared} → Reach s → Step s t → Reach t

-- The word says who holds the lock and whether a writer waits.
pub record IsExact (s : Shared) : Type 0 where
  pub readers : s.lock.readers ≡ s.reading
  pub few : s.reading ≤ rw_readers
  pub writer : s.lock.writer ≡ (s.writing == 1)
  pub waiting : s.lock.writers_waiting ≡ s.registered
  pub bounded : s.registered < u32_mod
  pub pending : s.lock.pending ≡ ltb 0 s.registered
  pub exclusive : ((s.writing ≡ 0) ⊎ ((s.writing ≡ 1) × (s.reading ≡ 0)))

Step-IsExact : {s t : Shared} → Step s t → IsExact s → IsExact t
unfolding try_read read_sleep wake_writer wake_readers read_unlock read_unlock_wake write_fast
    write_register write_try write_sleep write_unlock
Step-IsExact (reads s l e) x = ground arith
Step-IsExact (read_sleeps s task e) x = ground arith
Step-IsExact (read_unlocks s h) x = ground arith
Step-IsExact (read_wakes s) x = ground arith
Step-IsExact (writes_fast s l e) x = ground arith
Step-IsExact (registers s h) x = ground arith
Step-IsExact (writes s l h e) x = ground arith
Step-IsExact (write_sleeps s task h e) x = ground arith
Step-IsExact (write_unlocks s h) x = ground arith

Reach-IsExact : {s : Shared} → Reach s → IsExact s
Reach-IsExact here = ground arith
Reach-IsExact (next r step) = Step-IsExact step (Reach-IsExact r)

-- After any interleaving of the operations of any number of tasks, at most one task writes, and while one
-- does, none reads.
pub Reach-exclusive : {s : Shared} → Reach s → (s.writing ≡ 0) ⊎ ((s.writing ≡ 1) × (s.reading ≡ 0))
Reach-exclusive r = (Reach-IsExact r).exclusive

-- In any state that is reached, a reader is let in exactly if no task writes and none waits to write,
-- unless the number of readers is at its limit, where the kernel dies; so a waiting writer is never passed
-- by a new reader.
pub try_read-exact :
    {s : Shared}
    → Reach s
    → (((s.writing ≡ 0) × (s.registered ≡ 0) × (s.reading < rw_readers))
        × (l : RwLock) × (try_read s.lock ≡ acquired l))
      ⊎ (((s.writing ≡ 1) ⊎ (0 < s.registered)) × (try_read s.lock ≡ busy))
      ⊎ (((s.writing ≡ 0) × (s.registered ≡ 0) × (s.reading ≡ rw_readers))
          × (try_read s.lock ≡ dies))
unfolding try_read
try_read-exact {s} r =
    let x = Reach-IsExact r in
    elim (Bool-cases (s.lock.writer || s.lock.pending)) [
      | inl shut ↦ inr (inl (ground arith, rw shut refl))
      | inr admits ↦ elim (Bool-cases (s.lock.readers == rw_readers)) [
        | inl full ↦ inr (inr (ground arith, rw (admits, full) refl))
        | inr room ↦
            inl (
              ground arith,
              record (s.lock) { readers = s.lock.readers + 1 },
              rw (admits, room) refl,
            )
      ]
    ]

-- In any state that is reached, the first attempt of a writer succeeds exactly if no task reads,
-- writes or waits to write; and the attempt of a waiting one exactly if no task reads or writes.
pub write_try-exact :
    {s : Shared}
    → Reach s
    → (((s.reading ≡ 0)
          × (s.writing ≡ 0)
          × (s.registered ≡ 0)
          × (l : RwLock) × (write_fast s.lock ≡ acquired l))
        ⊎ (((0 < s.reading) ⊎ (s.writing ≡ 1) ⊎ (0 < s.registered)) × (write_fast s.lock ≡ busy)))
      × (0 < s.registered
          → (((s.reading ≡ 0) × (s.writing ≡ 0) × (l : RwLock) × (write_try s.lock ≡ acquired l))
              ⊎ (((0 < s.reading) ⊎ (s.writing ≡ 1)) × (write_try s.lock ≡ busy))))
unfolding write_fast write_try
write_try-exact {s} r = (first, λ waits. later waits)
  where
    first :
        ((s.reading ≡ 0)
          × (s.writing ≡ 0)
          × (s.registered ≡ 0)
          × (l : RwLock) × (write_fast s.lock ≡ acquired l))
        ⊎ (((0 < s.reading) ⊎ (s.writing ≡ 1) ⊎ (0 < s.registered)) × (write_fast s.lock ≡ busy))
    first =
        let exact = Reach-IsExact r in
        elim (Bool-cases (s.lock.readers == 0 && not s.lock.writer && not s.lock.pending)) [
          | inl free ↦ inl (
            ground arith,
            ground arith,
            ground arith,
            record (s.lock) { writer = true },
            rw free refl,
          )
          | inr taken ↦ inr (ground arith, rw taken refl)
        ]

    later :
        0 < s.registered
        → ((s.reading ≡ 0) × (s.writing ≡ 0) × (l : RwLock) × (write_try s.lock ≡ acquired l))
          ⊎ (((0 < s.reading) ⊎ (s.writing ≡ 1)) × (write_try s.lock ≡ busy))
    later waits =
        let exact = Reach-IsExact r in
        elim (Bool-cases (s.lock.readers == 0 && not s.lock.writer && s.lock.pending)) [
          | inl free ↦
              let waiting = sub32 s.lock.writers_waiting 1 in
              inl (
                ground arith,
                ground arith,
                record (s.lock) {
                  writer = true;
                  writers_waiting = waiting;
                  pending = not (waiting == 0);
                },
                rw free refl,
              )
          | inr taken ↦ inr (ground arith, rw taken refl)
        ]
