-- ===== src/RwLock/Tests.antt =====
-- A lock that one task has taken for reading while another waits to write.
use mos.Base.{◌≡◌, refl, ◌⊎◌, arith, ◌∷◌, []}
use mos.RwLock.{
  init, try_read, write_register, write_sleep, read_unlock, read_unlock_wake, wake_writer,
}
use mos.RwLock.Exclusion.{Shared, Reach, here, next, reads, registers, Reach-exclusive}

abbrev contended : Shared
contended = record {
  lock = write_register (record init { readers = 1 });
  reading = 1;
  writing = 0;
  registered = 1;
}

contended-Reach : Reach contended
unfolding try_read write_register
contended-Reach =
    next (next here (reads _ (record init { readers = 1 }) refl)) (registers _ (omega arith))

Reach-exclusive_example :
    (contended.writing ≡ 0) ⊎ ((contended.writing ≡ 1) × (contended.reading ≡ 0))
Reach-exclusive_example = Reach-exclusive contended-Reach

-- The reader leaves, and wakes the writer, which has gone to sleep as task 5.
wakes_writer : (read_unlock_wake (read_unlock (write_sleep 5 contended.lock)).1).woken ≡ 5 ∷ []
unfolding write_sleep write_register read_unlock read_unlock_wake wake_writer
wakes_writer = refl
