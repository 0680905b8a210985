-- ===== src/Mutex/Tests.antt =====
-- Task 3 locks twice and unlocks both while task 4 sleeps.
use mos.Base.{◌+◌, ◌<◌, refl, [], ◌∷◌, arith}
use mos.Mutex.{
  holds, try_acquire, try_registered, register, sleep, deepen, own, unlock, base_release,
}
use mos.Mutex.Nesting.{
  Shared, Reach, here, next, acquires, deepens, registers, sleeps, unlocks, releases, one_more,
  one_less, Reach-awake,
}

abbrev locked_twice : Shared
locked_twice = record {
  mutex = record { lock = 1; waiters = 1; wait_list = 4 ∷ []; woken = []; holder = 3; depth = 2 };
  calls = one_more (one_more (λ t. 0) 3) 3;
  awake = 0;
  releasing = 0;
  waking = 0;
}

locked_twice-Reach : Reach locked_twice
unfolding holds try_acquire try_registered register sleep deepen own
locked_twice-Reach =
    next
      (next
        (next (next here (acquires _ 3 _ (omega arith) refl refl)) (deepens _ 3 (omega arith) refl))
        (registers _))
      (sleeps _ 4 (omega arith) refl)

abbrev freed : Shared
freed = record {
  mutex = record { lock = 0; waiters = 1; wait_list = 4 ∷ []; woken = []; holder = 0; depth = 0 };
  calls = one_less (one_less locked_twice.calls 3) 3;
  awake = 0;
  releasing = 1;
  waking = 0;
}

freed-Reach : Reach freed
unfolding unlock base_release
freed-Reach =
    next (next locked_twice-Reach (unlocks _ 3 _ (omega arith) refl))
      (releases _ 3 _ (omega arith) refl)

Reach-awake_example : 0 < freed.awake + freed.releasing + freed.waking
Reach-awake_example = Reach-awake freed-Reach (omega arith) refl
