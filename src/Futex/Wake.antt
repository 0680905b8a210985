-- ===== src/Futex/Wake.antt =====
-- Which waiters are woken, and in which order.
use mos.Base.{
  ℕ, zero, suc, ◌≡◌, List, [], ◌∷◌, if◌then◌else◌, arith, refl, inl, inr, Bool-cases, ap, length,
  take, drop, min,
}
use mos.Futex.{Key, Waiter, Futex, matches, wake_task, wake_loop, wake_mask}

unfoldable pub hits : Key → ℕ → List Waiter → List Waiter
hits key bitset [] = []
hits key bitset (w ∷ ws) =
    let rest = hits key bitset ws in if matches key bitset w then w ∷ rest else rest

unfoldable pub misses : Key → ℕ → List Waiter → List Waiter
misses key bitset [] = []
misses key bitset (w ∷ ws) =
    let rest = misses key bitset ws in if matches key bitset w then rest else w ∷ rest

-- Waking some waiters one after the other.
unfoldable pub wake_all : List Waiter → Futex → Futex
wake_all [] s = s
wake_all (w ∷ ws) s = wake_all ws (wake_task w.task s)

-- The first `max_wake` waiters of the key and the mask are woken in the order in which they came, and the others stay
-- in their order.
pub record IsWoken (key : Key) (bitset max_wake : ℕ) (ws : List Waiter) (s : Futex) (n : ℕ)
    (left : List Waiter) (s' : Futex) : Type 0 where
  pub counted : n ≡ min max_wake (length (hits key bitset ws))
  pub sched : s'.sched ≡ (wake_all (take max_wake (hits key bitset ws)) s).sched
  pub flags : s'.woken ≡ (wake_all (take max_wake (hits key bitset ws)) s).woken
  pub left_hits : hits key bitset left ≡ drop max_wake (hits key bitset ws)
  pub left_misses : misses key bitset left ≡ misses key bitset ws

wake_loop-IsWoken :
    (key : Key) (bitset max_wake : ℕ) (ws : List Waiter) (s : Futex)
    → IsWoken key bitset max_wake ws s
        (wake_loop key bitset max_wake ws s).0
        (wake_loop key bitset max_wake ws s).1
        (wake_loop key bitset max_wake ws s).2
unfolding wake_loop hits misses wake_all
wake_loop-IsWoken key bitset zero [] s = record {
  counted = omega arith;
  sched = refl;
  flags = refl;
  left_hits = refl;
  left_misses = refl;
}
wake_loop-IsWoken key bitset (suc max_wake) [] s = record {
  counted = omega arith;
  sched = refl;
  flags = refl;
  left_hits = refl;
  left_misses = refl;
}
wake_loop-IsWoken key bitset zero (w ∷ ws) s = record {
  counted = omega arith;
  sched = refl;
  flags = refl;
  left_hits = refl;
  left_misses = refl;
}
wake_loop-IsWoken key bitset (suc max_wake) (w ∷ ws) s = elim (Bool-cases (matches key bitset w)) [
  | inl h ↦
      let r = wake_loop-IsWoken key bitset max_wake ws (wake_task w.task s) in
      rw (wake_loop, h)
        (record {
          counted = let c = r.counted in rw h (omega arith);
          sched = rw h r.sched;
          flags = rw h r.flags;
          left_hits = rw h r.left_hits;
          left_misses = rw h r.left_misses;
        })
  | inr h ↦
      let r = wake_loop-IsWoken key bitset (suc max_wake) ws s in
      rw (wake_loop, h)
        (record {
          counted = rw h r.counted;
          sched = rw h r.sched;
          flags = rw h r.flags;
          left_hits = rw h r.left_hits;
          left_misses = rw h (ap (λ (xs : List Waiter). w ∷ xs) r.left_misses);
        })
]

-- `futex_wake_mask_unsafe` wakes, of the waiters with the key and a common bit of the mask, as many as asked for, and
-- those that came first, in the order in which they came; it returns their number. They leave the list,
-- and every other waiter stays, each kind in its order.
pub wake_mask-IsWoken :
    (key : Key) (bitset max_wake : ℕ) (s : Futex)
    → IsWoken key bitset max_wake s.waiters s
        (wake_mask key max_wake bitset s).0
        (wake_mask key max_wake bitset s).1.waiters
        (wake_mask key max_wake bitset s).1
unfolding wake_mask
wake_mask-IsWoken key bitset max_wake s =
    let r = wake_loop-IsWoken key bitset max_wake s.waiters s in
    record {
      counted = r.counted;
      sched = r.sched;
      flags = r.flags;
      left_hits = r.left_hits;
      left_misses = r.left_misses;
    }
