-- ===== src/TimerFd/Expire.antt =====
-- Expirations counted exactly, and what reading and polling a timer mean.
use native.Mathlib.Nat.{div-add-mod, mod-lt}
use mos.Base.{
  ℕ, ◌+◌, ◌-◌, ◌*◌, ◌/◌, ◌%◌, min, ◌≤◌, ◌<◌, ◌≡◌, refl, ◌⊎◌, inl, inr, Bool, true, false, not, ◌&&◌,
  ◌||◌, ltb, ◌==◌, leb, if◌then◌else◌, arith, Bool-cases, u64_mod, count, fails, ecanceled, none,
  some, pos,
}
use mos.Poll.{not_yet, ready}
use mos.TimerFd.{
  Clock, Timer, now_of, expirations, next_due, update, take, poll, uint64_max, timerfd_ns,
  ns_per_sec, int64_max,
}

module _ (t : Timer) (now : ℕ) (periodic : 0 < t.interval) (armed : 0 < t.due) (over : t.due ≤ now)
    (small : now < u64_mod) where
  abbrev q : ℕ
  q = (now - t.due) / t.interval

  abbrev r : ℕ
  r = (now - t.due) % t.interval

  parts : t.interval * q + r ≡ now - t.due
  parts = div-add-mod (now - t.due) t.interval

  rest : r < t.interval
  rest = mod-lt (now - t.due) periodic

  quotient_le : q ≤ now - t.due
  quotient_le = grind (arith, parts)

  pub expirations_eq : expirations t now ≡ 1 + q
  unfolding expirations
  expirations_eq = ground (arith, quotient_le)

  -- The number of expirations is that of the deadlines `due`, `due + interval`, ... up to now, and the
  -- next one is the first behind now, or 0 if it is past the end of the clock.
  expirations_exact :
      (t.due + (expirations t now - 1) * t.interval ≤ now)
      × (now < t.due + expirations t now * t.interval)
      × ((next_due t now ≡ t.due + expirations t now * t.interval)
          ⊎ ((next_due t now ≡ 0) × (uint64_max < t.due + expirations t now * t.interval)))
  unfolding next_due
  expirations_exact =
      let product : (1 + q) * t.interval ≡ t.interval + t.interval * q = grind arith in
      let before : (1 + q - 1) * t.interval ≡ t.interval * q = grind arith in
      rw expirations_eq (
        omega (arith, parts, before),
        omega (arith, parts, rest, product),
        ground (arith, parts, rest, product),
      )

-- The timer has nothing to do at that time.
abbrev pub IsSettled : Clock → Timer → Type 0
IsSettled c t =
    ((t.due ≡ 0) ⊎ (now_of c t.wall < t.due))
    × ((t.cancel_on_set
          && not ((if t.wall then c.wall_generation else t.generation) == t.generation))
        ≡ false)

next_due_later : (t : Timer) (now : ℕ) → (next_due t now ≡ 0) ⊎ (now < next_due t now)
unfolding next_due
next_due_later t now = elim (Bool-cases (t.interval == 0)) [
  | inl once ↦ rw once (inl refl)
  | inr periodic ↦
      let m : (now - t.due) % t.interval < t.interval =
        mod-lt (now - t.due) {m = t.interval} (ground arith) in
      rw periodic (ground (arith, m))
]

abbrev pub changed : Clock → Timer → Bool
changed c t =
    t.cancel_on_set && not ((if t.wall then c.wall_generation else t.generation) == t.generation)

-- After `timerfd_update` the timer is off or due strictly later, and no change of the clock is left
-- to be noticed.
pub update-IsSettled : (c : Clock) (t : Timer) → IsSettled c (update c t)
unfolding update
update-IsSettled c t = elim (Bool-cases (changed c t)) [
  | inl canceled ↦ rw canceled (inl refl, ground arith)
  | inr steady ↦ elim (Bool-cases (t.due == 0 || ltb (now_of c t.wall) t.due)) [
    | inl quiet ↦ rw (steady, quiet) (ground arith, steady)
    | inr over ↦ rw (steady, over) (next_due_later t (now_of c t.wall), steady)
  ]
]

settled : (c : Clock) (t : Timer) → IsSettled c t → update c t ≡ t
unfolding update
settled c t (off, steady) =
    let quiet : (t.due == 0 || ltb (now_of c t.wall) t.due) ≡ true = ground arith in
    rw (steady, quiet)

-- So a second update at the same time changes nothing: no expiration is counted twice.
pub update_idempotent : (c : Clock) (t : Timer) → update c (update c t) ≡ update c t
update_idempotent c t = settled c (update c t) (update-IsSettled c t)

-- A read takes the whole count, which is not 0, or reports a cancellation once; it waits exactly if
-- the poll at that time reports nothing, and right after a read that took the count the poll reports
-- nothing.
pub take-poll :
    (c : Clock) (t : Timer)
    → (((poll c t).0 ≡ false) × ((take c t).0 ≡ not_yet) × ((take c t).1 ≡ update c t))
      ⊎ ((n : ℕ) × ((poll c t).0 ≡ true)
          × ((take c t).0 ≡ ready (count n))
          × (0 < n)
          × ((poll c (take c t).1).0 ≡ false))
      ⊎ (((poll c t).0 ≡ true)
          × ((take c t).0 ≡ ready (fails ecanceled))
          × ((take c t).1.canceled ≡ false))
unfolding take poll
take-poll c t = elim (Bool-cases (update c t).canceled) [
  | inl canceled ↦ inr (inr (ground arith, rw canceled refl, rw canceled refl))
  | inr kept ↦ elim (Bool-cases ((update c t).ticks == 0)) [
    | inl none_yet ↦ inl (ground arith, rw (kept, none_yet) refl, rw (kept, none_yet) refl)
    | inr some_there ↦ inr (
        inl (
          (update c t).ticks,
          ground arith,
          rw (kept, some_there) refl,
          ground arith,
          rw (kept, some_there)
              (rw
                (settled c (record (update c t) { ticks = 0; canceled = false })
                  (update-IsSettled c t))
                refl),
        ))
  ]
]

-- `timerfd_ns` accepts exactly the non-negative times with fewer than 10^9 nanoseconds, and its value
-- is the time in nanoseconds, capped at the largest signed 64-bit number.
pub timerfd_ns_lem :
    (s n : ℕ)
    → ((n < ns_per_sec) × (timerfd_ns (pos s) (pos n) ≡ some (min int64_max (s * ns_per_sec + n))))
      ⊎ ((ns_per_sec ≤ n) × (timerfd_ns (pos s) (pos n) ≡ none))
unfolding timerfd_ns
timerfd_ns_lem s n = elim (Bool-cases (leb ns_per_sec n)) [
  | inl many ↦ inr (ground arith, rw many)
  | inr few ↦ elim (Bool-cases (ltb ((int64_max - n) / ns_per_sec) s)) [
    | inl far ↦
        let e : min int64_max (s * ns_per_sec + n) ≡ int64_max = ground arith in
        inl (ground arith, rw (few, far, e))
    | inr near ↦
        let e : min int64_max (s * ns_per_sec + n) ≡ s * ns_per_sec + n = ground arith in
        inl (ground arith, rw (few, near, e))
  ]
]

-- `timerfd_update` of an overdue periodic timer, no clock change pending: the count goes up (to the
-- largest 64-bit number at most) by the number of the deadlines `due`, `due + interval`, ... that are
-- past, and the next deadline is the first later one, or off if that is beyond the 64-bit clock.
pub update_exact :
    (c : Clock) (t : Timer)
    → changed c t ≡ false
    → 0 < t.interval
    → 0 < t.due
    → t.due ≤ now_of c t.wall
    → let n = expirations t (now_of c t.wall) in
      (t.due + (n - 1) * t.interval ≤ now_of c t.wall)
      × (now_of c t.wall < t.due + n * t.interval)
      × ((update c t).ticks ≡ min uint64_max (t.ticks + n))
      × (((update c t).due ≡ t.due + n * t.interval)
          ⊎ (((update c t).due ≡ 0) × (uint64_max < t.due + n * t.interval)))
unfolding update
update_exact c t steady periodic armed over =
    let quiet : (t.due == 0 || ltb (now_of c t.wall) t.due) ≡ false = ground arith in
    let e = expirations_exact t (now_of c t.wall) periodic armed over (omega arith) in
    rw (steady, quiet) (e.0, e.1, ground arith, e.2)
