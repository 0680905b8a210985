-- ===== src/EventFd/Counter.antt =====
-- The counter of an event descriptor: bounds, conservation, and what readiness means.
use mos.Base.{
  ℕ, ◌+◌, ◌≤◌, ◌<◌, ◌≡◌, ◌≢◌, refl, ◌⊎◌, inl, inr, Bool, true, false, List, [], ◌∷◌, arith, ltb,
  ◌==◌, if◌then◌else◌, Bool-cases, count, fails, eagain, eintr, efault, sub64,
}
use mos.Poll.{Ready, not_yet, ready, Round, Polled, found, nothing, interrupted, asleep, wait_loop}
use mos.Poll.Outcome.{AllKeep, Ended, wait_loop-Ended}
use mos.EventFd.{
  EventFd, eventfd_max, Request, take, add, transfer, transfer_wait, Result, done, delivers,
  unfinished, read, poll,
}

-- What the counter never exceeds.
abbrev pub IsBounded : EventFd → Type 0
IsBounded s = s.counter ≤ eventfd_max

-- A transfer keeps the bound.
pub transfer-IsBounded : (r : Request) (s : EventFd) → IsBounded s → IsBounded (transfer r s).1
unfolding transfer
transfer-IsBounded (add v) s b = ground arith
transfer-IsBounded take s b = ground arith

-- A read takes 1 from a semaphore and all from another counter, never 0, and waits exactly if the
-- counter is 0.
pub transfer-take :
    (s : EventFd)
    → IsBounded s
    → ((v : ℕ) × (transfer take s).0 ≡ ready v
        × ((transfer take s).1.counter + v ≡ s.counter)
        × (0 < v)
        × (((s.semaphore ≡ true) × (v ≡ 1)) ⊎ ((s.semaphore ≡ false) × (v ≡ s.counter))))
      ⊎ ((transfer take s ≡ (not_yet, s)) × (s.counter ≡ 0))
unfolding transfer
transfer-take s b = elim (Bool-cases (s.counter == 0)) [
  | inl zero_now ↦ inr (rw zero_now, ground arith)
  | inr some_there ↦ inl (
    (if s.semaphore then 1 else s.counter),
    rw some_there,
    ground arith,
    ground arith,
    ground arith,
  )
]

-- A write adds its value, or waits exactly if the sum would exceed the largest counter.
pub transfer-add :
    (v : ℕ) (s : EventFd)
    → IsBounded s
    → ((s.counter + v ≤ eventfd_max)
        × ((transfer (add v) s).0 ≡ ready v)
        × ((transfer (add v) s).1.counter ≡ s.counter + v))
      ⊎ ((eventfd_max < s.counter + v) × (transfer (add v) s ≡ (not_yet, s)))
unfolding transfer
transfer-add v s b = elim (Bool-cases (ltb (sub64 eventfd_max s.counter) v)) [
  | inl full ↦ inr (ground arith, rw full)
  | inr room ↦ inl (ground arith, rw room, ground arith)
]

-- What a request moves in and out.
abbrev moved_in : Request → Ready ℕ → ℕ
moved_in (add v) (ready n) = n
moved_in _ r = 0

abbrev moved_out : Request → Ready ℕ → ℕ
moved_out take (ready n) = n
moved_out _ r = 0

-- The totals that a history of transfers has moved in and out, and the state behind it.
pub record Ledger : Type 0 where
  pub into : ℕ
  pub out : ℕ
  pub state : EventFd

pub history : List Request → EventFd → Ledger
history [] s = record { into = 0; out = 0; state = s }
history (r ∷ rs) s =
    let (n, s') = transfer r s in
    let rest = history rs s' in
    record { into = moved_in r n + rest.into; out = moved_out r n + rest.out; state = rest.state }

transfer_balance :
    (r : Request) (s : EventFd)
    → IsBounded s
    → s.counter + moved_in r (transfer r s).0
      ≡ (transfer r s).1.counter + moved_out r (transfer r s).0
unfolding transfer
transfer_balance (add v) s b = ground arith
transfer_balance take s b = ground arith

-- Over any history of transfers, finished or not, the counter stays in range and accounts for all
-- that was written and read: what it held at first and all that was written is what it holds and all that
-- was read.
pub history_balance :
    (rs : List Request) (s : EventFd)
    → IsBounded s
    → IsBounded (history rs s).state
      × (s.counter + (history rs s).into ≡ (history rs s).state.counter + (history rs s).out)
unfolding history
history_balance [] s b = (b, refl)
history_balance (r ∷ rs) s b =
    let rest = history_balance rs (transfer r s).1 (transfer-IsBounded r s b) in
    (rest.0, omega (arith, rest.1, transfer_balance r s b))

-- Readiness of a counter in range is what a transfer would find: `eventfd_poll` asked for both events reports the
-- readable one exactly if a read would not wait, and the writable one exactly if a write of 1
-- would not.
pub poll-transfer :
    (s : EventFd)
    → IsBounded s
    → ((poll 3 s ≡ 3) × ((transfer take s).0 ≢ not_yet) × ((transfer (add 1) s).0 ≢ not_yet))
      ⊎ ((poll 3 s ≡ 1) × ((transfer take s).0 ≢ not_yet) × ((transfer (add 1) s).0 ≡ not_yet))
      ⊎ ((poll 3 s ≡ 2) × ((transfer take s).0 ≡ not_yet) × ((transfer (add 1) s).0 ≢ not_yet))
unfolding poll transfer
poll-transfer s b = elim (Bool-cases (s.counter == 0)) [
  | inl zero_now ↦
      let w : ltb s.counter eventfd_max ≡ true = ground arith in
      let f : ltb (sub64 eventfd_max s.counter) 1 ≡ false = ground arith in
      inr (inr (rw (zero_now, w) refl, rw zero_now refl, rw f (λ e. cc)))
  | inr some_there ↦ elim (Bool-cases (ltb s.counter eventfd_max)) [
    | inl room ↦
        let f : ltb (sub64 eventfd_max s.counter) 1 ≡ false = ground arith in
        inl (rw (some_there, room) refl, rw some_there (λ e. cc), rw f (λ e. cc))
    | inr full ↦
        let f : ltb (sub64 eventfd_max s.counter) 1 ≡ true = ground arith in
        inr (inl (rw (some_there, full) refl, rw some_there (λ e. cc), rw f refl))
  ]
]

-- What a read moves out of the counter `n`: the value `v`, where `n'` is left.
abbrev pub Taken : Bool → ℕ → ℕ → ℕ → Type 0
Taken true n v n' = (0 < n) × (v ≡ 1) × (n' + 1 ≡ n)
Taken false n v n' = (0 < n) × (v ≡ n) × (n' ≡ 0)

-- A counter in range, of the kind that EFD_SEMAPHORE chose.
abbrev pub IsOf : Bool → EventFd → Type 0
IsOf semaphore s = IsBounded s × (s.semaphore ≡ semaphore)

-- The end of an `eventfd_read`. A value comes from a state that `transfer` found.
abbrev pub ReadEnds : Bool → Result × EventFd → Type 0
ReadEnds semaphore (delivers v, s') =
    (s : EventFd) × IsOf semaphore s
    × (transfer take s ≡ (ready v, s'))
    × Taken semaphore s.counter v s'.counter
    × IsOf semaphore s'
ReadEnds semaphore (done (count n), s') = ⊥
ReadEnds semaphore (done (fails e), s') =
    ((e ≡ efault) × IsBounded s') ⊎ (((e ≡ eagain) ⊎ (e ≡ eintr)) × (s'.counter ≡ 0))
ReadEnds semaphore (unfinished, s') = IsBounded s'

-- Other tasks keep the counter in range and its kind, and no registration fails (`poll_subscribe` cannot).
abbrev pub Others : Bool → Request → List (Round EventFd ℕ) → Type 0
Others semaphore r = AllKeep (transfer r) (IsOf semaphore) (λ v. ⊥)

pub transfer-IsOf :
    (semaphore : Bool) (r : Request) (s : EventFd)
    → IsOf semaphore s
    → IsOf semaphore (transfer r s).1
unfolding transfer
transfer-IsOf semaphore (add v) s b = (transfer-IsBounded (add v) s b.0, ground (arith, b.1))
transfer-IsOf semaphore take s b = (transfer-IsBounded take s b.0, ground (arith, b.1))

-- A transfer that is made, and one that is not.
taken :
    (semaphore : Bool) (t : EventFd) (v : ℕ) (s' : EventFd)
    → IsOf semaphore t
    → transfer take t ≡ (ready v, s')
    → Taken semaphore t.counter v s'.counter × IsOf semaphore s'
unfolding transfer
taken true t v s' (b, k) e =
    ((ground arith, ground arith, ground arith), (ground arith, ground arith))
taken false t v s' (b, k) e =
    ((ground arith, ground arith, ground arith), (ground arith, ground arith))

not_taken : (t s' : EventFd) → transfer take t ≡ (not_yet, s') → s'.counter ≡ 0
unfolding transfer
not_taken t s' e = ground arith

-- A whole `eventfd_read` of at least 8 bytes, whatever other tasks do to the counter while it waits as long
-- as they keep it in range and its kind: it delivers a value only as a transfer moves it, which is 1 from a
-- semaphore and all there is from another counter, never from 0, and what is left is the rest; it returns EAGAIN or EINTR only if the counter was 0 when it looked last, and no other error
-- but EFAULT; and the counter stays in range.
pub read-ReadEnds :
    (nonblock copied : Bool) (size : ℕ) (rounds : List (Round EventFd ℕ)) (s : EventFd)
    → 8 ≤ size
    → IsBounded s
    → Others s.semaphore take rounds
    → ReadEnds s.semaphore (read nonblock copied size rounds s)
unfolding read transfer_wait
read-ReadEnds nonblock copied size rounds s enough b others =
    let e : ltb size 8 ≡ false = ground arith in
    rw e (
      go copied (wait_loop (transfer take) nonblock rounds s) (
        wait_loop-Ended (transfer take) (IsOf s.semaphore) (λ v. ⊥) nonblock rounds s
          (transfer-IsOf s.semaphore take) others (b, refl)))
  where
    go :
        (copied : Bool) (p : Polled ℕ × EventFd)
        → Ended (transfer take) (IsOf s.semaphore) (λ v. ⊥) p
        → ReadEnds s.semaphore (
          (elim p.0 [
            | found v ↦ if copied then delivers v else done (fails efault)
            | nothing ↦ done (fails eagain)
            | interrupted ↦ done (fails eintr)
            | asleep ↦ unfinished
          ]),
          p.1,
        )
    go c (found v, s') (inr x) = absurd x
    go true (found v, s') (inl (t, bt, e)) =
        let k = taken s.semaphore t v s' bt e in (t, bt, e, k.0, k.1)
    go false (found v, s') (inl (t, bt, e)) = inl (refl, (taken s.semaphore t v s' bt e).1.0)
    go c (nothing, s') (t, bt, e) = inr (inl refl, not_taken t s' e)
    go c (interrupted, s') (t, bt, e) = inr (inr refl, not_taken t s' e)
    go c (asleep, s') p = p.0
