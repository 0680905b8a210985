-- ===== src/EventFd/Tests.antt =====
-- Runs of event descriptors, at a counter of 3.
use mos.Base.{ℕ, ◌+◌, ◌≡◌, ◌≢◌, ◌⊎◌, refl, List, [], ◌∷◌, true, false, arith, none, fails, eagain}
use mos.Poll.{Round, not_yet}
use mos.Poll.{wait_loop}
use mos.EventFd.{
  EventFd, take, add, transfer, Request, delivers, done, read, eventfd2_state, eventfd_max,
  transfer_wait, poll,
}
use mos.EventFd.Counter.{
  IsBounded, transfer-IsOf, history, history_balance, ReadEnds, Others, read-ReadEnds,
  poll-transfer,
}

abbrev three : EventFd
three = eventfd2_state 3 false 0 0

abbrev empty : EventFd
empty = record three { counter = 0 }

-- Another task adds 5 while the caller sleeps, if they fit.
abbrev adds_five : Round EventFd ℕ
adds_five = record {
  late = false;
  before = λ s. s;
  refused = none;
  between = λ s. s;
  late_again = false;
  marked = λ s. s;
  signal_first = false;
  sleeping = λ s. (transfer (add 5) s).1;
  signal_after = false;
}

adds_five-Others : Others false take (adds_five ∷ [])
adds_five-Others = (
  record {
    before = λ s p. p;
    between = λ s p. p;
    marked = λ s p. p;
    sleeping = λ s p. transfer-IsOf false (add 5) s p;
    refused = λ e h. cc;
  },
  tt,
)

read-empty : (read false true 8 (adds_five ∷ []) empty).0 ≡ delivers 5
unfolding eventfd2_state read transfer_wait wait_loop transfer
read-empty = refl

read-nonblock : (read true true 8 [] empty).0 ≡ done (fails eagain)
unfolding eventfd2_state read transfer_wait wait_loop transfer
read-nonblock = refl

read-ReadEnds_example : ReadEnds false (read false true 8 (adds_five ∷ []) empty)
unfolding eventfd2_state
read-ReadEnds_example =
    read-ReadEnds false true 8 (adds_five ∷ []) empty (omega arith) (omega arith) adds_five-Others

abbrev requests : List Request
requests = add 4 ∷ take ∷ take ∷ add eventfd_max ∷ add 1 ∷ []

history_balance_example :
    IsBounded (history requests three).state
    × (three.counter + (history requests three).into
        ≡ (history requests three).state.counter + (history requests three).out)
unfolding eventfd2_state
history_balance_example = history_balance requests three (omega arith)

poll-transfer_example :
    ((poll 3 three ≡ 3)
      × ((transfer take three).0 ≢ not_yet)
      × ((transfer (add 1) three).0 ≢ not_yet))
    ⊎ ((poll 3 three ≡ 1)
        × ((transfer take three).0 ≢ not_yet)
        × ((transfer (add 1) three).0 ≡ not_yet))
    ⊎ ((poll 3 three ≡ 2)
        × ((transfer take three).0 ≡ not_yet)
        × ((transfer (add 1) three).0 ≢ not_yet))
unfolding eventfd2_state
poll-transfer_example = poll-transfer three (omega arith)
