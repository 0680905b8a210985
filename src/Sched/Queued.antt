-- ===== src/Sched/Queued.antt =====
-- Each task stands in the queue that its status tells.
use mos.Base.{
  ℕ, ◌+◌, ◌-◌, ◌≡◌, Bool, true, false, ◌&&◌, List, [], ◌∷◌, ◌++◌, ◌==◌, if◌then◌else◌, arith, inl,
  inr, put, delete, occurrences, occurrences-delete, occurrences-append, Bool-cases,
}
use mos.Sched.{
  Status, running, ready, waiting, stopped, dying, is_dying, Sched, put_to_ready_unsafe,
  put_to_wait, unlink,
}

-- The statuses of the tasks that may run, and of those that wait or are stopped.
unfoldable pub runs : Status → Bool
runs running = true
runs ready = true
runs waiting = false
runs stopped = false
runs dying = false

unfoldable pub blocked : Status → Bool
blocked running = false
blocked ready = false
blocked waiting = true
blocked stopped = true
blocked dying = false

-- A task that may run stands once in the ready queue of its priority, one that waits or is stopped once in the wait
-- list that `home` gives, and no task anywhere else.
pub record IsQueued (s : Sched) (home : ℕ → ℕ) : Type 0 where
  pub in_ready :
      (k t : ℕ)
      → occurrences t (s.ready_queue k) ≡ (
          if (s.tasks t).listed && runs (s.tasks t).status && ((s.tasks t).priority == k)
          then 1
          else 0)
  pub in_wait :
      (w t : ℕ)
      → occurrences t (s.wait_queue w)
        ≡ (if (s.tasks t).listed && blocked (s.tasks t).status && (home t == w) then 1 else 0)

occurrences-moved :
    (x t k i : ℕ) (queues : ℕ → List ℕ)
    → occurrences x (put (unlink t queues) i (delete t (queues i) ++ (t ∷ [])) k) ≡ (
        if x == t
        then occurrences x (queues k) - 1 + (if k == i then 1 else 0)
        else occurrences x (queues k))
unfolding occurrences
occurrences-moved x t k i queues =
    let d = occurrences-delete x t (queues k) in
    let e = occurrences-delete x t (queues i) in
    let a = occurrences-append x (delete t (queues i)) (t ∷ []) in ground arith

pub put_to_ready_unsafe-IsQueued :
    (t : ℕ) (s : Sched) (home : ℕ → ℕ) → IsQueued s home → IsQueued (put_to_ready_unsafe t s) home
unfolding put_to_ready_unsafe runs blocked
put_to_ready_unsafe-IsQueued t s home q = elim (Bool-cases (is_dying (s.tasks t).status)) [
  | inl d ↦ rw (put_to_ready_unsafe, d) q
  | inr d ↦ elim (Bool-cases (s.tasks t).listed) [
    | inl l ↦
        rw (put_to_ready_unsafe, d, l)
          (record {
            in_ready = λ k u.
                let m = occurrences-moved u t k (s.tasks t).priority s.ready_queue in
                let o = q.in_ready k u in ground arith;
            in_wait = λ w u.
                let d = occurrences-delete u t (s.wait_queue w) in
                let o = q.in_wait w u in ground arith;
          })
    | inr l ↦
        rw (put_to_ready_unsafe, d, l)
          (record {
            in_ready = λ k u. let o = q.in_ready k u in ground arith;
            in_wait = λ w u. let o = q.in_wait w u in ground arith;
          })
  ]
]

pub put_to_wait-IsQueued :
    (t w : ℕ) (s : Sched) (home : ℕ → ℕ)
    → IsQueued s home
    → IsQueued (put_to_wait t w s) (put home t w)
unfolding put_to_wait runs blocked
put_to_wait-IsQueued t w s home q = record {
  in_ready = λ k u.
      let d = occurrences-delete u t (s.ready_queue k) in let o = q.in_ready k u in ground arith;
  in_wait = λ v u.
      let m = occurrences-moved u t v w s.wait_queue in
      let d = occurrences-delete u t (s.wait_queue v) in let o = q.in_wait v u in ground arith;
}
