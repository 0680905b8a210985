-- ===== src/Sched/Pick.antt =====
-- The choice of the next task.
use mos.Base.{
  ℕ, zero, suc, ◌≡◌, ◌<◌, ◌≤◌, Bool, true, false, List, [], ◌∷◌, ◌==◌, arith, inl, inr, put, delete,
  occurrences, occurrences-delete, occurrences-append, Bool-cases, Option, none, some, Option-cases,
  subst,
}
use mos.Sched.{Sched, first_available, level_loop, rotate}
use mos.Sched.Queued.{IsQueued}

pub first_available-IsIn :
    (ok : ℕ → Bool) (ts : List ℕ) (t : ℕ)
    → first_available ok ts ≡ some t
    → (ok t ≡ true) × (1 ≤ occurrences t ts)
unfolding first_available occurrences
first_available-IsIn ok [] t e = ground arith
first_available-IsIn ok (x ∷ xs) t e = elim (Bool-cases (ok x)) [
  | inl h ↦ (ground arith, ground arith)
  | inr h ↦
      let e' : first_available ok xs ≡ some t = ground arith in
      let (o, l) = first_available-IsIn ok xs t e' in (o, ground arith)
]

pub first_available-none :
    (ok : ℕ → Bool) (ts : List ℕ) (u : ℕ)
    → first_available ok ts ≡ none
    → 1 ≤ occurrences u ts
    → ok u ≡ false
unfolding first_available occurrences
first_available-none ok [] u e l = absurd (omega arith)
first_available-none ok (x ∷ xs) u e l = elim (Bool-cases (ok x)) [
  | inl h ↦ ground arith
  | inr h ↦ let rest = first_available-none ok xs u in ground arith
]

-- What a scan of the levels below `n` finds: the first available task of a queue, while no task of a higher level is
-- available.
abbrev pub IsChoice : (ℕ → Bool) → (ℕ → List ℕ) → ℕ → Option (ℕ × ℕ) → Type 0
IsChoice ok queues n none = (j u : ℕ) → j < n → 1 ≤ occurrences u (queues j) → ok u ≡ false
IsChoice ok queues n (some (t, i)) =
    (i < n)
    × (first_available ok (queues i) ≡ some t)
    × ((j u : ℕ) → i < j → j < n → 1 ≤ occurrences u (queues j) → ok u ≡ false)

pub level_loop-IsChoice :
    (n : ℕ) (ok : ℕ → Bool) (queues : ℕ → List ℕ) → IsChoice ok queues n (level_loop n ok queues)
unfolding level_loop
level_loop-IsChoice zero ok queues = λ j u l o. absurd (omega arith)
level_loop-IsChoice (suc i) ok queues = elim (Option-cases (first_available ok (queues i))) [
  | inl e ↦ rw (level_loop, e) (more (level_loop i ok queues) e (level_loop-IsChoice i ok queues))
  | inr (t, e) ↦ rw (level_loop, e) (omega arith, e, λ j u l g o. absurd (omega arith))
]
  where
    level :
        first_available ok (queues i) ≡ none
        → (j u : ℕ) → j < suc i
        → (j < i → ok u ≡ false)
        → 1 ≤ occurrences u (queues j)
        → ok u ≡ false
    level e j u l rest o = elim (Bool-cases (j == i)) [
      | inl h ↦
          let g : j ≡ i = ground arith in
          first_available-none ok (queues i) u e
            (subst (λ (k : ℕ). 1 ≤ occurrences u (queues k)) g o)
      | inr h ↦ rest (ground arith)
    ]

    more :
        (r : Option (ℕ × ℕ))
        → first_available ok (queues i) ≡ none
        → IsChoice ok queues i r
        → IsChoice ok queues (suc i) r
    more none e all = λ j u l o. level e j u l (λ g. all j u g o) o
    more (some (t, k)) e (low, first, above) =
        (omega arith, first, λ j u l g o. level e j u g (λ h. above j u l h o) o)

-- Rotating a queue keeps what it holds.
pub occurrences-rotate :
    (x t : ℕ) (ts : List ℕ) → 1 ≤ occurrences t ts → occurrences x (rotate t ts) ≡ occurrences x ts
unfolding occurrences
occurrences-rotate x t ts l =
    let d = occurrences-delete x t ts in
    let a = occurrences-append x (delete t ts) (t ∷ []) in ground arith

pub rotated-IsQueued :
    (t i : ℕ) (s : Sched) (home : ℕ → ℕ)
    → 1 ≤ occurrences t (s.ready_queue i)
    → IsQueued s home
    → IsQueued (record s { ready_queue = put s.ready_queue i (rotate t (s.ready_queue i)) }) home
rotated-IsQueued t i s home l q = record {
  in_ready = λ k u.
      let r = occurrences-rotate u t (s.ready_queue i) l in
      let o = q.in_ready k u in let p = q.in_ready i u in ground arith;
  in_wait = q.in_wait;
}
