-- ===== src/Sched/Timers.antt =====
-- The list of timers: its order, what it holds, and what is due.
use mos.Base.{
  ℕ, ◌+◌, ◌-◌, ◌≡◌, ◌<◌, ◌≤◌, Bool, true, false, ◌&&◌, ◌||◌, List, [], ◌∷◌, ◌==◌, if◌then◌else◌,
  arith, refl, inl, inr, Bool-cases, ltb, leb,
}
use mos.Sched.{Timer, Sched, disarm, insert_timer, timer_arm, deadline}

-- The timers stand in the order of their times, all from `d` on.
unfoldable pub sorted_from : ℕ → List Timer → Bool
sorted_from d [] = true
sorted_from d (x ∷ xs) = leb d x.due && sorted_from x.due xs

-- How many timers a task has.
unfoldable pub timers_of : ℕ → List Timer → ℕ
timers_of t [] = 0
timers_of t (x ∷ xs) = (if x.task == t then 1 else 0) + timers_of t xs

-- Whether a timer of the task is due.
unfoldable pub due_for : ℕ → ℕ → List Timer → Bool
due_for t now [] = false
due_for t now (x ∷ xs) = ((x.task == t) && leb x.due now) || due_for t now xs

-- The timers that are not due yet.
unfoldable pub later : ℕ → List Timer → List Timer
later now [] = []
later now (x ∷ xs) = let rest = later now xs in if ltb now x.due then x ∷ rest else rest

pub later-all :
    (now d : ℕ) (xs : List Timer) → now < d → sorted_from d xs ≡ true → later now xs ≡ xs
unfolding sorted_from later
later-all now d [] l s = refl
later-all now d (x ∷ xs) l s =
    let rest = later-all now x.due xs (ground arith) (ground arith) in
    let e : ltb now x.due ≡ true = ground arith in rw (e, rest) refl

pub due_for-none :
    (t now d : ℕ) (xs : List Timer) → now < d → sorted_from d xs ≡ true → due_for t now xs ≡ false
unfolding sorted_from due_for
due_for-none t now d [] l s = refl
due_for-none t now d (x ∷ xs) l s =
    let rest = due_for-none t now x.due xs (ground arith) (ground arith) in ground arith

pub due_for-timers_of :
    (t now : ℕ) (xs : List Timer) → timers_of t xs ≡ 0 → due_for t now xs ≡ false
unfolding timers_of due_for
due_for-timers_of t now [] e = refl
due_for-timers_of t now (x ∷ xs) e =
    let rest = due_for-timers_of t now xs (ground arith) in ground arith

pub timers_of-disarm :
    (u t : ℕ) (xs : List Timer)
    → timers_of u (disarm t xs) ≡ (if u == t then timers_of u xs - 1 else timers_of u xs)
unfolding timers_of disarm
timers_of-disarm u t [] = ground arith
timers_of-disarm u t (x ∷ xs) =
    let rest = timers_of-disarm u t xs in
    elim (Bool-cases (x.task == t)) [ inl h ↦ rw h (ground arith) | inr h ↦ rw h (ground arith) ]

pub timers_of-insert_timer :
    (u : ℕ) (x : Timer) (xs : List Timer)
    → timers_of u (insert_timer x xs) ≡ (if x.task == u then 1 else 0) + timers_of u xs
unfolding timers_of insert_timer
timers_of-insert_timer u x [] = refl
timers_of-insert_timer u x (y ∷ ys) =
    let rest = timers_of-insert_timer u x ys in
    elim (Bool-cases (ltb x.due y.due)) [ inl h ↦ rw h refl | inr h ↦ rw h (omega arith) ]

pub due_for-insert_timer :
    (u now : ℕ) (x : Timer) (xs : List Timer)
    → due_for u now (insert_timer x xs) ≡ ((x.task == u) && leb x.due now) || due_for u now xs
unfolding due_for insert_timer
due_for-insert_timer u now x [] = refl
due_for-insert_timer u now x (y ∷ ys) =
    let rest = due_for-insert_timer u now x ys in
    elim (Bool-cases (ltb x.due y.due)) [ inl h ↦ rw h refl | inr h ↦ rw h (ground arith) ]

pub disarm-sorted_from :
    (t d e : ℕ) (xs : List Timer)
    → e ≤ d
    → sorted_from d xs ≡ true
    → sorted_from e (disarm t xs) ≡ true
unfolding sorted_from disarm
disarm-sorted_from t d e [] l s = refl
disarm-sorted_from t d e (x ∷ xs) l s =
    let rest = disarm-sorted_from t x.due x.due xs (omega arith) (ground arith) in
    elim (Bool-cases (x.task == t)) [
      | inl h ↦ rw h (weaken xs (ground arith) (ground arith))
      | inr h ↦ rw h (ground arith)
    ]
  where
    weaken :
        (ys : List Timer)
        → sorted_from x.due ys ≡ true
        → leb d x.due ≡ true
        → sorted_from e ys ≡ true
    weaken [] g k = refl
    weaken (y ∷ ys) g k = ground arith

pub insert_timer-sorted_from :
    (d : ℕ) (x : Timer) (xs : List Timer)
    → d ≤ x.due
    → sorted_from d xs ≡ true
    → sorted_from d (insert_timer x xs) ≡ true
unfolding sorted_from insert_timer
insert_timer-sorted_from d x [] l s = ground arith
insert_timer-sorted_from d x (y ∷ ys) l s = elim (Bool-cases (ltb x.due y.due)) [
  | inl h ↦ rw h (ground arith)
  | inr h ↦
      let rest = insert_timer-sorted_from y.due x ys (ground arith) (ground arith) in
      rw h (ground arith)
]

-- Timers stand in the order of their times, and a task has one at most.
pub record IsTimed (timers : List Timer) : Type 0 where
  pub sorted : sorted_from 0 timers ≡ true
  pub single : (t : ℕ) → timers_of t timers ≤ 1

pub disarm-IsTimed : (t : ℕ) (xs : List Timer) → IsTimed xs → IsTimed (disarm t xs)
disarm-IsTimed t xs i = record {
  sorted = disarm-sorted_from t 0 0 xs (omega arith) i.sorted;
  single = λ u. let d = timers_of-disarm u t xs in let o = i.single u in ground arith;
}

pub timer_arm-IsTimed :
    (t now ms : ℕ) (s : Sched) → IsTimed s.timer_queue → IsTimed (timer_arm t now ms s).timer_queue
unfolding timer_arm
timer_arm-IsTimed t now ms s i = record {
  sorted =
      insert_timer-sorted_from 0 (record { task = t; due = deadline now ms })
        (disarm t s.timer_queue) (omega arith) (disarm-IsTimed t s.timer_queue i).sorted;
  single = λ u.
      let d = timers_of-disarm u t s.timer_queue in
      let n =
        timers_of-insert_timer u (record { task = t; due = deadline now ms })
          (disarm t s.timer_queue) in
      let o = i.single u in let p = i.single t in ground arith;
}

pub later-sorted_from :
    (now d : ℕ) (xs : List Timer) → sorted_from d xs ≡ true → sorted_from d (later now xs) ≡ true
unfolding sorted_from later
later-sorted_from now d [] o = refl
later-sorted_from now d (x ∷ xs) o = elim (Bool-cases (ltb now x.due)) [
  | inl h ↦ let rest = later-sorted_from now x.due xs (ground arith) in rw h (ground arith)
  | inr h ↦ rw h (later-sorted_from now d xs (weaken xs (ground arith) (ground arith)))
]
  where
    weaken :
        (ys : List Timer)
        → sorted_from x.due ys ≡ true
        → leb d x.due ≡ true
        → sorted_from d ys ≡ true
    weaken [] g k = refl
    weaken (y ∷ ys) g k = ground arith

pub timers_of-later : (t now : ℕ) (xs : List Timer) → timers_of t (later now xs) ≤ timers_of t xs
unfolding timers_of later
timers_of-later t now [] = omega arith
timers_of-later t now (x ∷ xs) =
    let rest = timers_of-later t now xs in
    elim (Bool-cases (ltb now x.due)) [ inl h ↦ rw h (omega arith) | inr h ↦ rw h (omega arith) ]

pub later-IsTimed : (now : ℕ) (xs : List Timer) → IsTimed xs → IsTimed (later now xs)
later-IsTimed now xs i = record {
  sorted = later-sorted_from now 0 xs i.sorted;
  single = λ t. let l = timers_of-later t now xs in let o = i.single t in omega arith;
}

pub due_for-disarm :
    (u t now : ℕ) (xs : List Timer)
    → (u == t) ≡ false
    → due_for u now (disarm t xs) ≡ due_for u now xs
unfolding due_for disarm
due_for-disarm u t now [] ne = refl
due_for-disarm u t now (x ∷ xs) ne =
    let rest = due_for-disarm u t now xs ne in
    elim (Bool-cases (x.task == t)) [ inl h ↦ rw h (ground arith) | inr h ↦ rw h (ground arith) ]
