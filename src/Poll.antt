-- ===== src/Poll.antt =====
-- `poll_wait_loop` of src/fs/impl/poll.c: test, register, test again, sleep, over any state that
-- a check reads and changes and that other tasks change in between.
pub mod Outcome
use mos.Base.{
  ◌≡◌, refl, Bool, true, false, Option, none, some, List, [], ◌∷◌, if◌then◌else◌, Errno, ◌⊎◌, inl,
  inr, Bool-cases, ◌||◌,
}

-- What `ops->check` returns: 0, or a positive number or an error.
pub data Ready {ℓ} (R : Type ℓ) : Type ℓ where
  not_yet : Ready R
  ready : R → Ready R

-- One pass of the loop: what other tasks do before the registration, before the task is marked as
-- waiting, after it is, and while it sleeps; whether the deadline has passed at either reading of the clock
-- (never, for an infinite wait); what the registration returns if that is negative; whether a signal
-- keeps the task from sleeping, and whether one is there when it wakes.
pub record Round {ℓ κ} (S : Type ℓ) (R : Type κ) : Type (ℓ ⊔ κ) where
  pub late : Bool
  pub before : S → S
  pub refused : Option R
  pub between : S → S
  pub late_again : Bool
  pub marked : S → S
  pub signal_first : Bool
  pub sleeping : S → S
  pub signal_after : Bool

-- How the loop ends: a check's result, the 0 of a test or of a deadline, -EINTR; `asleep` if
-- it does not within the rounds given.
pub data Polled {ℓ} (R : Type ℓ) : Type ℓ where
  found : R → Polled R
  nothing interrupted asleep : Polled R

module _ {ℓ κ} {S : Type ℓ} {R : Type κ} (check : S → Ready R × S) where
  -- A check whose result ends the loop, or else `more` of the state that it leaves.
  abbrev pub checked : S → (S → Polled R × S) → Polled R × S
  checked s more = let (r, s') = check s in elim r [ not_yet ↦ more s' | ready v ↦ (found v, s') ]

  unfoldable pub wait_loop : Bool → List (Round S R) → S → Polled R × S
  wait_loop just_test [] s = checked s λ s1. if just_test then (nothing, s1) else (asleep, s1)
  wait_loop just_test (t ∷ ts) s = checked s λ s1.
      let again = λ (s' : S). wait_loop just_test ts s' in
      if just_test || t.late then (nothing, s1) else elim t.refused [
        | some e ↦ (found e, t.before s1)
        | none ↦ checked (t.between (t.before s1)) λ s2.
            if t.late_again
            then (nothing, s2)
            else checked (t.marked s2) λ s3.
              if t.signal_first
              then (interrupted, s3)
              else checked (t.sleeping s3)
                  λ s4. if t.signal_after then (interrupted, s4) else again s4
      ]
