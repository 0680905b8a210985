-- ===== src/Poll/Outcome.antt =====
-- What the end of `poll_wait_loop` says about the last check.
use mos.Base.{
  ◌≡◌, refl, Bool, true, false, Option, none, some, List, [], ◌∷◌, if◌then◌else◌, ◌⊎◌, inl, inr,
  ◌||◌,
}
use mos.Poll.{
  Ready, not_yet, ready, Round, Polled, found, nothing, interrupted, asleep, checked, wait_loop,
}

module _ {S R : Type 0} (check : S → Ready R × S) (P : S → Type 0) (E : R → Type 0) where
  -- Other tasks keep `P`, and a registration fails only with an error in `E`.
  pub record Keeps (t : Round S R) : Type 0 where
    pub before : (s : S) → P s → P (t.before s)
    pub between : (s : S) → P s → P (t.between s)
    pub marked : (s : S) → P s → P (t.marked s)
    pub sleeping : (s : S) → P s → P (t.sleeping s)
    pub refused : (e : R) → t.refused ≡ some e → E e

  abbrev pub AllKeep : List (Round S R) → Type 0
  AllKeep [] = Unit {0}
  AllKeep (t ∷ ts) = Keeps t × AllKeep ts

  -- A result is that of a check, made last, in a state with `P`; and where the loop ends with 0 or
  -- -EINTR, the last check found nothing.
  abbrev pub Ended : Polled R × S → Type 0
  Ended (found v, s') = ((s : S) × P s × (check s ≡ (ready v, s'))) ⊎ E v
  Ended (nothing, s') = (s : S) × P s × (check s ≡ (not_yet, s'))
  Ended (interrupted, s') = (s : S) × P s × (check s ≡ (not_yet, s'))
  Ended (asleep, s') = P s'

  -- A check whose continuation ends well, ends well.
  checked-Ended :
      (s : S) (more : S → Polled R × S)
      → P s
      → ((s' : S) → check s ≡ (not_yet, s') → P s' → Ended (more s'))
      → ((t : S) → P t → P (check t).1)
      → Ended (checked check s more)
  checked-Ended s more p next keep = go (check s).0 (check s).1 refl (keep s p)
    where
      go :
          (r : Ready R) (s' : S)
          → check s ≡ (r, s')
          → P s'
          → Ended (elim r [ not_yet ↦ more s' | ready v ↦ (found v, s') ])
      go not_yet s' e p' = next s' e p'
      go (ready v) s' e p' = inl (s, p, e)

  pub wait_loop-Ended :
      (just_test : Bool) (ts : List (Round S R)) (s : S)
      → ((t : S) → P t → P (check t).1)
      → AllKeep ts
      → P s
      → Ended (wait_loop check just_test ts s)
  unfolding wait_loop
  wait_loop-Ended just_test [] s keep ks p =
      checked-Ended s _ p (λ s1 e1 p1. tested just_test s1 e1 p1) keep
    where
      tested :
          (b : Bool) (s1 : S)
          → check s ≡ (not_yet, s1)
          → P s1
          → Ended (if b then (nothing, s1) else (asleep, s1))
      tested true s1 e1 p1 = (s, p, e1)
      tested false s1 e1 p1 = p1
  wait_loop-Ended just_test (t ∷ ts) s keep ks p =
      checked-Ended s _ p
        (λ s1 e1 p1.
          stops _ (just_test || t.late) s s1 p e1 (
            registered t.refused refl s1 p1
              (λ s' p'. wait_loop-Ended just_test ts s' keep ks.1 p')))
        keep
    where
      k : Keeps t
      k = ks.0

      stops :
          (more : Polled R × S) (b : Bool) (s s' : S)
          → P s
          → check s ≡ (not_yet, s')
          → Ended more
          → Ended (if b then (nothing, s') else more)
      stops more true s s' p e m = (s, p, e)
      stops more false s s' p e m = m

      signals :
          (more : Polled R × S) (b : Bool) (s s' : S)
          → P s
          → check s ≡ (not_yet, s')
          → Ended more
          → Ended (if b then (interrupted, s') else more)
      signals more true s s' p e m = (s, p, e)
      signals more false s s' p e m = m

      registered :
          (o : Option R)
          → t.refused ≡ o
          → (s1 : S) → P s1
          → ((s' : S) → P s' → Ended (wait_loop check just_test ts s'))
          → Ended (elim o [
            | some e ↦ (found e, t.before s1)
            | none ↦ checked check (t.between (t.before s1)) λ s2.
                if t.late_again
                then (nothing, s2)
                else checked check (t.marked s2) λ s3.
                  if t.signal_first
                  then (interrupted, s3)
                  else checked check (t.sleeping s3) λ s4.
                    if t.signal_after then (interrupted, s4) else wait_loop check just_test ts s4
          ])
      registered (some e) r s1 p1 ih = inr (k.refused e r)
      registered none r s1 p1 ih =
          let q1 = k.between (t.before s1) (k.before s1 p1) in
          checked-Ended (t.between (t.before s1)) _ q1
            (λ s2 e2 p2. stops _ t.late_again _ s2 q1 e2 (
              checked-Ended (t.marked s2) _ (k.marked s2 p2)
                (λ s3 e3 p3. signals _ t.signal_first _ s3 (k.marked s2 p2) e3 (
                  checked-Ended (t.sleeping s3) _ (k.sleeping s3 p3)
                    (λ s4 e4 p4. signals _ t.signal_after _ s4 (k.sleeping s3 p3) e4 (ih s4 p4))
                    keep))
                keep))
            keep
