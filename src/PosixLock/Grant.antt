-- ===== src/PosixLock/Grant.antt =====
-- Granting and releasing locks: what each owner holds afterwards, and that no two owners are in
-- each other's way.
use mos.Base.{
  ℕ, ◌+◌, ◌≤◌, ◌≡◌, ◌<◌, ◌≢◌, refl, ap, ◌∙◌, sym, ◌⊎◌, inl, inr, Bool, true, false, not, ◌||◌,
  Option, none, some, List, [], ◌∷◌, ltb, if◌then◌else◌, arith, Bool-cases, Option-cases,
}
use mos.PosixLock.{Kind, wrlck, rdlck, Key, Range, same_file, owned_by, conflict, carve, apply}
use mos.PosixLock.Held.{held, IsDisjoint, IsExclusive, key_eq, key_eq_self, key_eq-eq}
use mos.PosixLock.Carve.{requested, held-carve}

below_misses :
    (r : Range) (rs : List Range) (k : Key) (x : ℕ)
    → x < r.start
    → held rs k x ≡ none
    → held (r ∷ rs) k x ≡ none
unfolding held
below_misses r rs k x lt e = ground arith

module _ (p : Key) (start last : ℕ) (ordered : start ≤ last) where
  free_behind :
      (rs : List Range) (k : Key) (x : ℕ)
      → IsDisjoint rs
      → held rs k x ≡ none
      → held (carve p start last rs) k x ≡ none
  free_behind rs k x d free = ground (arith, held-carve p start last ordered rs k x d)

  pub carve-IsDisjoint :
      (table : List Range) → IsDisjoint table → IsDisjoint (carve p start last table)
  unfolding carve
  carve-IsDisjoint [] d = tt
  carve-IsDisjoint (r ∷ rs) d =
      let rest = carve-IsDisjoint rs d.2 in
      elim (Bool-cases
        (not (owned_by r p) || not (same_file r p) || ltb r.last start || ltb last r.start)) [
          | inl t ↦ rw t (d.0, (λ x a b. free_behind rs r.key x d.2 (d.1 x a b)), rest)
          | inr t ↦ elim (Bool-cases (ltb r.start start)) [
            | inl l ↦ elim (Bool-cases (ltb last r.last)) [
              | inl g ↦
                  rw (t, l, g)
                    (
                      ground arith,
                      (λ x a b.
                          below_misses (record r { start = last + 1 }) rs r.key x (ground arith)
                            (d.1 x a (ground arith))),
                      (ground arith, (λ x a b. d.1 x (ground arith) b), d.2),
                    )
              | inr g ↦
                  rw (t, l, g)
                    (
                      ground arith,
                      (λ x a b. free_behind rs r.key x d.2 (d.1 x a (ground arith))),
                      rest,
                    )
            ]
            | inr l ↦ elim (Bool-cases (ltb last r.last)) [
              | inl g ↦
                  rw (t, l, g)
                    (
                      ground arith,
                      (λ x a b. free_behind rs r.key x d.2 (d.1 x (ground arith) b)),
                      rest,
                    )
              | inr g ↦ rw (t, l, g) rest
            ]
          ]
        ]

  -- A granted request: the requester holds the new lock on the bytes asked for, and everything else is held as
  -- before; its ranges still do not overlap.
  pub apply_lem :
      (dev : ℕ) (request : Option Kind) (table : List Range)
      → IsDisjoint table
      → IsDisjoint (apply p dev request start last table)
        × ((q : Key) (x : ℕ)
            → held (apply p dev request start last table) q x
              ≡ (if requested p start last ordered q x then request else held table q x))
  unfolding apply held
  apply_lem dev none table d =
      (carve-IsDisjoint table d, (λ q x. held-carve p start last ordered table q x d))
  apply_lem dev (some kind) table d = (
    (
      ordered,
      (λ x a b. ground (arith, held-carve p start last ordered table p x d, key_eq_self p)),
      carve-IsDisjoint table d,
    ),
    (λ q x. ground (arith, held-carve p start last ordered table q x d)),
  )

  -- The scan for conflicts has come through.
  pub conflict-none :
      (kind : Kind) (table : List Range) (q : Key) (x : ℕ) (k : Kind)
      → conflict p kind start last table ≡ none
      → q.identity ≡ p.identity
      → q.ino ≡ p.ino
      → q.owner ≢ p.owner
      → start ≤ x
      → x ≤ last
      → held table q x ≡ some k
      → (kind ≡ rdlck) × (k ≡ rdlck)
  unfolding conflict held key_eq same_file owned_by
  conflict-none kind [] q x k e i n o a b h = absurd (cc)
  conflict-none kind (r ∷ rs) q x k e i n o a b h = ground (arith, conflict-none kind rs q x k)

wr-ne-rd : wrlck ≢ rdlck
wr-ne-rd e = cc

requested_facts :
    (p : Key) (start last : ℕ) (ordered : start ≤ last) (q : Key) (x : ℕ)
    → requested p start last ordered q x ≡ true
    → (p ≡ q) × (start ≤ x) × (x ≤ last)
requested_facts p start last ordered q x h =
    (key_eq-eq p q (ground arith), ground arith, ground arith)

-- Granting a request against which the scan finds no conflict, or an unlock, keeps the locks of different
-- owners apart.
pub apply-IsExclusive :
    (p : Key) (dev : ℕ) (request : Option Kind) (start last : ℕ) (table : List Range)
    → start ≤ last
    → IsDisjoint table
    → ((kind : Kind) → request ≡ some kind → conflict p kind start last table ≡ none)
    → IsExclusive table
    → IsExclusive (apply p dev request start last table)
apply-IsExclusive p dev request start last table ordered d scan ex q r x i n o h =
    let at_q = (apply_lem p start last ordered dev request table d).1 q x in
    let at_r = (apply_lem p start last ordered dev request table d).1 r x in
    split (requested p start last ordered q x) (requested p start last ordered r x) refl refl
      (sym at_q ∙ h) at_r
  where
    scanned :
        (kind : Kind) (k : Key) (m : Option Kind)
        → request ≡ some kind
        → p.identity ≡ k.identity
        → p.ino ≡ k.ino
        → p.owner ≢ k.owner
        → (start ≤ x) × (x ≤ last)
        → held table k x ≡ m
        → (m ≡ none) ⊎ ((kind ≡ rdlck) × (m ≡ some rdlck))
    scanned kind k none e ei en eo inside hk = inl refl
    scanned kind k (some l) e ei en eo inside hk =
        let c =
          conflict-none p start last ordered kind table k x l (scan kind e) (sym ei) (sym en)
            (λ e'. eo (sym e')) inside.0 inside.1 hk in
        inr (c.0, ap some c.1)

    split :
        (b c : Bool)
        → requested p start last ordered q x ≡ b
        → requested p start last ordered r x ≡ c
        → (if b then request else held table q x) ≡ some wrlck
        → held (apply p dev request start last table) r x ≡ (if c then request else held table r x)
        → held (apply p dev request start last table) r x ≡ none
    split true true eb ec hq hr =
        let fq = requested_facts p start last ordered q x eb in
        let fr = requested_facts p start last ordered r x ec in
        absurd (o (ap (λ (k : Key). k.owner) (sym fq.0 ∙ fr.0)))
    split true false eb ec hq hr =
        let f = requested_facts p start last ordered q x eb in
        hr
        ∙ elim (scanned wrlck r (held table r x) hq (rw f.0 i) (rw f.0 n) (rw f.0 o) (f.1, f.2)
            refl) [ inl e ↦ e | inr e ↦ absurd (wr-ne-rd e.0) ]
    split false true eb ec hq hr =
        let f = requested_facts p start last ordered r x ec in
        elim (Option-cases request) [
          | inl e ↦ hr ∙ e
          | inr (kind, e) ↦
              absurd
                (elim (scanned kind q (some wrlck) e (rw f.0 (sym i)) (rw f.0 (sym n))
                  (rw f.0 (λ e'. o (sym e'))) (f.1, f.2) hq) [
                    | inl bad ↦ cc
                    | inr bad ↦ cc (bad.1)
                  ])
        ]
    split false false eb ec hq hr = hr ∙ ex q r x i n o hq
