-- ===== src/Sched/Turn.antt =====
-- A task that stays available gets its turn.
use mos.Base.{
  ℕ, suc, ◌+◌, ◌≡◌, ◌<◌, ◌≤◌, Bool, true, false, not, ◌&&◌, ◌||◌, List, [], ◌∷◌, ◌++◌, ◌==◌,
  if◌then◌else◌, arith, refl, inl, inr, delete, Bool-cases, none, some, Option-cases, ==→≡,
  occurrences, occurrences-append, occurrences-delete, ap,
}
use mos.Sched.{first_available, rotate}
use mos.Sched.Pick.{first_available-IsIn, first_available-none}

-- What happens to one ready queue: a task comes to its end, a task leaves it, or one that is available is picked.
pub data Event : Type 0 where
  arrives : ℕ → Event
  leaves : ℕ → Event
  picks : (ℕ → Bool) → Event

-- The task does not leave, and is available when one is picked.
unfoldable pub stays : ℕ → List Event → Bool
stays t [] = true
stays t (arrives u ∷ es) = stays t es
stays t (leaves u ∷ es) = not (u == t) && stays t es
stays t (picks ok ∷ es) = ok t && stays t es

unfoldable pub picks_in : List Event → ℕ
picks_in [] = 0
picks_in (arrives u ∷ es) = picks_in es
picks_in (leaves u ∷ es) = picks_in es
picks_in (picks ok ∷ es) = suc (picks_in es)

-- Whether the task is picked.
unfoldable pub is_served : ℕ → List Event → List ℕ → Bool
is_served t [] q = false
is_served t (arrives u ∷ es) q = is_served t es (q ++ (u ∷ []))
is_served t (leaves u ∷ es) q = is_served t es (delete u q)
is_served t (picks ok ∷ es) q = elim (first_available ok q) [
  | none ↦ is_served t es q
  | some u ↦ (u == t) || is_served t es (rotate u q)
]

-- How many stand before the task.
unfoldable pub ahead : ℕ → List ℕ → ℕ
ahead t [] = 0
ahead t (x ∷ xs) = if x == t then 0 else suc (ahead t xs)

ahead-append : (t u : ℕ) (q : List ℕ) → 1 ≤ occurrences t q → ahead t (q ++ (u ∷ [])) ≡ ahead t q
unfolding ahead occurrences
ahead-append t u [] l = absurd (omega arith)
ahead-append t u (x ∷ xs) l = elim (Bool-cases (x == t)) [
  | inl h ↦ rw h refl
  | inr h ↦ let rest = ahead-append t u xs (ground arith) in rw h (ap suc rest)
]

ahead-delete : (t u : ℕ) (q : List ℕ) → (u == t) ≡ false → ahead t (delete u q) ≤ ahead t q
unfolding ahead delete
ahead-delete t u [] ne = omega arith
ahead-delete t u (x ∷ xs) ne =
    let rest = ahead-delete t u xs ne in
    elim (Bool-cases (x == u)) [ inl h ↦ rw h (ground arith) | inr h ↦ rw h (ground arith) ]

-- The first available task stands before any other available one.
ahead-rotate :
    (t u : ℕ) (ok : ℕ → Bool) (q : List ℕ)
    → ok t ≡ true
    → 1 ≤ occurrences t q
    → first_available ok q ≡ some u
    → (u == t) ≡ false
    → ahead t (rotate u q) + 1 ≡ ahead t q
unfolding ahead delete first_available occurrences
ahead-rotate t u ok [] a l e ne = absurd (omega arith)
ahead-rotate t u ok (x ∷ xs) a l e ne = elim (Bool-cases (ok x)) [
  | inl h ↦
      let g : x ≡ u = ground arith in
      let hu : (x == u) ≡ true = ground arith in
      let ht : (x == t) ≡ false = ground arith in
      let rest = ahead-append t u xs (ground arith) in rw (hu, ht, rest) (omega arith)
  | inr h ↦
      let f : first_available ok xs ≡ some u = ground arith in
      let (ok_u, there) = first_available-IsIn ok xs u f in
      let hu : (x == u) ≡ false = elim (Bool-cases (x == u)) [
        | inl g ↦ let k = ap ok (==→≡ x u g) in absurd (ground arith)
        | inr g ↦ g
      ] in
      let ht : (x == t) ≡ false = elim (Bool-cases (x == t)) [
        | inl g ↦ let k = ap ok (==→≡ x t g) in absurd (ground arith)
        | inr g ↦ g
      ] in
      let rest = ahead-rotate t u ok xs a (ground arith) f ne in rw (hu, ht) (omega arith)
]

-- A task of a ready queue that stays in it, and is available whenever one is picked, is picked as soon as there are
-- more picks than tasks that stood before it, whatever other tasks come to the end of the queue or leave it
-- meanwhile.
pub is_served-ahead :
    (t : ℕ) (es : List Event) (q : List ℕ)
    → 1 ≤ occurrences t q
    → stays t es ≡ true
    → ahead t q < picks_in es
    → is_served t es q ≡ true
unfolding is_served stays picks_in
is_served-ahead t [] q l s a = absurd (omega arith)
is_served-ahead t (arrives u ∷ es) q l s a =
    let e = ahead-append t u q l in
    let o = occurrences-append t q (u ∷ []) in
    is_served-ahead t es (q ++ (u ∷ [])) (omega arith) s (omega arith)
is_served-ahead t (leaves u ∷ es) q l s a =
    let ne : (u == t) ≡ false = ground arith in
    let e = ahead-delete t u q ne in
    let o = occurrences-delete t u q in
    is_served-ahead t es (delete u q) (ground arith) (ground arith) (omega arith)
is_served-ahead t (picks ok ∷ es) q l s a = elim (Option-cases (first_available ok q)) [
  | inl e ↦ let no = first_available-none ok q t e l in absurd (ground arith)
  | inr (u, e) ↦ elim (Bool-cases (u == t)) [
    | inl h ↦ rw (is_served, e, h) refl
    | inr h ↦
        let r = ahead-rotate t u ok q (ground arith) l e h in
        let d = occurrences-delete t u q in
        let o = occurrences-append t (delete u q) (u ∷ []) in
        rw (is_served, e, h)
          (is_served-ahead t es (rotate u q) (ground arith) (ground arith) (omega arith))
  ]
]
