-- ===== src/PosixLock/Carve.antt =====
-- Taking a request out of the table frees exactly the requested bytes of that owner.
use mos.Base.{
  ℕ, ◌+◌, ◌-◌, ◌≤◌, ◌≡◌, ◌<◌, refl, ap, inl, inr, Bool, true, false, not, ◌&&◌, ◌||◌, none, some,
  List, [], ◌∷◌, leb, ltb, if◌then◌else◌, arith, Bool-cases,
}
use mos.PosixLock.{Key, Range, same_file, owned_by, carve}
use mos.PosixLock.Held.{
  hits, held, IsDisjoint, key_eq, key_eq_left, key_eq_right, key_eq-eq, passes-key_eq,
}

module _ (p : Key) (start last : ℕ) (ordered : start ≤ last) where
  -- The bytes of the request, for the owner and the file of `p`.
  abbrev pub requested : Key → ℕ → Bool
  requested q x = key_eq p q && leb start x && leb x last

  -- A range of the requester that covers the byte leaves nothing behind it in the table.
  covered_once :
      (r : Range) (rs : List Range) (q : Key) (x : ℕ)
      → IsDisjoint (r ∷ rs)
      → hits r q x ≡ true
      → held rs q x ≡ none
  covered_once r rs q x d h =
      let e : r.key ≡ q = key_eq-eq r.key q (ground arith) in
      let free : held rs r.key x ≡ none = d.1 x (ground arith) (ground arith) in rw e at free

  -- What the loop does to one range, with the rest of the table already done.
  abbrev passed : Range → Bool
  passed r = not (owned_by r p) || not (same_file r p) || ltb r.last start || ltb last r.start

  not_passed :
      (r : Range) → passed r ≡ false → (key_eq r.key p ≡ true) × (start ≤ r.last) × (r.start ≤ last)
  not_passed r h = ground (arith, passes-key_eq r p (ltb r.last start || ltb last r.start))

  is_passed :
      (r : Range) (q : Key) (x : ℕ) → passed r ≡ true → requested q x ≡ true → hits r q x ≡ false
  is_passed r q x h k =
      ground
        (arith, passes-key_eq r p (ltb r.last start || ltb last r.start), key_eq_right r.key p q)

  module _ (r : Range) (rs : List Range) (q : Key) (x : ℕ) (d : IsDisjoint (r ∷ rs))
      (rest : List Range) (ih : held rest q x ≡ (if requested q x then none else held rs q x)) where
    carve_passed :
        passed r ≡ true → held (r ∷ rest) q x ≡ (if requested q x then none else held (r ∷ rs) q x)
    unfolding held
    carve_passed h = elim (Bool-cases (requested q x)) [
      | inl k ↦ rw (k, is_passed r q x h k) (rw k at ih)
      | inr k ↦ rw k (ap (λ o. if hits r q x then some r.kind else o) (rw k at ih))
    ]

    carve_gone :
        passed r ≡ false
        → start ≤ r.start
        → r.last ≤ last
        → held rest q x ≡ (if requested q x then none else held (r ∷ rs) q x)
    unfolding held
    carve_gone h le le' = ground (arith, ih, not_passed r h, key_eq_left r.key p q)

    carve_left :
        passed r ≡ false
        → r.start < start
        → r.last ≤ last
        → held (record r { last = start - 1 } ∷ rest) q x
          ≡ (if requested q x then none else held (r ∷ rs) q x)
    unfolding held
    carve_left h lt le = ground (arith, ih, not_passed r h, key_eq_left r.key p q)

    carve_right :
        passed r ≡ false
        → start ≤ r.start
        → last < r.last
        → held (record r { start = last + 1 } ∷ rest) q x
          ≡ (if requested q x then none else held (r ∷ rs) q x)
    unfolding held
    carve_right h le lt = ground (arith, ih, not_passed r h, key_eq_left r.key p q)

  carve_both :
      (r : Range) (rs : List Range) (q : Key) (x : ℕ)
      → IsDisjoint (r ∷ rs)
      → passed r ≡ false
      → r.start < start
      → last < r.last
      → held (record r { last = start - 1 } ∷ record r { start = last + 1 } ∷ rs) q x
        ≡ (if requested q x then none else held (r ∷ rs) q x)
  unfolding held
  carve_both r rs q x d h lt lt' =
      ground (arith, covered_once r rs q x d, not_passed r h, key_eq_left r.key p q)

  nothing_held : (q : Key) (x : ℕ) (b : Bool) → none ≡ (if b then none else held [] q x)
  unfolding held
  nothing_held q x true = refl
  nothing_held q x false = refl

  -- `carve` makes the owner's bytes of the request free, and changes nothing else.
  pub held-carve :
      (table : List Range) (q : Key) (x : ℕ)
      → IsDisjoint table
      → held (carve p start last table) q x ≡ (if requested q x then none else held table q x)
  unfolding carve held
  held-carve [] q x d = nothing_held q x (requested q x)
  held-carve (r ∷ rs) q x d =
      let rest = carve p start last rs in
      let ih = held-carve rs q x d.2 in
      elim (Bool-cases (passed r)) [
        | inl t ↦ rw t (carve_passed r rs q x d rest ih t)
        | inr t ↦ elim (Bool-cases (ltb r.start start)) [
          | inl l ↦ elim (Bool-cases (ltb last r.last)) [
            | inl g ↦ rw (t, l, g) (carve_both r rs q x d t (ground arith) (ground arith))
            | inr g ↦ rw (t, l, g) (carve_left r rs q x d rest ih t (ground arith) (ground arith))
          ]
          | inr l ↦ elim (Bool-cases (ltb last r.last)) [
            | inl g ↦ rw (t, l, g) (carve_right r rs q x d rest ih t (ground arith) (ground arith))
            | inr g ↦ rw (t, l, g) (carve_gone r rs q x d rest ih t (ground arith) (ground arith))
          ]
        ]
      ]
