-- ===== src/Text/Reverse.antt =====
-- `strlen` finds the NUL, and `strrev` reverses the characters before it.
use mos.Base.{
  ℕ, zero, suc, ◌+◌, ◌-◌, ◌/◌, ◌≤◌, ◌<◌, ◌≡◌, refl, ◌≢◌, ◌∙◌, ap, subst, ◌⊎◌, inl, inr, true, false,
  some, ◌==◌, arith, Bool-cases,
}
use mos.Text.Number.{Memory, store, strlen_loop, rev_loop, strrev}

strlen_loop_lem :
    (k fuel p count : ℕ) (buf : Memory)
    → k < fuel
    → ((i : ℕ) → i < k → 0 < buf (p + i))
    → buf (p + k) ≡ 0
    → strlen_loop fuel p count buf ≡ some (count + k)
unfolding strlen_loop
strlen_loop_lem k zero p count buf h full end = absurd (omega arith)
strlen_loop_lem zero (suc fuel) p count buf h full end =
    let here : (buf p == 0) ≡ true =
      (let e : p + 0 ≡ p = omega arith in
        let end' = subst (λ (q : ℕ). buf q ≡ 0) e end in ground arith) in
    let e : count + 0 ≡ count = omega arith in rw (here, e) refl
strlen_loop_lem (suc k) (suc fuel) p count buf h full end =
    let e0 : p + 0 ≡ p = omega arith in
    let first = subst (λ (q : ℕ). 0 < buf q) e0 (full 0 (omega arith)) in
    let here : (buf p == 0) ≡ false = ground arith in
    let e : p + suc k ≡ p + 1 + k = omega arith in
    let rest =
      strlen_loop_lem k fuel (p + 1) (count + 1) buf (omega arith)
        (λ i l.
          let e' : p + suc i ≡ p + 1 + i = omega arith in
          subst (λ (q : ℕ). 0 < buf q) e' (full (suc i) (omega arith)))
        (subst (λ (q : ℕ). buf q ≡ 0) e end) in
    rw (here, rest) (ap (λ (n : ℕ). some n) (omega arith))

-- The characters from `i` up to `len - i` are reversed, and no others are changed.
pub record IsReversed (i p len : ℕ) (buf buf' : Memory) : Type 0 where
  pub mirrored : (x : ℕ) → i ≤ x → x + i < len → buf' (p + x) ≡ buf (p + (len - 1 - x))
  pub kept : (q : ℕ) → (q < p + i) ⊎ (p + len ≤ q + i) → buf' q ≡ buf q

rev_loop-IsReversed :
    (n i p len : ℕ) (buf : Memory)
    → n + i ≡ len / 2
    → IsReversed i p len buf (rev_loop n i p len buf)
unfolding rev_loop store
rev_loop-IsReversed zero i p len buf h = record {
  mirrored = λ x low high. let e : x ≡ len - 1 - x = omega arith in ap (λ (y : ℕ). buf (p + y)) e;
  kept = λ q out. refl;
}
rev_loop-IsReversed (suc n) i p len buf h =
    let j = len - i - 1 in
    let swapped = store (p + j) (buf (p + i)) (store (p + i) (buf (p + j)) buf) in
    let rest = rev_loop-IsReversed n (i + 1) p len swapped (omega arith) in
    let below : i < j = omega arith in
    record {
      mirrored = λ x low high. mirror x low high rest;
      kept = λ q out. rest.kept q (ground arith) ∙ swap_other q (ground arith) (ground arith);
    }
  where
    j : ℕ
    j = len - i - 1

    swapped : Memory
    swapped = store (p + j) (buf (p + i)) (store (p + i) (buf (p + j)) buf)

    swap_other : (q : ℕ) → q ≢ p + i → q ≢ p + j → swapped q ≡ buf q
    swap_other q a b = ground arith

    mirror :
        (x : ℕ)
        → i ≤ x
        → x + i < len
        → IsReversed (i + 1) p len swapped (rev_loop n (i + 1) p len swapped)
        → rev_loop n (i + 1) p len swapped (p + x) ≡ buf (p + (len - 1 - x))
    mirror x low high rest = elim (Bool-cases (x == i)) [
      | inl here ↦
          let e : x ≡ i = ground arith in
          let e' : len - 1 - i ≡ len - i - 1 = omega arith in
          let at_i : swapped (p + i) ≡ buf (p + (len - i - 1)) = ground arith in
          rw (e, e') (rest.kept (p + i) (omega arith) ∙ at_i)
      | inr ne ↦ elim (Bool-cases (x == len - i - 1)) [
        | inl here ↦
            let e : x ≡ len - i - 1 = ground arith in
            let e' : len - 1 - (len - i - 1) ≡ i = omega arith in
            let at_j : swapped (p + (len - i - 1)) ≡ buf (p + i) = ground arith in
            rw (e, e') (rest.kept (p + (len - i - 1)) (omega arith) ∙ at_j)
        | inr ne' ↦
            rest.mirrored x (ground arith) (ground arith)
            ∙ swap_other (p + (len - 1 - x)) (ground arith) (ground arith)
      ]
    ]

-- A string of `len` characters that are not NUL is reversed.
pub strrev_lem :
    (fuel p len : ℕ) (buf : Memory)
    → len < fuel
    → ((i : ℕ) → i < len → 0 < buf (p + i))
    → buf (p + len) ≡ 0
    → (buf' : Memory) × (strrev fuel p buf ≡ some buf') × IsReversed 0 p len buf buf'
unfolding strrev
strrev_lem fuel p len buf h full end =
    let found : strlen_loop fuel p 0 buf ≡ some len =
      strlen_loop_lem len fuel p 0 buf h full end ∙ ap (λ (n : ℕ). some n) (omega arith) in
    (
      rev_loop (len / 2) 0 p len buf,
      rw (found, strrev) refl,
      rev_loop-IsReversed (len / 2) 0 p len buf (omega arith),
    )
