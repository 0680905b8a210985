-- ===== src/Text/Plain.antt =====
-- The searches of `strchr` and of `strstr` without a table.
use mos.Base.{
  ℕ, zero, suc, ◌+◌, ◌≤◌, ◌<◌, ◌≡◌, sym, ◌∙◌, ap, subst, ◌⊎◌, inl, inr, true, false, Option, none,
  some, ◌==◌, arith, Bool-cases,
}
use mos.Text.Number.{Memory}
use mos.Text.Search.{chr_loop, agree_loop, plain_loop}

-- The `n` characters of Y stand in X from `k` on.
abbrev pub Occurs : Memory → Memory → ℕ → ℕ → Type 0
Occurs X Y n k = (t : ℕ) → t < n → X (k + t) ≡ Y t

-- The first of the places up to `last` where Y stands in X, if there is one.
abbrev pub IsFirst : Memory → Memory → ℕ → ℕ → Option ℕ → Type 0
IsFirst X Y n m none = (k : ℕ) → k + n ≤ m → ¬ Occurs X Y n k
IsFirst X Y n m (some k) = (k + n ≤ m) × Occurs X Y n k × ((x : ℕ) → x < k → ¬ Occurs X Y n x)

pub chr_loop-IsFirst :
    (X Y : Memory) (m rounds i : ℕ)
    → i + rounds ≡ m
    → ((x : ℕ) → x < i → ¬ Occurs X Y 1 x)
    → IsFirst X Y 1 m (chr_loop rounds i X (Y 0))
unfolding chr_loop
chr_loop-IsFirst X Y m zero i e none_yet = λ k h. none_yet k (omega arith)
chr_loop-IsFirst X Y m (suc rounds) i e none_yet = elim (Bool-cases (X i == Y 0)) [
  | inl hit ↦
      rw (hit, chr_loop)
        (
          omega arith,
          (λ t h.
              let t0 : t ≡ 0 = omega arith in
              let i0 : i + 0 ≡ i = omega arith in
              let same : X i ≡ Y 0 = ground arith in rw (t0, i0) same),
          none_yet,
        )
  | inr miss ↦
      rw (miss, chr_loop)
        (chr_loop-IsFirst X Y m rounds (i + 1) (omega arith) (λ x h occurs.
          elim (Bool-cases (x == i)) [
            | inl here ↦
                let x0 : x + 0 ≡ i = ground arith in
                let same = ap X (sym x0) ∙ occurs 0 (omega arith) in absurd (ground arith)
            | inr before ↦ none_yet x (ground arith) occurs
          ]))
]

agree_loop_lem :
    (X Y : Memory) (rounds j i : ℕ)
    → ((t : ℕ) → t < j → X (i + t) ≡ Y t)
    → ((agree_loop rounds j i X Y ≡ j + rounds) × Occurs X Y (j + rounds) i)
      ⊎ ((agree_loop rounds j i X Y < j + rounds) × (¬ Occurs X Y (j + rounds) i))
unfolding agree_loop
agree_loop_lem X Y zero j i so_far =
    let e : j ≡ j + 0 = omega arith in inl (e, subst (λ (n : ℕ). Occurs X Y n i) e so_far)
agree_loop_lem X Y (suc rounds) j i so_far = elim (Bool-cases (X (i + j) == Y j)) [
  | inl hit ↦
      let e : j + 1 + rounds ≡ j + suc rounds = omega arith in
      let same : X (i + j) ≡ Y j = ground arith in
      let rest = agree_loop_lem X Y rounds (j + 1) i (λ t h. elim (Bool-cases (t == j)) [
        | inl last ↦ let e' : t ≡ j = ground arith in rw e' same
        | inr earlier ↦ so_far t (ground arith)
      ]) in
      rw (hit, agree_loop, sym e) rest
  | inr miss ↦
      rw (miss, agree_loop)
        (inr (omega arith, λ occurs. let same = occurs j (omega arith) in absurd (ground arith)))
]

pub plain_loop-IsFirst :
    (X Y : Memory) (n m rounds i : ℕ)
    → i + rounds ≡ m + 1
    → ((x : ℕ) → x < i → ¬ Occurs X Y n x)
    → IsFirst X Y n (m + n) (plain_loop rounds i n X Y)
unfolding plain_loop
plain_loop-IsFirst X Y n m zero i e none_yet = λ k h. none_yet k (omega arith)
plain_loop-IsFirst X Y n m (suc rounds) i e none_yet =
    elim (agree_loop_lem X Y n 0 i (λ t h. absurd (omega arith))) [
      | inl (all, occurs) ↦
          let full : (agree_loop n 0 i X Y == n) ≡ true = ground arith in
          let n0 : 0 + n ≡ n = omega arith in
          rw (full, plain_loop) (omega arith, subst (λ (k : ℕ). Occurs X Y k i) n0 occurs, none_yet)
      | inr (some_left, not_here) ↦
          let less : (agree_loop n 0 i X Y == n) ≡ false = ground arith in
          let n0 : 0 + n ≡ n = omega arith in
          let not_here' = subst (λ (k : ℕ). ¬ Occurs X Y k i) n0 not_here in
          rw (less, plain_loop)
            (plain_loop-IsFirst X Y n m rounds (i + 1) (omega arith) (λ x h occurs.
              elim (Bool-cases (x == i)) [
                | inl here ↦
                    let x' : x ≡ i = ground arith in
                    not_here' (subst (λ (k : ℕ). Occurs X Y n k) x' occurs)
                | inr before ↦ none_yet x (ground arith) occurs
              ]))
    ]
