-- ===== src/Phymm/Order.antt =====
-- `ceil_log2`: the order of the smallest block for a number of pages. Its `size` is an `unsigned` that
-- wraps round to 0 after 2^31, so the loop does not end for more pages than that.
use mos.Base.{
  ℕ, zero, suc, ◌+◌, ◌-◌, ◌*◌, ◌%◌, ◌^◌, ◌≤◌, ◌<◌, ◌≡◌, refl, ◌⊎◌, inl, inr, Bool-cases, Option,
  none, some, ltb, if◌then◌else◌, u32_mod, arith, true, false, leb, leb→le, ltb→lt, subst,
}
use mos.Phymm.Measure.{pow_double, pow_le}

-- The loop, with fuel; `none` if it has not ended.
unfoldable pub log2_loop : ℕ → ℕ → ℕ → ℕ → Option ℕ
log2_loop zero order size n = none
log2_loop (suc fuel) order size n =
    let rest = log2_loop fuel (order + 1) (size * 2 % u32_mod) n in
    if ltb size n then rest else some order

unfoldable pub ceil_log2 : ℕ → Option ℕ
unfolding log2_loop
ceil_log2 n = log2_loop 33 0 1 n

-- Doubling the size, as long as the order stays below 31.
size_step : (order : ℕ) → order < 31 → 2 ^ order * 2 % u32_mod ≡ 2 ^ (order + 1)
size_step order h =
    let double = pow_double order in let bound = pow_le (order + 1) 31 (omega arith) in omega arith

-- Shifted once more, 2^31 is 0.
size_wraps : 2 ^ 31 * 2 % u32_mod ≡ 0
size_wraps = refl

abbrev pub IsLeast : ℕ → ℕ → Type 0
IsLeast n k = (n ≤ 2 ^ k) × ((k ≡ 0) ⊎ (2 ^ (k - 1) < n))

-- From the size 2^order on, the loop ends with the least order that is enough.
log2_loop-IsLeast :
    (fuel order n : ℕ)
    → order ≤ 31
    → 31 ≤ order + fuel
    → n ≤ 2 ^ 31
    → (order ≡ 0) ⊎ (2 ^ (order - 1) < n)
    → (k : ℕ) × (log2_loop (suc fuel) order (2 ^ order) n ≡ some k) × IsLeast n k
unfolding log2_loop
log2_loop-IsLeast zero order n low high small least =
    let e : order ≡ 31 = omega arith in
    let enough : ltb (2 ^ order) n ≡ false = rw e (ground arith) in
    (order, rw enough refl, (ground arith, least))
log2_loop-IsLeast (suc fuel) order n low high small least = elim (Bool-cases (ltb (2 ^ order) n)) [
  | inl more ↦ elim (Bool-cases (ltb order 31)) [
    | inl below ↦
        let next =
          log2_loop-IsLeast fuel (order + 1) n (ground arith) (omega arith) small (
            inr
              (let e : order + 1 - 1 ≡ order = omega arith in rw e (ltb→lt (2 ^ order) n more))) in
        rw (more, log2_loop, size_step order (ltb→lt order 31 below)) next
    | inr top ↦
        let e : order ≡ 31 = ground arith in
        let more' = subst (λ (k : ℕ). ltb (2 ^ k) n ≡ true) e more in absurd (ground arith)
  ]
  | inr enough ↦ (order, rw enough refl, (ground arith, least))
]

-- A size that the loop can reach.
abbrev IsReached : ℕ → Type 0
IsReached size = (size ≡ 0) ⊎ ((k : ℕ) × (k ≤ 31) × (size ≡ 2 ^ k))

IsReached-le : (size : ℕ) → IsReached size → size ≤ 2 ^ 31
IsReached-le size (inl e) = omega arith
IsReached-le size (inr (k, h, e)) = let bound = pow_le k 31 h in omega arith

IsReached-step : (size : ℕ) → IsReached size → IsReached (size * 2 % u32_mod)
IsReached-step size (inl e) = inl (rw e refl)
IsReached-step size (inr (k, h, e)) = elim (Bool-cases (ltb k 31)) [
  | inl below ↦ inr (k + 1, ground arith, rw (e) (size_step k (ltb→lt k 31 below)))
  | inr top ↦ let e' : k ≡ 31 = ground arith in inl (rw (e, e') size_wraps)
]

log2_loop-never :
    (fuel order size n : ℕ) → 2 ^ 31 < n → IsReached size → log2_loop fuel order size n ≡ none
unfolding log2_loop
log2_loop-never zero order size n big r = refl
log2_loop-never (suc fuel) order size n big r =
    let bound = IsReached-le size r in
    let more : ltb size n ≡ true = ground arith in
    rw more (log2_loop-never fuel (order + 1) (size * 2 % u32_mod) n big (IsReached-step size r))

-- `ceil_log2` of at most 2^31 pages ends with the least order whose blocks have as many; for more pages its
-- loop does not end, whatever the number of rounds.
pub ceil_log2-IsLeast :
    (n : ℕ)
    → ((k : ℕ) × (ceil_log2 n ≡ some k) × IsLeast n k)
      ⊎ ((2 ^ 31 < n) × ((fuel : ℕ) → log2_loop fuel 0 1 n ≡ none))
unfolding ceil_log2
ceil_log2-IsLeast n = elim (Bool-cases (leb n (2 ^ 31))) [
  | inl small ↦
      inl
        (log2_loop-IsLeast 32 0 n (omega arith) (omega arith) (leb→le n (2 ^ 31) small) (inl refl))
  | inr big ↦
      inr (
        ground arith,
        λ fuel. log2_loop-never fuel 0 1 n (ground arith) (inr (0, omega arith, refl)),
      )
]
