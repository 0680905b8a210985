-- ===== src/Kmalloc/Word.antt =====
-- Masks of 32 bits, and the lowest set bit.
use native.Mathlib.Nat.{pow-suc}
use mos.Base.{
  ℕ, zero, suc, ◌+◌, ◌-◌, ◌/◌, ◌%◌, ◌^◌, ◌≤◌, ◌<◌, ◌≡◌, ◌≢◌, bit_and, bit_or, inl, inr, ◌==◌,
  if◌then◌else◌, leb, ltb, ◌&&◌, not, arith, Bool-cases, subst, ◌∙◌,
}
use mos.Base.Bits.{bit_and_digit, bit_or_digit, testbit, testbit-zero, pow_pos, pow_le}
use mos.Kmalloc.{ctz_loop}

-- All bits from `s` up to `n`.
pub testbit-range :
    (n s j : ℕ) → s ≤ n → testbit (2 ^ n - 2 ^ s) j ≡ (if leb s j && ltb j n then 1 else 0)
unfolding testbit
testbit-range zero s j h = let e : s ≡ 0 = omega arith in rw e (testbit-zero j ∙ ground arith)
testbit-range (suc n) zero zero h = let p = pow-suc 2 n in let q = pow_pos n in ground arith
testbit-range (suc n) zero (suc j) h =
    let p = pow-suc 2 n in
    let q = pow_pos n in
    let e : (2 ^ suc n - 1) / 2 ≡ 2 ^ n - 2 ^ 0 = omega arith in
    rw e (testbit-range n 0 j (omega arith) ∙ ground arith)
testbit-range (suc n) (suc s) zero h = let p = pow-suc 2 n in let q = pow-suc 2 s in ground arith
testbit-range (suc n) (suc s) (suc j) h =
    let p = pow-suc 2 n in
    let q = pow-suc 2 s in
    let e : (2 ^ suc n - 2 ^ suc s) / 2 ≡ 2 ^ n - 2 ^ s = omega arith in
    rw e (testbit-range n s j (omega arith) ∙ ground arith)

-- All bits below `n` but the bit `k`.
pub testbit-without :
    (n k j : ℕ) → k < n → testbit (2 ^ n - 1 - 2 ^ k) j ≡ (if ltb j n && not (j == k) then 1 else 0)
unfolding testbit
testbit-without zero k j h = absurd (omega arith)
testbit-without (suc n) zero zero h = let p = pow-suc 2 n in let q = pow_pos n in ground arith
testbit-without (suc n) zero (suc j) h =
    let p = pow-suc 2 n in
    let q = pow_pos n in
    let e : (2 ^ suc n - 1 - 2 ^ 0) / 2 ≡ 2 ^ n - 2 ^ 0 = omega arith in
    rw e (testbit-range n 0 j (omega arith) ∙ ground arith)
testbit-without (suc n) (suc k) zero h =
    let p = pow-suc 2 n in
    let q = pow-suc 2 k in
    let r = pow_le (suc k) n (omega arith) in let o = pow_pos n in ground arith
testbit-without (suc n) (suc k) (suc j) h =
    let p = pow-suc 2 n in
    let q = pow-suc 2 k in
    let r = pow_le (suc k) n (omega arith) in
    let e : (2 ^ suc n - 1 - 2 ^ suc k) / 2 ≡ 2 ^ n - 1 - 2 ^ k = omega arith in
    rw e (testbit-without n k j (omega arith) ∙ ground arith)

-- The lowest set bit of a word that is not 0 and has at most `n` bits.
pub ctz_loop_lem :
    (n w : ℕ)
    → w < 2 ^ n
    → w ≢ 0
    → (testbit w (ctz_loop n w) ≡ 1)
      × (ctz_loop n w < n)
      × ((j : ℕ) → j < ctz_loop n w → testbit w j ≡ 0)
unfolding ctz_loop testbit
ctz_loop_lem zero w h some_bit = absurd (some_bit (omega arith))
ctz_loop_lem (suc n) w h some_bit = elim (Bool-cases (w % 2 == 1)) [
  | inl odd ↦ rw odd (ground arith, omega arith, λ j l. absurd (omega arith))
  | inr even ↦
      let p = pow-suc 2 n in
      let w0 : w % 2 ≡ 0 = ground arith in
      let (set, low, clear) = ctz_loop_lem n (w / 2) (omega arith) (λ e. some_bit (omega arith)) in
      let next : ctz_loop n (w / 2) + 1 ≡ suc (ctz_loop n (w / 2)) = omega arith in
      rw (even, next) (set, omega arith, λ j l. below j l clear w0)
]
  where
    below :
        (j : ℕ)
        → j < suc (ctz_loop n (w / 2))
        → ((i : ℕ) → i < ctz_loop n (w / 2) → testbit (w / 2) i ≡ 0)
        → w % 2 ≡ 0
        → testbit w j ≡ 0
    below zero l clear w0 = w0
    below (suc j) l clear w0 = clear j (omega arith)

-- A word with a set bit is not 0.
pub testbit-ne_zero : (w j : ℕ) → testbit w j ≡ 1 → w ≢ 0
testbit-ne_zero w j e z =
    let none_set = testbit-zero j in
    let e' = subst (λ (v : ℕ). testbit v j ≡ 1) z e in absurd (omega arith)

-- Words of `n` bits stay so.
pub bit_or_lt : (n a b : ℕ) → a < 2 ^ n → b < 2 ^ n → bit_or a b < 2 ^ n
bit_or_lt zero a b h g =
    let ea : a ≡ 0 = omega arith in let eb : b ≡ 0 = omega arith in rw (ea, eb) (omega arith)
bit_or_lt (suc n) a b h g =
    let p = pow-suc 2 n in
    let half = bit_or_lt n (a / 2) (b / 2) (omega arith) (omega arith) in
    omega (arith, bit_or_digit a b)

pub bit_and_lt : (n a b : ℕ) → a < 2 ^ n → b < 2 ^ n → bit_and a b < 2 ^ n
bit_and_lt zero a b h g =
    let ea : a ≡ 0 = omega arith in let eb : b ≡ 0 = omega arith in rw (ea, eb) (omega arith)
bit_and_lt (suc n) a b h g =
    let p = pow-suc 2 n in
    let half = bit_and_lt n (a / 2) (b / 2) (omega arith) (omega arith) in
    omega (arith, bit_and_digit a b)

pub pow_lt : (k n : ℕ) → k < n → 2 ^ k < 2 ^ n
pow_lt k n h = let p = pow-suc 2 k in let q = pow_pos k in let r = pow_le (suc k) n h in omega arith
