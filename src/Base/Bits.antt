-- ===== src/Base/Bits.antt =====
-- Single bits of a word, and what `&`, `|` and a one-bit mask do to them.
use Prim.Native.Nat.{
  ℕ, zero, suc, ◌+◌, ◌-◌, ◌*◌, ◌/◌, ◌%◌, ◌^◌, ◌≤◌, min, max, bit_and, bit_or, bit_xor, digits,
  differ, bit_xor-bitwise, bit_and-bitwise, bit_or-bitwise,
}
use mathlib.Core.Path.{◌≡◌, refl, ap, subst, ◌∙◌}
use mathlib.Core.Logic.{◌≢◌}
use mathlib.Core.Bool.{Bool}
use native.Mathlib.Nat.{pow-suc, pow-le-pow_right}
use native.Mathlib.Omega.{arith}
use mos.Base.Tests.{◌==◌, if◌then◌else◌}

-- Bit `k` of `w`, 0 or 1.
unfoldable pub testbit : ℕ → ℕ → ℕ
testbit w zero = w % 2
testbit w (suc k) = testbit (w / 2) k

-- The C test `w & (1U << k)`.
abbrev pub has_bit : ℕ → ℕ → Bool
has_bit w k = testbit w k == 1

-- The lowest digit apart. `low` is what the operation does to one digit, and `rest` gives its value once the
-- first number has run out.
module _ (rest : ℕ → ℕ) (low : ℕ → ℕ → ℕ)
    (out : (y : ℕ) → rest y ≡ rest (y / 2) * 2 + low 0 (y % 2)) where
  run_out : (fuel y : ℕ) → digits rest low fuel 0 y ≡ rest y
  run_out zero y = refl
  run_out (suc fuel) y = refl

  -- Fuel beyond the first number is not used.
  spare_fuel :
      (x y spare : ℕ) (fuel : ℕ)
      → x ≤ fuel
      → digits rest low (fuel + spare) x y ≡ digits rest low fuel x y
  spare_fuel x y spare zero h = let e : x ≡ 0 = omega arith in rw e (run_out (0 + spare) y)
  spare_fuel zero y spare (suc fuel) h = run_out (suc fuel + spare) y
  spare_fuel (suc x) y spare (suc fuel) h =
      let half = spare_fuel (suc x / 2) (y / 2) spare fuel (omega arith) in
      let e : suc fuel + spare ≡ suc (fuel + spare) = omega arith in
      rw e (ap (λ (high : ℕ). high * 2 + low (suc x % 2) (y % 2)) half)

  digits_step :
      (x y : ℕ)
      → digits rest low x x y ≡ digits rest low (x / 2) (x / 2) (y / 2) * 2 + low (x % 2) (y % 2)
  digits_step zero y = out y
  digits_step (suc x) y =
      let e : suc x / 2 + (x - suc x / 2) ≡ x = omega arith in
      let half = spare_fuel (suc x / 2) (y / 2) (x - suc x / 2) (suc x / 2) (omega arith) in
      ap (λ (high : ℕ). high * 2 + low (suc x % 2) (y % 2))
        (subst
          (λ (fuel : ℕ).
            digits rest low fuel (suc x / 2) (y / 2)
            ≡ digits rest low (suc x / 2) (suc x / 2) (y / 2))
          e half)

pub bit_and_digit : (a b : ℕ) → bit_and a b ≡ bit_and (a / 2) (b / 2) * 2 + min (a % 2) (b % 2)
bit_and_digit a b =
    rw (bit_and-bitwise a b, bit_and-bitwise (a / 2) (b / 2))
      (digits_step (λ b. 0) min (λ b. omega arith) a b)

pub bit_or_digit : (a b : ℕ) → bit_or a b ≡ bit_or (a / 2) (b / 2) * 2 + max (a % 2) (b % 2)
bit_or_digit a b =
    rw (bit_or-bitwise a b, bit_or-bitwise (a / 2) (b / 2))
      (digits_step (λ b. b) max (λ b. omega arith) a b)

pub testbit-bit_and : (k a b : ℕ) → testbit (bit_and a b) k ≡ min (testbit a k) (testbit b k)
unfolding testbit
testbit-bit_and zero a b = omega (arith, bit_and_digit a b)
testbit-bit_and (suc k) a b =
    let e : bit_and a b / 2 ≡ bit_and (a / 2) (b / 2) = omega (arith, bit_and_digit a b) in
    rw e (testbit-bit_and k (a / 2) (b / 2))

pub testbit-bit_or : (k a b : ℕ) → testbit (bit_or a b) k ≡ max (testbit a k) (testbit b k)
unfolding testbit
testbit-bit_or zero a b = omega (arith, bit_or_digit a b)
testbit-bit_or (suc k) a b =
    let e : bit_or a b / 2 ≡ bit_or (a / 2) (b / 2) = omega (arith, bit_or_digit a b) in
    rw e (testbit-bit_or k (a / 2) (b / 2))

pub testbit_le : (k w : ℕ) → testbit w k ≤ 1
unfolding testbit
testbit_le zero w = omega arith
testbit_le (suc k) w = testbit_le k (w / 2)

pub testbit-zero : (k : ℕ) → testbit 0 k ≡ 0
unfolding testbit
testbit-zero zero = refl
testbit-zero (suc k) = testbit-zero k

testbit-one : (k : ℕ) → testbit 1 (suc k) ≡ 0
unfolding testbit
testbit-one k = testbit-zero k

pub testbit-pow_self : (k : ℕ) → testbit (2 ^ k) k ≡ 1
unfolding testbit
testbit-pow_self zero = refl
testbit-pow_self (suc k) =
    let e : 2 ^ suc k / 2 ≡ 2 ^ k = rw pow-suc (omega arith) in rw e (testbit-pow_self k)

pub testbit-pow_ne : (k j : ℕ) → k ≢ j → testbit (2 ^ k) j ≡ 0
unfolding testbit
testbit-pow_ne zero zero h = absurd (h refl)
testbit-pow_ne zero (suc j) h = testbit-zero j
testbit-pow_ne (suc k) zero h = rw pow-suc (omega arith)
testbit-pow_ne (suc k) (suc j) h =
    let e : 2 ^ suc k / 2 ≡ 2 ^ k = rw pow-suc (omega arith) in
    rw e (testbit-pow_ne k j (λ e'. h (ap suc e')))

bit_xor_digit : (a b : ℕ) → bit_xor a b ≡ bit_xor (a / 2) (b / 2) * 2 + differ (a % 2) (b % 2)
bit_xor_digit a b =
    rw (bit_xor-bitwise a b, bit_xor-bitwise (a / 2) (b / 2))
      (digits_step (λ b. b) differ (λ b. omega arith) a b)

-- What an operation does with no second number, if it keeps the digits of the first.
digits_zero :
    (low : ℕ → ℕ → ℕ)
    → ((d : ℕ) → low d 0 ≡ d)
    → (fuel a : ℕ) → a ≤ fuel
    → digits (λ b. b) low fuel a 0 ≡ a
digits_zero low keeps zero a h = omega arith
digits_zero low keeps (suc fuel) zero h = refl
digits_zero low keeps (suc fuel) (suc a) h =
    let half = digits_zero low keeps fuel (suc a / 2) (omega arith) in
    rw (half, keeps (suc a % 2)) (omega arith)

differ_zero : (d : ℕ) → differ d 0 ≡ d
differ_zero zero = refl
differ_zero (suc d) = refl

bit_xor_zero : (a : ℕ) → bit_xor a 0 ≡ a
bit_xor_zero a = rw (bit_xor-bitwise a 0) (digits_zero differ differ_zero a a (omega arith))

-- Flipping the lowest bit.
unfoldable pub flip : ℕ → ℕ
flip m = if m % 2 == 0 then m + 1 else m - 1

pub bit_xor-pow : (k m : ℕ) → bit_xor (m * 2 ^ k) (2 ^ k) ≡ flip m * 2 ^ k
unfolding flip
bit_xor-pow zero m =
    let e : m * 1 ≡ m = omega arith in
    let d = bit_xor_digit m 1 in rw (e, d, bit_xor_zero (m / 2)) (low (m % 2) refl)
  where
    low : (d : ℕ) → m % 2 ≡ d → m / 2 * 2 + differ d 1 ≡ (if d == 0 then m + 1 else m - 1) * 1
    low zero e = omega arith
    low (suc zero) e = omega arith
    low (suc (suc d)) e = absurd (omega arith)
bit_xor-pow (suc k) m =
    let p = pow-suc 2 k in
    let d = bit_xor_digit (m * 2 ^ suc k) (2 ^ suc k) in
    let e : m * (2 ^ k * 2) ≡ m * 2 ^ k * 2 = grind arith in
    let a : m * 2 ^ suc k / 2 ≡ m * 2 ^ k = rw (p, e) (omega arith) in
    let b : 2 ^ suc k / 2 ≡ 2 ^ k = rw p (omega arith) in
    let a' : m * 2 ^ suc k % 2 ≡ 0 = rw (p, e) (omega arith) in
    let b' : 2 ^ suc k % 2 ≡ 0 = rw p (omega arith) in
    d ∙ rw (a, b, a', b', bit_xor-pow k m, p) (grind arith)

bit_or_zero : (a : ℕ) → bit_or a 0 ≡ a
bit_or_zero a = rw (bit_or-bitwise a 0) (digits_zero max (λ d. omega arith) a a (omega arith))

-- Setting a bit below which there are no others.
pub bit_or-pow : (k m : ℕ) → bit_or (m * 2 ^ suc k) (2 ^ k) ≡ m * 2 ^ suc k + 2 ^ k
bit_or-pow zero m =
    let d = bit_or_digit (m * 2) 1 in
    let half : m * 2 / 2 ≡ m = omega arith in
    let even : m * 2 % 2 ≡ 0 = omega arith in d ∙ rw (half, even, bit_or_zero m) refl
bit_or-pow (suc k) m =
    let p = pow-suc 2 k in
    let p' = pow-suc 2 (suc k) in
    let d = bit_or_digit (m * 2 ^ suc (suc k)) (2 ^ suc k) in
    let e : m * (2 ^ suc k * 2) ≡ m * 2 ^ suc k * 2 = grind arith in
    let a : m * 2 ^ suc (suc k) / 2 ≡ m * 2 ^ suc k = rw (p', e) (omega arith) in
    let b : 2 ^ suc k / 2 ≡ 2 ^ k = rw p (omega arith) in
    let a' : m * 2 ^ suc (suc k) % 2 ≡ 0 = rw (p', e) (omega arith) in
    let b' : 2 ^ suc k % 2 ≡ 0 = rw p (omega arith) in
    d ∙ rw (a, b, a', b', bit_or-pow k m, p', e, p) (omega arith)

pub pow_double : (k : ℕ) → 2 ^ (k + 1) ≡ 2 ^ k + 2 ^ k
pow_double k = let e : k + 1 ≡ suc k = omega arith in rw (e, pow-suc) (omega arith)

pub pow_pos : (k : ℕ) → 1 ≤ 2 ^ k
pow_pos zero = omega arith
pow_pos (suc k) = let h = pow_pos k in rw pow-suc (omega arith)

pub pow_le : (k n : ℕ) → k ≤ n → 2 ^ k ≤ 2 ^ n
pow_le k n h = pow-le-pow_right (omega arith) h
