-- ===== src/Arith/BitByBit.antt =====
-- `u64_divmod`, which brings the bits of the number down one by one, gives the quotient and the remainder.
use native.Mathlib.Nat.{pow-suc, div-div-eq-div-mul}
use mos.Base.{
  ℕ, zero, suc, ◌+◌, ◌-◌, ◌*◌, ◌/◌, ◌%◌, ◌^◌, ◌≤◌, ◌<◌, ◌≡◌, refl, sym, ◌∙◌, bit_or, leb, u64_mod,
  arith, inl, inr, Bool-cases,
}
use mos.Base.Bits.{bit_or-pow}
use mos.Arith.{bits_loop, divmod}
use mos.Arith.Divide.{divmod_unique}

-- With `i` bits to go, the bits done so far have been divided.
bits_loop_lem :
    (i num d q rem : ℕ)
    → d ≤ 2 ^ 63
    → num / 2 ^ i ≡ q * d + rem
    → rem < d
    → bits_loop i num d (q * 2 ^ i) rem ≡ (num / d, num % d)
unfolding bits_loop
bits_loop_lem zero num d q rem small done less =
    let e : q * 1 ≡ q = omega arith in
    let whole : num ≡ q * d + rem = omega arith in
    let (quot, left) = divmod_unique num d q rem whole less in rw (e, quot, left) refl
bits_loop_lem (suc i) num d q rem small done less =
    let p = pow-suc 2 i in
    let next : num / 2 ^ suc i ≡ num / 2 ^ i / 2 = rw p (sym (div-div-eq-div-mul num (2 ^ i) 2)) in
    let shifted : rem * 2 % u64_mod + num / 2 ^ i % 2 ≡ rem * 2 + num / 2 ^ i % 2 = omega arith in
    let twice : q * 2 * d ≡ q * d * 2 = grind arith in
    let twice' : (q * 2 + 1) * d ≡ q * d * 2 + d = grind arith in
    let high : q * 2 ^ suc i ≡ q * 2 * 2 ^ i = rw p (grind arith) in
    let set : bit_or (q * 2 ^ suc i) (2 ^ i) ≡ (q * 2 + 1) * 2 ^ i =
      bit_or-pow i q ∙ rw p (grind arith) in
    elim (Bool-cases (leb d (rem * 2 + num / 2 ^ i % 2))) [
      | inl fits ↦
          rw (shifted, fits, set)
            (bits_loop_lem i num d (q * 2 + 1) (rem * 2 + num / 2 ^ i % 2 - d) small (ground arith)
              (omega arith))
      | inr below ↦
          rw (shifted, below, high)
            (bits_loop_lem i num d (q * 2) (rem * 2 + num / 2 ^ i % 2) small (omega arith)
              (ground arith))
    ]

-- `u64_divmod` gives the quotient and the remainder, for divisors up to 2^63.
pub divmod_lem :
    (num d : ℕ) → num < u64_mod → 0 < d → d ≤ 2 ^ 63 → divmod num d ≡ (num / d, num % d)
unfolding divmod
divmod_lem num d word some_d small =
    let start : num / 2 ^ 64 ≡ 0 * d + 0 = omega arith in
    bits_loop_lem 64 num d 0 0 small start some_d
