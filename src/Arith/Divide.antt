-- ===== src/Arith/Divide.antt =====
-- The shift-and-subtract divisions give the quotient and the remainder.
use native.Mathlib.Nat.{pow-suc, div-eq_of_lt-le, div-add-mod'}
use mos.Base.{
  ℕ, zero, suc, ◌+◌, ◌-◌, ◌*◌, ◌/◌, ◌%◌, ◌^◌, ◌≤◌, ◌<◌, ◌≡◌, refl, ap, subst, ◌∙◌, Bool, true,
  false, Option, some, leb, ◌==◌, if◌then◌else◌, u64_mod, sub64, arith, inl, inr, leb→le,
  Bool-cases,
}
use mos.Base.Bits.{bit_or-pow, pow_pos}
use mos.Arith.{
  align_loop, subtract_loop, traps, gives, is_neg, magnitude, differ, udivmod, divdi3, moddi3,
}

-- The quotient and the remainder are what they are.
pub divmod_unique : (n d q r : ℕ) → n ≡ q * d + r → r < d → (n / d ≡ q) × (n % d ≡ r)
divmod_unique n d q r e h =
    let some_d : 0 < d = omega arith in
    let step : (q + 1) * d ≡ q * d + d = grind arith in
    let quot : n / d ≡ q = div-eq_of_lt-le d (omega arith) (omega arith) in
    let back = div-add-mod' n d in
    let back' : q * d + n % d ≡ n = subst (λ (k : ℕ). k * d + n % d ≡ n) quot back in
    (quot, omega arith)

-- A result that adds `q` to the quotient so far, `num` having been `q` times the divisor and a remainder.
abbrev Divided : ℕ → ℕ → ℕ → Option (ℕ × ℕ) → Type 0
Divided num d quot result =
    (q : ℕ) × (r : ℕ) × (result ≡ some (quot + q, r)) × (num ≡ q * d + r) × (r < d)

-- With `qbit` = 2^k and the divisor shifted with it, the loop ends after k + 1 more rounds.
subtract_loop_lem :
    (k fuel num d m : ℕ)
    → k + 2 ≤ fuel
    → num < d * 2 ^ suc k
    → Divided num d (m * 2 ^ suc k) (subtract_loop fuel num (d * 2 ^ k) (2 ^ k) (m * 2 ^ suc k))
unfolding subtract_loop
subtract_loop_lem k zero num d m enough h = absurd (omega arith)
subtract_loop_lem zero (suc zero) num d m enough h = absurd (omega arith)
subtract_loop_lem zero (suc (suc fuel)) num d m enough h = elim (Bool-cases (leb (d * 1) num)) [
  | inl fits ↦ rw fits (1, num - d * 1, rw (bit_or-pow 0 m) refl, ground arith, ground arith)
  | inr less ↦
      rw less
        (0, num, (let e : m * 2 + 0 ≡ m * 2 = omega arith in rw e refl), omega arith, ground arith)
]
subtract_loop_lem (suc k) (suc fuel) num d m enough h =
    let some_bit = pow_pos k in
    let p = pow-suc 2 k in
    let p' = pow-suc 2 (suc k) in
    let more : (2 ^ suc k == 0) ≡ false = ground arith in
    let q_half : 2 ^ suc k / 2 ≡ 2 ^ k = rw p (omega arith) in
    let e : d * 2 ^ suc k ≡ d * 2 ^ k * 2 = rw p (grind arith) in
    let e' : d * 2 ^ suc (suc k) ≡ d * 2 ^ suc k * 2 = rw p' (grind arith) in
    let d_half : d * 2 ^ suc k / 2 ≡ d * 2 ^ k = rw e (omega arith) in
    elim (Bool-cases (leb (d * 2 ^ suc k) num)) [
      | inl fits ↦
          let quot : m * 2 ^ suc (suc k) + 2 ^ suc k ≡ (m * 2 + 1) * 2 ^ suc k =
            rw p' (grind arith) in
          let (q, r, ends, divides, small) =
            subtract_loop_lem k fuel (num - d * 2 ^ suc k) d (m * 2 + 1) (omega arith)
              (ground arith) in
          rw (fits, more, d_half, q_half, bit_or-pow (suc k) m, quot)
            (
              2 ^ suc k + q,
              r,
              ends ∙ ap (λ (x : ℕ). some (x, r)) (omega (arith, quot)),
              (let parts : (2 ^ suc k + q) * d ≡ d * 2 ^ suc k + q * d = grind arith in
                  ground (arith, parts)),
              small,
            )
      | inr less ↦
          let quot : m * 2 ^ suc (suc k) ≡ (m * 2) * 2 ^ suc k = rw p' (grind arith) in
          let (q, r, ends, divides, small) =
            subtract_loop_lem k fuel num d (m * 2) (omega arith) (ground arith) in
          rw (less, more, d_half, q_half, quot) (q, r, ends, divides, small)
    ]

scaled_le : (d p : ℕ) → 0 < d → p ≤ d * p
scaled_le zero p h = absurd (omega arith)
scaled_le (suc d) p h = let e : suc d * p ≡ d * p + p = grind arith in omega arith

-- The divisor shifted as far as twice it fits.
abbrev IsAligned : ℕ → ℕ → Option (ℕ × ℕ) → Type 0
IsAligned num d result =
    (k : ℕ) × (result ≡ some (d * 2 ^ k, 2 ^ k)) × (num < d * 2 ^ suc k) × (k ≤ 63)

align_loop_lem :
    (fuel j num d : ℕ)
    → fuel + j ≡ 63
    → 0 < d
    → num < u64_mod
    → IsAligned num d (align_loop (suc fuel) num (d * 2 ^ j) (2 ^ j))
unfolding align_loop
align_loop_lem zero j num d left some_d word =
    let top : j ≡ 63 = omega arith in
    let bit : 2 ^ j ≡ 2 ^ 63 = ap (λ (i : ℕ). 2 ^ i) top in
    let large = scaled_le d (2 ^ j) some_d in
    let ends : leb (d * 2 ^ j) (num / 2) ≡ false = ground arith in
    let p = pow-suc 2 j in
    let e : d * 2 ^ suc j ≡ d * 2 ^ j * 2 = rw p (grind arith) in
    (j, rw ends refl, ground arith, omega arith)
align_loop_lem (suc fuel) j num d left some_d word =
    let p = pow-suc 2 j in
    let e : d * 2 ^ suc j ≡ d * 2 ^ j * 2 = rw p (grind arith) in
    elim (Bool-cases (leb (d * 2 ^ j) (num / 2))) [
      | inl more ↦
          let fits = leb→le (d * 2 ^ j) (num / 2) more in
          let large = scaled_le d (2 ^ j) some_d in
          let shifted : d * 2 ^ j * 2 % u64_mod ≡ d * 2 ^ suc j = omega arith in
          let bit : 2 ^ j * 2 % u64_mod ≡ 2 ^ suc j = omega arith in
          rw (more, align_loop, shifted, bit)
            (align_loop_lem fuel (suc j) num d (omega arith) some_d word)
      | inr ends ↦ (j, rw ends refl, ground arith, omega arith)
    ]

-- `__udivmoddi4` of a 64-bit number traps for the divisor 0, and else its loops end with the quotient and the
-- remainder.
pub udivmod_lem :
    (num den : ℕ)
    → num < u64_mod
    → udivmod num den ≡ (if den == 0 then traps else gives (num / den) (num % den))
unfolding udivmod
udivmod_lem num den word = elim (Bool-cases (den == 0)) [
  | inl none_den ↦ rw none_den refl
  | inr some_den ↦
      let one : den * 2 ^ 0 ≡ den = omega arith in
      let (k, aligns, below, bound) =
        subst (λ (x : ℕ). IsAligned num den (align_loop 64 num x 1)) one
          (align_loop_lem 63 0 num den refl (ground arith) word) in
      let (q, r, divides, whole, small) = subtract_loop_lem k 65 num den 0 (omega arith) below in
      let (quot, rem) = divmod_unique num den q r whole small in
      let start : 0 * 2 ^ suc k ≡ 0 = omega arith in
      let divides' : subtract_loop 65 num (den * 2 ^ k) (2 ^ k) 0 ≡ some (q, r) =
        subst (λ (x : ℕ). subtract_loop 65 num (den * 2 ^ k) (2 ^ k) x ≡ some (x + q, r)) start
          divides
        ∙ ap (λ (x : ℕ). some (x, r)) (omega arith) in
      rw (some_den, aligns, divides', quot, rem) refl
]

-- The bit pattern of a number from its sign and its magnitude.
abbrev pub of_sign : Bool → ℕ → ℕ
of_sign negative n = if negative then sub64 0 n else n

-- A sign and a magnitude that an `int64_t` can have; 0 has no sign.
abbrev pub IsSigned : Bool → ℕ → Type 0
IsSigned true n = (1 ≤ n) × (n ≤ 2 ^ 63)
IsSigned false n = n < 2 ^ 63

is_neg-of_sign : (s : Bool) (n : ℕ) → IsSigned s n → is_neg (of_sign s n) ≡ s
is_neg-of_sign true n h = ground arith
is_neg-of_sign false n h = ground arith

magnitude-of_sign : (s : Bool) (n : ℕ) → IsSigned s n → magnitude (of_sign s n) ≡ n
magnitude-of_sign true n h = ground arith
magnitude-of_sign false n h = ground arith

signed_word : (s : Bool) (n : ℕ) → IsSigned s n → n < u64_mod
signed_word true n h = omega arith
signed_word false n h = omega arith

-- `__divdi3` and `__moddi3` of two signed numbers, the second not 0, give the quotient of the magnitudes, negated if
-- the signs differ, and the remainder of the magnitudes with the sign of the first.
pub divdi3-moddi3 :
    (s t : Bool) (n d : ℕ)
    → IsSigned s n
    → IsSigned t d
    → 0 < d
    → (divdi3 (of_sign s n) (of_sign t d) ≡ gives (of_sign (differ s t) (n / d)) (n % d))
      × (moddi3 (of_sign s n) (of_sign t d) ≡ gives (n / d) (of_sign s (n % d)))
unfolding divdi3 moddi3
divdi3-moddi3 s t n d h g some_d =
    let some_den : (d == 0) ≡ false = ground arith in
    let divides : udivmod n d ≡ gives (n / d) (n % d) =
      udivmod_lem n d (signed_word s n h) ∙ rw some_den refl in
    (
      rw
          (
            magnitude-of_sign s n h,
            magnitude-of_sign t d g,
            divides,
            is_neg-of_sign s n h,
            is_neg-of_sign t d g,
          )
          refl,
      rw (magnitude-of_sign s n h, magnitude-of_sign t d g, divides, is_neg-of_sign s n h) refl,
    )
