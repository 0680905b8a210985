-- ===== src/Arith.antt =====
-- src/lib/impl/klib.c, the division of 64-bit numbers for machines that have none, and `u64_divmod` of
-- src/lib/impl/kstring.c. An `int64_t` is its bit pattern.
pub mod Divide
pub mod BitByBit
mod Tests
use mos.Base.{
  ℕ, zero, suc, ◌+◌, ◌-◌, ◌*◌, ◌/◌, ◌%◌, ◌^◌, bit_or, Bool, true, false, Option, none, some, ltb,
  leb, ◌==◌, not, if◌then◌else◌, u64_mod, sub64,
}

-- The loop that aligns the divisor; `none` if it has not ended.
unfoldable pub align_loop : ℕ → ℕ → ℕ → ℕ → Option (ℕ × ℕ)
align_loop zero num den qbit = none
align_loop (suc fuel) num den qbit =
    let rest = align_loop fuel num (den * 2 % u64_mod) (qbit * 2 % u64_mod) in
    if leb den (num / 2) then rest else some (den, qbit)

-- The loop of trial subtractions; the result is the quotient and what is left of the number.
unfoldable pub subtract_loop : ℕ → ℕ → ℕ → ℕ → ℕ → Option (ℕ × ℕ)
subtract_loop zero num den qbit quot = none
subtract_loop (suc fuel) num den qbit quot =
    let fits = leb den num in
    let num' = if fits then num - den else num in
    let quot' = if fits then bit_or quot qbit else quot in
    let rest = subtract_loop fuel num' (den / 2) (qbit / 2) quot' in
    if qbit == 0 then some (quot, num) else rest

-- A division traps if the divisor is 0.
pub data Division : Type 0 where
  traps hangs : Division
  gives : ℕ → ℕ → Division

abbrev pub to_division : Option (ℕ × ℕ) → Division
to_division none = hangs
to_division (some (quot, rem)) = gives quot rem

abbrev pub aligned : ℕ → Option (ℕ × ℕ) → Division
aligned num none = hangs
aligned num (some (den, qbit)) = to_division (subtract_loop 65 num den qbit 0)

-- `__udivmoddi4`, with the remainder that it stores.
unfoldable pub udivmod : ℕ → ℕ → Division
udivmod num den = if den == 0 then traps else aligned num (align_loop 64 num den 1)

abbrev pub is_neg : ℕ → Bool
is_neg a = leb (2 ^ 63) a

abbrev pub magnitude : ℕ → ℕ
magnitude a = if is_neg a then sub64 0 a else a

abbrev pub map_quot : (ℕ → ℕ) → Division → Division
map_quot f traps = traps
map_quot f hangs = hangs
map_quot f (gives quot rem) = gives (f quot) rem

abbrev pub map_rem : (ℕ → ℕ) → Division → Division
map_rem f traps = traps
map_rem f hangs = hangs
map_rem f (gives quot rem) = gives quot (f rem)

abbrev pub differ : Bool → Bool → Bool
differ true b = not b
differ false b = b

-- `__divdi3`: the first number given is its result.
unfoldable pub divdi3 : ℕ → ℕ → Division
divdi3 a b =
    map_quot (λ q. if differ (is_neg a) (is_neg b) then sub64 0 q else q)
      (udivmod (magnitude a) (magnitude b))

-- `__moddi3`: the second number given is its result.
unfoldable pub moddi3 : ℕ → ℕ → Division
moddi3 a b = map_rem (λ r. if is_neg a then sub64 0 r else r) (udivmod (magnitude a) (magnitude b))

-- `u64_divmod`. The loop with `n` bits to go.
unfoldable pub bits_loop : ℕ → ℕ → ℕ → ℕ → ℕ → ℕ × ℕ
bits_loop zero num d quot rem = (quot, rem)
bits_loop (suc i) num d quot rem =
    let shifted = (rem * 2 % u64_mod) + num / 2 ^ i % 2 in
    let fits = leb d shifted in
    bits_loop i num d (if fits then bit_or quot (2 ^ i) else quot)
      (if fits then shifted - d else shifted)

unfoldable pub divmod : ℕ → ℕ → ℕ × ℕ
divmod num d = bits_loop 64 num d 0 0
