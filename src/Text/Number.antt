-- ===== src/Text/Number.antt =====
-- `itoa`, `lltoa`, `atoi` and `strrev` of src/lib/impl/kstring.c. Memory is a function from addresses to characters, which
-- are codes below 128, and a buffer that has been cleared is 0 throughout. An `int` or a `long long` is its bit pattern; overflow of an `int`
-- wraps round. The result of `malloc` is an argument: the address of the buffer, or none.
use mos.Base.{
  ℕ, zero, suc, ◌+◌, ◌-◌, ◌*◌, ◌/◌, ◌%◌, ◌^◌, Bool, true, false, ◌&&◌, ◌||◌, not, Option, none,
  some, ltb, leb, ◌==◌, if◌then◌else◌, u32_mod, sub32, sub64,
}
use mos.Arith.{divmod}

abbrev pub Memory : Type 0
Memory = ℕ → ℕ

unfoldable pub store : ℕ → ℕ → Memory → Memory
store p c buf q = if q == p then c else buf q

-- `_hexdigit`.
unfoldable pub hexdigit : ℕ → ℕ
hexdigit i = if ltb i 10 then i + 48 else i - 10 + 97

-- `strlen`, with fuel; `none` if no NUL is found.
unfoldable pub strlen_loop : ℕ → ℕ → ℕ → Memory → Option ℕ
strlen_loop zero p count buf = none
strlen_loop (suc fuel) p count buf =
    let rest = strlen_loop fuel (p + 1) (count + 1) buf in if buf p == 0 then some count else rest

-- The loop of `strrev`, with the swaps that are left.
unfoldable pub rev_loop : ℕ → ℕ → ℕ → ℕ → Memory → Memory
rev_loop zero i p len buf = buf
rev_loop (suc n) i p len buf =
    let tmp = buf (p + i) in
    rev_loop n (i + 1) p len
      (store (p + (len - i - 1)) tmp (store (p + i) (buf (p + (len - i - 1))) buf))

unfoldable pub strrev : ℕ → ℕ → Memory → Option Memory
strrev fuel p buf = elim (strlen_loop fuel p 0 buf) [
  | none ↦ none
  | some len ↦ some (rev_loop (len / 2) 0 p len buf)
]

-- The loop that stores the digits, the lowest first; `split` gives the quotient and the remainder.
unfoldable pub digits_loop : (ℕ → ℕ × ℕ) → ℕ → ℕ → ℕ → Memory → Option Memory
digits_loop split zero u p buf = none
digits_loop split (suc fuel) u p buf = elim (u == 0) [
  | true ↦ some buf
  | false ↦ digits_loop split fuel (split u).0 (p + 1) (store p (hexdigit (split u).1) buf)
]

-- What the calls return: an address and the memory, or NULL.
pub data Printed : Type 0 where
  hangs null : Printed
  text : ℕ → Memory → Printed

abbrev pub to_printed : ℕ → Option Memory → Printed
to_printed p none = hangs
to_printed p (some buf) = text p buf

-- The digits of a number from `begin` on, and their reversal; the buffer has room for `fuel` characters.
unfoldable pub print : (ℕ → ℕ × ℕ) → ℕ → ℕ → ℕ → Memory → Option Memory
print split fuel u begin buf = elim (digits_loop split fuel u begin buf) [
  | none ↦ none
  | some buf' ↦ strrev fuel begin buf'
]

-- `memset` of the buffer to 0.
unfoldable pub clear : ℕ → ℕ → Memory → Memory
clear p n buf q = if leb p q && ltb q (p + n) then 0 else buf q

unfoldable pub itoa : Option ℕ → ℕ → ℕ → Bool → Memory → Printed
itoa none num base sign buf = null
itoa (some p) num base sign buf =
    let cleared = clear p 34 buf in
    if ltb base 2 || ltb 36 base
    then null
    else if num == 0
    then text p (store (p + 1) 0 (store p 48 cleared))
    else if sign && base == 10 && leb (2 ^ 31) num
    then to_printed p
        (print (λ u. (u / base, u % base)) 33 (sub32 0 num) (p + 1) (store p 45 cleared))
    else to_printed p (print (λ u. (u / base, u % base)) 33 num p cleared)

unfoldable pub lltoa : Option ℕ → ℕ → ℕ → Bool → Memory → Printed
lltoa none num base sign buf = null
lltoa (some p) num base sign buf =
    let cleared = clear p 24 buf in
    if num == 0
    then text p (store (p + 1) 0 (store p 48 cleared))
    else if not (base == 10) && not (base == 16)
    then null
    else if base == 10 && sign && leb (2 ^ 63) num
    then to_printed p (print (λ u. divmod u base) 23 (sub64 0 num) (p + 1) (store p 45 cleared))
    else to_printed p (print (λ u. divmod u base) 23 num p cleared)

-- Whether the loop of `atoi` stops at a character, and the value of a digit.
unfoldable pub stops : ℕ → ℕ → Bool
stops base c =
    (base == 8 && (ltb 55 c || ltb c 48))
    || (base == 10 && (ltb 57 c || ltb c 48))
    || (base == 16
        && not ((leb 48 c && leb c 57) || (leb 97 c && leb c 102) || (leb 65 c && leb c 70)))

unfoldable pub digit : ℕ → ℕ
digit c =
    if leb 48 c && leb c 57
    then c - 48
    else if leb 97 c && leb c 102
    then c - 97 + 10
    else (c + u32_mod - 65 + 10) % u32_mod

-- The loop of `atoi`, with fuel.
unfoldable pub atoi_loop : ℕ → ℕ → ℕ → ℕ → Memory → Option ℕ
atoi_loop zero base p ret buf = none
atoi_loop (suc fuel) base p ret buf =
    let rest = atoi_loop fuel base (p + 1) ((ret * base + digit (buf p)) % u32_mod) buf in
    if buf p == 0 || stops base (buf p) then some ret else rest

abbrev pub negated : Bool → Option ℕ → Option ℕ
negated neg none = none
negated neg (some ret) = some (if neg then sub32 0 ret else ret)

-- `atoi` of a pointer that is not NULL, for strings shorter than `fuel`.
unfoldable pub atoi : ℕ → ℕ → Memory → Option ℕ
atoi fuel p buf =
    let neg = buf p == 45 in
    let q = if neg then p + 1 else p in
    if buf p == 0
    then some 0
    else if buf q == 48
    then if buf (q + 1) == 120 || buf (q + 1) == 88
      then atoi_loop fuel 16 (q + 2) 0 buf
      else if buf (q + 1) == 98
      then atoi_loop fuel 2 (q + 2) 0 buf
      else if leb 48 (buf (q + 1)) && leb (buf (q + 1)) 55
      then atoi_loop fuel 8 (q + 1) 0 buf
      else some 0
    else negated neg (atoi_loop fuel 10 q 0 buf)
