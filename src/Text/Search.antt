-- ===== src/Text/Search.antt =====
-- `strstr` of src/lib/impl/kstring.c. The string X has `m` characters and Y has `n`, as functions of the index; the
-- argument `granted` tells whether `malloc` gives the table. The result is an index into X.
use mos.Base.{
  ℕ, zero, suc, ◌+◌, ◌-◌, Bool, true, false, ◌&&◌, not, Option, none, some, ltb, ◌==◌,
  if◌then◌else◌, ◌%◌, u32_mod, is_positive32,
}
use mos.Text.Number.{Memory, store}

-- `while (j && c != Y[j]) j = next[j - 1]`, with fuel; `j` rounds are enough.
unfoldable pub fall_loop : ℕ → Memory → Memory → ℕ → ℕ → ℕ
fall_loop zero next Y c j = j
fall_loop (suc fuel) next Y c j = elim (not (j == 0) && not (c == Y j)) [
  | true ↦ fall_loop fuel next Y c (next (j - 1))
  | false ↦ j
]

-- The body that both loops have.
unfoldable pub advance : Memory → Memory → ℕ → ℕ → ℕ
advance next Y c j = let j' = fall_loop j next Y c j in if c == Y j' then j' + 1 else j'

-- The table, with the rounds that are left.
unfoldable pub build_loop : ℕ → ℕ → ℕ → Memory → Memory → Memory
build_loop zero i j next Y = next
build_loop (suc rounds) i j next Y =
    build_loop rounds (i + 1) (advance next Y (Y i) j) (store i (advance next Y (Y i) j) next) Y

-- The search with the table.
unfoldable pub search_loop : ℕ → ℕ → ℕ → Memory → ℕ → Memory → Memory → Option ℕ
search_loop zero i j next n X Y = none
search_loop (suc rounds) i j next n X Y =
    let j' = advance next Y (X i) j in
    let rest = search_loop rounds (i + 1) j' next n X Y in
    if j' == n then some (i + 1 - n) else rest

-- The search of `strchr` for the character `c`.
unfoldable pub chr_loop : ℕ → ℕ → Memory → ℕ → Option ℕ
chr_loop zero i X c = none
chr_loop (suc rounds) i X c =
    let rest = chr_loop rounds (i + 1) X c in if X i == c then some i else rest

-- `strchr` in a string of `m` characters. It keeps the length in an `int`, which is negative or too
-- small from 2^31 characters on.
unfoldable pub strchr : ℕ → Memory → ℕ → Option ℕ
unfolding chr_loop
strchr m X c =
    let len = m % u32_mod in
    let found = chr_loop len 0 X c in if is_positive32 len then found else none

-- How many characters of Y agree with X from `i` on.
unfoldable pub agree_loop : ℕ → ℕ → ℕ → Memory → Memory → ℕ
agree_loop zero j i X Y = j
agree_loop (suc rounds) j i X Y =
    let rest = agree_loop rounds (j + 1) i X Y in if X (i + j) == Y j then rest else j

-- The search without a table.
unfoldable pub plain_loop : ℕ → ℕ → ℕ → Memory → Memory → Option ℕ
plain_loop zero i n X Y = none
plain_loop (suc rounds) i n X Y =
    let rest = plain_loop rounds (i + 1) n X Y in if agree_loop n 0 i X Y == n then some i else rest

unfoldable pub strstr : Bool → ℕ → ℕ → Memory → Memory → Option ℕ
strstr granted m n X Y =
    if n == 0
    then some 0
    else if ltb m n
    then none
    else if n == 1
    then strchr m X (Y 0)
    else if granted
    then search_loop m 0 0 (build_loop (n - 1) 1 0 (store 0 0 (λ q. 0)) Y) n X Y
    else plain_loop (m - n + 1) 0 n X Y
