-- ===== src/Bpf/Verify.antt =====
-- `mos_bpf_verify`: one pass that follows, for each instruction, whether it can be reached and which
-- scratch words have then been written.
use mos.Base.{
  ℕ, ◌+◌, ◌^◌, bit_and, bit_or, Bool, true, false, ◌&&◌, ◌||◌, not, Option, none, some, List, [],
  ◌∷◌, ltb, leb, ◌==◌, if◌then◌else◌, length, get_or, set, sub32,
}
use mos.Base.Bits.{has_bit}
use mos.Bpf.{Insn, Class, ld, ldx, st, stx, alu, jmp, ret, misc, class_of, op_of, zeros}

-- A word of `states`: bit 16 says that the instruction can be reached, the bits below which scratch
-- words have been written on every path to it.
abbrev pub reached_bit : ℕ
reached_bit = 0x10000

unfoldable pub merged : ℕ → ℕ → ℕ
merged w mask =
    if has_bit w 16
    then bit_or reached_bit (bit_and (bit_and w mask) 0xffff)
    else bit_or reached_bit mask

unfoldable pub merge : List ℕ → ℕ → ℕ → List ℕ
merge states pc mask = set states pc (merged (get_or states pc 0) mask)

-- What the verifier makes of the instruction at `i`: refused (`none`), or the instructions that it
-- hands control to, each with the scratch words that are then written.
abbrev pub Verified : Type 0
Verified = Option (List (ℕ × ℕ))

unfoldable pub falls_through : ℕ → ℕ → ℕ → Verified
falls_through count i mask = if i + 1 == count then none else some ((i + 1, mask) ∷ [])

unfoldable pub valid_load : ℕ → Bool
valid_load c =
    c == 0
    || c == 1
    || c == 0x20
    || c == 0x28
    || c == 0x30
    || c == 0x40
    || c == 0x48
    || c == 0x50
    || c == 0x60
    || c == 0x61
    || c == 0x80
    || c == 0x81
    || c == 0xb1

unfoldable pub check_load : ℕ → ℕ → ℕ → Insn → Verified
check_load count i w p =
    let c = p.code in
    let mask = bit_and w 0xffff in
    if not (valid_load c)
    then none
    else if (c == 0x60 || c == 0x61) && (leb 16 p.k || (not (w == 0) && not (has_bit mask p.k)))
    then none
    else falls_through count i mask

unfoldable pub check_store : ℕ → ℕ → ℕ → Insn → Verified
check_store count i w p =
    if not (p.code == 2 || p.code == 3) || leb 16 p.k
    then none
    else falls_through count i (bit_or (bit_and w 0xffff) (2 ^ p.k))

unfoldable pub check_alu : ℕ → ℕ → ℕ → Insn → Verified
check_alu count i w p =
    let c = p.code in
    let op = op_of c in
    if ltb 0xac c || ltb 0xa0 op || (op == 0x80 && not (c == 0x84))
    then none
    else if not (has_bit c 3) && (op == 0x30 || op == 0x90) && p.k == 0
    then none
    else falls_through count i (bit_and w 0xffff)

unfoldable pub check_jump : ℕ → ℕ → ℕ → Insn → Verified
check_jump count i w p =
    let c = p.code in
    let mask = bit_and w 0xffff in
    let room = sub32 (sub32 count i) 1 in
    if c == 5
    then if leb room p.k then none else some ((i + 1 + p.k, mask) ∷ [])
    else if ltb 0x4d c || ltb (op_of c) 0x10 || leb room p.jt || leb room p.jf
    then none
    else some ((i + 1 + p.jt, mask) ∷ (i + 1 + p.jf, mask) ∷ [])

unfoldable pub check_class : Class → ℕ → ℕ → ℕ → Insn → Verified
check_class ld count i w p = check_load count i w p
check_class ldx count i w p = check_load count i w p
check_class st count i w p = check_store count i w p
check_class stx count i w p = check_store count i w p
check_class alu count i w p = check_alu count i w p
check_class jmp count i w p = check_jump count i w p
check_class ret count i w p = if not (p.code == 6 || p.code == 0x16) then none else some []
check_class misc count i w p =
    if not (p.code == 7 || p.code == 0x87) then none else falls_through count i (bit_and w 0xffff)

abbrev pub check : ℕ → ℕ → ℕ → Insn → Verified
check count i w p = check_class (class_of p.code) count i w p

unfoldable pub merge_all : List ℕ → List (ℕ × ℕ) → List ℕ
merge_all states [] = states
merge_all states ((pc, mask) ∷ ts) = merge_all (merge states pc mask) ts

unfoldable pub verify_loop : ℕ → ℕ → List Insn → List ℕ → Bool
verify_loop count i [] states = true
verify_loop count i (p ∷ ps) states = elim (check count i (get_or states i 0) p) [
  | none ↦ false
  | some ts ↦
      verify_loop count (i + 1) ps (if get_or states i 0 == 0 then states else merge_all states ts)
]

pub data Verdict : Type 0 where
  accepted invalid out_of_memory : Verdict

-- `mos_bpf_verify`; `none` is a null filter, and `allocated` whether `zalloc` gave the states.
unfoldable pub verify : Bool → Option (List Insn) → Verdict
verify allocated none = invalid
verify allocated (some filter) =
    let n = length filter in
    let ok = verify_loop n 0 filter (set (zeros n) 0 reached_bit) in
    if n == 0 || ltb 4096 n
    then invalid
    else if not allocated
    then out_of_memory
    else if ok
    then accepted
    else invalid
