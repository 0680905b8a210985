-- ===== src/Bpf/Run.antt =====
-- `mos_bpf_run`: the interpreter. Every access that the C code makes unchecked (a scratch word from 16
-- on, a byte behind the packet) is a `fault` here.
use mos.Base.{
  ℕ, zero, suc, ◌+◌, ◌-◌, ◌*◌, ◌/◌, ◌%◌, ◌^◌, bit_and, bit_or, bit_xor, Bool, false, ◌||◌, not,
  Option, none, some, List, ltb, leb, ◌==◌, if◌then◌else◌, length, get_elem?, set, add32, sub32,
  u32_mod,
}
use mos.Base.Bits.{has_bit}
use mos.Bpf.{Insn, Class, ld, ldx, st, stx, alu, jmp, ret, misc, class_of, op_of, zeros}

pub record Machine : Type 0 where
  pub pc : ℕ
  pub a : ℕ
  pub x : ℕ
  pub memory : List ℕ

-- How a run ends: by a return instruction; by the `return 0` of a load or of a division that cannot
-- be made; behind the last instruction; or by an access that C leaves undefined.
pub data Exit : Type 0 where
  returned : ℕ → Exit
  rejected fell fault : Exit

pub data Next : Type 0 where
  goes : Machine → Next
  exits : Exit → Next

-- `size` bytes at `offset`, highest first; `none` is a byte behind the packet.
unfoldable pub load_bytes : List ℕ → ℕ → ℕ → ℕ → Option ℕ
load_bytes packet offset zero loaded = some loaded
load_bytes packet offset (suc size) loaded = elim (get_elem? packet offset) [
  | none ↦ none
  | some byte ↦ load_bytes packet (offset + 1) size (bit_or (loaded * 256 % u32_mod) byte)
]

abbrev pub load_to : Machine → ℕ → ℕ → Next
load_to m code loaded = goes (
    if has_bit code 0
    then record m { pc = add32 m.pc 1; x = loaded }
    else record m { pc = add32 m.pc 1; a = loaded })

abbrev pub load_size : ℕ → ℕ
load_size code =
    if bit_and code 0xe0 == 0xa0 || bit_and code 0x18 == 0x10
    then 1
    else if bit_and code 0x18 == 8
    then 2
    else 4

unfoldable pub step_load : List ℕ → Insn → Machine → Next
step_load packet p m =
    let mode = bit_and p.code 0xe0 in
    let offset = if mode == 0x40 then p.k + m.x else p.k in
    let size = load_size p.code in
    if mode == 0x60
    then elim (get_elem? m.memory p.k) [ none ↦ exits fault | some v ↦ load_to m p.code v ]
    else if mode == 0x80
    then load_to m p.code (length packet)
    else if mode == 0x20 || mode == 0x40 || mode == 0xa0
    then if ltb (length packet) offset || ltb (length packet - offset) size
      then exits rejected
      else elim (load_bytes packet offset size 0) [
        | none ↦ exits fault
        | some v ↦ load_to m p.code (if mode == 0xa0 then bit_and v 15 * 4 else v)
      ]
    else load_to m p.code p.k

unfoldable pub step_store : Insn → ℕ → Machine → Next
step_store p v m =
    if ltb p.k (length m.memory)
    then goes (record m { pc = add32 m.pc 1; memory = set m.memory p.k v })
    else exits fault

-- The value of an arithmetic instruction; `none` where the code returns 0 for a division by zero.
unfoldable pub compute : ℕ → ℕ → ℕ → Option ℕ
compute op a value =
    if op == 0
    then some (add32 a value)
    else if op == 0x10
    then some (sub32 a value)
    else if op == 0x20
    then some (a * value % u32_mod)
    else if op == 0x30
    then if value == 0 then none else some (a / value)
    else if op == 0x40
    then some (bit_or a value)
    else if op == 0x50
    then some (bit_and a value)
    else if op == 0x60
    then some (if leb 32 value then 0 else a * 2 ^ value % u32_mod)
    else if op == 0x70
    then some (if leb 32 value then 0 else a / 2 ^ value)
    else if op == 0x80
    then some (sub32 0 a)
    else if op == 0x90
    then if value == 0 then none else some (a % value)
    else if op == 0xa0
    then some (bit_xor a value)
    else some a

unfoldable pub takes : ℕ → ℕ → ℕ → Bool
takes op a value =
    if op == 0x10
    then a == value
    else if op == 0x20
    then ltb value a
    else if op == 0x30
    then leb value a
    else if op == 0x40
    then not (bit_and a value == 0)
    else false

unfoldable pub step_jump : Insn → ℕ → Machine → Next
step_jump p value m =
    if p.code == 5
    then goes (record m { pc = add32 (add32 m.pc p.k) 1 })
    else goes (record m {
      pc = add32 (add32 m.pc (if takes (op_of p.code) m.a value then p.jt else p.jf)) 1;
    })

unfoldable pub step_alu : Insn → ℕ → Machine → Next
step_alu p value m = elim (compute (op_of p.code) m.a value) [
  | none ↦ exits rejected
  | some v ↦ goes (record m { pc = add32 m.pc 1; a = v })
]

unfoldable pub step_misc : Insn → Machine → Next
step_misc p m =
    if p.code == 7
    then goes (record m { pc = add32 m.pc 1; x = m.a })
    else goes (record m { pc = add32 m.pc 1; a = m.x })

abbrev pub operand : Insn → Machine → ℕ
operand p m = if has_bit p.code 3 then m.x else p.k

unfoldable pub step_class : Class → List ℕ → Insn → Machine → Next
step_class ld packet p m = step_load packet p m
step_class ldx packet p m = step_load packet p m
step_class st packet p m = step_store p m.a m
step_class stx packet p m = step_store p m.x m
step_class alu packet p m = step_alu p (operand p m) m
step_class jmp packet p m = step_jump p (operand p m) m
step_class ret packet p m = exits (returned (if p.code == 6 then p.k else m.a))
step_class misc packet p m = step_misc p m

abbrev pub step : List ℕ → Insn → Machine → Next
step packet p m = step_class (class_of p.code) packet p m

-- The loop of `mos_bpf_run`, one instruction for each unit of fuel.
unfoldable pub run_loop : ℕ → List Insn → List ℕ → Machine → Exit
run_loop zero filter packet m = fell
run_loop (suc fuel) filter packet m = elim (get_elem? filter m.pc) [
  | none ↦ fell
  | some p ↦ elim (step packet p m) [ goes m' ↦ run_loop fuel filter packet m' | exits e ↦ e ]
]

abbrev pub start : List ℕ → Machine
start memory = record { pc = 0; a = 0; x = 0; memory = memory }

-- The loop from any scratch memory. Each round moves `pc` up, so `count` rounds are enough.
unfoldable pub run_from : List Insn → List ℕ → List ℕ → Exit
run_from filter packet memory = run_loop (length filter) filter packet (start memory)

-- `mos_bpf_run`; `none` is a null filter, which passes the whole packet.
unfoldable pub run : Option (List Insn) → List ℕ → ℕ
run none packet = length packet
run (some filter) packet = elim (run_from filter packet (zeros 16)) [ returned v ↦ v | _ ↦ 0 ]
