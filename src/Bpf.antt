-- ===== src/Bpf.antt =====
-- src/lib/impl/bpf.c and bpf.h, the classic packet filter that sockets attach: its instructions
-- here, the one-pass verifier `mos_bpf_verify` in Bpf/Verify, the interpreter `mos_bpf_run` in Bpf/Run.
pub mod Verify
pub mod Run
pub mod Merge
pub mod Agree
pub mod Codes
pub mod Step
pub mod Safe
mod Tests
use mos.Base.{ℕ, zero, suc, bit_and, List, [], ◌∷◌, ◌==◌, if◌then◌else◌}

-- `struct mos_bpf_insn`; a filter is the list of its `count` instructions.
pub record Insn : Type 0 where
  pub code : ℕ
  pub jt : ℕ
  pub jf : ℕ
  pub k : ℕ

-- The cases of `switch (code & 7)`.
pub data Class : Type 0 where
  ld ldx st stx alu jmp ret misc : Class

unfoldable pub class_of : ℕ → Class
class_of code =
    let n = bit_and code 7 in
    if n == 0
    then ld
    else if n == 1
    then ldx
    else if n == 2
    then st
    else if n == 3
    then stx
    else if n == 4
    then alu
    else if n == 5
    then jmp
    else if n == 6
    then ret
    else misc

abbrev pub op_of : ℕ → ℕ
op_of code = bit_and code 0xf0

abbrev pub zeros : ℕ → List ℕ
zeros zero = []
zeros (suc n) = 0 ∷ zeros n
