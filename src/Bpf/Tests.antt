-- ===== src/Bpf/Tests.antt =====
-- A filter that passes long packets whose byte 12 is 8: it keeps the byte in a scratch word first.
use mos.Base.{ℕ, ◌≡◌, refl, List, [], ◌∷◌, some, true, tabulate}
use mos.Base.Bits.{testbit}
use mos.Bpf.{Insn, class_of, zeros}
use mos.Bpf.Verify.{
  verify, accepted, invalid, verify_loop, check_class, check_load, check_store, check_jump,
  falls_through, valid_load, merge_all, merge, merged,
}
use mos.Bpf.Run.{
  run, run_from, run_loop, step_class, step_load, step_store, step_jump, load_bytes, takes,
}
use mos.Bpf.Safe.{SafeEnd, verify-SafeEnd}

abbrev insn : ℕ → ℕ → ℕ → ℕ → Insn
insn code jt jf k = record { code = code; jt = jt; jf = jf; k = k }

abbrev filter : List Insn
filter =
    insn 0x30 0 0 12
    ∷ insn 0x02 0 0 3
    ∷ insn 0x60 0 0 3
    ∷ insn 0x15 0 1 8
    ∷ insn 0x06 0 0 65535
    ∷ insn 0x06 0 0 0
    ∷ []

abbrev packet : List ℕ
packet = 0 ∷ 1 ∷ 2 ∷ 3 ∷ 4 ∷ 5 ∷ 6 ∷ 7 ∷ 8 ∷ 9 ∷ 10 ∷ 11 ∷ 8 ∷ 0 ∷ []

-- Without the store, the load reads a scratch word that nothing has written.
abbrev unwritten : List Insn
unwritten = insn 0x60 0 0 3 ∷ insn 0x06 0 0 1 ∷ []

verify-filter : verify true (some filter) ≡ accepted
unfolding verify verify_loop check_class check_load check_store check_jump falls_through valid_load
    merge_all merge merged class_of testbit
verify-filter = refl

verify-unwritten : verify true (some unwritten) ≡ invalid
unfolding verify verify_loop check_class check_load falls_through valid_load merge_all merge merged
    class_of testbit
verify-unwritten = refl

run-filter : run (some filter) packet ≡ 65535
unfolding run run_from run_loop step_class step_load step_store step_jump load_bytes takes class_of
    testbit
run-filter = refl

abbrev ones : List ℕ
ones = tabulate 16 (λ k. 1)

verify-SafeEnd_example : SafeEnd (run_from filter packet (zeros 16)) (run_from filter packet ones)
verify-SafeEnd_example = verify-SafeEnd true filter packet (zeros 16) ones verify-filter refl refl
