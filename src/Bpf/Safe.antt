-- ===== src/Bpf/Safe.antt =====
-- A filter that `mos_bpf_verify` accepts is safe to run.
use mos.Base.{
  ℕ, zero, suc, ◌+◌, ◌≤◌, ◌<◌, ◌≡◌, ◌≢◌, refl, ap, ◌∙◌, inl, inr, List, [], ◌∷◌, if◌then◌else◌,
  ◌==◌, arith, length, get_elem?, get_or, set, Bool-cases, Bool, true, false, none, some,
  get_or-set_self, length-set,
}
use mos.Base.Bits.{testbit, testbit-pow_self, testbit-pow_ne}
use native.Mathlib.Decide.{ℕ_discrete}
use mos.Bpf.{Insn, class_of, zeros}
use mos.Bpf.Verify.{check, merge_all, verify_loop, verify, accepted, reached_bit, Verified}
use mos.Bpf.Run.{Next, goes, exits, Exit, fell, fault, step, run_loop, run_from}
use mos.Bpf.Merge.{
  Within, Reached, Reached-ne-zero, merge_all-keeps, merge_all-hits, length-merge_all,
}
use mos.Bpf.Agree.{Agrees, Agrees-Within, StepOk}
use mos.Bpf.Step.{machine, step-StepOk}

-- Two ends of a run that are the same, and neither behind the program nor undefined.
abbrev pub SafeEnd : Exit → Exit → Type 0
SafeEnd e e' = (e ≡ e') × (e ≢ fell) × (e ≢ fault)

module _ (filter : List Insn) (packet : List ℕ) (small : length filter ≤ 4096) where
  -- Runs from a reached instruction at or behind `i`, under the words `states`, end well.
  abbrev EndsWell : ℕ → List ℕ → Type 0
  EndsWell i states =
      (pc a x fuel : ℕ) (l l' : List ℕ)
      → i ≤ pc
      → pc < length filter
      → length filter ≤ pc + fuel
      → Reached (get_or states pc 0)
      → Agrees (get_or states pc 0) l l'
      → SafeEnd (run_loop fuel filter packet (machine pc a x l))
          (run_loop fuel filter packet (machine pc a x l'))

  -- One instruction, given that the rest ends well.
  here_ends :
      (i : ℕ) (p : Insn) (states : List ℕ) (ts : List (ℕ × ℕ))
      → get_elem? filter i ≡ some p
      → length states ≡ length filter
      → check (length filter) i (get_or states i 0) p ≡ some ts
      → EndsWell (i + 1) (merge_all states ts)
      → (a x fuel : ℕ) (l l' : List ℕ) → i < length filter
      → length filter ≤ i + fuel
      → Reached (get_or states i 0)
      → Agrees (get_or states i 0) l l'
      → SafeEnd
          (run_loop fuel filter packet (machine i a x l))
          (run_loop fuel filter packet (machine i a x l'))
  unfolding run_loop
  here_ends i p states ts at_i len e later a x zero l l' lt enough r same = absurd (omega arith)
  here_ends i p states ts at_i len e later a x (suc fuel) l l' lt enough r same =
      rw (at_i, run_loop)
        (go (step packet p (machine i a x l)) (step packet p (machine i a x l'))
          (step-StepOk p a x lt small r same packet (class_of p.code) e))
    where
      go :
          (n n' : Next)
          → StepOk (length filter) i ts n n'
          → SafeEnd
              (elim n [ goes m ↦ run_loop fuel filter packet m | exits e' ↦ e' ])
              (elim n' [ goes m ↦ run_loop fuel filter packet m | exits e' ↦ e' ])
      go (exits e') (exits e'') s = s
      go (exits e') (goes m) s = absurd s
      go (goes m) (exits e') s = absurd s
      go (goes m) (goes m') (mask, hands, agree, shape, above, below) =
          let hit = merge_all-hits states ts m.pc mask hands (omega arith) in
          rw shape (
            later m.pc m.a m.x fuel m.memory m'.memory (omega arith) below (omega arith) hit.0
              (Agrees-Within hit.1 agree))

  -- The verifier's pass from `i` on, where `ps` is what the filter has left there.
  loop_ends :
      (i : ℕ) (ps : List Insn) (states : List ℕ)
      → ((j : ℕ) → get_elem? filter (i + j) ≡ get_elem? ps j)
      → length filter ≡ i + length ps
      → length states ≡ length filter
      → verify_loop (length filter) i ps states ≡ true
      → EndsWell i states
  unfolding verify_loop
  loop_ends i [] states suffix count len ok pc a x fuel l l' from below enough r same =
      absurd (omega arith)
  loop_ends i (p ∷ ps) states suffix count len ok pc a x fuel l l' from below enough r same =
      checked (check (length filter) i (get_or states i 0) p) refl ok
        (λ states' len' ok'. loop_ends (i + 1) ps states' suffix' (omega arith) len' ok')
    where
      w : ℕ
      w = get_or states i 0

      at_i : get_elem? filter i ≡ some p
      at_i = let e : i + 0 ≡ i = omega arith in rw e at (suffix 0)

      suffix' : (j : ℕ) → get_elem? filter (i + 1 + j) ≡ get_elem? ps j
      suffix' j = let e : i + suc j ≡ i + 1 + j = omega arith in rw e at (suffix (suc j))

      later :
          (states' : List ℕ)
          → EndsWell (i + 1) states'
          → pc ≢ i
          → Reached (get_or states' pc 0)
          → Within (get_or states' pc 0) (get_or states pc 0)
          → SafeEnd
              (run_loop fuel filter packet (machine pc a x l))
              (run_loop fuel filter packet (machine pc a x l'))
      later states' ih past r' within =
          ih pc a x fuel l l' (omega arith) below enough r' (Agrees-Within within same)

      checked :
          (o : Verified)
          → check (length filter) i w p ≡ o
          → elim o [
            | none ↦ false
            | some ts ↦
                verify_loop
                  (length filter)
                  (i + 1)
                  ps
                  (if w == 0 then states else merge_all states ts)
          ]
            ≡ true
          → ((states' : List ℕ)
              → length states' ≡ length filter
              → verify_loop (length filter) (i + 1) ps states' ≡ true
              → EndsWell (i + 1) states')
          → SafeEnd
              (run_loop fuel filter packet (machine pc a x l))
              (run_loop fuel filter packet (machine pc a x l'))
      checked none e refused ih = absurd (cc)
      checked (some ts) e passed ih = elim (Bool-cases (w == 0)) [
        | inl dead ↦ elim (ℕ_discrete pc i) [
          | yes same_pc ↦ absurd (Reached-ne-zero w (rw same_pc at r) (ground arith))
          | no past ↦ later states (ih states len (rw dead at passed)) past r (λ k lt. omega arith)
        ]
        | inr live ↦
            let merged_len = length-merge_all states ts ∙ len in
            let after = ih (merge_all states ts) merged_len (rw live at passed) in
            elim (ℕ_discrete pc i) [
              | yes same_pc ↦ rw same_pc (
                  here_ends i p states ts at_i len e after a x fuel l l' (omega arith) (omega arith)
                    (rw same_pc at r) (rw same_pc at same))
              | no past ↦
                  let kept = merge_all-keeps states ts pc r (omega arith) in
                  later (merge_all states ts) after past kept.0 kept.1
            ]
      ]

length-zeros : (n : ℕ) → length (zeros n) ≡ n
length-zeros zero = refl
length-zeros (suc n) = ap suc (length-zeros n)

accepted_checks :
    (allocated : Bool) (filter : List Insn)
    → verify allocated (some filter) ≡ accepted
    → (0 < length filter)
      × (length filter ≤ 4096)
      × (verify_loop (length filter) 0 filter (set (zeros (length filter)) 0 reached_bit) ≡ true)
unfolding verify
accepted_checks allocated filter e = (ground arith, ground arith, ground arith)

-- A filter that `mos_bpf_verify` accepts ends, on any packet, by a return instruction or by a refused
-- load or division: it never runs past its last instruction and makes no access outside its scratch
-- words or the packet. Nor does it read scratch words before it writes them: from any two initial
-- scratch memories it ends alike.
pub verify-SafeEnd :
    (allocated : Bool) (filter : List Insn) (packet memory memory' : List ℕ)
    → verify allocated (some filter) ≡ accepted
    → length memory ≡ 16
    → length memory' ≡ 16
    → SafeEnd (run_from filter packet memory) (run_from filter packet memory')
unfolding run_from
verify-SafeEnd allocated filter packet memory memory' e size size' =
    loop_ends filter packet ok.1 0 filter first suffix count len ok.2 0 0 0 (length filter) memory
      memory' (omega arith) ok.0 (omega arith) reached
      (record {
        size = size;
        size' = size';
        same = λ k lt bit. absurd (omega (arith, bit, only k lt));
      })
  where
    ok :
        (0 < length filter)
        × (length filter ≤ 4096)
        × (verify_loop (length filter) 0 filter (set (zeros (length filter)) 0 reached_bit) ≡ true)
    ok = accepted_checks allocated filter e

    first : List ℕ
    first = set (zeros (length filter)) 0 reached_bit

    len : length first ≡ length filter
    len = length-set (zeros (length filter)) 0 reached_bit ∙ length-zeros (length filter)

    count : length filter ≡ 0 + length filter
    count = omega arith

    suffix : (j : ℕ) → get_elem? filter (0 + j) ≡ get_elem? filter j
    suffix j = let e' : 0 + j ≡ j = omega arith in ap (get_elem? filter) e'

    word : get_or first 0 0 ≡ 65536
    word =
        get_or-set_self (zeros (length filter)) 0 reached_bit 0
          (omega (arith, ok.0, length-zeros (length filter)))

    reached : Reached (get_or first 0 0)
    reached = rw word (testbit-pow_self 16)

    only : (k : ℕ) → k < 16 → testbit (get_or first 0 0) k ≡ 0
    only k lt = rw word (testbit-pow_ne 16 k (omega arith))
