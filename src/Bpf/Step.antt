-- ===== src/Bpf/Step.antt =====
-- An instruction that the verifier admits does the same to two memories that agree where it may read,
-- class by class.
use mos.Base.{
  ℕ, zero, suc, ◌+◌, ◌-◌, ◌*◌, ◌≤◌, ◌<◌, ◌≡◌, ◌≢◌, refl, sym, ◌∙◌, inl, inr, List, [], ◌∷◌,
  if◌then◌else◌, ◌==◌, arith, length, get_elem?, get_elem?-some, u32_mod, Bool-cases, Bool, true,
  false, bit_and, bit_or, Option, none, some, add32, ◌^◌, ◌%◌, ◌||◌, ltb, ==_iff,
}
use mos.Base.Bits.{testbit, has_bit, testbit_le}
use mos.Bpf.{Insn, Class, ld, ldx, st, stx, alu, jmp, ret, misc, op_of}
use mos.Bpf.Verify.{
  falls_through, valid_load, check_load, check_store, check_alu, check_jump, check_class,
}
use mos.Bpf.Run.{
  Machine, goes, exits, rejected, fault, load_bytes, load_to, step_load, step_store, step_alu,
  step_jump, step_misc, step_class, compute, operand, takes,
}
use mos.Bpf.Codes.{scratch_code}
use mos.Bpf.Merge.{Hands, Reached, Reached-ne-zero}
use mos.Bpf.Agree.{Agrees, Agrees-Within, Agrees-set, mask_Within, StepOk, falls_through-StepOk}

load_bytes-some :
    (packet : List ℕ) (offset size loaded : ℕ)
    → offset + size ≤ length packet
    → load_bytes packet offset size loaded ≢ none
unfolding load_bytes
load_bytes-some packet offset zero loaded h = λ e. cc
load_bytes-some packet offset (suc size) loaded h =
    let byte = get_elem?-some packet offset (omega arith) in
    rw (byte.1, load_bytes)
      (load_bytes-some packet (offset + 1) size (bit_or (loaded * 256 % u32_mod) byte.0)
        (omega arith))

abbrev pub machine : ℕ → ℕ → ℕ → List ℕ → Machine
machine i a x l = record { pc = i; a = a; x = x; memory = l }

module _ {count i w : ℕ} {ts : List (ℕ × ℕ)} (p : Insn) (a x : ℕ) {l l' : List ℕ} (here : i < count)
    (small : count ≤ 4096) (reached : Reached w) (same : Agrees w l l') where
  step_misc-StepOk :
      falls_through count i (bit_and w 0xffff) ≡ some ts
      → StepOk count i ts (step_misc p (machine i a x l)) (step_misc p (machine i a x l'))
  unfolding step_misc
  step_misc-StepOk e = elim (Bool-cases (p.code == 7)) [
    | inl t ↦ rw t (falls_through-StepOk a a e here small (Agrees-Within (mask_Within w) same))
    | inr t ↦ rw t (falls_through-StepOk x x e here small (Agrees-Within (mask_Within w) same))
  ]

  step_alu-StepOk :
      check_alu count i w p ≡ some ts
      → StepOk count i ts
          (step_alu p (operand p (machine i a x l)) (machine i a x l))
          (step_alu p (operand p (machine i a x l')) (machine i a x l'))
  unfolding step_alu check_alu
  step_alu-StepOk e = go (compute (op_of p.code) a (operand p (machine i a x l)))
    where
      f : falls_through count i (bit_and w 0xffff) ≡ some ts
      f = ground arith

      go :
          (o : Option ℕ)
          → StepOk count i ts
              (elim o [ none ↦ exits rejected | some v ↦ goes (machine (add32 i 1) v x l) ])
              (elim o [ none ↦ exits rejected | some v ↦ goes (machine (add32 i 1) v x l') ])
      go none = (refl, (λ e'. cc), (λ e'. cc))
      go (some v) = falls_through-StepOk v x f here small (Agrees-Within (mask_Within w) same)

  step_store-StepOk :
      (v : ℕ)
      → check_store count i w p ≡ some ts
      → StepOk count i ts (step_store p v (machine i a x l)) (step_store p v (machine i a x l'))
  unfolding step_store check_store
  step_store-StepOk v e =
      let k : p.k < 16 = ground arith in
      let f : falls_through count i (bit_or (bit_and w 0xffff) (2 ^ p.k)) ≡ some ts =
        ground arith in
      let t : ltb p.k (length l) ≡ true = ground (arith, same.size) in
      let t' : ltb p.k (length l') ≡ true = ground (arith, same.size') in
      rw (t, t') (falls_through-StepOk a x f here small (Agrees-set p.k v k same))

  step_jump-StepOk :
      (value : ℕ)
      → check_jump count i w p ≡ some ts
      → StepOk count i ts
          (step_jump p value (machine i a x l))
          (step_jump p value (machine i a x l'))
  unfolding step_jump check_jump
  step_jump-StepOk value e = elim (Bool-cases (p.code == 5)) [
    | inl always ↦
        let k : p.k < count - i - 1 = ground arith in
        let only : ts ≡ (i + 1 + p.k, bit_and w 0xffff) ∷ [] = ground arith in
        rw always (lands p.k k (rw only (inl (ground arith, refl))))
    | inr tested ↦
        let jt : p.jt < count - i - 1 = ground arith in
        let jf : p.jf < count - i - 1 = ground arith in
        let only : ts ≡ (i + 1 + p.jt, bit_and w 0xffff) ∷ (i + 1 + p.jf, bit_and w 0xffff) ∷ [] =
          ground arith in
        elim (Bool-cases (takes (op_of p.code) a value)) [
          | inl t ↦ rw (tested, t) (lands p.jt jt (rw only (inl (ground arith, refl))))
          | inr t ↦ rw (tested, t) (lands p.jf jf (rw only (inr (inl (ground arith, refl)))))
        ]
  ]
    where
      lands :
          (d : ℕ)
          → d < count - i - 1
          → Hands ts (add32 (add32 i d) 1) (bit_and w 0xffff)
          → StepOk count i ts
              (goes (machine (add32 (add32 i d) 1) a x l))
              (goes (machine (add32 (add32 i d) 1) a x l'))
      lands d lt hands = (
        bit_and w 0xffff,
        hands,
        Agrees-Within (mask_Within w) same,
        refl,
        omega arith,
        omega arith,
      )

  loaded-StepOk :
      (v : ℕ)
      → falls_through count i (bit_and w 0xffff) ≡ some ts
      → StepOk count i ts (load_to (machine i a x l) p.code v) (load_to (machine i a x l') p.code v)
  loaded-StepOk v f = go (has_bit p.code 0)
    where
      masked : Agrees (bit_and w 0xffff) l l'
      masked = Agrees-Within (mask_Within w) same

      go :
          (b : Bool)
          → StepOk count i ts
              (goes (if b then machine (add32 i 1) a v l else machine (add32 i 1) v x l))
              (goes (if b then machine (add32 i 1) a v l' else machine (add32 i 1) v x l'))
      go true = falls_through-StepOk a v f here small masked
      go false = falls_through-StepOk v x f here small masked

  -- A load from scratch memory: the verifier has seen that the word is written on every path.
  scratch-StepOk :
      check_load count i w p ≡ some ts
      → (p.code == 0x60 || p.code == 0x61) ≡ true
      → (v : ℕ) × (get_elem? l p.k ≡ some v) × (get_elem? l' p.k ≡ some v)
  unfolding check_load
  scratch-StepOk e scratch =
      let k : p.k < 16 = ground (arith, Reached-ne-zero w reached) in
      let bit : testbit (bit_and w 0xffff) p.k ≡ 1 = ground (arith, Reached-ne-zero w reached) in
      let got = get_elem?-some l p.k (omega (arith, same.size)) in
      let agree = same.same p.k k (omega (arith, bit, mask_Within w p.k k, testbit_le p.k w)) in
      (got.0, got.1, sym agree ∙ got.1)

  packet-StepOk :
      (packet : List ℕ) (offset size : ℕ) (high : Bool)
      → falls_through count i (bit_and w 0xffff) ≡ some ts
      → StepOk count i ts
          (if ltb (length packet) offset || ltb (length packet - offset) size
            then exits rejected
            else elim (load_bytes packet offset size 0) [
              | none ↦ exits fault
              | some v ↦ load_to (machine i a x l) p.code (if high then bit_and v 15 * 4 else v)
            ])
          (if ltb (length packet) offset || ltb (length packet - offset) size
            then exits rejected
            else elim (load_bytes packet offset size 0) [
              | none ↦ exits fault
              | some v ↦ load_to (machine i a x l') p.code (if high then bit_and v 15 * 4 else v)
            ])
  packet-StepOk packet offset size high f =
      elim (Bool-cases (ltb (length packet) offset || ltb (length packet - offset) size)) [
        | inl short ↦ rw short (refl, (λ e. cc), (λ e. cc))
        | inr enough ↦
            let there = load_bytes-some packet offset size 0 (ground arith) in
            rw enough (go (load_bytes packet offset size 0) there)
      ]
    where
      go :
          (o : Option ℕ)
          → o ≢ none
          → StepOk count i ts
              (elim o [
                | none ↦ exits fault
                | some v ↦ load_to (machine i a x l) p.code (if high then bit_and v 15 * 4 else v)
              ])
              (elim o [
                | none ↦ exits fault
                | some v ↦ load_to (machine i a x l') p.code (if high then bit_and v 15 * 4 else v)
              ])
      go none ne = absurd (ne refl)
      go (some v) ne = loaded-StepOk (if high then bit_and v 15 * 4 else v) f

  step_load-StepOk :
      (packet : List ℕ)
      → check_load count i w p ≡ some ts
      → StepOk count i ts
          (step_load packet p (machine i a x l))
          (step_load packet p (machine i a x l'))
  unfolding step_load check_load
  step_load-StepOk packet e = elim (Bool-cases (bit_and p.code 0xe0 == 0x60)) [
    | inl scratch ↦
        let c = scratch_code p.code v ((==_iff _ _).0 scratch) in
        let g = scratch-StepOk e c in rw (scratch, g.1, g.2) (loaded-StepOk g.0 f)
    | inr other ↦ elim (Bool-cases (bit_and p.code 0xe0 == 0x80)) [
      | inl whole ↦ rw (other, whole) (loaded-StepOk (length packet) f)
      | inr part ↦
          elim (Bool-cases (
            bit_and p.code 0xe0 == 0x20
            || bit_and p.code 0xe0 == 0x40
            || bit_and p.code 0xe0 == 0xa0)) [
              | inl bytes ↦ rw (other, part, bytes) (packet-StepOk packet _ _ _ f)
              | inr immediate ↦ rw (other, part, immediate) (loaded-StepOk p.k f)
            ]
    ]
  ]
    where
      v : valid_load p.code ≡ true
      v = ground arith

      f : falls_through count i (bit_and w 0xffff) ≡ some ts
      f = ground arith

  -- Any instruction that the verifier admits, at a reached word.
  pub step-StepOk :
      (packet : List ℕ) (c : Class)
      → check_class c count i w p ≡ some ts
      → StepOk count i ts
          (step_class c packet p (machine i a x l))
          (step_class c packet p (machine i a x l'))
  unfolding check_class step_class
  step-StepOk packet ld e = step_load-StepOk packet e
  step-StepOk packet ldx e = step_load-StepOk packet e
  step-StepOk packet st e = step_store-StepOk a e
  step-StepOk packet stx e = step_store-StepOk x e
  step-StepOk packet alu e = step_alu-StepOk e
  step-StepOk packet jmp e = step_jump-StepOk (operand p (machine i a x l)) e
  step-StepOk packet ret e = (refl, (λ e'. cc), (λ e'. cc))
  step-StepOk packet misc e = step_misc-StepOk (ground arith)
