-- ===== src/Bpf/Agree.antt =====
-- Two runs of one instruction that differ in scratch words which nobody has written.
use mos.Base.{
  ℕ, zero, suc, ◌+◌, ◌≤◌, ◌<◌, ◌≡◌, ◌≢◌, refl, ap, ◌∙◌, inl, List, [], ◌∷◌, arith, length,
  get_elem?, set, length-set, bit_and, bit_or, some, add32, ◌^◌, ◌%◌, length-set,
}
use mos.Base.Bits.{testbit, testbit-bit_and, testbit-bit_or, testbit_le, testbit-pow_ne}
use native.Mathlib.Decide.{ℕ_discrete}
use mos.Bpf.Verify.{falls_through}
use mos.Bpf.Run.{Next, goes, exits, fell, fault}
use mos.Bpf.Merge.{Hands, Within}

-- The two memories have the sixteen words, and the same in those that `w` holds for written.
pub record Agrees (w : ℕ) (l l' : List ℕ) : Type 0 where
  pub size : length l ≡ 16
  pub size' : length l' ≡ 16
  pub same : (k : ℕ) → k < 16 → testbit w k ≡ 1 → get_elem? l k ≡ get_elem? l' k

pub Agrees-Within : {w v : ℕ} {l l' : List ℕ} → Within v w → Agrees w l l' → Agrees v l l'
Agrees-Within {w} {v} h a = record {
  size = a.size;
  size' = a.size';
  same = λ k lt e. a.same k lt (omega (arith, h k lt, testbit_le k w));
}

pub mask_Within : (w : ℕ) → Within (bit_and w 0xffff) w
mask_Within w k h = omega (arith, testbit-bit_and k w 0xffff)

get_elem?-set_same :
    (l l' : List ℕ) (i v : ℕ)
    → length l ≡ length l'
    → i < length l
    → get_elem? (set l i v) i ≡ get_elem? (set l' i v) i
get_elem?-set_same [] l' i v e h = absurd (omega arith)
get_elem?-set_same (x ∷ l) [] i v e h = absurd (omega arith)
get_elem?-set_same (x ∷ l) (x' ∷ l') zero v e h = refl
get_elem?-set_same (x ∷ l) (x' ∷ l') (suc i) v e h =
    get_elem?-set_same l l' i v (omega arith) (omega arith)

get_elem?-set_ne : (l : List ℕ) (i j v : ℕ) → i ≢ j → get_elem? (set l i v) j ≡ get_elem? l j
get_elem?-set_ne [] i j v h = refl
get_elem?-set_ne (x ∷ l) zero zero v h = absurd (h refl)
get_elem?-set_ne (x ∷ l) zero (suc j) v h = refl
get_elem?-set_ne (x ∷ l) (suc i) zero v h = refl
get_elem?-set_ne (x ∷ l) (suc i) (suc j) v h = get_elem?-set_ne l i j v (λ e. h (ap suc e))

-- A store makes one more word the same in both.
pub Agrees-set :
    {w : ℕ} {l l' : List ℕ} (k v : ℕ)
    → k < 16
    → Agrees w l l'
    → Agrees (bit_or (bit_and w 0xffff) (2 ^ k)) (set l k v) (set l' k v)
Agrees-set {w} {l} {l'} k v h a = record {
  size = length-set l k v ∙ a.size;
  size' = length-set l' k v ∙ a.size';
  same = λ j lt e. elim (ℕ_discrete k j) [
    | yes hit ↦
        rw (← hit)
          (get_elem?-set_same l l' k v (omega (arith, a.size, a.size')) (omega (arith, a.size)))
    | no miss ↦
        rw (get_elem?-set_ne l k j v miss, get_elem?-set_ne l' k j v miss)
          (a.same j lt (
            omega (
              arith,
              e,
              testbit-bit_or j (bit_and w 0xffff) (2 ^ k),
              testbit-pow_ne k j miss,
              testbit-bit_and j w 0xffff,
              testbit_le j w,
            )))
  ];
}

-- Both steps end in the same way, and not by falling off the end or by a fault; or both go on to an
-- instruction that the verifier has handed control to, with memories that agree as it assumes.
abbrev pub StepOk : ℕ → ℕ → List (ℕ × ℕ) → Next → Next → Type 0
StepOk count i ts (exits e) (exits e') = (e ≡ e') × (e ≢ fell) × (e ≢ fault)
StepOk count i ts (goes m) (goes m') =
    (mask : ℕ) × Hands ts m.pc mask
    × Agrees mask m.memory m'.memory
    × (m' ≡ record m { memory = m'.memory })
    × (i < m.pc)
    × (m.pc < count)
StepOk count i ts (exits e) (goes m) = ⊥
StepOk count i ts (goes m) (exits e) = ⊥

-- An instruction that falls through.
pub falls_through-StepOk :
    {count i mask : ℕ} {ts : List (ℕ × ℕ)} (a x : ℕ) {l l' : List ℕ}
    → falls_through count i mask ≡ some ts
    → i < count
    → count ≤ 4096
    → Agrees mask l l'
    → StepOk count i ts
        (goes (record { pc = add32 i 1; a = a; x = x; memory = l }))
        (goes (record { pc = add32 i 1; a = a; x = x; memory = l' }))
unfolding falls_through
falls_through-StepOk {count} {i} {mask} {ts} a x {l} {l'} e h small same =
    (mask, hands, same, refl, omega (arith, next), omega (arith, next, more))
  where
    next : (i + 1) % 4294967296 ≡ i + 1
    next = omega arith

    more : i + 1 ≢ count
    more = ground arith

    only : ts ≡ (i + 1, mask) ∷ []
    only = ground arith

    hands : Hands ts (add32 i 1) mask
    hands = rw only (inl (next, refl))
