-- ===== src/Bpf/Merge.antt =====
-- What `merge` does to the words of `states`: control that reaches an instruction along one more path
-- leaves it reached, and keeps only the scratch words that were written on every path.
use mos.Base.{
  ℕ, ◌≤◌, ◌<◌, ◌≡◌, ◌≢◌, refl, ap, ◌∙◌, ◌⊎◌, inl, inr, List, [], ◌∷◌, arith, length, get_or,
  length-set, get_or-set_self, get_or-set_ne, bit_and,
}
use mos.Base.Bits.{
  testbit, testbit-bit_and, testbit-bit_or, testbit_le, testbit-zero, testbit-pow_self,
  testbit-pow_ne,
}
use native.Mathlib.Decide.{ℕ_discrete}
use mos.Bpf.Verify.{reached_bit, merged, merge, merge_all}

abbrev pub Reached : ℕ → Type 0
Reached w = testbit w 16 ≡ 1

-- The scratch words that `w` holds for written are among those of `v`.
abbrev pub Within : ℕ → ℕ → Type 0
Within w v = (k : ℕ) → k < 16 → testbit w k ≤ testbit v k

pub Reached-ne-zero : (w : ℕ) → Reached w → w ≢ 0
Reached-ne-zero w r e = omega (arith, testbit-zero 16, ap (λ v. testbit v 16) e)

merged-Reached : (w mask : ℕ) → Reached (merged w mask)
unfolding merged
merged-Reached w mask = ground (
  arith,
  testbit-bit_or 16 reached_bit (bit_and (bit_and w mask) 0xffff),
  testbit-bit_or 16 reached_bit mask,
  testbit-pow_self 16,
  testbit_le 16 (bit_and (bit_and w mask) 0xffff),
  testbit_le 16 mask,
)

merged-Within_mask : (w mask : ℕ) → Within (merged w mask) mask
unfolding merged
merged-Within_mask w mask k h = ground (
  arith,
  testbit-bit_or k reached_bit (bit_and (bit_and w mask) 0xffff),
  testbit-bit_or k reached_bit mask,
  testbit-pow_ne 16 k (omega arith),
  testbit-bit_and k (bit_and w mask) 0xffff,
  testbit-bit_and k w mask,
)

merged-Within_old : (w mask : ℕ) → Reached w → Within (merged w mask) w
unfolding merged
merged-Within_old w mask r k h = ground (
  arith,
  testbit-bit_or k reached_bit (bit_and (bit_and w mask) 0xffff),
  testbit-pow_ne 16 k (omega arith),
  testbit-bit_and k (bit_and w mask) 0xffff,
  testbit-bit_and k w mask,
)

-- The word of a reached instruction stays reached and loses scratch words at most.
abbrev pub Refines : ℕ → ℕ → Type 0
Refines v w = Reached v × Within v w

Refines-trans : (u v w : ℕ) → Refines u v → Refines v w → Refines u w
Refines-trans u v w p q = (p.0, λ k h. omega (arith, p.1 k h, q.1 k h))

merge-keeps :
    (states : List ℕ) (pc mask j : ℕ)
    → Reached (get_or states j 0)
    → j < length states
    → Refines (get_or (merge states pc mask) j 0) (get_or states j 0)
unfolding merge
merge-keeps states pc mask j r h = elim (ℕ_discrete pc j) [
  | yes e ↦
      rw (e, get_or-set_self states j (merged (get_or states j 0) mask) 0 h)
        (merged-Reached _ mask, merged-Within_old _ mask r)
  | no ne ↦
      rw (get_or-set_ne states pc j (merged (get_or states pc 0) mask) 0 ne)
        (r, λ k lt. omega arith)
]

merge-hits :
    (states : List ℕ) (pc mask : ℕ)
    → pc < length states
    → Refines (get_or (merge states pc mask) pc 0) mask
unfolding merge
merge-hits states pc mask h =
    rw (get_or-set_self states pc (merged (get_or states pc 0) mask) 0 h)
      (merged-Reached _ mask, merged-Within_mask _ mask)

length-merge : (states : List ℕ) (pc mask : ℕ) → length (merge states pc mask) ≡ length states
unfolding merge
length-merge states pc mask = length-set states pc _

pub length-merge_all :
    (states : List ℕ) (ts : List (ℕ × ℕ)) → length (merge_all states ts) ≡ length states
unfolding merge_all
length-merge_all states [] = refl
length-merge_all states ((pc, mask) ∷ ts) =
    length-merge_all (merge states pc mask) ts ∙ length-merge states pc mask

pub merge_all-keeps :
    (states : List ℕ) (ts : List (ℕ × ℕ)) (j : ℕ)
    → Reached (get_or states j 0)
    → j < length states
    → Refines (get_or (merge_all states ts) j 0) (get_or states j 0)
unfolding merge_all
merge_all-keeps states [] j r h = (r, λ k lt. omega arith)
merge_all-keeps states ((pc, mask) ∷ ts) j r h =
    let one = merge-keeps states pc mask j r h in
    let h' : j < length (merge states pc mask) = omega (arith, length-merge states pc mask) in
    Refines-trans _ (get_or (merge states pc mask) j 0) _
      (merge_all-keeps (merge states pc mask) ts j one.0 h') one

-- Some entry of the list hands control to `pc` with the scratch words `mask`.
abbrev pub Hands : List (ℕ × ℕ) → ℕ → ℕ → Type 0
Hands [] pc mask = ⊥
Hands ((pc', mask') ∷ ts) pc mask = ((pc ≡ pc') × (mask ≡ mask')) ⊎ Hands ts pc mask

pub merge_all-hits :
    (states : List ℕ) (ts : List (ℕ × ℕ)) (pc mask : ℕ)
    → Hands ts pc mask
    → pc < length states
    → Refines (get_or (merge_all states ts) pc 0) mask
unfolding merge_all
merge_all-hits states [] pc mask m h = absurd m
merge_all-hits states ((pc', mask') ∷ ts) pc mask (inl (e, e')) h =
    let hit = merge-hits states pc mask h in
    let h' : pc < length (merge states pc mask) = omega (arith, length-merge states pc mask) in
    rw (← e, ← e')
      (Refines-trans _ (get_or (merge states pc mask) pc 0) mask
        (merge_all-keeps (merge states pc mask) ts pc hit.0 h') hit)
merge_all-hits states ((pc', mask') ∷ ts) pc mask (inr m) h =
    merge_all-hits (merge states pc' mask') ts pc mask m
      (omega (arith, length-merge states pc' mask'))
