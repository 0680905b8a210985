-- ===== src/Phymm/High.antt =====
-- The search of `buddy_alloc_high`, which takes the block with the highest index.
use mos.Base.{
  ℕ, zero, suc, ◌+◌, ◌-◌, ◌≤◌, ◌≡◌, refl, ap, sym, subst, ◌∙◌, ◌⊎◌, true, false, ◌&&◌, List, [],
  ◌∷◌, ◌==◌, arith, inl, inr, Bool-cases, Option-cases, Option, none, some,
}
use mos.Phymm.{Page, Block, Phymm, max_buddy_order, is_listed, remove}
use mos.Phymm.Measure.{cover, Headed}
use mos.Phymm.Inv.{AllFit, IsValid}
use mos.Phymm.Take.{remove-Took, split_high-Took, mark-Took, mark-order}
use mos.Phymm.Search.{serves, Answers, some-inj, serves-too_large}
use mos.Phymm.Alloc.{split_high, better, highest, carve_high, high_loop, alloc_high}

highest_lem :
    (o i : ℕ) (best : Option ℕ) (pages : ℕ → Page) (bs : List Block)
    → Headed pages bs
    → highest o bs best ≡ some i
    → (best ≡ some i) ⊎ ((is_listed i bs ≡ true) × ((pages i).order ≡ o))
unfolding highest is_listed
highest_lem o i best pages [] h e = inl e
highest_lem o i best pages (b ∷ bs) h e = elim (Bool-cases (b.order == o && better best b.idx)) [
  | inl good ↦ elim (highest_lem o i (some b.idx) pages bs h.2 (rw (sym e, good, highest) refl)) [
    | inl found ↦
        let same : b.idx ≡ i = some-inj found in
        let at_o : b.order ≡ o = ground arith in
        inr (ground arith, subst (λ (j : ℕ). (pages j).order ≡ o) same (h.0 ∙ at_o))
    | inr (l, at_o) ↦ inr (ground arith, at_o)
  ]
  | inr bad ↦ elim (highest_lem o i best pages bs h.2 (rw (sym e, bad, highest) refl)) [
    | inl found ↦ inl found
    | inr (l, at_o) ↦ inr (ground arith, at_o)
  ]
]

highest-none :
    (o first end : ℕ) (best : Option ℕ) (bs : List Block)
    → AllFit first end bs
    → highest o bs best ≡ none
    → (best ≡ none) × (serves o first end bs ≡ serves (o + 1) first end bs)
unfolding highest better serves
highest-none o first end best [] h e = (e, refl)
highest-none o first end best (b ∷ bs) h e = elim (Bool-cases (b.order == o && better best b.idx)) [
  | inl good ↦
      let rest = highest-none o first end (some b.idx) bs h.1 (rw (sym e, good, highest) refl) in
      absurd (cc)
  | inr bad ↦
      let (unset, same) = highest-none o first end best bs h.1 (rw (sym e, bad, highest) refl) in
      let other : (b.order == o && better none b.idx) ≡ false =
        subst (λ (x : Option ℕ). (b.order == o && better x b.idx) ≡ false) unset bad in
      (unset, ground arith)
]

carve_high-Answers :
    (n i o : ℕ) (s : Phymm)
    → IsValid s
    → is_listed i s.free ≡ true
    → (s.pages i).order ≡ o + n
    → Answers s o s.first_page s.end_page (some (carve_high n i o s))
unfolding carve_high remove
carve_high-Answers n i o s v l at_o =
    let start = remove-Took i (o + n) s v l at_o in
    let left = split_high-Took (cover s.free) s.first_page s.end_page n i o (remove i s) start in
    let fits = left.held.fits in
    let first = left.first in
    let last = left.last in
    let low = fits.low in
    let high = fits.high in
    (
      omega arith,
      omega arith,
      mark-order (split_high n i o (remove i s)).0 o (split_high n i o (remove i s)).1,
      mark-Took (cover s.free) s.first_page s.end_page (split_high n i o (remove i s)).0 o
          (split_high n i o (remove i s)).1 left,
    )

high_loop-Answers :
    (rounds n o : ℕ) (s : Phymm)
    → IsValid s
    → rounds + (o + n) ≡ max_buddy_order + 1
    → serves o s.first_page s.end_page s.free ≡ serves (o + n) s.first_page s.end_page s.free
    → Answers s o s.first_page s.end_page (high_loop rounds n o s)
unfolding high_loop
high_loop-Answers zero n o s v e same =
    let end : o + n ≡ max_buddy_order + 1 = omega arith in
    rw (same, end) (serves-too_large s.first_page s.end_page s.first_page s.end_page s.free v.fit)
high_loop-Answers (suc rounds) n o s v e same = elim (Option-cases (highest (o + n) s.free none)) [
  | inl gone ↦
      let (unset, next) = highest-none (o + n) s.first_page s.end_page none s.free v.fit gone in
      let e' : (o + n) + 1 ≡ o + (n + 1) = omega arith in
      let later =
        subst
          (λ (k : ℕ).
            serves (o + n) s.first_page s.end_page s.free ≡ serves k s.first_page s.end_page s.free)
          e' next in
      rw (gone, high_loop) (high_loop-Answers rounds (n + 1) o s v (omega arith) (same ∙ later))
  | inr (i, found) ↦ elim (highest_lem (o + n) i none s.pages s.free v.headed found) [
    | inl never ↦ absurd (cc)
    | inr (l, at_o) ↦ rw (found, high_loop) (carve_high-Answers n i o s v l at_o)
  ]
]

-- `buddy_alloc_high`, on valid free lists, answers with an aligned block of the order that was free, after
-- which the free lists are valid and cover what they covered less that block; it fails only if there is no
-- free block of at least the order.
pub alloc_high-Answers :
    (order : ℕ) (s : Phymm)
    → IsValid s
    → order ≤ max_buddy_order
    → Answers s order s.first_page s.end_page (alloc_high order s)
unfolding alloc_high
alloc_high-Answers order s v small =
    let e : order ≡ order + 0 = omega arith in
    high_loop-Answers (max_buddy_order + 1 - order) 0 order s v (omega arith)
      (ap (λ (k : ℕ). serves k s.first_page s.end_page s.free) e)
