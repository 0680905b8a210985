-- ===== src/Phymm/Search.antt =====
-- The searches of the free lists: `buddy_alloc_in_range` and `buddy_alloc_high` give a free block, split
-- down to the order, and fail only if there is none.
use mos.Base.{
  ℕ, zero, suc, ◌+◌, ◌-◌, ◌^◌, ◌≤◌, ◌<◌, ◌≡◌, refl, ap, sym, subst, ◌∙◌, Bool, true, false, ◌&&◌,
  ◌||◌, List, [], ◌∷◌, leb, ◌==◌, arith, inl, inr, Bool-cases, Option-cases, u32_mod, Option, none,
  some,
}
use mos.Phymm.{Page, Block, Phymm, max_buddy_order, is_listed, remove}
use mos.Phymm.Measure.{pow_pos, pow_le, cover, Headed}
use mos.Phymm.Inv.{AllFit, IsValid}
use mos.Phymm.Take.{Took, remove-Took, split_low-Took, mark-Took, mark-order}
use mos.Phymm.Alloc.{split_low, find_fit, carve_low, range_loop, alloc_in_range, block_fits}

-- Some free block of at least the order lies between the limits.
unfoldable pub serves : ℕ → ℕ → ℕ → List Block → Bool
serves order lo hi [] = false
serves order lo hi (b ∷ bs) =
    (leb order b.order && leb lo b.idx && leb (b.idx + 2 ^ b.order) hi) || serves order lo hi bs

-- What a search between two limits answers: a block that lies between them and was free, or that there
-- was none.
abbrev pub Answers : Phymm → ℕ → ℕ → ℕ → Option (ℕ × Phymm) → Type 0
Answers s order lo hi none = serves order lo hi s.free ≡ false
Answers s order lo hi (some (i, s')) =
    (lo ≤ i)
    × (i + 2 ^ order ≤ hi)
    × ((s'.pages i).order ≡ order)
    × Took (cover s.free) s.first_page s.end_page s' i order

pub some-inj : {a b : ℕ} → some a ≡ some b → a ≡ b
some-inj e = cc

find_fit_lem :
    (o lo hi i : ℕ) (pages : ℕ → Page) (bs : List Block)
    → Headed pages bs
    → find_fit o lo hi bs ≡ some i
    → (is_listed i bs ≡ true) × ((pages i).order ≡ o) × (block_fits i o lo hi ≡ true)
unfolding find_fit is_listed
find_fit_lem o lo hi i pages [] h e = absurd (cc)
find_fit_lem o lo hi i pages (b ∷ bs) h e =
    elim (Bool-cases (b.order == o && block_fits b.idx o lo hi)) [
      | inl good ↦
          let found : some b.idx ≡ some i = rw (sym e, good, find_fit) refl in
          let same : b.idx ≡ i = some-inj found in
          let at_o : b.order ≡ o = ground arith in
          subst
            (λ (j : ℕ).
              (((b.idx == j) || is_listed j bs) ≡ true)
              × ((pages j).order ≡ o)
              × (block_fits j o lo hi ≡ true))
            same (ground arith, h.0 ∙ at_o, ground arith)
      | inr bad ↦
          let rest = find_fit_lem o lo hi i pages bs h.2 (rw (sym e, bad, find_fit) refl) in
          (ground (arith, rest), rest.1, rest.2)
    ]

find_fit-none :
    (o lo hi first end : ℕ) (bs : List Block)
    → end < u32_mod
    → AllFit first end bs
    → find_fit o lo hi bs ≡ none
    → serves o lo hi bs ≡ serves (o + 1) lo hi bs
unfolding find_fit serves
find_fit-none o lo hi first end [] word h e = refl
find_fit-none o lo hi first end (b ∷ bs) word h e =
    elim (Bool-cases (b.order == o && block_fits b.idx o lo hi)) [
      | inl good ↦ let found : some b.idx ≡ none = rw (sym e, good, find_fit) refl in absurd (cc)
      | inr bad ↦
          let others : find_fit o lo hi bs ≡ none = rw (sym e, bad, find_fit) refl in
          let tail = find_fit-none o lo hi first end bs word h.1 others in
          let high = h.0.high in ground arith
    ]

pub serves-too_large :
    (lo hi first end : ℕ) (bs : List Block)
    → AllFit first end bs
    → serves (max_buddy_order + 1) lo hi bs ≡ false
unfolding serves
serves-too_large lo hi first end [] h = refl
serves-too_large lo hi first end (b ∷ bs) h =
    let rest = serves-too_large lo hi first end bs h.1 in let small = h.0.small in ground arith

serves-no_room : (order lo hi : ℕ) (bs : List Block) → hi ≤ lo → serves order lo hi bs ≡ false
unfolding serves
serves-no_room order lo hi [] h = refl
serves-no_room order lo hi (b ∷ bs) h =
    let rest = serves-no_room order lo hi bs h in let some_page = pow_pos b.order in ground arith

module _ (lo hi : ℕ) where
  -- A listed block between the limits, split down to the order.
  carve_low-Answers :
      (n i o : ℕ) (s : Phymm)
      → IsValid s
      → is_listed i s.free ≡ true
      → (s.pages i).order ≡ o + n
      → block_fits i (o + n) lo hi ≡ true
      → Answers s o lo hi (some (i, carve_low n i o s))
  unfolding carve_low remove
  carve_low-Answers n i o s v l at_o good =
      let start = remove-Took i (o + n) s v l at_o in
      let high = start.held.fits.high in
      let word = v.word in
      let smaller = pow_le o (o + n) (omega arith) in
      (
        ground arith,
        ground arith,
        mark-order i o (split_low n i o (remove i s)),
        mark-Took (cover s.free) s.first_page s.end_page i o (split_low n i o (remove i s))
            (split_low-Took (cover s.free) s.first_page s.end_page n i o (remove i s) start),
      )

  range_loop-Answers :
      (rounds n o : ℕ) (s : Phymm)
      → IsValid s
      → rounds + (o + n) ≡ max_buddy_order + 1
      → serves o lo hi s.free ≡ serves (o + n) lo hi s.free
      → Answers s o lo hi (range_loop rounds n o lo hi s)
  unfolding range_loop
  range_loop-Answers zero n o s v e same =
      let end : o + n ≡ max_buddy_order + 1 = omega arith in
      rw (same, end) (serves-too_large lo hi s.first_page s.end_page s.free v.fit)
  range_loop-Answers (suc rounds) n o s v e same =
      elim (Option-cases (find_fit (o + n) lo hi s.free)) [
        | inl gone ↦
            let next =
              find_fit-none (o + n) lo hi s.first_page s.end_page s.free v.word v.fit gone in
            let e' : (o + n) + 1 ≡ o + (n + 1) = omega arith in
            let later =
              subst (λ (k : ℕ). serves (o + n) lo hi s.free ≡ serves k lo hi s.free) e' next in
            rw (gone, range_loop)
              (range_loop-Answers rounds (n + 1) o s v (omega arith) (same ∙ later))
        | inr (i, found) ↦
            let (l, at_o, good) = find_fit_lem (o + n) lo hi i s.pages s.free v.headed found in
            rw (found, range_loop) (carve_low-Answers n i o s v l at_o good)
      ]

-- `buddy_alloc_in_range`, on valid free lists, answers with a block of the order that lies between the two
-- limits, is aligned, and was free, whose
-- first page keeps the order, and after which the free lists are valid and cover what they covered less that
-- block; it fails only if no free block of at least the order lies between the limits.
pub alloc_in_range-Answers :
    (order lo hi : ℕ) (s : Phymm)
    → IsValid s
    → order ≤ max_buddy_order
    → Answers s order lo hi (alloc_in_range order lo hi s)
unfolding alloc_in_range
alloc_in_range-Answers order lo hi s v small = elim (Bool-cases (leb hi lo)) [
  | inl empty ↦ rw (empty, alloc_in_range) (serves-no_room order lo hi s.free (ground arith))
  | inr room ↦
      let e : order ≡ order + 0 = omega arith in
      rw (room, alloc_in_range)
        (range_loop-Answers lo hi (max_buddy_order + 1 - order) 0 order s v (omega arith)
          (ap (λ (k : ℕ). serves k lo hi s.free) e))
]
