-- ===== src/Phymm/Grant.antt =====
-- The public calls of the allocator: `phymm_alloc_kernel`, `phymm_alloc_dma`, `phymm_alloc_user`,
-- `phymm_alloc_cache_pages`, and giving back with `phymm_free_kernel` and `phymm_free_user`.
use mos.Base.{
  ℕ, ◌^◌, ◌≤◌, ◌<◌, ◌≡◌, refl, sym, ◌∙◌, ◌⊎◌, ◌||◌, false, List, [], ◌∷◌, ltb, leb, ◌==◌,
  if◌then◌else◌, arith, inl, inr, Bool-cases, Option, none, some, ltb→lt, max, min,
}
use mos.Phymm.{Block, Phymm, max_buddy_order, free_block}
use mos.Phymm.Measure.{cover, pow_pos}
use mos.Phymm.Order.{ceil_log2, ceil_log2-IsLeast, IsLeast}
use mos.Phymm.Inv.{IsValid}
use mos.Phymm.Give.{Gave, free_block-Gave}
use mos.Phymm.Search.{serves, Answers, alloc_in_range-Answers}
use mos.Phymm.High.{alloc_high-Answers}
use mos.Phymm.Alloc.{
  alloc_in_range, alloc_high, kernel_page_limit, ◌orelse◌, Result, hangs, failed, found, to_result,
  of_count, alloc_kernel, alloc_dma, alloc_user, alloc_cache_pages, free_kernel,
}

-- What a call for `page_count` pages between two limits gives: nothing if its loop does not end, which it
-- does for at most 2^31 pages; no block if the least order is too large or no free block of at least that
-- order lies between the limits; else a block of the least order.
abbrev pub IsGrant : Phymm → ℕ → ℕ → ℕ → Result → Type 0
IsGrant s page_count lo hi hangs = 2 ^ 31 < page_count
IsGrant s page_count lo hi failed =
    (k : ℕ) × IsLeast (max page_count 1) k
    × ((max_buddy_order < k) ⊎ (serves k lo hi s.free ≡ false))
IsGrant s page_count lo hi (found i s') =
    (k : ℕ) × IsLeast (max page_count 1) k × Answers s k lo hi (some (i, s'))

to_result-IsGrant :
    (page_count lo hi k : ℕ) (s : Phymm) (r : Option (ℕ × Phymm))
    → IsLeast (max page_count 1) k
    → Answers s k lo hi r
    → IsGrant s page_count lo hi (to_result r)
to_result-IsGrant page_count lo hi k s none least a = (k, least, inr a)
to_result-IsGrant page_count lo hi k s (some (i, s')) least a = (k, least, a)

of_count-IsGrant :
    (page_count lo hi : ℕ) (s : Phymm) (alloc : ℕ → Option (ℕ × Phymm))
    → ((k : ℕ) → k ≤ max_buddy_order → Answers s k lo hi (alloc k))
    → IsGrant s page_count lo hi (of_count page_count alloc)
unfolding of_count ceil_log2
of_count-IsGrant page_count lo hi s alloc good =
    let e : (if page_count == 0 then 1 else page_count) ≡ max page_count 1 = ground arith in
    elim (ceil_log2-IsLeast (max page_count 1)) [
      | inl (k, ends, least) ↦ elim (Bool-cases (ltb max_buddy_order k)) [
        | inl big ↦ rw (of_count, e, ends, big) (k, least, inl (ltb→lt max_buddy_order k big))
        | inr small ↦
            rw (of_count, e, ends, small)
              (to_result-IsGrant page_count lo hi k s (alloc k) least (good k (ground arith)))
      ]
      | inr (big, never) ↦
          let ends : ceil_log2 (max page_count 1) ≡ none = never 33 in
          rw (of_count, e, ends) (omega arith)
    ]

orelse-Answers :
    (k lo hi : ℕ) (s : Phymm) (a b : Option (ℕ × Phymm))
    → Answers s k lo hi a
    → hi ≤ s.end_page
    → (hi' : ℕ) → hi ≤ hi'
    → Answers s k s.first_page hi' b
    → Answers s k s.first_page hi' (a orelse b)
orelse-Answers k lo hi s none b answer h hi' le other = other
orelse-Answers k lo hi s (some (i, s')) b (low, high, stored, t) h hi' le other =
    let from = t.held.fits.low in let first = t.first in (omega arith, omega arith, stored, t)

-- `phymm_alloc_kernel`, on valid free lists, does not end only if more than 2^31 pages are asked for. It fails only
-- if the least order with so many pages is above the maximum, or no free block of at least this order lies between
-- the first managed page and the kernel's limit. Else it gives a block of this order between the two, at a
-- multiple of its size, whose first page keeps the order; the free lists then are valid and cover what they
-- covered less this block.
pub alloc_kernel-IsGrant :
    (page_count : ℕ) (s : Phymm)
    → IsValid s
    → IsGrant s page_count s.first_page (kernel_page_limit s) (alloc_kernel page_count s)
unfolding alloc_kernel
alloc_kernel-IsGrant page_count s v =
    let limit = kernel_page_limit s in
    of_count-IsGrant page_count s.first_page limit s
      (λ k. alloc_in_range k s.preferred_base limit s orelse alloc_in_range k s.first_page limit s)
      (λ k small.
        orelse-Answers k s.preferred_base limit s (alloc_in_range k s.preferred_base limit s)
          (alloc_in_range k s.first_page limit s)
          (alloc_in_range-Answers k s.preferred_base limit s v small) (ground arith) limit
          (omega arith) (alloc_in_range-Answers k s.first_page limit s v small))

-- `phymm_alloc_dma`, on valid free lists, is granted a block of the managed range below the limit of DMA
-- unless there is none.
pub alloc_dma-IsGrant :
    (page_count : ℕ) (s : Phymm)
    → IsValid s
    → IsGrant s page_count s.first_page (min s.dma_limit s.end_page) (alloc_dma page_count s)
unfolding alloc_dma
alloc_dma-IsGrant page_count s v =
    let e : (if ltb s.end_page s.dma_limit then s.end_page else s.dma_limit)
        ≡ min s.dma_limit s.end_page =
      ground arith in
    rw (sym e) (
      of_count-IsGrant page_count s.first_page
        (if ltb s.end_page s.dma_limit then s.end_page else s.dma_limit) s
        (λ k.
          alloc_in_range k s.first_page
            (if ltb s.end_page s.dma_limit then s.end_page else s.dma_limit) s)
        (λ k small.
          alloc_in_range-Answers k s.first_page
            (if ltb s.end_page s.dma_limit then s.end_page else s.dma_limit) s v small))

-- `phymm_alloc_user`, on valid free lists, is granted a page of the managed range unless none is free.
pub alloc_user-IsGrant :
    (s : Phymm) → IsValid s → IsGrant s 1 s.first_page s.end_page (alloc_user s)
unfolding alloc_user
alloc_user-IsGrant s v =
    let limit = kernel_page_limit s in
    let end = s.end_page in
    let in_range : (lo : ℕ) → Answers s 0 lo end (alloc_in_range 0 lo end s) =
      λ lo. alloc_in_range-Answers 0 lo end s v (omega arith) in
    to_result-IsGrant 1 s.first_page end 0 s
      (alloc_in_range 0 0x100000 end s orelse alloc_in_range 0 limit end s orelse alloc_high 0 s)
      (omega arith, inl refl)
      (orelse-Answers 0 0x100000 end s (alloc_in_range 0 0x100000 end s)
        (alloc_in_range 0 limit end s orelse alloc_high 0 s) (in_range 0x100000) (omega arith) end
        (omega arith)
        (orelse-Answers 0 limit end s (alloc_in_range 0 limit end s) (alloc_high 0 s)
          (in_range limit) (omega arith) end (omega arith)
          (alloc_high-Answers 0 s v (omega arith))))

serves-min :
    (k a b hi : ℕ) (bs : List Block)
    → serves k a hi bs ≡ false
    → serves k b hi bs ≡ false
    → serves k (min a b) hi bs ≡ false
unfolding serves
serves-min k a b hi [] f g = refl
serves-min k a b hi (x ∷ bs) f g =
    let rest = serves-min k a b hi bs (ground arith) (ground arith) in ground arith

orelse-min :
    (k a b hi : ℕ) (s : Phymm) (p q : Option (ℕ × Phymm))
    → Answers s k a hi p
    → Answers s k b hi q
    → Answers s k (min a b) hi (p orelse q)
orelse-min k a b hi s none none f g = serves-min k a b hi s.free f g
orelse-min k a b hi s none (some (i, s')) f (low, high, at, t) = (omega arith, high, at, t)
orelse-min k a b hi s (some (i, s')) q (low, high, at, t) g = (omega arith, high, at, t)

orelse_none : (p : Option (ℕ × Phymm)) → (p orelse none) ≡ p
orelse_none none = refl
orelse_none (some r) = refl

-- The lowest page that the caches may have: above the kernel's memory, if there is other memory.
abbrev pub cache_floor : Phymm → ℕ
cache_floor s =
    if leb s.end_page (kernel_page_limit s)
    then s.first_page
    else min 0x100000 (kernel_page_limit s)

-- `phymm_alloc_cache_pages`, on valid free lists, does not end only if more than 2^31 pages are asked for, and else
-- fails or gives a block as `phymm_alloc_kernel` does, but between other limits: if there is memory beyond the
-- kernel's limit, from this limit or the page 0x100000, whichever is lower, to the end of memory, and if
-- not, anywhere in the managed range.
pub alloc_cache_pages-IsGrant :
    (page_count : ℕ) (s : Phymm)
    → IsValid s
    → IsGrant s page_count (cache_floor s) s.end_page (alloc_cache_pages page_count s)
unfolding alloc_cache_pages
alloc_cache_pages-IsGrant page_count s v =
    of_count-IsGrant page_count (cache_floor s) s.end_page s
      (λ k.
        alloc_in_range k 0x100000 s.end_page s
        orelse alloc_in_range k (kernel_page_limit s) s.end_page s
        orelse (if leb s.end_page (kernel_page_limit s) then alloc_high k s else none))
      (λ k small. choose k small)
  where
    choose :
        (k : ℕ)
        → k ≤ max_buddy_order
        → Answers s k (cache_floor s) s.end_page (
            alloc_in_range k 0x100000 s.end_page s
            orelse alloc_in_range k (kernel_page_limit s) s.end_page s
            orelse (if leb s.end_page (kernel_page_limit s) then alloc_high k s else none))
    choose k small =
        let limit = kernel_page_limit s in
        let end = s.end_page in
        let first = alloc_in_range-Answers k 0x100000 end s v small in
        let second = alloc_in_range-Answers k limit end s v small in
        elim (Bool-cases (leb end limit)) [
          | inl all ↦ rw all (
              orelse-Answers k 0x100000 end s (alloc_in_range k 0x100000 end s)
                (alloc_in_range k limit end s orelse alloc_high k s) first (omega arith) end
                (omega arith)
                (orelse-Answers k limit end s (alloc_in_range k limit end s) (alloc_high k s) second
                  (omega arith) end (omega arith) (alloc_high-Answers k s v small)))
          | inr other ↦
              rw (other, orelse_none (alloc_in_range k limit end s))
                (orelse-min k 0x100000 limit end s (alloc_in_range k 0x100000 end s)
                  (alloc_in_range k limit end s) first second)
        ]

-- A block that a search has given, given back at once with `phymm_free_kernel`, whatever the number of pages that the
-- caller names, leaves valid free lists that cover exactly what they covered before the search.
pub free_kernel_lem :
    (s s' : Phymm) (k lo hi i page_count : ℕ)
    → Answers s k lo hi (some (i, s'))
    → (s'' : Phymm) × (free_kernel (some i) page_count s' ≡ some s'')
      × Gave (cover s.free) s.first_page s.end_page s''
unfolding free_kernel
free_kernel_lem s s' k lo hi i page_count (low, high, stored, t) =
    let fits = t.held.fits in
    let from = fits.low in
    let upto = fits.high in
    let small = fits.small in
    let some_page = pow_pos k in
    let in_range : (ltb i s'.first_page || leb s'.end_page i) ≡ false = ground arith in
    let known : ltb max_buddy_order (s'.pages i).order ≡ false = ground arith in
    let gave = free_block-Gave i k s' t.held in
    (
      free_block i k s',
      rw (in_range, known, stored) refl,
      record {
        valid = gave.valid;
        covered = λ x. gave.covered x ∙ t.covered x;
        first = gave.first ∙ t.first;
        last = gave.last ∙ t.last;
      },
    )
