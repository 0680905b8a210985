-- ===== src/Phymm/Alloc.antt =====
-- Allocation in src/mm/impl/phymm.c: the searches of the free lists, splitting, and the public calls; and
-- the free lists that `phymm_init` builds.
use mos.Base.{
  ℕ, zero, suc, ◌+◌, ◌-◌, ◌^◌, bit_and, Bool, true, false, ◌&&◌, ◌||◌, Option, none, some, List, [],
  ◌∷◌, ltb, leb, ◌==◌, if◌then◌else◌, add32, sub32,
}
use mos.Phymm.{
  max_buddy_order, phymm_order_none, Page, Block, Phymm, put_page, set_order, clear_refs, push,
  remove, free_block,
}
use mos.Phymm.Order.{ceil_log2}

-- `PHYMM_ORDER_NONE` for the `n` pages from `idx + half`, as far as they are managed.
unfoldable pub mark_rest : ℕ → ℕ → ℕ → ℕ → (ℕ → Page) → ℕ → Page
mark_rest zero idx half end_page pages = pages
mark_rest (suc n) idx half end_page pages =
    mark_rest n idx (half + 1) end_page
      (if ltb (idx + half) end_page then set_order pages (idx + half) phymm_order_none else pages)

unfoldable pub mark : ℕ → ℕ → Phymm → Phymm
mark idx order s = record s {
  pages = mark_rest (2 ^ order - 1) idx 1 s.end_page (set_order s.pages idx order);
}

-- A block at `idx` of the order `order + n` is split `n` times; the upper halves go back.
unfoldable pub split_low : ℕ → ℕ → ℕ → Phymm → Phymm
split_low zero idx order s = s
split_low (suc n) idx order s =
    let half = add32 idx (2 ^ (order + n)) in
    split_low n idx order
      (if ltb half s.end_page then push half (order + n) (clear_refs half s) else s)

-- The same with the lower halves; the result is what is left of the block.
unfoldable pub split_high : ℕ → ℕ → ℕ → Phymm → ℕ × Phymm
split_high zero idx order s = (idx, s)
split_high (suc n) idx order s =
    let upper = add32 idx (2 ^ (order + n)) in
    elim (ltb upper s.end_page) [
      | true ↦ split_high n upper order (push idx (order + n) (clear_refs idx s))
      | false ↦ split_high n idx order s
    ]

-- `buddy_block_fits`.
abbrev pub block_fits : ℕ → ℕ → ℕ → ℕ → Bool
block_fits idx order min_idx max_idx = leb min_idx idx && leb (add32 idx (2 ^ order)) max_idx

-- The first block in the list of the order `o` that fits.
unfoldable pub find_fit : ℕ → ℕ → ℕ → List Block → Option ℕ
find_fit o min_idx max_idx [] = none
find_fit o min_idx max_idx (b ∷ bs) =
    if b.order == o && block_fits b.idx o min_idx max_idx
    then some b.idx
    else find_fit o min_idx max_idx bs

-- Taking the block at `idx` of the order `order + n`, down to `order`.
unfoldable pub carve_low : ℕ → ℕ → ℕ → Phymm → Phymm
carve_low n idx order s = mark idx order (split_low n idx order (remove idx s))

-- The loop over the orders from `order + n`, with the rounds that are left.
unfoldable pub range_loop : ℕ → ℕ → ℕ → ℕ → ℕ → Phymm → Option (ℕ × Phymm)
range_loop zero n order min_idx max_idx s = none
range_loop (suc rounds) n order min_idx max_idx s =
    elim (find_fit (order + n) min_idx max_idx s.free) [
      | some idx ↦ some (idx, carve_low n idx order s)
      | none ↦ range_loop rounds (n + 1) order min_idx max_idx s
    ]

-- `buddy_alloc_in_range`.
unfoldable pub alloc_in_range : ℕ → ℕ → ℕ → Phymm → Option (ℕ × Phymm)
alloc_in_range order min_idx max_idx s =
    if leb max_idx min_idx
    then none
    else range_loop (max_buddy_order + 1 - order) 0 order min_idx max_idx s

unfoldable pub better : Option ℕ → ℕ → Bool
better none i = true
better (some j) i = ltb j i

-- The block of the order `o` with the highest index.
unfoldable pub highest : ℕ → List Block → Option ℕ → Option ℕ
highest o [] best = best
highest o (b ∷ bs) best =
    highest o bs (if b.order == o && better best b.idx then some b.idx else best)

unfoldable pub carve_high : ℕ → ℕ → ℕ → Phymm → ℕ × Phymm
carve_high n idx order s =
    let (left, s') = split_high n idx order (remove idx s) in (left, mark left order s')

unfoldable pub high_loop : ℕ → ℕ → ℕ → Phymm → Option (ℕ × Phymm)
high_loop zero n order s = none
high_loop (suc rounds) n order s = elim (highest (order + n) s.free none) [
  | some idx ↦ some (carve_high n idx order s)
  | none ↦ high_loop rounds (n + 1) order s
]

-- `buddy_alloc_high`.
unfoldable pub alloc_high : ℕ → Phymm → Option (ℕ × Phymm)
alloc_high order s = high_loop (max_buddy_order + 1 - order) 0 order s

-- `phymm_kernel_page_limit`.
abbrev pub kernel_page_limit : Phymm → ℕ
kernel_page_limit s = if ltb s.kernel_limit s.end_page then s.kernel_limit else s.end_page

-- The second attempt is made where the first fails.
infixr 20 ◌orelse◌
abbrev pub ◌orelse◌ : Option (ℕ × Phymm) → Option (ℕ × Phymm) → Option (ℕ × Phymm)
some r orelse other = some r
none orelse other = other

-- The order for a number of pages, and an allocation of that order; `hangs` if the loop of `ceil_log2` does
-- not end.
pub data Result : Type 0 where
  hangs failed : Result
  found : ℕ → Phymm → Result

abbrev pub to_result : Option (ℕ × Phymm) → Result
to_result none = failed
to_result (some (idx, s)) = found idx s

unfoldable pub of_count : ℕ → (ℕ → Option (ℕ × Phymm)) → Result
of_count page_count alloc = elim (ceil_log2 (if page_count == 0 then 1 else page_count)) [
  | none ↦ hangs
  | some order ↦ if ltb max_buddy_order order then failed else to_result (alloc order)
]

unfoldable pub alloc_kernel : ℕ → Phymm → Result
alloc_kernel page_count s = of_count page_count λ order.
    alloc_in_range order s.preferred_base (kernel_page_limit s) s
    orelse alloc_in_range order s.first_page (kernel_page_limit s) s

unfoldable pub alloc_dma : ℕ → Phymm → Result
alloc_dma page_count s =
    let limit = if ltb s.end_page s.dma_limit then s.end_page else s.dma_limit in
    of_count page_count λ order. alloc_in_range order s.first_page limit s

unfoldable pub alloc_user : Phymm → Result
alloc_user s = to_result (
    alloc_in_range 0 0x100000 s.end_page s
    orelse alloc_in_range 0 (kernel_page_limit s) s.end_page s
    orelse alloc_high 0 s)

unfoldable pub alloc_cache_pages : ℕ → Phymm → Result
alloc_cache_pages page_count s = of_count page_count λ order.
    alloc_in_range order 0x100000 s.end_page s
    orelse alloc_in_range order (kernel_page_limit s) s.end_page s
    orelse (if leb s.end_page (kernel_page_limit s) then alloc_high order s else none)

unfoldable pub alloc_cache : Phymm → Result
alloc_cache s = alloc_cache_pages 1 s

-- `phymm_free_kernel`; `none` of the order is the loop of `ceil_log2` that does not end.
unfoldable pub free_kernel : Option ℕ → ℕ → Phymm → Option Phymm
free_kernel none page_count s = some s
free_kernel (some i) page_count s =
    let order = (s.pages i).order in
    if ltb i s.first_page || leb s.end_page i
    then some s
    else if ltb max_buddy_order order
    then elim (ceil_log2 (if page_count == 0 then 1 else page_count)) [
      | none ↦ none
      | some o ↦ some (free_block i o s)
    ]
    else some (free_block i order s)

unfoldable pub free_user : Option ℕ → Phymm → Phymm
free_user none s = s
free_user (some i) s = if ltb i s.first_page || leb s.end_page i then s else free_block i 0 s

-- `buddy_add_free_range`. The inner loop: from `order` down to the first at which a block at `p` is
-- aligned and fits.
unfoldable pub fit_order : ℕ → ℕ → ℕ → ℕ
fit_order zero p top = 0
fit_order (suc order) p top =
    let block = 2 ^ suc order in
    let lower = fit_order order p top in
    if bit_and p (block - 1) == 0 && leb (add32 p block) top then suc order else lower

-- The outer loop. Each round adds at least one page, so as many rounds as there are pages are enough.
unfoldable pub add_range_loop : ℕ → ℕ → ℕ → Phymm → Phymm
add_range_loop zero p top s = s
add_range_loop (suc rounds) p top s =
    let order = fit_order max_buddy_order p top in
    elim (ltb p top && leb (add32 p (2 ^ order)) top) [
      | false ↦ s
      | true ↦ add_range_loop rounds (add32 p (2 ^ order)) top (push p order s)
    ]

unfoldable pub add_free_range : ℕ → ℕ → Phymm → Phymm
add_free_range start top s = add_range_loop (top - start) start top s

-- `phymm_reference_page` and `phymm_dereference_page`.
unfoldable pub reference_page : ℕ → Phymm → ℕ × Phymm
reference_page i s =
    let count = add32 (s.pages i).ref_count 1 in
    let s' = record s { pages = put_page s.pages i (record (s.pages i) { ref_count = count }) } in
    (count, if count == 1 then record s' { used = add32 s.used 1 } else s')

unfoldable pub dereference_page : ℕ → Phymm → ℕ × Phymm
dereference_page i s =
    let count = sub32 (s.pages i).ref_count 1 in
    let s' = record s { pages = put_page s.pages i (record (s.pages i) { ref_count = count }) } in
    (count, if count == 0 then record s' { used = sub32 s.used 1 } else s')
