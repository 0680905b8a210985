-- ===== src/Phymm/Init.antt =====
-- `phymm_init`: the memory map of the boot loader, as the list of its entries, and the free lists made
-- from it; a missing map is the empty list. PHYMM_ADDRESS_LIMIT is a constant of the architecture, the argument `limit`; a page has 4096 bytes.
use mos.Base.{
  ℕ, zero, suc, ◌+◌, ◌-◌, ◌*◌, ◌/◌, ◌%◌, ◌^◌, ◌||◌, not, List, [], ◌∷◌, ltb, leb, ◌==◌,
  if◌then◌else◌, u32_mod, add32, Option, none, some, u64_mod,
}
use mos.Phymm.{Page, Phymm, phymm_order_none, put_page}
use mos.Phymm.Alloc.{add_free_range}

abbrev pub phymm_reserved : ℕ
phymm_reserved = 0xFFFFFFFE

-- The fields of `memory_map_t` that are read; the base and the length are put together of their two
-- halves.
pub record Entry : Type 0 where
  pub kind : ℕ
  pub base_low : ℕ
  pub base_high : ℕ
  pub length_low : ℕ
  pub length_high : ℕ

unfoldable pub reserve_loop : ℕ → ℕ → (ℕ → Page) → ℕ → Page
reserve_loop zero i pages = pages
reserve_loop (suc n) i pages =
    reserve_loop n (i + 1)
      (put_page pages i (record (pages i) { ref_count = phymm_reserved; order = phymm_order_none }))

unfoldable pub clear_loop : ℕ → ℕ → Phymm → Phymm
clear_loop zero i s = s
clear_loop (suc n) i s = clear_loop n (i + 1) (record s {
  managed_pages = add32 s.managed_pages 1;
  pages = put_page s.pages i (record (s.pages i) { ref_count = 0; order = phymm_order_none });
})

-- The pages of an entry that are added, from the first up to the second; `none` if there are none.
unfoldable pub usable_range : ℕ → ℕ → ℕ → Entry → Option (ℕ × ℕ)
usable_range limit first_page end_page e =
    let base = e.base_low + e.base_high * 2 ^ 32 in
    let top = (base + (e.length_low + e.length_high * 2 ^ 32)) % u64_mod in
    let top' = if ltb limit top then limit else top in
    let start = base / 4096 % u32_mod in
    let end = top' / 4096 % u32_mod in
    let start' = if ltb start first_page then first_page else start in
    let end' = if ltb end_page end then end_page else end in
    if not (e.kind == 1) || leb limit base
    then none
    else if leb end' start'
    then none
    else some (start', end')

abbrev pub add_range : Option (ℕ × ℕ) → Phymm → Phymm
add_range none s = s
add_range (some (start, end)) s = add_free_range start end (clear_loop (end - start) start s)

unfoldable pub init_walk : ℕ → List Entry → Phymm → Phymm
init_walk limit [] s = s
init_walk limit (e ∷ es) s =
    init_walk limit es (add_range (usable_range limit s.first_page s.end_page e) s)

unfoldable pub init : ℕ → List Entry → Phymm → Phymm
init limit es s = init_walk limit es (record s {
  free = [];
  free_pages = 0;
  managed_pages = 0;
  pages = reserve_loop (s.end_page - s.first_page) s.first_page s.pages;
})
