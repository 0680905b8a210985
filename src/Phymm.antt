-- ===== src/Phymm.antt =====
-- src/mm/impl/phymm.c, the buddy allocator of physical pages. A page is its index in `phymm_pages`.
-- The free lists are one list here, `free`: the list of an order is what it holds of that order, front
-- first, so a page is linked in a list if it heads a block of `free`. PHYMM_INVALID is `none`.
-- `buddy_lock` makes each call one step.
pub mod Order
pub mod Alloc
pub mod Measure
pub mod Inv
pub mod Take
pub mod Search
pub mod High
pub mod Give
pub mod Grant
pub mod AddRange
pub mod Init
pub mod Usable
pub mod Boot
pub mod Policy
mod Tests
use mos.Base.{
  ℕ, zero, suc, ◌+◌, ◌-◌, ◌*◌, ◌^◌, bit_xor, Bool, true, false, ◌&&◌, ◌||◌, not, Option, none, some,
  List, [], ◌∷◌, ltb, leb, ◌==◌, if◌then◌else◌, add32, sub32,
}

abbrev pub max_buddy_order : ℕ
max_buddy_order = 10

abbrev pub phymm_order_none : ℕ
phymm_order_none = 0xFE

-- `phymm_page`.
pub record Page : Type 0 where
  pub ref_count : ℕ
  pub order : ℕ
  pub flags : ℕ

-- A free block by its first page, in the list of its order.
pub record Block : Type 0 where
  pub idx : ℕ
  pub order : ℕ

-- The global state, with `phymm_begin` and `phymm_end` as `first_page` and `end_page`; the limits of
-- the architecture, as numbers of pages, are the three fields that follow.
pub record Phymm : Type 0 where
  pub first_page : ℕ
  pub end_page : ℕ
  pub kernel_limit : ℕ
  pub dma_limit : ℕ
  pub preferred_base : ℕ
  pub pages : ℕ → Page
  pub free : List Block
  pub free_pages : ℕ
  pub managed_pages : ℕ
  pub used : ℕ

abbrev pub put_page : (ℕ → Page) → ℕ → Page → ℕ → Page
put_page pages i p j = if j == i then p else pages j

abbrev pub set_order : (ℕ → Page) → ℕ → ℕ → ℕ → Page
set_order pages i order = put_page pages i (record (pages i) { order = order })

abbrev pub clear_refs : ℕ → Phymm → Phymm
clear_refs i s = record s { pages = put_page s.pages i (record (s.pages i) { ref_count = 0 }) }

-- `buddy_push`.
unfoldable pub push : ℕ → ℕ → Phymm → Phymm
push idx order s = record s {
  free_pages = add32 s.free_pages (2 ^ order);
  pages = set_order s.pages idx order;
  free = record { idx = idx; order = order } ∷ s.free;
}

-- Taking the entry of a page out of whichever list it is in.
unfoldable pub delete : ℕ → List Block → List Block
delete i [] = []
delete i (b ∷ bs) = if b.idx == i then bs else b ∷ delete i bs

-- `buddy_remove`.
unfoldable pub remove : ℕ → Phymm → Phymm
remove idx s = record s {
  free_pages = sub32 s.free_pages (2 ^ (s.pages idx).order);
  free = delete idx s.free;
}

unfoldable pub is_listed : ℕ → List Block → Bool
is_listed i [] = false
is_listed i (b ∷ bs) = b.idx == i || is_listed i bs

-- `buddy_is_free_at_order`.
unfoldable pub is_free_at_order : ℕ → ℕ → Phymm → Bool
is_free_at_order idx order s =
    if ltb idx s.first_page || leb s.end_page idx
    then false
    else (s.pages idx).ref_count == 0 && (s.pages idx).order == order && is_listed idx s.free

-- The coalescing loop of `buddy_free_block`, and what follows it. One round for each order left.
unfoldable pub hand_back : ℕ → ℕ → Phymm → Phymm
hand_back idx order s =
    push idx order (record s {
      pages = put_page s.pages idx (record (s.pages idx) { ref_count = 0; flags = 0 });
    })

unfoldable pub free_loop : ℕ → ℕ → ℕ → Phymm → Phymm
free_loop zero idx order s = hand_back idx order s
free_loop (suc n) idx order s =
    let buddy = bit_xor idx (2 ^ order) in
    elim (is_free_at_order buddy order s) [
      | false ↦ hand_back idx order s
      | true ↦ free_loop n (if ltb buddy idx then buddy else idx) (order + 1) (remove buddy s)
    ]

-- `buddy_free_block`.
unfoldable pub free_block : ℕ → ℕ → Phymm → Phymm
free_block idx order s = free_loop (max_buddy_order - order) idx order s
