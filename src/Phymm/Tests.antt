-- ===== src/Phymm/Tests.antt =====
-- Runs of the page allocator, and its theorems on these runs.
use mos.Base.{
  ℕ, ◌+◌, ◌^◌, ◌≤◌, ◌<◌, ◌≡◌, refl, subst, ◌⊎◌, arith, List, [], ◌∷◌, Option, none, some,
}
use mos.Phymm.{Phymm, push, free_block}
use mos.Phymm.Measure.{cover, inside}
use mos.Phymm.Inv.{IsValid}
use mos.Phymm.Order.{ceil_log2, log2_loop, ceil_log2-IsLeast, IsLeast}
use mos.Phymm.Give.{Gave, free_block-Gave}
use mos.Phymm.Search.{Answers, alloc_in_range-Answers}
use mos.Phymm.Grant.{
  IsGrant, alloc_kernel-IsGrant, cache_floor, alloc_cache_pages-IsGrant, free_kernel_lem,
}
use mos.Phymm.Usable.{usable, gives}
use mos.Phymm.Boot.{init-Gave}
use mos.Phymm.Init.{Entry, init, init_walk, clear_loop, usable_range}
use mos.Phymm.Alloc.{
  add_free_range, add_range_loop, fit_order, range_loop, find_fit, alloc_in_range, alloc_kernel,
  carve_low, alloc_cache_pages, free_kernel, kernel_page_limit,
}

abbrev memory_map : List Entry
memory_map =
    record { kind = 1; base_low = 0; base_high = 0; length_low = 0x14000; length_high = 0 }
    ∷ record { kind = 2; base_low = 0; base_high = 0; length_low = 0x10000; length_high = 0 }
    ∷ record { kind = 1; base_low = 0x14000; base_high = 0; length_low = 0xC000; length_high = 0 }
    ∷ []

abbrev powered_on : Phymm
powered_on = record {
  first_page = 4;
  end_page = 32;
  kernel_limit = 24;
  dma_limit = 16;
  preferred_base = 8;
  pages = λ i. record { ref_count = 0; order = 0; flags = 0 };
  free = [];
  free_pages = 7;
  managed_pages = 7;
  used = 0;
}

abbrev booted : Phymm
booted = init 0x100000 memory_map powered_on

map_IsDisjoint : (x : ℕ) → usable 0x100000 4 32 memory_map x ≤ 1
unfolding gives
map_IsDisjoint x = ground arith

init_example : Gave (usable 0x100000 4 32 memory_map) 4 32 (init 0x100000 memory_map powered_on)
init_example =
    init-Gave 0x100000 memory_map powered_on (omega arith) (omega arith)
      ((λ e. omega arith), ((λ e. omega arith), ((λ e. omega arith), tt))) map_IsDisjoint

booted-IsValid : IsValid booted
booted-IsValid = init_example.valid

booted_free : booted.free_pages ≡ 28
unfolding init init_walk usable_range add_free_range add_range_loop fit_order push clear_loop
booted_free = refl

alloc_kernel-IsGrant_example :
    IsGrant booted 3 booted.first_page (kernel_page_limit booted) (alloc_kernel 3 booted)
alloc_kernel-IsGrant_example = alloc_kernel-IsGrant 3 booted booted-IsValid

alloc_cache_pages-IsGrant_example :
    IsGrant booted 4 (cache_floor booted) booted.end_page (alloc_cache_pages 4 booted)
alloc_cache_pages-IsGrant_example = alloc_cache_pages-IsGrant 4 booted booted-IsValid

ceil_log2-IsLeast_example :
    ((k : ℕ) × (ceil_log2 5 ≡ some k) × IsLeast 5 k)
    ⊎ ((2 ^ 31 < 5) × ((fuel : ℕ) → log2_loop fuel 0 1 5 ≡ none))
ceil_log2-IsLeast_example = ceil_log2-IsLeast 5

-- Four pages out of the free lists, from the page 8.
abbrev taken : Phymm
taken = carve_low 1 8 2 booted

taken-answer : alloc_in_range 2 8 16 booted ≡ some (8, taken)
unfolding init alloc_in_range range_loop find_fit init_walk usable_range add_free_range
    add_range_loop fit_order push clear_loop
taken-answer = refl

taken-Answers : Answers booted 2 8 16 (some (8, taken))
taken-Answers =
    subst (λ (r : Option (ℕ × Phymm)). Answers booted 2 8 16 r) taken-answer
      (alloc_in_range-Answers 2 8 16 booted booted-IsValid (omega arith))

free_kernel_example :
    (s'' : Phymm) × (free_kernel (some 8) 99 taken ≡ some s'')
    × Gave (cover booted.free) booted.first_page booted.end_page s''
free_kernel_example = free_kernel_lem booted taken 2 8 16 8 99 taken-Answers

free_block_example :
    Gave
      (λ x. cover taken.free x + inside 8 2 x)
      taken.first_page
      taken.end_page
      (free_block 8 2 taken)
free_block_example = free_block-Gave 8 2 taken (taken-Answers.3).held
