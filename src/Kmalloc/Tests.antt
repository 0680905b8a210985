-- ===== src/Kmalloc/Tests.antt =====
-- Runs of the heap.
use mos.Base.{put, ℕ, ◌≡◌, Bool, refl, arith, ◌⊎◌, ◌==◌, ◌||◌, Option, some, []}
use mos.Kmalloc.{
  size_to_bin, bin_loop, word_loop, ctz_loop, head, find_free, extend_heap, kblk_raw, first_fit,
  Heap, fl_insert, kmalloc_init, malloc, free, pick_free, next_nonempty_bin,
}
use mos.Kmalloc.Bins.{IsMin}
use mos.Kmalloc.Queue.{fl_insert-IsBinned, same-IsBinned}
use mos.Kmalloc.Valid.{IsValid}
use mos.Kmalloc.Init.{no_block, kmalloc_init-IsFiled}
use mos.Kmalloc.Extend.{IsFresh}
use mos.Kmalloc.Serve.{Allots, malloc-Allots}
use mos.Kmalloc.Give.{IsBack, free-IsBack}
use mos.Kmalloc.Scan.{bin_bit, IsFirst, IsNone, next_nonempty_bin-IsFirst}

min24 : IsMin 24
min24 = record { low = omega arith; high = omega arith; aligned = omega arith }

abbrev empty_heap : Heap
empty_heap = record {
  min_blk = 24;
  heap_end = 65536;
  vaddr_mod = 0x100000000;
  hdr = λ a. 0;
  bins = λ k. [];
  bitmap = λ i. 0;
  cur_block_top = 8192;
  quota = 0;
  quota_high = 0;
}

-- One page: 112 bytes in use, the rest free.
abbrev page_state : Heap
page_state = record (kmalloc_init empty_heap) {
  hdr = put (put (put (λ a. 0) 12280 1) 8304 3976) 8192 113;
  cur_block_top = 12288;
  quota = 112;
  quota_high = 112;
}

abbrev page_heap : Heap
page_heap = fl_insert 8304 page_state

abbrev page_start : ℕ → Bool
page_start a = (a == 8192) || (a == 8304)

page_heap-IsValid : IsValid page_heap page_start (λ a. 12280)
unfolding fl_insert kmalloc_init
page_heap-IsValid = record {
  is_min = min24;
  tiled = record {
    low = λ a e. ground arith;
    mult = λ a e. ground arith;
    place = λ a e. ground arith;
    inside = λ a e. ground arith;
    close = λ a e. ground arith;
    stop = λ a e. ground arith;
    next = λ a e. ground arith;
    apart = λ a b e f l. ground arith;
    stops = λ a b e f l. ground arith;
  };
  filed =
      same-IsBinned _ _ (λ a. ground arith)
        (fl_insert-IsBinned 8304 page_state no_block refl (record {
          counts = (kmalloc_init-IsFiled empty_heap).counts;
          bits = (kmalloc_init-IsFiled empty_heap).bits;
          words = (kmalloc_init-IsFiled empty_heap).words;
        }));
  top_place = omega arith;
  below = λ a e. ground arith;
}

-- Another page, far away.
abbrev far_pages : ℕ → Option ℕ
far_pages n = some 1048576

far_pages-IsFresh :
    (pages a : ℕ) → far_pages pages ≡ some a → IsFresh page_heap page_start (λ a. 12280) pages a
unfolding fl_insert kmalloc_init
far_pages-IsFresh pages a e = record {
  place = ground arith;
  unused = ground arith;
  clear = λ b sb. ground arith;
}

malloc-Allots_example :
    Allots page_heap page_start page_heap page_start
      (λ a. 12280)
      far_pages
      5000
      (malloc (λ s. s) far_pages 5000 page_heap)
unfolding fl_insert kmalloc_init
malloc-Allots_example =
    malloc-Allots (λ s. s) far_pages 5000 page_heap page_start (λ a. 12280) page_start (λ a. 12280)
      page_heap-IsValid page_heap-IsValid refl (omega arith) (omega arith) far_pages-IsFresh

free-IsBack_example : IsBack page_heap page_start (λ a. 12280) 8192 0 (free (some 8200) page_heap)
unfolding fl_insert kmalloc_init
free-IsBack_example = free-IsBack page_heap page_start (λ a. 12280) 8192 page_heap-IsValid refl

next_nonempty_bin-IsFirst_example :
    IsFirst (bin_bit page_heap) 3 (next_nonempty_bin 3 page_heap)
    ⊎ IsNone (bin_bit page_heap) 3 148 148 (next_nonempty_bin 3 page_heap)
unfolding fl_insert kmalloc_init
next_nonempty_bin-IsFirst_example =
    next_nonempty_bin-IsFirst page_heap 3 page_heap-IsValid.filed.words (omega arith)

page_found : pick_free 104 page_heap ≡ some 8304
unfolding pick_free fl_insert kmalloc_init size_to_bin bin_loop next_nonempty_bin word_loop ctz_loop
    head
page_found = refl

small_served : (malloc (λ s. s) far_pages 100 page_heap).0 ≡ some 8312
unfolding malloc find_free pick_free fl_insert kmalloc_init size_to_bin bin_loop next_nonempty_bin
    word_loop ctz_loop head
small_served = refl

large_served : (malloc (λ s. s) far_pages 5000 page_heap).0 ≡ some 12296
unfolding malloc find_free extend_heap kblk_raw pick_free fl_insert kmalloc_init size_to_bin
    bin_loop next_nonempty_bin word_loop ctz_loop head first_fit
large_served = refl
