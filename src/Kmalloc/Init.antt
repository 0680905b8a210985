-- ===== src/Kmalloc/Init.antt =====
-- The heap that `kmalloc_init` leaves has no block yet.
use mos.Base.{occurrences, is_empty, ℕ, ◌%◌, ◌≡◌, Bool, false, refl, arith}
use mos.Base.Bits.{testbit-zero}
use mos.Kmalloc.{Heap, kmalloc_init}
use mos.Kmalloc.Bins.{IsMin}
use mos.Kmalloc.Queue.{IsFiled}
use mos.Kmalloc.Valid.{IsValid}

abbrev pub no_block : ℕ → Bool
no_block a = false

pub kmalloc_init-IsFiled : (s : Heap) → IsFiled (kmalloc_init s) no_block
unfolding kmalloc_init occurrences is_empty
kmalloc_init-IsFiled s = record {
  counts = λ k a. refl;
  bits = λ k. testbit-zero (k % 32);
  words = λ i. omega arith;
}

pub kmalloc_init-IsValid :
    (s : Heap) (limit : ℕ → ℕ)
    → IsMin s.min_blk
    → s.cur_block_top % 8 ≡ 0
    → IsValid (kmalloc_init s) no_block limit
unfolding kmalloc_init
kmalloc_init-IsValid s limit is h = record {
  is_min = is;
  tiled = record {
    low = λ a e. ground arith;
    mult = λ a e. ground arith;
    place = λ a e. ground arith;
    inside = λ a e. ground arith;
    close = λ a e. ground arith;
    stop = λ a e. ground arith;
    next = λ a e. ground arith;
    apart = λ a b e f l. ground arith;
    stops = λ a b e f l. ground arith;
  };
  filed = kmalloc_init-IsFiled s;
  top_place = h;
  below = λ a e. ground arith;
}
