-- ===== src/Kmalloc/Valid.antt =====
-- The heap's invariant, and the state while one free block is in no bin.
use mos.Base.{
  put, ℕ, ◌+◌, ◌-◌, ◌%◌, ◌≤◌, ◌<◌, ◌≡◌, ◌⊎◌, inl, inr, ◌==◌, ◌&&◌, not, leb, arith, Bool, true,
  false, Bool-cases, u32_mod, sub32,
}
use mos.Kmalloc.{Heap, blk_sz, blk_is_alloc, set_hdr, fl_insert, carve, header, charge}
use mos.Kmalloc.Bins.{IsMin}
use mos.Kmalloc.Tiles.{IsTiled, flag-IsTiled, split-IsTiled}
use mos.Kmalloc.Queue.{IsFiled, fl_insert-IsBinned, header-IsBinned, same-IsBinned}

abbrev pub free_at : Heap → (ℕ → Bool) → ℕ → Bool
free_at s start a = start a && not (blk_is_alloc s a)

abbrev pub used_at : Heap → (ℕ → Bool) → ℕ → Bool
used_at s start a = start a && blk_is_alloc s a

-- `listed` marks the blocks that are in a bin. The memory between `cur_block_top` and `heap_end` is not yet in a
-- chunk.
pub record IsHeap (s : Heap) (start : ℕ → Bool) (limit : ℕ → ℕ) (listed : ℕ → Bool) : Type 0 where
  pub is_min : IsMin s.min_blk
  pub tiled : IsTiled s.min_blk s.hdr start limit
  pub filed : IsFiled s listed
  pub top_place : s.cur_block_top % 8 ≡ 0
  pub below : (a : ℕ) → start a ≡ true → (limit a + 8 ≤ s.cur_block_top) ⊎ (s.heap_end ≤ a)

-- Every free block is in its bin.
abbrev pub IsValid : Heap → (ℕ → Bool) → (ℕ → ℕ) → Type 0
IsValid s start limit = IsHeap s start limit (free_at s start)

-- The free block `b` is in no bin.
abbrev pub IsHeld : Heap → (ℕ → Bool) → (ℕ → ℕ) → ℕ → Type 0
IsHeld s start limit b = IsHeap s start limit (put (free_at s start) b false)

-- The block `b` is given out: the blocks that were in use keep their headers, and none is overlapped, as the heap
-- is valid.
pub record Gives (s : Heap) (start : ℕ → Bool) (b need : ℕ) (s' : Heap) : Type 0 where
  pub start' : ℕ → Bool
  pub limit' : ℕ → ℕ
  pub valid : IsValid s' start' limit'
  pub now_used : used_at s' start' b ≡ true
  pub large : need ≤ blk_sz s' b
  pub was_free : used_at s start b ≡ false
  pub others : (a : ℕ) → (a == b) ≡ false → used_at s' start' a ≡ used_at s start a
  pub kept : (a : ℕ) → used_at s start a ≡ true → s'.hdr a ≡ s.hdr a

module _ (s : Heap) (start : ℕ → Bool) (limit : ℕ → ℕ) (b need : ℕ) (h : IsHeld s start limit b)
    (sb : start b ≡ true) (unused : blk_is_alloc s b ≡ false) (hm : s.min_blk ≤ need)
    (h8 : need % 8 ≡ 0) (fits : need ≤ blk_sz s b) where
  small : blk_sz s b < u32_mod
  small = let i = h.tiled.inside b sb in let c = h.tiled.close b sb in omega arith

  split-Gives :
      need + s.min_blk ≤ blk_sz s b
      → Gives s start b need (
          fl_insert
            (b + need)
            (set_hdr (b + need) (blk_sz s b - need) false (set_hdr b need true s)))
  unfolding fl_insert set_hdr
  split-Gives more =
      let low = h.is_min.low in
      let b8 = h.tiled.mult b sb in
      let fresh : start (b + need) ≡ false = ground (arith, h.tiled.apart b (b + need) sb) in
      let v = blk_sz s b - need in
      let s1 = set_hdr b need true s in
      let s2 = set_hdr (b + need) v false s1 in
      let f1 = header-IsBinned b (header need true) s _ (ground arith) h.filed in
      let f2 = header-IsBinned (b + need) (header v false) s1 _ (ground arith) f1 in
      let f3 = fl_insert-IsBinned (b + need) s2 _ (ground arith) f2 in
      record {
        start' = put start (b + need) true;
        limit' = put limit (b + need) (limit b);
        valid = record {
          is_min = h.is_min;
          tiled =
              split-IsTiled h.is_min h.tiled b need (header need true) v sb hm h8 more
                (ground arith) (ground arith);
          filed = same-IsBinned _ _ (λ a. ground arith) f3;
          top_place = h.top_place;
          below = λ a sa. ground (arith, h.below a, h.below b, h.tiled.inside b);
        };
        now_used = ground arith;
        large = ground arith;
        was_free = ground arith;
        others = λ a ne. ground arith;
        kept = λ a ua. ground arith;
      }

  whole-Gives : Gives s start b need (set_hdr b (blk_sz s b) true s)
  unfolding set_hdr
  whole-Gives =
      let f1 = header-IsBinned b (header (blk_sz s b) true) s _ (ground arith) h.filed in
      record {
        start' = start;
        limit' = limit;
        valid = record {
          is_min = h.is_min;
          tiled = flag-IsTiled h.is_min h.tiled b _ sb (ground arith);
          filed = same-IsBinned _ _ (λ a. ground arith) f1;
          top_place = h.top_place;
          below = h.below;
        };
        now_used = ground arith;
        large = ground arith;
        was_free = ground arith;
        others = λ a ne. ground arith;
        kept = λ a ua. ground arith;
      }

  pub carve-Gives : Gives s start b need (carve b need s)
  unfolding carve
  carve-Gives =
      let e : sub32 (blk_sz s b) need ≡ blk_sz s b - need = omega (arith, small) in
      elim (Bool-cases (leb s.min_blk (blk_sz s b - need))) [
        | inl more ↦ rw (e, more) (split-Gives (ground arith))
        | inr less ↦ rw (e, less) whole-Gives
      ]

-- Counting the bytes in use changes no block.
pub charge-Gives :
    (s s' : Heap) (start : ℕ → Bool) (b need : ℕ)
    → Gives s start b need s'
    → Gives s start b need (charge b s')
unfolding charge
charge-Gives s s' start b need g = record {
  start' = g.start';
  limit' = g.limit';
  valid = record {
    is_min = g.valid.is_min;
    tiled = g.valid.tiled;
    filed = g.valid.filed;
    top_place = g.valid.top_place;
    below = g.valid.below;
  };
  now_used = g.now_used;
  large = g.large;
  was_free = g.was_free;
  others = g.others;
  kept = g.kept;
}
