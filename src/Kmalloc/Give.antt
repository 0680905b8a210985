-- ===== src/Kmalloc/Give.antt =====
-- What `free` gives back.
use mos.Base.{
  ==→≡, put, ℕ, ◌+◌, ◌-◌, ◌≡◌, inl, inr, ◌==◌, arith, Bool, true, false, Bool-cases, some,
  if◌then◌else◌, sub32, add32, refl, ◌∙◌, ap,
}
use mos.Kmalloc.{
  Heap, blk_sz, blk_is_alloc, set_hdr, fl_insert, fl_remove, coalesce_right, free, header,
}
use mos.Kmalloc.Tiles.{flag-IsTiled, merge-IsTiled}
use mos.Kmalloc.Queue.{fl_remove-IsBinned, fl_insert-IsBinned, header-IsBinned, same-IsBinned}
use mos.Kmalloc.Valid.{free_at, used_at, IsValid, IsHeld}

-- The block `b` is free again, with a free block to its right made part of it, and no other block in use changes.
pub record IsBack (s : Heap) (start : ℕ → Bool) (limit : ℕ → ℕ) (b quota : ℕ) (s' : Heap)
    : Type 0 where
  pub start' : ℕ → Bool
  pub valid : IsValid s' start' limit
  pub now_free : free_at s' start' b ≡ true
  pub grown : blk_sz s' b ≡ (
      if free_at s start (b + blk_sz s b)
      then blk_sz s b + blk_sz s (b + blk_sz s b)
      else blk_sz s b)
  pub others : (a : ℕ) → (a == b) ≡ false → used_at s' start' a ≡ used_at s start a
  pub kept : (a : ℕ) → used_at s start a ≡ true → (a == b) ≡ false → s'.hdr a ≡ s.hdr a
  pub counted : s'.quota ≡ quota

module _ (s : Heap) (start : ℕ → Bool) (limit : ℕ → ℕ) (b : ℕ) (h : IsHeld s start limit b)
    (sb : start b ≡ true) (unused : blk_is_alloc s b ≡ false) where
  -- The block to the right is in use, or is the sentinel.
  alone-IsBack :
      blk_is_alloc s (b + blk_sz s b) ≡ true → IsBack s start limit b s.quota (fl_insert b s)
  unfolding fl_insert
  alone-IsBack stop =
      let f1 = fl_insert-IsBinned b s _ (ground arith) h.filed in
      record {
        start' = start;
        valid = record {
          is_min = h.is_min;
          tiled = h.tiled;
          filed = same-IsBinned _ _ (λ a. ground arith) f1;
          top_place = h.top_place;
          below = h.below;
        };
        now_free = ground arith;
        grown = ground arith;
        others = λ a ne. refl;
        kept = λ a ua ne. refl;
        counted = refl;
      }

  -- A block to the right that is not in use is a block of the same chunk.
  next_block :
      blk_is_alloc s (b + blk_sz s b) ≡ false
      → (start (b + blk_sz s b) ≡ true) × (limit (b + blk_sz s b) ≡ limit b)
  next_block go_on =
      let next = h.tiled.next b sb in
      let other : (b + blk_sz s b == limit b) ≡ false =
        elim (Bool-cases (b + blk_sz s b == limit b)) [
          | inl e ↦
              let at_stop = ap s.hdr (==→≡ (b + blk_sz s b) (limit b) e) ∙ h.tiled.stop b sb in
              absurd (ground arith)
          | inr e ↦ e
        ] in
      (ground arith, ground arith)

  merged-IsBack :
      blk_is_alloc s (b + blk_sz s b) ≡ false
      → IsBack s start limit b s.quota (
          fl_insert b (
            set_hdr b
              (blk_sz s b + blk_sz s (b + blk_sz s b))
              false
              (fl_remove (b + blk_sz s b) s)))
  unfolding fl_insert fl_remove set_hdr
  merged-IsBack go_on =
      let n = b + blk_sz s b in
      let sum = blk_sz s b + blk_sz s n in
      let l = h.tiled.low b sb in
      let low = h.is_min.low in
      let (sn, same) = next_block go_on in
      let f1 = fl_remove-IsBinned n s _ (ground arith) h.filed in
      let f2 = header-IsBinned b (header sum false) (fl_remove n s) _ (ground arith) f1 in
      let f3 = fl_insert-IsBinned b (set_hdr b sum false (fl_remove n s)) _ (ground arith) f2 in
      record {
        start' = put start n false;
        valid = record {
          is_min = h.is_min;
          tiled = merge-IsTiled h.is_min h.tiled b sum sb sn (ground arith);
          filed = same-IsBinned _ _ (λ a. ground arith) f3;
          top_place = h.top_place;
          below = λ a sa. ground (arith, h.below a);
        };
        now_free = ground arith;
        grown = ground arith;
        others = λ a ne. ground arith;
        kept = λ a ua ne. ground arith;
        counted = refl;
      }

  coalesce_right-IsBack : IsBack s start limit b s.quota (fl_insert b (coalesce_right b s))
  unfolding coalesce_right
  coalesce_right-IsBack = elim (Bool-cases (blk_is_alloc s (b + blk_sz s b))) [
    | inl stop ↦ rw stop (alone-IsBack stop)
    | inr go_on ↦ rw (go_on, no_wrap go_on) (merged-IsBack go_on)
  ]
    where
      no_wrap :
          blk_is_alloc s (b + blk_sz s b) ≡ false
          → add32 (blk_sz s b) (blk_sz s (b + blk_sz s b)) ≡ blk_sz s b + blk_sz s (b + blk_sz s b)
      no_wrap go_on =
          let (sn, same) = next_block go_on in
          let i = h.tiled.inside (b + blk_sz s b) sn in let c = h.tiled.close b sb in omega arith

module _ (s : Heap) (start : ℕ → Bool) (limit : ℕ → ℕ) (b : ℕ) (v : IsValid s start limit)
    (ub : used_at s start b ≡ true) where
  -- The header is marked free first.
  marked : Heap
  marked = set_hdr b (blk_sz s b) false (record s { quota = sub32 s.quota (blk_sz s b) })

  marked-IsHeld : IsHeld marked start limit b
  unfolding set_hdr marked
  marked-IsHeld =
      let f1 =
        header-IsBinned b (header (blk_sz s b) false)
          (record s { quota = sub32 s.quota (blk_sz s b) }) (free_at s start) (ground arith)
          (record { counts = v.filed.counts; bits = v.filed.bits; words = v.filed.words }) in
      record {
        is_min = v.is_min;
        tiled = flag-IsTiled v.is_min v.tiled b _ (ground arith) (ground arith);
        filed = same-IsBinned _ _ (λ a. ground arith) f1;
        top_place = v.top_place;
        below = v.below;
      }

  -- `free` of a block in use on a valid heap: the heap is valid again, the block is free and has taken in the block
  -- to its right if that was free, the other blocks in use stay with their headers, and the count of bytes
  -- in use is less by the block's size.
  pub free-IsBack : IsBack s start limit b (sub32 s.quota (blk_sz s b)) (free (some (b + 8)) s)
  unfolding free marked set_hdr
  free-IsBack =
      let same : b + 8 - 8 ≡ b = omega arith in
      let r =
        coalesce_right-IsBack marked start limit b marked-IsHeld (ground arith) (ground arith) in
      let l = v.tiled.low b (ground arith) in
      let low = v.is_min.low in
      rw (free, same)
        (record {
          start' = r.start';
          valid = r.valid;
          now_free = r.now_free;
          grown = r.grown ∙ ground arith;
          others = λ a ne. r.others a ne ∙ ground arith;
          kept = λ a ua ne. r.kept a (ground arith) ne ∙ ground arith;
          counted = r.counted;
        })
