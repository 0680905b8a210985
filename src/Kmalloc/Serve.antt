-- ===== src/Kmalloc/Serve.antt =====
-- What `malloc` gives.
use mos.Base.{
  put, ℕ, ◌+◌, ◌%◌, ◌≤◌, ◌<◌, ◌≡◌, ◌⊎◌, inl, inr, ◌==◌, arith, Bool, true, Bool-cases, Option-cases,
  Option, none, some, u32_mod, refl, subst, ◌∙◌,
}
use mos.Kmalloc.{
  Heap, blk_sz, fl_remove, find_free, pick_free, extend_heap, pages_for, need_for, charge, carve,
  give_out, malloc,
}
use mos.Kmalloc.Bins.{IsMin}
use mos.Kmalloc.Queue.{fl_remove-IsBinned}
use mos.Kmalloc.Search.{Finds, pick_free-Finds}
use mos.Kmalloc.Valid.{free_at, IsValid, IsHeld, Gives, carve-Gives, charge-Gives}
use mos.Kmalloc.Extend.{IsFresh, IsNew, Extends, extend_heap-IsNew}

-- Taking a free block out of its bin.
fl_remove-IsHeld :
    (s : Heap) (start : ℕ → Bool) (limit : ℕ → ℕ) (b : ℕ)
    → IsValid s start limit
    → free_at s start b ≡ true
    → IsHeld (fl_remove b s) start limit b
unfolding fl_remove
fl_remove-IsHeld s start limit b v fb = record {
  is_min = v.is_min;
  tiled = v.tiled;
  filed = fl_remove-IsBinned b s (free_at s start) fb v.filed;
  top_place = v.top_place;
  below = v.below;
}

need_for_bounds :
    (m size : ℕ)
    → IsMin m
    → size + 8192 ≤ u32_mod
    → (m ≤ need_for m size)
      × (need_for m size % 8 ≡ 0)
      × (size + 8 ≤ need_for m size)
      × (need_for m size + 4104 ≤ u32_mod)
need_for_bounds m size is h =
    let a = is.aligned in
    let high = is.high in (ground arith, ground arith, ground arith, ground arith)

-- No free block is large enough.
abbrev pub HasNone : Heap → (ℕ → Bool) → ℕ → Type 0
HasNone s start size = (a : ℕ) → free_at s start a ≡ true → blk_sz s a < need_for s.min_blk size

-- What a request for `size` bytes gives: nothing for 0 bytes, or if no free block is large enough and there are no
-- more pages; else a block of a state `s`, or of a new chunk in the state `t` after other tasks' steps.
abbrev pub Allots :
    Heap → (ℕ → Bool) → Heap → (ℕ → Bool) → (ℕ → ℕ) → (ℕ → Option ℕ) → ℕ → Option ℕ × Heap → Type 0
Allots s start t start_t limit_t vm_alloc size (none, s') =
    ((size ≡ 0) × (s' ≡ s))
    ⊎ (HasNone s start size
        × (vm_alloc (pages_for (need_for t.min_blk size)) ≡ none)
        × IsValid s' start_t limit_t
        × (s'.hdr ≡ t.hdr))
Allots s start t start_t limit_t vm_alloc size (some p, s') =
    (b : ℕ) × (p ≡ b + 8)
    × (1 ≤ size)
    × (Gives s start b (size + 8) s' ⊎ (HasNone s start size × Gives t start_t b (size + 8) s'))

-- A block of a bin is carved.
from_bin-Gives :
    (s : Heap) (start : ℕ → Bool) (limit : ℕ → ℕ) (b need : ℕ)
    → IsValid s start limit
    → free_at s start b ≡ true
    → s.min_blk ≤ need
    → need % 8 ≡ 0
    → need ≤ blk_sz s b
    → Gives s start b need (charge b (carve b need (fl_remove b s)))
unfolding fl_remove
from_bin-Gives s start limit b need v fb hm h8 fits =
    let h = fl_remove-IsHeld s start limit b v fb in
    let g =
      charge-Gives (fl_remove b s) (carve b need (fl_remove b s)) start b need (
        carve-Gives (fl_remove b s) start limit b need h (ground arith) (ground arith) hm h8
          fits) in
    record {
      start' = g.start';
      limit' = g.limit';
      valid = g.valid;
      now_used = g.now_used;
      large = g.large;
      was_free = g.was_free;
      others = g.others;
      kept = g.kept;
    }

-- The block of a new chunk is carved.
from_chunk-Gives :
    (s s' : Heap) (start : ℕ → Bool) (limit : ℕ → ℕ) (b need : ℕ)
    → s.min_blk ≤ need
    → need % 8 ≡ 0
    → IsNew s start limit need b s'
    → Gives s start b need (charge b (carve b need s'))
from_chunk-Gives s s' start limit b need hm h8 (fresh, held, unused, fits, same_min, same) =
    let low : s'.min_blk ≤ need = omega arith in
    let g =
      charge-Gives s' (carve b need s') (put start b true) b need
        (carve-Gives s' (put start b true) _ b need held (ground arith) unused low h8 fits) in
    record {
      start' = g.start';
      limit' = g.limit';
      valid = g.valid;
      now_used = g.now_used;
      large = g.large;
      was_free = ground arith;
      others = λ a ne. let e = same a in g.others a ne ∙ ground arith;
      kept = λ a ua. let e = same a in g.kept a (ground arith) ∙ e (ground arith);
    }

-- A larger block is one that is large enough.
large-Gives :
    (s s' : Heap) (start : ℕ → Bool) (b need least : ℕ)
    → least ≤ need
    → Gives s start b need s'
    → Gives s start b least s'
large-Gives s s' start b need least le g = record {
  start' = g.start';
  limit' = g.limit';
  valid = g.valid;
  now_used = g.now_used;
  large = let l = g.large in omega arith;
  was_free = g.was_free;
  others = g.others;
  kept = g.kept;
}

module _ (others : Heap → Heap) (vm_alloc : ℕ → Option ℕ) (size : ℕ) (s : Heap) (start : ℕ → Bool)
    (limit : ℕ → ℕ) (start_t : ℕ → Bool) (limit_t : ℕ → ℕ) (v : IsValid s start limit)
    (w : IsValid (others s) start_t limit_t) (same_min : (others s).min_blk ≡ s.min_blk)
    (bound : size + 8192 ≤ u32_mod)
    (reach : (others s).cur_block_top + size + 8192 ≤ (others s).vaddr_mod)
    (fresh : (pages a : ℕ)
      → vm_alloc pages ≡ some a
      → IsFresh (others s) start_t limit_t pages a) where
  extended-Allots :
      1 ≤ size
      → HasNone s start size
      → (r : Option ℕ × Heap)
      → Extends (others s) start_t limit_t vm_alloc (need_for s.min_blk size) r
      → Allots s start
          (others s)
          start_t
          limit_t
          vm_alloc
          size
          (elim r.0 [ none ↦ (none, r.1) | some b ↦ give_out b (need_for s.min_blk size) r.1 ])
  extended-Allots some_size full (none, s') (no_pages, valid, same) =
      inr (full, rw same_min no_pages, valid, same)
  extended-Allots some_size full (some b, s') new =
      let (hm, h8, room, fits) = need_for_bounds s.min_blk size v.is_min bound in
      (
        b,
        refl,
        some_size,
        inr (
          full,
          large-Gives (others s) _ start_t b (need_for s.min_blk size) (size + 8) room (
              from_chunk-Gives (others s) s' start_t limit_t b (need_for s.min_blk size)
                (rw same_min hm) h8 new),
        ),
      )

  -- `malloc`, for at most 2^32 - 8192 bytes, and for so few that 8192 bytes more than them fit between the top of the
  -- heap's chunks and the end of the address space, on a valid heap, if the heap is valid as well after what other tasks
  -- do before it is extended, and the pages that `vm_alloc` gives overlap nothing of the heap. It returns NULL for 0
  -- bytes, leaving the heap, and otherwise only if no free block is large enough and `vm_alloc` has no
  -- pages, where every block stays. Else it gives a block of at least the size and a header, which was not in use;
  -- of those in use none changes; the heap is valid again; and a new chunk is made only if no
  -- free block was large enough.
  pub malloc-Allots :
      Allots s start (others s) start_t limit_t vm_alloc size (malloc others vm_alloc size s)
  unfolding malloc find_free
  malloc-Allots =
      let need = need_for s.min_blk size in
      let (hm, h8, room, fits) = need_for_bounds s.min_blk size v.is_min bound in
      let low = λ (a : ℕ) (fa : free_at s start a ≡ true). v.tiled.low a (ground arith) in
      let mult = λ (a : ℕ) (fa : free_at s start a ≡ true). v.tiled.mult a (ground arith) in
      let found = pick_free-Finds s (free_at s start) v.is_min low v.filed need hm h8 mult in
      elim (Bool-cases (size == 0)) [
        | inl zero_size ↦ rw (malloc, zero_size) (inl (ground arith, refl))
        | inr some_size ↦ elim (Option-cases (pick_free need s)) [
          | inl e ↦
              let full = subst (Finds (free_at s start) (blk_sz s) need) e found in
              rw (malloc, some_size, find_free, e)
                (extended-Allots (ground arith) full (extend_heap vm_alloc need (others s)) (
                  extend_heap-IsNew (others s) start_t limit_t need w (rw same_min hm) h8 fits
                    (ground arith) vm_alloc (fresh (pages_for need))))
          | inr (b, e) ↦
              let (fb, large) : Finds (free_at s start) (blk_sz s) need (some b) =
                subst (Finds (free_at s start) (blk_sz s) need) e found in
              rw (malloc, some_size, find_free, e)
                (
                  b,
                  refl,
                  ground arith,
                  inl (
                      large-Gives s _ start b need (size + 8) room
                        (from_bin-Gives s start limit b need v fb hm h8 large)),
                )
        ]
      ]
