-- ===== src/Kmalloc/Extend.antt =====
-- Memory for a new chunk.
use native.Mathlib.Nat.{mod-eq_of_lt}
use mos.Base.{
  put, ℕ, ◌+◌, ◌-◌, ◌*◌, ◌%◌, ◌≤◌, ◌<◌, ◌≡◌, ◌⊎◌, inl, inr, ◌==◌, ltb, arith, Bool, true, false,
  Bool-cases, Option-cases, Option, none, some, u32_mod, sub32, refl,
}
use mos.Kmalloc.{Heap, blk_sz, blk_is_alloc, set_hdr, kblk_raw, extend_heap, pages_for}
use mos.Kmalloc.Tiles.{chunk-IsTiled}
use mos.Kmalloc.Queue.{header-IsBinned}
use mos.Kmalloc.Valid.{IsValid, IsHeld}

-- The pages that `vm_alloc` gives are aligned and overlap neither a block nor the heap's unused memory.
pub record IsFresh (s : Heap) (start : ℕ → Bool) (limit : ℕ → ℕ) (pages a : ℕ) : Type 0 where
  pub place : a % 8 ≡ 0
  pub unused : (a + pages * 4096 ≤ s.cur_block_top) ⊎ (s.heap_end ≤ a)
  pub clear : (b : ℕ) → start b ≡ true → (limit b + 8 ≤ a) ⊎ (a + pages * 4096 ≤ b)

-- A heap with a new chunk, whose only block is in no bin.
abbrev pub IsNew : Heap → (ℕ → Bool) → (ℕ → ℕ) → ℕ → ℕ → Heap → Type 0
IsNew s start limit need a s' =
    (start a ≡ false)
    × IsHeld s' (put start a true) (put limit a (a + pages_for need * 4096 - 8)) a
    × (blk_is_alloc s' a ≡ false)
    × (need ≤ blk_sz s' a)
    × (s'.min_blk ≡ s.min_blk)
    × ((b : ℕ) → start b ≡ true → s'.hdr b ≡ s.hdr b)

pages_for_bounds :
    (need : ℕ)
    → need + 4104 ≤ u32_mod
    → (need + 8 ≤ pages_for need * 4096) × (pages_for need * 4096 < u32_mod)
pages_for_bounds need h = (omega arith, omega arith)

-- What `kblk_raw` gives.
abbrev FromRaw : Heap → (ℕ → Bool) → (ℕ → ℕ) → (ℕ → Option ℕ) → ℕ → ℕ → Option ℕ → Type 0
FromRaw s start limit vm_alloc need top none = vm_alloc (pages_for need) ≡ none
FromRaw s start limit vm_alloc need top (some a) =
    ((b : ℕ) → start b ≡ true → (limit b + 8 ≤ a) ⊎ (a + pages_for need * 4096 ≤ b))
    × (a % 8 ≡ 0)
    × ((a + pages_for need * 4096 ≤ top) ⊎ (s.heap_end ≤ a))

abbrev Raw : Heap → (ℕ → Bool) → (ℕ → ℕ) → (ℕ → Option ℕ) → ℕ → Option ℕ × Heap → Type 0
Raw s start limit vm_alloc need (r, s') =
    (top : ℕ) × (s' ≡ record s { cur_block_top = top })
    × (s.cur_block_top ≤ top)
    × (top % 8 ≡ 0)
    × FromRaw s start limit vm_alloc need top r

-- What `extend_heap` gives.
abbrev pub Extends : Heap → (ℕ → Bool) → (ℕ → ℕ) → (ℕ → Option ℕ) → ℕ → Option ℕ × Heap → Type 0
Extends s start limit vm_alloc need (none, s') =
    (vm_alloc (pages_for need) ≡ none) × IsValid s' start limit × (s'.hdr ≡ s.hdr)
Extends s start limit vm_alloc need (some a, s') = IsNew s start limit need a s'

module _ (s : Heap) (start : ℕ → Bool) (limit : ℕ → ℕ) (need : ℕ) (v : IsValid s start limit)
    (hm : s.min_blk ≤ need) (h8 : need % 8 ≡ 0) (fits : need + 4104 ≤ u32_mod)
    (reach : s.cur_block_top + need + 4104 ≤ s.vaddr_mod) where
  fresh_chunk :
      (a top : ℕ)
      → ((b : ℕ) → start b ≡ true → (limit b + 8 ≤ a) ⊎ (a + pages_for need * 4096 ≤ b))
      → a % 8 ≡ 0
      → s.cur_block_top ≤ top
      → top % 8 ≡ 0
      → (a + pages_for need * 4096 ≤ top) ⊎ (s.heap_end ≤ a)
      → IsNew s start limit need a (
          set_hdr a
            (pages_for need * 4096 - 8)
            false
            (record s { cur_block_top = top; hdr = put s.hdr (a + pages_for need * 4096 - 8) 1 }))
  unfolding set_hdr
  fresh_chunk a top clear place grows t8 in_top =
      let bytes = pages_for need * 4096 in
      let (room, size) = pages_for_bounds need fits in
      let low = v.is_min.low in
      let apart = λ (x : ℕ) (l : a ≤ x) (g : x < a + bytes). outside a bytes clear x l g in
      let start_a = apart a (omega arith) (omega arith) in
      let start_stop = apart (a + bytes - 8) (omega arith) (omega arith) in
      let f1 = header-IsBinned (a + bytes - 8) 1 s _ (ground arith) v.filed in
      let f2 =
        header-IsBinned a (bytes - 8) (record s { hdr = put s.hdr (a + bytes - 8) 1 }) _
          (ground arith) f1 in
      (
        start_a,
        record {
          is_min = v.is_min;
          tiled =
              chunk-IsTiled v.is_min v.tiled a bytes (bytes - 8) place (omega arith) size
                (omega arith) (omega arith) clear;
          filed = record {
            counts = λ k x. let c = f2.counts k x in ground arith;
            bits = f2.bits;
            words = f2.words;
          };
          top_place = t8;
          below = λ x sx. ground (arith, v.below x);
        },
        ground arith,
        ground arith,
        refl,
        λ b sb. ground arith,
      )
    where
      outside :
          (a bytes : ℕ)
          → ((b : ℕ) → start b ≡ true → (limit b + 8 ≤ a) ⊎ (a + bytes ≤ b))
          → (x : ℕ) → a ≤ x
          → x < a + bytes
          → start x ≡ false
      outside a bytes clear x l g = ground (arith, clear x, v.tiled.inside x)

  kblk_raw-Raw :
      (vm_alloc : ℕ → Option ℕ)
      → ((a : ℕ) → vm_alloc (pages_for need) ≡ some a → IsFresh s start limit (pages_for need) a)
      → Raw s start limit vm_alloc need (kblk_raw vm_alloc (pages_for need) s)
  unfolding kblk_raw
  kblk_raw-Raw vm_alloc fresh =
      let pages = pages_for need in
      let (room, size) = pages_for_bounds need fits in
      let bytes_eq : pages * 4096 % u32_mod ≡ pages * 4096 = omega arith in
      let some_pages : (pages == 0) ≡ false = ground arith in
      let top_eq : (s.cur_block_top + pages * 4096) % s.vaddr_mod ≡ s.cur_block_top + pages * 4096 =
        mod-eq_of_lt (omega arith) in
      let t8 = v.top_place in
      elim (Bool-cases (ltb (s.cur_block_top + pages * 4096) s.heap_end)) [
        | inl inside ↦ elim (Bool-cases (s.cur_block_top == 0)) [
          | inl zero_top ↦
              rw (kblk_raw, bytes_eq, top_eq, some_pages, inside, zero_top)
                (
                  s.cur_block_top + pages * 4096,
                  refl,
                  omega arith,
                  omega arith,
                  of_alloc vm_alloc (s.cur_block_top + pages * 4096) fresh (omega arith),
                )
          | inr top ↦
              rw (kblk_raw, bytes_eq, top_eq, some_pages, inside, top)
                (
                  s.cur_block_top + pages * 4096,
                  refl,
                  omega arith,
                  omega arith,
                  (λ b sb. ground (arith, v.below b sb), t8, inl (omega arith)),
                )
        ]
        | inr outside ↦
            rw (kblk_raw, bytes_eq, top_eq, some_pages, outside)
              (
                s.cur_block_top,
                refl,
                omega arith,
                t8,
                of_alloc vm_alloc s.cur_block_top fresh (omega arith),
              )
      ]
    where
      of_alloc :
          (vm_alloc : ℕ → Option ℕ) (top : ℕ)
          → ((a : ℕ)
              → vm_alloc (pages_for need) ≡ some a
              → IsFresh s start limit (pages_for need) a)
          → s.cur_block_top ≤ top
          → FromRaw s start limit vm_alloc need top (vm_alloc (pages_for need))
      of_alloc vm_alloc top h le = elim (Option-cases (vm_alloc (pages_for need))) [
        | inl e ↦ rw e e
        | inr (a, e) ↦ let f = h a e in rw e (f.clear, f.place, ground (arith, f.unused))
      ]

  pub extend_heap-IsNew :
      (vm_alloc : ℕ → Option ℕ)
      → ((a : ℕ) → vm_alloc (pages_for need) ≡ some a → IsFresh s start limit (pages_for need) a)
      → Extends s start limit vm_alloc need (extend_heap vm_alloc need s)
  unfolding extend_heap
  extend_heap-IsNew vm_alloc fresh =
      let (room, size) = pages_for_bounds need fits in
      let bytes_eq : pages_for need * 4096 % u32_mod ≡ pages_for need * 4096 = omega arith in
      let sz_eq : sub32 (pages_for need * 4096) 8 ≡ pages_for need * 4096 - 8 = omega arith in
      of_raw vm_alloc (pages_for need * 4096 % u32_mod) bytes_eq sz_eq
        (kblk_raw vm_alloc (pages_for need) s) (kblk_raw-Raw vm_alloc fresh)
    where
      of_raw :
          (vm_alloc : ℕ → Option ℕ) (bytes : ℕ)
          → bytes ≡ pages_for need * 4096
          → sub32 (pages_for need * 4096) 8 ≡ pages_for need * 4096 - 8
          → (r : Option ℕ × Heap) → Raw s start limit vm_alloc need r
          → Extends s start limit vm_alloc need (elim r.0 [
            | none ↦ (none, r.1)
            | some a ↦ (
              some a,
              set_hdr a (sub32 bytes 8) false (record r.1 { hdr = put r.1.hdr (a + bytes - 8) 1 }),
            )
          ])
      of_raw vm_alloc bytes c d (none, s') (top, e, grows, t8, none_left) = rw e (
        none_left,
        record {
          is_min = v.is_min;
          tiled = v.tiled;
          filed = v.filed;
          top_place = t8;
          below = λ b sb. ground (arith, v.below b sb);
        },
        refl,
      )
      of_raw vm_alloc bytes c d (some a, s') (top, e, grows, t8, (clear, place, at)) =
          rw (e, c, d) (fresh_chunk a top clear place grows t8 at)
