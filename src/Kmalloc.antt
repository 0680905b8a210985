-- ===== src/Kmalloc.antt =====
-- src/lib/impl/kmalloc.c, the kernel's heap. `hdr` holds the header word of each block by the block's address, and
-- a bin is the list of the addresses of its blocks, first first. What a header's lowest bit does is written
-- as arithmetic. MIN_BLK depends on the size of a pointer and is the field `min_blk`; KHEAP_END is
-- `heap_end`, and a `vaddr_t` wraps at `vaddr_mod`. `heap_lock` makes each part of a call one step.
pub mod Bins
pub mod Word
pub mod Scan
pub mod Tiles
pub mod Queue
pub mod Search
pub mod Valid
pub mod Extend
pub mod Serve
pub mod Give
pub mod Init
mod Tests
use mos.Base.{
  ℕ, zero, suc, ◌+◌, ◌-◌, ◌*◌, ◌/◌, ◌%◌, ◌^◌, bit_and, bit_or, Bool, true, false, Option, none,
  some, List, [], ◌∷◌, ltb, leb, ◌==◌, if◌then◌else◌, add32, sub32, u32_mod, put, delete, is_empty,
}

pub record Heap : Type 0 where
  pub min_blk : ℕ
  pub heap_end : ℕ
  pub vaddr_mod : ℕ
  pub hdr : ℕ → ℕ
  pub bins : ℕ → List ℕ
  pub bitmap : ℕ → ℕ
  pub cur_block_top : ℕ
  pub quota : ℕ
  pub quota_high : ℕ

abbrev pub blk_sz : Heap → ℕ → ℕ
blk_sz s b = s.hdr b / 2 * 2

abbrev pub blk_is_alloc : Heap → ℕ → Bool
blk_is_alloc s b = s.hdr b % 2 == 1

abbrev pub header : ℕ → Bool → ℕ
header total_size alloc = if alloc then total_size / 2 * 2 + 1 else total_size

unfoldable pub set_hdr : ℕ → ℕ → Bool → Heap → Heap
set_hdr b total_size alloc s = record s { hdr = put s.hdr b (header total_size alloc) }

abbrev pub align8 : ℕ → ℕ
align8 n = add32 n 7 / 8 * 8

abbrev pub small_bin_count : ℕ → ℕ
small_bin_count min_blk = (1024 - min_blk) / 8 + 1

abbrev pub num_bins : ℕ → ℕ
num_bins min_blk = small_bin_count min_blk + 22

-- The loop of `size_to_bin`, with the rounds that are left; the last bin is after them.
unfoldable pub bin_loop : ℕ → ℕ → ℕ → ℕ → ℕ
bin_loop zero i bound sz = i
bin_loop (suc rounds) i bound sz =
    let rest = bin_loop rounds (i + 1) (bound * 2 % u32_mod) sz in if leb sz bound then i else rest

unfoldable pub size_to_bin : ℕ → ℕ → ℕ
size_to_bin min_blk sz =
    if leb sz 1024 then sub32 sz min_blk / 8 else bin_loop 21 (small_bin_count min_blk) 2048 sz

unfoldable pub fl_insert : ℕ → Heap → Heap
fl_insert b s =
    let bin = size_to_bin s.min_blk (blk_sz s b) in
    record s {
      bins = put s.bins bin (b ∷ s.bins bin);
      bitmap = put s.bitmap (bin / 32) (bit_or (s.bitmap (bin / 32)) (2 ^ (bin % 32)));
    }

unfoldable pub fl_remove : ℕ → Heap → Heap
fl_remove b s =
    let bin = size_to_bin s.min_blk (blk_sz s b) in
    let left = delete b (s.bins bin) in
    record s {
      bins = put s.bins bin left;
      bitmap =
          if is_empty left
          then put s.bitmap (bin / 32)
              (bit_and (s.bitmap (bin / 32)) (u32_mod - 1 - 2 ^ (bin % 32)))
          else s.bitmap;
    }

-- `__builtin_ctz` of a word that is not 0.
unfoldable pub ctz_loop : ℕ → ℕ → ℕ
ctz_loop zero w = 0
ctz_loop (suc fuel) w = let rest = ctz_loop fuel (w / 2) in if w % 2 == 1 then 0 else rest + 1

-- The loop of `next_nonempty_bin`, with the words that are left.
unfoldable pub word_loop : ℕ → ℕ → ℕ → (ℕ → ℕ) → ℕ → ℕ
word_loop zero word active bitmap nothing = nothing
word_loop (suc words) word active bitmap nothing =
    let rest = word_loop words (word + 1) (bitmap (word + 1)) bitmap nothing in
    if active == 0 then rest else word * 32 + ctz_loop 32 active

unfoldable pub next_nonempty_bin : ℕ → Heap → ℕ
next_nonempty_bin start s =
    let all = num_bins s.min_blk in
    if leb all start
    then all
    else word_loop ((all + 31) / 32 - start / 32) (start / 32)
        (bit_and (s.bitmap (start / 32)) (u32_mod - 2 ^ (start % 32))) s.bitmap all

-- The first block of a list that is large enough.
unfoldable pub first_fit : ℕ → (ℕ → ℕ) → List ℕ → Option ℕ
first_fit need hdr [] = none
first_fit need hdr (b ∷ bs) =
    let rest = first_fit need hdr bs in if leb need (hdr b / 2 * 2) then some b else rest

unfoldable pub head : List ℕ → Option ℕ
head [] = none
head (x ∷ xs) = some x

-- The choice that `find_free` makes.
unfoldable pub pick_free : ℕ → Heap → Option ℕ
pick_free need s =
    let start = size_to_bin s.min_blk need in
    let higher = λ (from : ℕ).
      let bin = next_nonempty_bin from s in
      if bin == num_bins s.min_blk then none else head (s.bins bin) in
    if leb (small_bin_count s.min_blk) start
    then elim (first_fit need s.hdr (s.bins start)) [ some b ↦ some b | none ↦ higher (start + 1) ]
    else higher start

unfoldable pub find_free : ℕ → Heap → Option (ℕ × Heap)
find_free need s = elim (pick_free need s) [ none ↦ none | some b ↦ some (b, fl_remove b s) ]

-- `kblk_raw`; `vm_alloc` is an argument. The new top is a `vaddr_t`: the sum wraps.
unfoldable pub kblk_raw : (ℕ → Option ℕ) → ℕ → Heap → Option ℕ × Heap
kblk_raw vm_alloc pages s =
    let bytes = pages * 4096 % u32_mod in
    let top = (s.cur_block_top + bytes) % s.vaddr_mod in
    if pages == 0
    then (none, s)
    else if ltb top s.heap_end
    then (
      (if s.cur_block_top == 0 then vm_alloc pages else some s.cur_block_top),
      record s { cur_block_top = top },
    )
    else (vm_alloc pages, s)

abbrev pub pages_for : ℕ → ℕ
pages_for min_sz = (min_sz + 8 + 4096 + (u32_mod - 1)) % u32_mod / 4096

unfoldable pub extend_heap : (ℕ → Option ℕ) → ℕ → Heap → Option ℕ × Heap
extend_heap vm_alloc min_sz s =
    let chunk = pages_for min_sz * 4096 % u32_mod in
    let (addr, s') = kblk_raw vm_alloc (pages_for min_sz) s in
    elim addr [
      | none ↦ (none, s')
      | some a ↦ (
        some a,
        set_hdr a (sub32 chunk 8) false (record s' { hdr = put s'.hdr (a + chunk - 8) 1 }),
      )
    ]

unfoldable pub coalesce_right : ℕ → Heap → Heap
coalesce_right b s =
    let next = b + blk_sz s b in
    if blk_is_alloc s next
    then s
    else set_hdr b (add32 (blk_sz s b) (blk_sz s next)) false (fl_remove next s)

abbrev pub need_for : ℕ → ℕ → ℕ
need_for min_blk size =
    let need = align8 (add32 size 8) in if ltb need min_blk then min_blk else need

-- The split, and the count of bytes in use.
unfoldable pub carve : ℕ → ℕ → Heap → Heap
carve b need s =
    let rem = sub32 (blk_sz s b) need in
    if leb s.min_blk rem
    then fl_insert (b + need) (set_hdr (b + need) rem false (set_hdr b need true s))
    else set_hdr b (blk_sz s b) true s

unfoldable pub charge : ℕ → Heap → Heap
charge b s =
    let quota = add32 s.quota (blk_sz s b) in
    record s { quota = quota; quota_high = if ltb s.quota_high quota then quota else s.quota_high }

abbrev pub give_out : ℕ → ℕ → Heap → Option ℕ × Heap
give_out b need s = (some (b + 8), charge b (carve b need s))

-- `malloc`. `others` is what other tasks do to the heap while the lock is not held.
unfoldable pub malloc : (Heap → Heap) → (ℕ → Option ℕ) → ℕ → Heap → Option ℕ × Heap
malloc others vm_alloc size s =
    let need = need_for s.min_blk size in
    if size == 0 then (none, s) else elim (find_free need s) [
      | some (b, s') ↦ give_out b need s'
      | none ↦
          let (addr, s') = extend_heap vm_alloc need (others s) in
          elim addr [ none ↦ (none, s') | some b ↦ give_out b need s' ]
    ]

unfoldable pub free : Option ℕ → Heap → Heap
free none s = s
free (some p) s =
    let b = p - 8 in
    let sz = blk_sz s b in
    let s' = set_hdr b sz false (record s { quota = sub32 s.quota sz }) in
    fl_insert b (coalesce_right b s')

unfoldable pub kmalloc_init : Heap → Heap
kmalloc_init s = record s { bins = λ k. []; bitmap = λ i. 0 }
